-- ===== src/Online/Machine/Tests.antt =====
-- The controller under a sample plan.
use lirvena.Base.{ℕ, ◌≡◌, ◌↔◌, ◌⊎◌, refl, true, false, ◌||◌, none, some, List, [], ◌∷◌, arith, ok}
use lirvena.Base.Words.{u64_max}
use lirvena.Online.Model.{OnlineGeneration, PlanActionId, synchronizing, online}
use lirvena.Online.Plan.{OnlinePlan, OnlinePlanSpec, clamp_heartbeat, spec_of, ids}
use lirvena.Online.Plan
use lirvena.Online.Plan.Accepts.{IsPlan, Distinct, new_iff}
use lirvena.Online.Machine.{
  OnlineMachine, new, poll_due, next_due_ms, heartbeat_completed, require_state, checked_due, start,
  clear_schedule, initial_sync_succeeded, delayed_due, security_bootstrap_succeeded,
  status_confirmation_completed, enter_online, owned_by, generation_of,
}
use lirvena.Online.Machine.Invariant.{IsMachine, new-IsMachine}
use lirvena.Online.Machine.Fencing.{
  initial_synced, heartbeat_done, report, report-Foreign, report_refused, with_interval, Overflows,
}
use lirvena.Online.Machine.Schedule.{some_directive, reached, poll_due-next_due_ms}
use lirvena.Online.Machine.Lifecycle.{
  Call, starts, reports, polls, step, run, run-IsMachine, Follows, step-Follows, Owner, Started,
  run-Owner-Started,
}
use lirvena.Online.Machine.BringUp.{bring_up, bring_up_online}
use lirvena.Online.Plan.{clamp_delayed_sync}

abbrev id : ℕ → PlanActionId
id n = record { as_bytes = n ∷ [] }

abbrev sample_plan : OnlinePlan
sample_plan = record {
  initial_sync = id 1;
  delayed_sync = id 2;
  security_bootstrap = id 3;
  status_confirmation = some (id 4);
  business_heartbeat = id 5;
  initial_heartbeat_ms = 2000;
  minimum_heartbeat_ms = 1000;
  maximum_heartbeat_ms = 60000;
  minimum_delayed_sync_ms = 1000;
  maximum_delayed_sync_ms = 5000;
}

sample_plan-IsPlan : IsPlan sample_plan
sample_plan-IsPlan = record {
  heartbeat_floor = omega arith;
  heartbeat_from = omega arith;
  heartbeat_to = omega arith;
  heartbeat_ceiling = omega arith;
  delayed_floor = omega arith;
  delayed_range = omega arith;
  delayed_ceiling = omega arith;
}

new_iff_example : (Plan.new (spec_of sample_plan) ≡ ok sample_plan) ↔ (
    (spec_of sample_plan ≡ spec_of sample_plan)
    × IsPlan sample_plan
    × Distinct [] (ids sample_plan))
new_iff_example = new_iff (spec_of sample_plan) sample_plan

abbrev first : OnlineGeneration
first = record { get = 1 }

abbrev second : OnlineGeneration
second = record { get = 2 }

abbrev going_online : List Call
going_online = bring_up true first 100 (some 9000) 150 200

run-IsMachine_example : IsMachine (run (starts first ∷ polls 5 ∷ []) (new sample_plan))
run-IsMachine_example = run-IsMachine (starts first ∷ polls 5 ∷ []) sample_plan sample_plan-IsPlan

abbrev syncing : OnlineMachine
syncing = record {
  plan = sample_plan;
  state = synchronizing first;
  heartbeat_interval_ms = 2000;
  next_heartbeat_ms = none;
  next_delayed_sync_ms = none;
  heartbeat_in_flight = false;
  delayed_sync_in_flight = false;
}

second_is_foreign : owned_by second (generation_of syncing.state) ≡ false
second_is_foreign = refl

report-Foreign_example : report second (initial_synced 7 none) syncing ≡ (true, syncing)
report-Foreign_example = report-Foreign second (initial_synced 7 none) syncing second_is_foreign

abbrev beating : OnlineMachine
beating = record syncing {
  state = online first;
  next_heartbeat_ms = some 50;
  heartbeat_in_flight = true;
}

abbrev waiting : OnlineMachine
waiting = record beating { heartbeat_in_flight = false }

-- The next deadline does not fit a `u64`: the call is refused, and the interval is stored.
beating_refused : (report first (heartbeat_done u64_max (some 3000)) beating).0 ≡ true
unfolding report heartbeat_completed require_state checked_due clamp_heartbeat
beating_refused = refl

report_refused_example :
    let n = (report first (heartbeat_done u64_max (some 3000)) beating).1 in
    (n ≡ with_interval n.heartbeat_interval_ms beating)
    × ((n ≡ beating) ⊎ Overflows first (heartbeat_done u64_max (some 3000)) beating n)
report_refused_example =
    report_refused first (heartbeat_done u64_max (some 3000)) beating beating_refused

poll_due-next_due_ms_example :
    (some_directive (poll_due 60 beating).0.0 || some_directive (poll_due 60 beating).0.1)
    ≡ reached 60 (next_due_ms beating)
poll_due-next_due_ms_example = poll_due-next_due_ms 60 beating

step-Follows_example : Follows syncing (step (reports first (initial_synced 7 none)) syncing)
step-Follows_example = step-Follows (reports first (initial_synced 7 none)) syncing

went_online : Owner first (run going_online (new sample_plan)).state
unfolding new run step start clear_schedule report initial_sync_succeeded delayed_due
    security_bootstrap_succeeded status_confirmation_completed enter_online checked_due
    require_state clamp_delayed_sync
went_online = refl

run-Owner-Started_example : Started first going_online
run-Owner-Started_example = run-Owner-Started first going_online sample_plan went_online

bring_up_online_example :
    let n = run going_online (new sample_plan) in
    (n.state ≡ online first)
    × (n.next_heartbeat_ms ≡ some 2200)
    × (n.next_delayed_sync_ms ≡ some 5100)
    × (n.heartbeat_in_flight ≡ false)
    × (n.delayed_sync_in_flight ≡ false)
unfolding new
bring_up_online_example =
    bring_up_online first 100 (some 9000) 150 200 (new sample_plan)
      (new-IsMachine sample_plan sample_plan-IsPlan) refl (omega arith) (omega arith) (omega arith)
