-- ===== src/Online/Machine/BringUp.antt =====
-- The actions of a generation, succeeding in turn, bring a machine online.
use lirvena.Base.{
  ℕ, ◌+◌, ◌≤◌, ◌≡◌, refl, ap, ◌∙◌, Bool, true, false, Option, none, some, List, [], ◌∷◌, arith, ok,
}
use lirvena.Base.Words.{u64_max}
use lirvena.Online.Model.{OnlineGeneration, synchronizing, bootstrapping, confirming, online}
use lirvena.Online.Plan.{OnlinePlan, max_compiled_interval_ms, clamp_delayed_sync}
use lirvena.Online.Plan.Accepts.{IsPlan}
use lirvena.Online.Machine.{
  OnlineMachine, start, at_rest, clear_schedule, checked_due, delayed_due, require_state,
  initial_sync_succeeded, enter_online, security_bootstrap_succeeded, status_confirmation_completed,
}
use lirvena.Online.Machine.Invariant.{IsMachine}
use lirvena.Online.Machine.Fencing.{initial_synced, bootstrapped, confirmed, report, within}
use lirvena.Online.Machine.Lifecycle.{Call, starts, reports, step, run, has_confirmation}

-- The calls that bring a machine online: the answers to the initial sync, which may ask for a delayed
-- sync, to the bootstrap and to the confirmation arrive at three times.
abbrev pub bring_up : Bool → OnlineGeneration → ℕ → Option ℕ → ℕ → ℕ → List Call
bring_up true g synced_at delay bootstrapped_at confirmed_at =
    starts g
    ∷ reports g (initial_synced synced_at delay)
    ∷ reports g (bootstrapped bootstrapped_at)
    ∷ reports g (confirmed confirmed_at)
    ∷ []
bring_up false g synced_at delay bootstrapped_at confirmed_at =
    starts g
    ∷ reports g (initial_synced synced_at delay)
    ∷ reports g (bootstrapped bootstrapped_at)
    ∷ []

-- The time of the last answer.
abbrev pub online_at : Bool → ℕ → ℕ → ℕ
online_at true bootstrapped_at confirmed_at = confirmed_at
online_at false bootstrapped_at confirmed_at = bootstrapped_at

abbrev pub synced_again_at : OnlinePlan → ℕ → Option ℕ → Option ℕ
synced_again_at plan synced_at none = none
synced_again_at plan synced_at (some delay) =
    some (synced_at + within plan.minimum_delayed_sync_ms plan.maximum_delayed_sync_ms delay)

-- An instant that is not near the overflow of the clock.
abbrev IsEarly : ℕ → Type 0
IsEarly at = at + max_compiled_interval_ms ≤ u64_max

delayed_due_lem :
    (plan : OnlinePlan) (at : ℕ) (delay : Option ℕ)
    → IsPlan plan
    → IsEarly at
    → delayed_due plan at delay ≡ ok (synced_again_at plan at delay)
unfolding delayed_due checked_due clamp_delayed_sync
delayed_due_lem plan at none p e = refl
delayed_due_lem plan at (some delay) p e = ground (arith, p)

module _ (g : OnlineGeneration) (m : OnlineMachine) where
  abbrev begun : OnlineMachine
  begun = record (clear_schedule m) { state = synchronizing g }

  start_begun : at_rest m.state ≡ true → step (starts g) m ≡ begun
  unfolding step start clear_schedule
  start_begun r = ground arith

  initial_sync_lem :
      (at : ℕ) (delay : Option ℕ)
      → m.state ≡ synchronizing g
      → IsPlan m.plan
      → IsEarly at
      → step (reports g (initial_synced at delay)) m ≡ record m {
        next_delayed_sync_ms = synced_again_at m.plan at delay;
        state = bootstrapping g;
      }
  unfolding step report initial_sync_succeeded require_state
  initial_sync_lem at delay s p e = ground (arith, delayed_due_lem m.plan at delay p e)

  -- The machine that has entered the state in which it is online.
  abbrev entered : ℕ → OnlineMachine
  entered at = record m {
    next_heartbeat_ms = some (at + m.plan.initial_heartbeat_ms);
    state = online g;
  }

  due_lem :
      (at : ℕ)
      → IsPlan m.plan
      → IsEarly at
      → checked_due at m.plan.initial_heartbeat_ms ≡ ok (at + m.plan.initial_heartbeat_ms)
  unfolding checked_due
  due_lem at p e = ground (arith, p)

  bootstrap_asks :
      (at : ℕ)
      → m.state ≡ bootstrapping g
      → has_confirmation m.plan ≡ true
      → step (reports g (bootstrapped at)) m ≡ record m { state = confirming g }
  unfolding step report security_bootstrap_succeeded require_state
  bootstrap_asks at s c = ground arith

  bootstrap_enters :
      (at : ℕ)
      → m.state ≡ bootstrapping g
      → has_confirmation m.plan ≡ false
      → IsPlan m.plan
      → IsEarly at
      → step (reports g (bootstrapped at)) m ≡ entered at
  unfolding step report security_bootstrap_succeeded require_state enter_online
  bootstrap_enters at s c p e = ground (arith, due_lem at p e)

  confirmation_enters :
      (at : ℕ)
      → m.state ≡ confirming g
      → IsPlan m.plan
      → IsEarly at
      → step (reports g (confirmed at)) m ≡ entered at
  unfolding step report status_confirmation_completed require_state enter_online
  confirmation_enters at s p e = ground (arith, due_lem at p e)

module _ (g : OnlineGeneration) (synced_at : ℕ) (delay : Option ℕ)
    (bootstrapped_at confirmed_at : ℕ) (m : OnlineMachine) where
  abbrev synced : OnlineMachine
  synced = record (begun g m) {
    next_delayed_sync_ms = synced_again_at m.plan synced_at delay;
    state = bootstrapping g;
  }

  run_brought :
      (confirms : Bool)
      → has_confirmation m.plan ≡ confirms
      → IsPlan m.plan
      → at_rest m.state ≡ true
      → IsEarly synced_at
      → IsEarly bootstrapped_at
      → IsEarly confirmed_at
      → run (bring_up confirms g synced_at delay bootstrapped_at confirmed_at) m
        ≡ entered g synced (online_at confirms bootstrapped_at confirmed_at)
  unfolding run clear_schedule
  run_brought true c p r s b e =
      let asks : OnlineMachine = record synced { state = confirming g } in
      ap
        (λ x.
          run
            (reports g (initial_synced synced_at delay)
              ∷ reports g (bootstrapped bootstrapped_at)
              ∷ reports g (confirmed confirmed_at)
              ∷ [])
            x)
        (start_begun g m r)
      ∙ ap
          (λ x.
            run (reports g (bootstrapped bootstrapped_at) ∷ reports g (confirmed confirmed_at) ∷ [])
              x)
          (initial_sync_lem g (begun g m) synced_at delay refl p s)
      ∙ ap (λ x. run (reports g (confirmed confirmed_at) ∷ []) x)
          (bootstrap_asks g synced bootstrapped_at refl c)
      ∙ confirmation_enters g asks confirmed_at refl p e
  run_brought false c p r s b e =
      ap
        (λ x.
          run
            (reports g (initial_synced synced_at delay)
              ∷ reports g (bootstrapped bootstrapped_at)
              ∷ [])
            x)
        (start_begun g m r)
      ∙ ap (λ x. run (reports g (bootstrapped bootstrapped_at) ∷ []) x)
          (initial_sync_lem g (begun g m) synced_at delay refl p s)
      ∙ bootstrap_enters g synced bootstrapped_at refl c p b

-- A machine at rest that satisfies the invariant is brought online by its generation's actions
-- succeeding in turn, at whatever times, if those are not near the overflow of the clock. The first
-- heartbeat is due the plan's initial interval after the last answer. A delayed sync is due if the
-- initial sync asked for one, after that delay brought into the plan's range. No action is in flight.
pub bring_up_online :
    (g : OnlineGeneration) (synced_at : ℕ) (delay : Option ℕ) (bootstrapped_at confirmed_at : ℕ)
    (m : OnlineMachine)
    → IsMachine m
    → at_rest m.state ≡ true
    → synced_at + max_compiled_interval_ms ≤ u64_max
    → bootstrapped_at + max_compiled_interval_ms ≤ u64_max
    → confirmed_at + max_compiled_interval_ms ≤ u64_max
    → let confirms = has_confirmation m.plan in
      let n = run (bring_up confirms g synced_at delay bootstrapped_at confirmed_at) m in
      (n.state ≡ online g)
      × (n.next_heartbeat_ms
          ≡ some (online_at confirms bootstrapped_at confirmed_at + m.plan.initial_heartbeat_ms))
      × (n.next_delayed_sync_ms ≡ synced_again_at m.plan synced_at delay)
      × (n.heartbeat_in_flight ≡ false)
      × (n.delayed_sync_in_flight ≡ false)
unfolding clear_schedule
bring_up_online g synced_at delay bootstrapped_at confirmed_at m h r c d e =
    rw
      (run_brought g synced_at delay bootstrapped_at confirmed_at m (has_confirmation m.plan) refl
        h.plan_valid r c d e)
      (refl, refl, refl, refl, refl)
