-- ===== src/Online/Machine/Invariant.antt =====
-- What holds of the controller between two calls, whatever the calls and their outcomes.
use lirvena.Base.{ℕ, ◌≤◌, ◌≡◌, Bool, true, false, ◌&&◌, not, Option, none, some, arith}
use lirvena.Online.Model.{
  OnlineGeneration, OnlineState, stopped, synchronizing, bootstrapping, confirming, online,
  protective_offline,
}
use lirvena.Online.Plan.{OnlinePlan}
use lirvena.Online.Plan.Accepts.{IsPlan, clamp_heartbeat_lem}
use lirvena.Online.Machine.{
  OnlineMachine, new, clear_schedule, start, checked_due, require_state, initial_sync_succeeded,
  enter_online, security_bootstrap_succeeded, status_confirmation_completed, poll_heartbeat,
  poll_delayed, poll_due, heartbeat_completed, delayed_sync_completed, required_action_failed, stop,
}

abbrev pub is_some : Option ℕ → Bool
is_some none = false
is_some (some x) = true

abbrev pub Quiet : OnlineMachine → Type 0
Quiet m =
    (m.next_heartbeat_ms ≡ none)
    × (m.heartbeat_in_flight ≡ false)
    × (m.delayed_sync_in_flight ≡ false)

-- The schedule that belongs to each state.
abbrev pub Scheduled : OnlineState → OnlineMachine → Type 0
Scheduled stopped m = Quiet m × (m.next_delayed_sync_ms ≡ none)
Scheduled (synchronizing g) m = Quiet m × (m.next_delayed_sync_ms ≡ none)
Scheduled (bootstrapping g) m = Quiet m
Scheduled (confirming g) m = Quiet m
Scheduled (online g) m =
    (is_some m.next_heartbeat_ms ≡ true)
    × ((m.delayed_sync_in_flight && not (is_some m.next_delayed_sync_ms)) ≡ false)
Scheduled (protective_offline g) m = Quiet m × (m.next_delayed_sync_ms ≡ none)

pub record IsMachine (m : OnlineMachine) : Type 0 where
  pub plan_valid : IsPlan m.plan
  pub interval_floor : m.plan.minimum_heartbeat_ms ≤ m.heartbeat_interval_ms
  pub interval_ceiling : m.heartbeat_interval_ms ≤ m.plan.maximum_heartbeat_ms
  pub scheduled : Scheduled m.state m

pub new-IsMachine : (plan : OnlinePlan) → IsPlan plan → IsMachine (new plan)
unfolding new
new-IsMachine plan h = ground (arith, h)

pub stop-IsMachine : (m : OnlineMachine) → IsMachine m → IsMachine (stop m)
unfolding stop clear_schedule
stop-IsMachine m h = ground (arith, h)

pub start-IsMachine :
    (g : OnlineGeneration) (m : OnlineMachine) → IsMachine m → IsMachine (start g m).1
unfolding start clear_schedule
start-IsMachine g m h = ground (arith, h)

pub initial_sync-IsMachine :
    (g : OnlineGeneration) (now : ℕ) (delay : Option ℕ) (m : OnlineMachine)
    → IsMachine m
    → IsMachine (initial_sync_succeeded g now delay m).1
unfolding initial_sync_succeeded require_state
initial_sync-IsMachine g now delay m h = ground (arith, h)

enter_online-IsMachine :
    (g : OnlineGeneration) (now : ℕ) (m : OnlineMachine)
    → Quiet m
    → IsMachine m
    → IsMachine (enter_online g now m).1
unfolding enter_online checked_due
enter_online-IsMachine g now m q h = ground (arith, h)

pub bootstrap-IsMachine :
    (g : OnlineGeneration) (now : ℕ) (m : OnlineMachine)
    → IsMachine m
    → IsMachine (security_bootstrap_succeeded g now m).1
unfolding security_bootstrap_succeeded require_state
bootstrap-IsMachine g now m h = ground (arith, h, enter_online-IsMachine g now m)

pub confirmation-IsMachine :
    (g : OnlineGeneration) (now : ℕ) (m : OnlineMachine)
    → IsMachine m
    → IsMachine (status_confirmation_completed g now m).1
unfolding status_confirmation_completed require_state
confirmation-IsMachine g now m h = ground (arith, h, enter_online-IsMachine g now m)

pub poll-IsMachine : (now : ℕ) (m : OnlineMachine) → IsMachine m → IsMachine (poll_due now m).1
unfolding poll_due poll_heartbeat poll_delayed
poll-IsMachine now m h = ground (arith, h)

pub heartbeat-IsMachine :
    (g : OnlineGeneration) (now : ℕ) (interval : Option ℕ) (m : OnlineMachine)
    → IsMachine m
    → IsMachine (heartbeat_completed g now interval m).1
unfolding heartbeat_completed require_state checked_due
heartbeat-IsMachine g now none m h = ground (arith, h)
heartbeat-IsMachine g now (some x) m h = ground (arith, h, clamp_heartbeat_lem m.plan x)

pub delayed-IsMachine :
    (g : OnlineGeneration) (now : ℕ) (delay : Option ℕ) (m : OnlineMachine)
    → IsMachine m
    → IsMachine (delayed_sync_completed g now delay m).1
unfolding delayed_sync_completed require_state
delayed-IsMachine g now delay m h = ground (arith, h)

pub failed-IsMachine :
    (g : OnlineGeneration) (m : OnlineMachine)
    → IsMachine m
    → IsMachine (required_action_failed g m).1
unfolding required_action_failed clear_schedule
failed-IsMachine g m h = ground (arith, h)
