-- ===== src/Online/Machine.antt =====
-- crates/qq-domain/src/online/machine.rs: the controller. Time and generations are arguments.
pub mod Invariant
pub mod Fencing
pub mod Schedule
pub mod Lifecycle
pub mod BringUp
mod Tests
use lirvena.Base.{
  ℕ, ◌+◌, Bool, true, false, not, ◌&&◌, ◌||◌, Option, none, some, ltb, leb, ◌==◌, if◌then◌else◌,
  Result, ok, err, and_then, ok_or, Method, run_on, min,
}
use lirvena.Base.Words.{checked_add}
use lirvena.Online.Model.{
  OnlineAction, initial_sync, delayed_sync, security_bootstrap, status_confirmation,
  business_heartbeat, OnlineGeneration, OnlineState, stopped, synchronizing, bootstrapping,
  confirming, online, protective_offline, OnlineDirective, dispatch, entered_online, went_offline,
  OnlineTransitionError, online_transition_error, same_state,
}
use lirvena.Online.Plan.{OnlinePlan, clamp_heartbeat, clamp_delayed_sync}

pub record OnlineMachine : Type 0 where
  pub plan : OnlinePlan
  pub state : OnlineState
  pub heartbeat_interval_ms : ℕ
  pub next_heartbeat_ms : Option ℕ
  pub next_delayed_sync_ms : Option ℕ
  pub heartbeat_in_flight : Bool
  pub delayed_sync_in_flight : Bool

abbrev pub Operation : Type 0 → Type 0
Operation = Method OnlineMachine OnlineTransitionError

unfoldable pub new : OnlinePlan → OnlineMachine
new plan = record {
  plan = plan;
  state = stopped;
  heartbeat_interval_ms = plan.initial_heartbeat_ms;
  next_heartbeat_ms = none;
  next_delayed_sync_ms = none;
  heartbeat_in_flight = false;
  delayed_sync_in_flight = false;
}

abbrev earlier : Option ℕ → Option ℕ → Option ℕ
earlier none b = b
earlier (some a) none = some a
earlier (some a) (some b) = some (min a b)

abbrev is_online : OnlineState → Bool
is_online (online g) = true
is_online _ = false

pub next_due_ms : OnlineMachine → Option ℕ
next_due_ms m =
    if not (is_online m.state)
    then none
    else earlier (if m.heartbeat_in_flight then none else m.next_heartbeat_ms)
        (if m.delayed_sync_in_flight then none else m.next_delayed_sync_ms)

pub clear_schedule : OnlineMachine → OnlineMachine
clear_schedule m = record m {
  next_heartbeat_ms = none;
  next_delayed_sync_ms = none;
  heartbeat_interval_ms = m.plan.initial_heartbeat_ms;
  heartbeat_in_flight = false;
  delayed_sync_in_flight = false;
}

abbrev at_rest : OnlineState → Bool
at_rest stopped = true
at_rest (protective_offline g) = true
at_rest _ = false

pub start : OnlineGeneration → Operation OnlineDirective
start generation m = if not (at_rest m.state) then (err online_transition_error, m) else (
  ok (dispatch generation (initial_sync m.plan.initial_sync)),
  record (clear_schedule m) { state = synchronizing generation },
)

pub checked_due : ℕ → ℕ → Result ℕ OnlineTransitionError
checked_due now_ms delay_ms = ok_or (checked_add now_ms delay_ms) online_transition_error

-- `delayed_after_ms.map(…).transpose()`
pub delayed_due : OnlinePlan → ℕ → Option ℕ → Result (Option ℕ) OnlineTransitionError
delayed_due plan now_ms none = ok none
delayed_due plan now_ms (some delay) =
    and_then (checked_due now_ms (clamp_delayed_sync plan delay)) λ due. ok (some due)

pub require_state : OnlineState → OnlineMachine → Result (Unit {0}) OnlineTransitionError
require_state expected m =
    if same_state m.state expected then ok tt else err online_transition_error

pub initial_sync_succeeded : OnlineGeneration → ℕ → Option ℕ → Operation OnlineDirective
initial_sync_succeeded generation now_ms delayed_after_ms m =
    run_on (require_state (synchronizing generation) m, m)
      λ _ m.
        run_on (delayed_due m.plan now_ms delayed_after_ms, m)
          λ due m. (
            ok (dispatch generation (security_bootstrap m.plan.security_bootstrap)),
            record m { next_delayed_sync_ms = due; state = bootstrapping generation },
          )

pub enter_online : OnlineGeneration → ℕ → Operation OnlineDirective
enter_online generation now_ms m =
    run_on (checked_due now_ms m.plan.initial_heartbeat_ms, m)
      λ due m. (
        ok (entered_online generation),
        record m { next_heartbeat_ms = some due; state = online generation },
      )

pub security_bootstrap_succeeded : OnlineGeneration → ℕ → Operation OnlineDirective
security_bootstrap_succeeded generation now_ms m =
    run_on (require_state (bootstrapping generation) m, m)
      λ _ m. elim m.plan.status_confirmation [
        | some action ↦ (
          ok (dispatch generation (status_confirmation action)),
          record m { state = confirming generation },
        )
        | none ↦ enter_online generation now_ms m
      ]

pub status_confirmation_completed : OnlineGeneration → ℕ → Operation OnlineDirective
status_confirmation_completed generation now_ms m =
    run_on (require_state (confirming generation) m, m) λ _ m. enter_online generation now_ms m

-- `is_some_and(|due| due <= now_ms)`
abbrev is_due : ℕ → Option ℕ → Bool
is_due now_ms none = false
is_due now_ms (some due) = leb due now_ms

-- The two halves of `poll_due`, for an online generation.
pub poll_heartbeat : OnlineGeneration → ℕ → OnlineMachine → Option OnlineDirective × OnlineMachine
poll_heartbeat generation now_ms m =
    if not m.heartbeat_in_flight && is_due now_ms m.next_heartbeat_ms
    then (
      some (dispatch generation (business_heartbeat m.plan.business_heartbeat)),
      record m { heartbeat_in_flight = true },
    )
    else (none, m)

pub poll_delayed : OnlineGeneration → ℕ → OnlineMachine → Option OnlineDirective × OnlineMachine
poll_delayed generation now_ms m =
    if not m.delayed_sync_in_flight && is_due now_ms m.next_delayed_sync_ms
    then (
      some (dispatch generation (delayed_sync m.plan.delayed_sync)),
      record m { delayed_sync_in_flight = true },
    )
    else (none, m)

abbrev online_generation : OnlineState → Option OnlineGeneration
online_generation (online g) = some g
online_generation _ = none

pub poll_due : ℕ → OnlineMachine → (Option OnlineDirective × Option OnlineDirective) × OnlineMachine
poll_due now_ms m = elim (online_generation m.state) [
  | none ↦ ((none, none), m)
  | some generation ↦
      let (heartbeat, m') = poll_heartbeat generation now_ms m in
      let (delayed, m'') = poll_delayed generation now_ms m' in ((heartbeat, delayed), m'')
]

abbrev heartbeat_interval : OnlineMachine → Option ℕ → ℕ
heartbeat_interval m none = m.heartbeat_interval_ms
heartbeat_interval m (some value) = clamp_heartbeat m.plan value

-- The interval is stored before the next deadline is computed.
pub heartbeat_completed : OnlineGeneration → ℕ → Option ℕ → Operation (Unit {0})
heartbeat_completed generation now_ms requested_interval_ms m =
    run_on (require_state (online generation) m, m)
      λ _ m.
        if not m.heartbeat_in_flight
        then (err online_transition_error, m)
        else let interval = heartbeat_interval m requested_interval_ms in
          run_on (checked_due now_ms interval, record m { heartbeat_interval_ms = interval })
            λ due m. (ok tt, record m { next_heartbeat_ms = some due; heartbeat_in_flight = false })

pub delayed_sync_completed : OnlineGeneration → ℕ → Option ℕ → Operation (Unit {0})
delayed_sync_completed generation now_ms delayed_after_ms m =
    run_on (require_state (online generation) m, m)
      λ _ m.
        if not m.delayed_sync_in_flight
        then (err online_transition_error, m)
        else run_on (delayed_due m.plan now_ms delayed_after_ms, m)
            λ due m.
              (ok tt, record m { next_delayed_sync_ms = due; delayed_sync_in_flight = false })

abbrev pub generation_of : OnlineState → Option OnlineGeneration
generation_of stopped = none
generation_of (synchronizing g) = some g
generation_of (bootstrapping g) = some g
generation_of (confirming g) = some g
generation_of (online g) = some g
generation_of (protective_offline g) = some g

-- `generation_of(self.state) != Some(generation)`
abbrev pub owned_by : OnlineGeneration → Option OnlineGeneration → Bool
owned_by generation none = false
owned_by generation (some g) = g.get == generation.get

pub required_action_failed : OnlineGeneration → Operation OnlineDirective
required_action_failed generation m =
    if not (owned_by generation (generation_of m.state)) || at_rest m.state
    then (err online_transition_error, m)
    else (
      ok (went_offline generation),
      record (clear_schedule m) { state = protective_offline generation },
    )

pub stop : OnlineMachine → OnlineMachine
stop m = record (clear_schedule m) { state = stopped }
