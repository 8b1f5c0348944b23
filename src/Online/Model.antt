-- ===== src/Online/Model.antt =====
-- crates/qq-domain/src/online/model.rs: actions, generations, states and directives.
use lirvena.Base.{ℕ, Bool, true, false, List, if◌then◌else◌, ◌==◌, replicate, Result, ok, err}
use lirvena.Base.Bytes.{same_bytes}

-- `[u8; 16]`, not all zeros.
pub record PlanActionId : Type 0 where
  pub as_bytes : List ℕ

pub data OnlinePlanError : Type 0 where
  online_plan_error : OnlinePlanError

pub data OnlineTransitionError : Type 0 where
  online_transition_error : OnlineTransitionError

unfoldable pub new_action_id : List ℕ → Result PlanActionId OnlinePlanError
new_action_id bytes =
    if same_bytes bytes (replicate 16 0)
    then err online_plan_error
    else ok (record { as_bytes = bytes })

pub data OnlineAction : Type 0 where
  initial_sync delayed_sync security_bootstrap status_confirmation business_heartbeat :
      PlanActionId → OnlineAction

-- A `u64`, not zero.
pub record OnlineGeneration : Type 0 where
  pub get : ℕ

unfoldable pub new_generation : ℕ → Result OnlineGeneration OnlineTransitionError
new_generation value =
    if value == 0 then err online_transition_error else ok (record { get = value })

pub data OnlineState : Type 0 where
  stopped : OnlineState
  synchronizing bootstrapping confirming online protective_offline : OnlineGeneration → OnlineState

pub data OnlineDirective : Type 0 where
  dispatch : OnlineGeneration → OnlineAction → OnlineDirective
  entered_online went_offline : OnlineGeneration → OnlineDirective

-- The derived equality of states.
abbrev pub same_state : OnlineState → OnlineState → Bool
same_state stopped stopped = true
same_state (synchronizing a) (synchronizing b) = a.get == b.get
same_state (bootstrapping a) (bootstrapping b) = a.get == b.get
same_state (confirming a) (confirming b) = a.get == b.get
same_state (online a) (online b) = a.get == b.get
same_state (protective_offline a) (protective_offline b) = a.get == b.get
same_state _ _ = false

-- The derived equality of action identifiers.
abbrev pub same_id : PlanActionId → PlanActionId → Bool
same_id a b = same_bytes a.as_bytes b.as_bytes
