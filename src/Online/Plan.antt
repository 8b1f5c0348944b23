-- ===== src/Online/Plan.antt =====
-- crates/qq-domain/src/online/plan.rs: the authenticated plan and its validation.
pub mod Accepts
use lirvena.Base.{
  ℕ, ◌*◌, Bool, true, false, ◌&&◌, ◌||◌, Option, none, some, List, [], ◌∷◌, ◌++◌, ltb,
  if◌then◌else◌, any, Result, ok, err, and_then,
}
use lirvena.Online.Model.{PlanActionId, OnlinePlanError, online_plan_error, same_id}

abbrev pub min_compiled_interval_ms : ℕ
min_compiled_interval_ms = 1000

abbrev pub max_compiled_interval_ms : ℕ
max_compiled_interval_ms = 24 * 60 * 60 * 1000

pub record OnlinePlan : Type 0 where
  pub initial_sync : PlanActionId
  pub delayed_sync : PlanActionId
  pub security_bootstrap : PlanActionId
  pub status_confirmation : Option PlanActionId
  pub business_heartbeat : PlanActionId
  pub initial_heartbeat_ms : ℕ
  pub minimum_heartbeat_ms : ℕ
  pub maximum_heartbeat_ms : ℕ
  pub minimum_delayed_sync_ms : ℕ
  pub maximum_delayed_sync_ms : ℕ

-- `OnlinePlanSpec` has the plan's fields.
pub record OnlinePlanSpec : Type 0 where
  pub initial_sync : PlanActionId
  pub delayed_sync : PlanActionId
  pub security_bootstrap : PlanActionId
  pub status_confirmation : Option PlanActionId
  pub business_heartbeat : PlanActionId
  pub initial_heartbeat_ms : ℕ
  pub minimum_heartbeat_ms : ℕ
  pub maximum_heartbeat_ms : ℕ
  pub minimum_delayed_sync_ms : ℕ
  pub maximum_delayed_sync_ms : ℕ

-- `u64::clamp`.
abbrev pub clamp : ℕ → ℕ → ℕ → ℕ
clamp lo hi x = if ltb x lo then lo else if ltb hi x then hi else x

unfoldable pub clamp_heartbeat : OnlinePlan → ℕ → ℕ
clamp_heartbeat plan requested_ms =
    clamp plan.minimum_heartbeat_ms plan.maximum_heartbeat_ms requested_ms

unfoldable pub clamp_delayed_sync : OnlinePlan → ℕ → ℕ
clamp_delayed_sync plan requested_ms =
    clamp plan.minimum_delayed_sync_ms plan.maximum_delayed_sync_ms requested_ms

-- `id.is_some() && ids[..index].contains(id)`
pub repeats : Option PlanActionId → List (Option PlanActionId) → Bool
repeats none earlier = false
repeats (some id) [] = false
repeats (some id) (none ∷ earlier) = repeats (some id) earlier
repeats (some id) (some other ∷ earlier) = same_id other id || repeats (some id) earlier

-- The loop over the identifiers: `earlier` holds those before the current one.
pub has_repeat : List (Option PlanActionId) → List (Option PlanActionId) → Bool
has_repeat earlier [] = false
has_repeat earlier (id ∷ ids) = repeats id earlier || has_repeat (earlier ++ (id ∷ [])) ids

unfoldable pub validate_range : ℕ → ℕ → ℕ → Result (Unit {0}) OnlinePlanError
validate_range minimum value maximum =
    if ltb minimum min_compiled_interval_ms
      || ltb max_compiled_interval_ms maximum
      || ltb value minimum
      || ltb maximum value
    then err online_plan_error
    else ok tt

pub ids : OnlinePlan → List (Option PlanActionId)
ids plan =
    some plan.initial_sync
    ∷ some plan.delayed_sync
    ∷ some plan.security_bootstrap
    ∷ plan.status_confirmation
    ∷ some plan.business_heartbeat
    ∷ []

pub validate : OnlinePlan → Result (Unit {0}) OnlinePlanError
validate plan =
    if has_repeat [] (ids plan)
    then err online_plan_error
    else and_then
        (validate_range plan.minimum_heartbeat_ms plan.initial_heartbeat_ms
          plan.maximum_heartbeat_ms)
        λ _.
          validate_range plan.minimum_delayed_sync_ms plan.minimum_delayed_sync_ms
            plan.maximum_delayed_sync_ms

-- The fields of a specification, as a plan.
from_spec : OnlinePlanSpec → OnlinePlan
from_spec spec = record {
  initial_sync = spec.initial_sync;
  delayed_sync = spec.delayed_sync;
  security_bootstrap = spec.security_bootstrap;
  status_confirmation = spec.status_confirmation;
  business_heartbeat = spec.business_heartbeat;
  initial_heartbeat_ms = spec.initial_heartbeat_ms;
  minimum_heartbeat_ms = spec.minimum_heartbeat_ms;
  maximum_heartbeat_ms = spec.maximum_heartbeat_ms;
  minimum_delayed_sync_ms = spec.minimum_delayed_sync_ms;
  maximum_delayed_sync_ms = spec.maximum_delayed_sync_ms;
}

pub new : OnlinePlanSpec → Result OnlinePlan OnlinePlanError
new spec = let plan = from_spec spec in and_then (validate plan) λ _. ok plan

-- `OnlinePlan::spec`
pub spec_of : OnlinePlan → OnlinePlanSpec
spec_of plan = record {
  initial_sync = plan.initial_sync;
  delayed_sync = plan.delayed_sync;
  security_bootstrap = plan.security_bootstrap;
  status_confirmation = plan.status_confirmation;
  business_heartbeat = plan.business_heartbeat;
  initial_heartbeat_ms = plan.initial_heartbeat_ms;
  minimum_heartbeat_ms = plan.minimum_heartbeat_ms;
  maximum_heartbeat_ms = plan.maximum_heartbeat_ms;
  minimum_delayed_sync_ms = plan.minimum_delayed_sync_ms;
  maximum_delayed_sync_ms = plan.maximum_delayed_sync_ms;
}
