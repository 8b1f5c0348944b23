-- ===== src/Account/Grant/Tests.antt =====
-- Plans for three accounts.
use lirvena.Base.{ℕ, ◌≤◌, ◌≡◌, refl, true, some, List, [], ◌∷◌, ok, err, length}
use lirvena.Account.Grant.{
  AccountGrantMode, public_mode, require_grant, allow_public_fallback, AccountGrantRequest,
  public_only, bounded_full, public_realm, full_realm, GrantPlan, full_quota_exceeded, contains,
  collect_into, assigned_realm, protective_offline_on_revocation, plan_public_only, plan_with_full,
  plan_available, plan_account_grants,
}
use lirvena.Account.Grant.Planning.{plan_assigns, plan_within_quota}

abbrev request : ℕ → AccountGrantMode → AccountGrantRequest
request id mode = record { local_id = id; mode = mode }

abbrev three : List AccountGrantRequest
three = request 9 require_grant ∷ request 3 public_mode ∷ request 5 allow_public_fallback ∷ []

abbrev two : List AccountGrantRequest
two = request 3 public_mode ∷ request 5 allow_public_fallback ∷ []

abbrev three_plan : GrantPlan
three_plan = record {
  assignments = (3, public_realm) ∷ (5, full_realm) ∷ (9, full_realm) ∷ [];
  public_fallbacks = [];
}

abbrev two_plan : GrantPlan
two_plan = record {
  assignments = (3, public_realm) ∷ (5, public_realm) ∷ [];
  public_fallbacks = 5 ∷ [];
}

three_planned : plan_account_grants three (bounded_full 2) ≡ ok three_plan
unfolding plan_account_grants collect_into plan_available plan_with_full
three_planned = refl

two_planned : plan_account_grants two public_only ≡ ok two_plan
unfolding plan_account_grants collect_into plan_available plan_public_only
two_planned = refl

three_refused :
    plan_account_grants three (bounded_full 1) ≡ err (full_quota_exceeded 1 (5 ∷ 9 ∷ []))
unfolding plan_account_grants collect_into plan_available
three_refused = refl

plan_assigns_example : assigned_realm 9 three_plan ≡ some full_realm
plan_assigns_example = plan_assigns three (bounded_full 2) three_plan 9 three_planned

plan_within_quota_example :
    (length (protective_offline_on_revocation three_plan) ≤ 2)
    × (contains 9 (protective_offline_on_revocation three_plan) ≡ true)
plan_within_quota_example = plan_within_quota three three_plan 2 9 three_planned
