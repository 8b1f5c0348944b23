-- ===== src/Account/Grant/Planning.antt =====
-- What the plan assigns, and which accounts a refused plan names.
use lirvena.Base.{
  ℕ, ◌≤◌, ◌<◌, ◌≡◌, inl, inr, refl, ap, Bool, false, List, [], arith, ok, err, length, Result-cases,
}
use lirvena.Account.Grant.{
  AccountId, AccountGrantMode, public_mode, require_grant, allow_public_fallback,
  AccountGrantRequest, GrantAvailability, public_only, bounded_full, unbounded_full, AssignedRealm,
  public_realm, full_realm, GrantPlan, GrantPlanError, duplicate_account, grant_required,
  full_quota_exceeded, BTreeMap, lookup, contains, keys_where, map_values, collect_unique,
  is_candidate, is_required, is_fallback, is_full, full_realm_of, assigned_realm,
  protective_offline_on_revocation, plan_public_only, plan_with_full, plan_available,
  plan_account_grants,
}
use lirvena.Account.Grant.Entries.{
  option_test, option_map, mode_of, NoRepeat, contains-keys_where, lookup-map_values,
  keys_where-map_values, collect-Distinct, lookup-collect, collect-NoRepeat, keys_where_same,
}

-- The realm of an account with this mode: Public while only Public is available, and otherwise for
-- the accounts that ask for it.
abbrev pub realm_under : GrantAvailability → AccountGrantMode → AssignedRealm
realm_under public_only mode = public_realm
realm_under (bounded_full max_accounts) public_mode = public_realm
realm_under (bounded_full max_accounts) require_grant = full_realm
realm_under (bounded_full max_accounts) allow_public_fallback = full_realm
realm_under unbounded_full public_mode = public_realm
realm_under unbounded_full require_grant = full_realm
realm_under unbounded_full allow_public_fallback = full_realm

-- The map of requests behind an outcome.
planned :
    (requests : List AccountGrantRequest) (availability : GrantAvailability) (plan : GrantPlan)
    → plan_account_grants requests availability ≡ ok plan
    → (n : BTreeMap AccountGrantMode) × (collect_unique requests ≡ ok n)
      × (plan_available availability n ≡ ok plan)
unfolding plan_account_grants
planned requests availability plan h = elim (Result-cases (collect_unique requests)) [
  | inr (e, bad) ↦ absurd (ground arith)
  | inl (n, done) ↦ (n, done, ground arith)
]

lookup_planned :
    (requests : List AccountGrantRequest) (n : BTreeMap AccountGrantMode) (id : AccountId)
    → collect_unique requests ≡ ok n
    → lookup id n ≡ mode_of id requests
lookup_planned requests n id h = lookup-collect id [] n requests h

contains_planned :
    (test : AccountGrantMode → Bool) (requests : List AccountGrantRequest)
    (n : BTreeMap AccountGrantMode) (id : AccountId)
    → collect_unique requests ≡ ok n
    → contains id (keys_where test n) ≡ option_test test (mode_of id requests)
contains_planned test requests n id h = rw (
  contains-keys_where test id n (collect-Distinct [] n requests tt h),
  lookup_planned requests n id h,
)

full_assigned :
    (availability : GrantAvailability) (n : BTreeMap AccountGrantMode)
    → ((mode : AccountGrantMode) → full_realm_of mode ≡ realm_under availability mode)
    → (plan_with_full n).assignments ≡ map_values (realm_under availability) n
unfolding plan_with_full
full_assigned availability n same = ap (λ f. map_values f n) (λ i mode. same mode i)

bounded_mode :
    (limit : ℕ) (mode : AccountGrantMode)
    → full_realm_of mode ≡ realm_under (bounded_full limit) mode
bounded_mode limit public_mode = refl
bounded_mode limit require_grant = refl
bounded_mode limit allow_public_fallback = refl

unbounded_mode : (mode : AccountGrantMode) → full_realm_of mode ≡ realm_under unbounded_full mode
unbounded_mode public_mode = refl
unbounded_mode require_grant = refl
unbounded_mode allow_public_fallback = refl

assignments_available :
    (availability : GrantAvailability) (n : BTreeMap AccountGrantMode) (plan : GrantPlan)
    → plan_available availability n ≡ ok plan
    → plan.assignments ≡ map_values (realm_under availability) n
unfolding plan_available plan_public_only
assignments_available public_only n plan h = ground arith
assignments_available (bounded_full limit) n plan h =
    ground (arith, full_assigned (bounded_full limit) n (bounded_mode limit))
assignments_available unbounded_full n plan h =
    ground (arith, full_assigned unbounded_full n unbounded_mode)

-- A plan assigns every configured account, and no other, the realm of its mode: Public for all
-- while only Public is available, and otherwise Full for every account that does not ask for Public.
pub plan_assigns :
    (requests : List AccountGrantRequest) (availability : GrantAvailability) (plan : GrantPlan)
    (id : AccountId)
    → plan_account_grants requests availability ≡ ok plan
    → assigned_realm id plan ≡ option_map (realm_under availability) (mode_of id requests)
unfolding assigned_realm
plan_assigns requests availability plan id h =
    let (n, collected, made) = planned requests availability plan h in
    rw (
      assignments_available availability n plan made,
      lookup-map_values (realm_under availability) id n,
      lookup_planned requests n id collected,
    )

none_required :
    (n : BTreeMap AccountGrantMode) (plan : GrantPlan)
    → plan_available public_only n ≡ ok plan
    → (keys_where is_required n ≡ []) × (plan.public_fallbacks ≡ keys_where is_fallback n)
unfolding plan_available plan_public_only
none_required n plan h = ground arith

-- While only Public is available a plan exists only if no account requires a grant, and its warnings
-- are for exactly the accounts that allow the fallback.
pub plan_falls_back :
    (requests : List AccountGrantRequest) (plan : GrantPlan) (id : AccountId)
    → plan_account_grants requests public_only ≡ ok plan
    → (option_test is_required (mode_of id requests) ≡ false)
      × (contains id plan.public_fallbacks ≡ option_test is_fallback (mode_of id requests))
plan_falls_back requests plan id h =
    let (n, collected, made) = planned requests public_only plan h in
    let (no_required, fallbacks) = none_required n plan made in
    (
      ground (arith, no_required, contains_planned is_required requests n id collected),
      rw (fallbacks, contains_planned is_fallback requests n id collected),
    )

candidate_full : (mode : AccountGrantMode) → is_full (full_realm_of mode) ≡ is_candidate mode
candidate_full public_mode = refl
candidate_full require_grant = refl
candidate_full allow_public_fallback = refl

revoked_planned :
    (n : BTreeMap AccountGrantMode) (plan : GrantPlan) (limit : ℕ)
    → plan_available (bounded_full limit) n ≡ ok plan
    → (protective_offline_on_revocation plan ≡ keys_where is_candidate n)
      × (length (keys_where is_candidate n) ≤ limit)
unfolding plan_available plan_with_full protective_offline_on_revocation
revoked_planned n plan limit h =
    let full = keys_where-map_values full_realm_of is_full n in
    let same = keys_where_same (λ v. is_full (full_realm_of v)) is_candidate n candidate_full in
    ground arith

-- Under a bounded grant a plan has at most as many Full accounts as the grant permits, and those
-- that its revocation takes offline are exactly the accounts that did not ask for Public.
pub plan_within_quota :
    (requests : List AccountGrantRequest) (plan : GrantPlan) (limit : ℕ) (id : AccountId)
    → plan_account_grants requests (bounded_full limit) ≡ ok plan
    → (length (protective_offline_on_revocation plan) ≤ limit)
      × (contains id (protective_offline_on_revocation plan)
          ≡ option_test is_candidate (mode_of id requests))
plan_within_quota requests plan limit id h =
    let (n, collected, made) = planned requests (bounded_full limit) plan h in
    let (revoked, bound) = revoked_planned n plan limit made in
    (rw revoked bound, rw (revoked, contains_planned is_candidate requests n id collected))

-- A refusal that names all the accounts in conflict, and only them.
abbrev pub Conflict :
    List AccountGrantRequest → GrantAvailability → AccountId → GrantPlanError → Type 0
Conflict requests availability id (duplicate_account repeated) = ⊥
Conflict requests availability id (grant_required accounts) =
    (availability ≡ public_only)
    × (contains id accounts ≡ option_test is_required (mode_of id requests))
Conflict requests availability id (full_quota_exceeded limit accounts) =
    (availability ≡ bounded_full limit)
    × (limit < length accounts)
    × (contains id accounts ≡ option_test is_candidate (mode_of id requests))

Conflict-available :
    (requests : List AccountGrantRequest) (availability : GrantAvailability)
    (n : BTreeMap AccountGrantMode) (id : AccountId) (e : GrantPlanError)
    → collect_unique requests ≡ ok n
    → plan_available availability n ≡ err e
    → Conflict requests availability id e
unfolding plan_available plan_public_only
Conflict-available requests public_only n id e collected h =
    let all = contains_planned is_required requests n id collected in ground arith
Conflict-available requests (bounded_full limit) n id e collected h =
    let all = contains_planned is_candidate requests n id collected in ground arith
Conflict-available requests unbounded_full n id e collected h = ground arith

-- If no account is configured twice, a plan is refused only for a missing grant or an exceeded
-- quota, and the refusal names exactly the accounts that require the grant or that take part in the quota.
pub plan_refused :
    (requests : List AccountGrantRequest) (availability : GrantAvailability) (id : AccountId)
    (e : GrantPlanError)
    → NoRepeat requests
    → plan_account_grants requests availability ≡ err e
    → Conflict requests availability id e
unfolding plan_account_grants
plan_refused requests availability id e distinct h =
    let (n, collected) = collect-NoRepeat requests distinct in
    Conflict-available requests availability n id e collected (ground (arith, collected))
