-- ===== src/Account/Grant.antt =====
-- crates/account-runtime/src/grant.rs: the assignment of every configured account to the Public or
-- the Full realm. A `BTreeMap` is its ordered list of entries and a `BTreeSet` its ordered list of
-- keys; an `AccountLocalId` enters as the number that its sixteen bytes spell, which orders alike.
pub mod Entries
pub mod Planning
mod Tests
use lirvena.Base.{
  ℕ, Bool, true, false, not, ◌==◌, ltb, if◌then◌else◌, Option, none, some, List, [], ◌∷◌, Result,
  ok, err, and_then, length, is_empty,
}

abbrev pub AccountId : Type 0
AccountId = ℕ

pub data AccountGrantMode : Type 0 where
  public_mode require_grant allow_public_fallback : AccountGrantMode

pub record AccountGrantRequest : Type 0 where
  pub local_id : AccountId
  pub mode : AccountGrantMode

pub data GrantAvailability : Type 0 where
  public_only : GrantAvailability
  bounded_full : ℕ → GrantAvailability
  unbounded_full : GrantAvailability

pub data AssignedRealm : Type 0 where
  public_realm full_realm : AssignedRealm

abbrev pub BTreeMap : Type 0 → Type 0
BTreeMap V = List (AccountId × V)

abbrev pub BTreeSet : Type 0
BTreeSet = List AccountId

pub record GrantPlan : Type 0 where
  pub assignments : BTreeMap AssignedRealm
  pub public_fallbacks : BTreeSet

pub data GrantPlanError : Type 0 where
  duplicate_account : AccountId → GrantPlanError
  grant_required : BTreeSet → GrantPlanError
  full_quota_exceeded : ℕ → BTreeSet → GrantPlanError

abbrev pub lookup : {V : Type 0} → AccountId → BTreeMap V → Option V
lookup id [] = none
lookup id ((key, value) ∷ entries) = if id == key then some value else lookup id entries

abbrev pub insert : {V : Type 0} → AccountId → V → BTreeMap V → BTreeMap V
insert id value [] = (id, value) ∷ []
insert id value ((key, old) ∷ entries) =
    if id == key
    then (id, value) ∷ entries
    else if ltb id key
    then (id, value) ∷ (key, old) ∷ entries
    else (key, old) ∷ insert id value entries

abbrev pub contains : AccountId → BTreeSet → Bool
contains id [] = false
contains id (key ∷ keys) = if id == key then true else contains id keys

-- `iter().filter_map(...).collect()`
abbrev pub keys_where : {V : Type 0} → (V → Bool) → BTreeMap V → BTreeSet
keys_where test [] = []
keys_where test ((key, value) ∷ entries) =
    if test value then key ∷ keys_where test entries else keys_where test entries

abbrev pub map_values : {V W : Type 0} → (V → W) → BTreeMap V → BTreeMap W
map_values f [] = []
map_values f ((key, value) ∷ entries) = (key, f value) ∷ map_values f entries

abbrev pub is_candidate : AccountGrantMode → Bool
is_candidate public_mode = false
is_candidate require_grant = true
is_candidate allow_public_fallback = true

abbrev pub is_required : AccountGrantMode → Bool
is_required require_grant = true
is_required _ = false

abbrev pub is_fallback : AccountGrantMode → Bool
is_fallback allow_public_fallback = true
is_fallback _ = false

abbrev pub is_full : AssignedRealm → Bool
is_full full_realm = true
is_full public_realm = false

unfoldable pub assigned_realm : AccountId → GrantPlan → Option AssignedRealm
assigned_realm id plan = lookup id plan.assignments

unfoldable pub protective_offline_on_revocation : GrantPlan → BTreeSet
protective_offline_on_revocation plan = keys_where is_full plan.assignments

-- The loop of `collect_unique`, with the map so far.
unfoldable pub collect_into :
    BTreeMap AccountGrantMode
    → List AccountGrantRequest
    → Result (BTreeMap AccountGrantMode) GrantPlanError
collect_into unique [] = ok unique
collect_into unique (request ∷ requests) = elim (lookup request.local_id unique) [
  | some old ↦ err (duplicate_account request.local_id)
  | none ↦ collect_into (insert request.local_id request.mode unique) requests
]

abbrev pub collect_unique :
    List AccountGrantRequest → Result (BTreeMap AccountGrantMode) GrantPlanError
collect_unique requests = collect_into [] requests

unfoldable pub plan_public_only : BTreeMap AccountGrantMode → Result GrantPlan GrantPlanError
plan_public_only requests =
    let required = keys_where is_required requests in
    if not (is_empty required)
    then err (grant_required required)
    else ok (record {
      assignments = map_values (λ mode. public_realm) requests;
      public_fallbacks = keys_where is_fallback requests;
    })

abbrev pub full_realm_of : AccountGrantMode → AssignedRealm
full_realm_of public_mode = public_realm
full_realm_of require_grant = full_realm
full_realm_of allow_public_fallback = full_realm

unfoldable pub plan_with_full : BTreeMap AccountGrantMode → GrantPlan
plan_with_full requests = record {
  assignments = map_values full_realm_of requests;
  public_fallbacks = [];
}

unfoldable pub plan_available :
    GrantAvailability → BTreeMap AccountGrantMode → Result GrantPlan GrantPlanError
plan_available public_only requests = plan_public_only requests
plan_available (bounded_full max_accounts) requests =
    let full_candidates = keys_where is_candidate requests in
    if ltb max_accounts (length full_candidates)
    then err (full_quota_exceeded max_accounts full_candidates)
    else ok (plan_with_full requests)
plan_available unbounded_full requests = ok (plan_with_full requests)

unfoldable pub plan_account_grants :
    List AccountGrantRequest → GrantAvailability → Result GrantPlan GrantPlanError
plan_account_grants requests availability =
    and_then (collect_unique requests) λ unique. plan_available availability unique
