-- ===== src/Online/Plan/Accepts.antt =====
-- Which specifications become plans, and what clamping to a plan's ranges gives.
use lirvena.Base.{
  ℕ, ◌≤◌, ◌∙◌, sym, subst, inl, inr, All, or_false, Bool-cases, Result-cases, ◌≡◌, ◌≢◌, ◌↔◌, refl,
  true, false, Option, none, some, List, [], ◌∷◌, ◌++◌, ok, arith,
}
use lirvena.Base.Bytes.{same_bytes_sound, same_bytes_refl}
use lirvena.Online.Model.{PlanActionId, same_id}
use lirvena.Online.Plan.{
  OnlinePlan, OnlinePlanSpec, clamp_heartbeat, repeats, has_repeat, ids, validate_range, validate,
  from_spec, new, spec_of, min_compiled_interval_ms, max_compiled_interval_ms,
}

-- The ranges that validation establishes.
pub record IsPlan (plan : OnlinePlan) : Type 0 where
  pub heartbeat_floor : min_compiled_interval_ms ≤ plan.minimum_heartbeat_ms
  pub heartbeat_from : plan.minimum_heartbeat_ms ≤ plan.initial_heartbeat_ms
  pub heartbeat_to : plan.initial_heartbeat_ms ≤ plan.maximum_heartbeat_ms
  pub heartbeat_ceiling : plan.maximum_heartbeat_ms ≤ max_compiled_interval_ms
  pub delayed_floor : min_compiled_interval_ms ≤ plan.minimum_delayed_sync_ms
  pub delayed_range : plan.minimum_delayed_sync_ms ≤ plan.maximum_delayed_sync_ms
  pub delayed_ceiling : plan.maximum_delayed_sync_ms ≤ max_compiled_interval_ms

-- Clamping stays within the plan's range, and changes nothing that was within it.
pub clamp_heartbeat_lem :
    (plan : OnlinePlan) (x : ℕ)
    → IsPlan plan
    → (plan.minimum_heartbeat_ms ≤ clamp_heartbeat plan x)
      × (clamp_heartbeat plan x ≤ plan.maximum_heartbeat_ms)
unfolding clamp_heartbeat
clamp_heartbeat_lem plan x h = ground (arith, h.heartbeat_from, h.heartbeat_to)

validate_range_iff :
    (lo v hi : ℕ)
    → (validate_range lo v hi ≡ ok tt)
      ↔ ((min_compiled_interval_ms ≤ lo) × (lo ≤ v) × (v ≤ hi) × (hi ≤ max_compiled_interval_ms))
unfolding validate_range
validate_range_iff lo v hi = ground arith

-- Two identifiers differ, where both are there.
abbrev pub Differ : Option PlanActionId → Option PlanActionId → Type 0
Differ none earlier = Unit {0}
Differ (some id) none = Unit {0}
Differ (some id) (some other) = other.as_bytes ≢ id.as_bytes

-- No identifier of the second list occurs before its place: neither in the first list nor in the
-- second.
abbrev pub Distinct : List (Option PlanActionId) → List (Option PlanActionId) → Type 0
Distinct earlier [] = Unit {0}
Distinct earlier (id ∷ rest) = All (Differ id) earlier × Distinct (earlier ++ (id ∷ [])) rest

same_id_iff : (a b : PlanActionId) → (same_id a b ≡ false) ↔ (a.as_bytes ≢ b.as_bytes)
same_id_iff a b = (
  (λ h e. false_true (sym h ∙ rw e (same_bytes_refl b.as_bytes))),
  (λ h. elim (Bool-cases (same_id a b)) [
    | inl e ↦ absurd (h (same_bytes_sound a.as_bytes b.as_bytes e))
    | inr e ↦ e
  ]),
)
  where
    false_true : false ≡ true → ⊥
    false_true e = cc

repeats_iff :
    (id : Option PlanActionId) (earlier : List (Option PlanActionId))
    → (repeats id earlier ≡ false) ↔ All (Differ id) earlier
unfolding repeats
repeats_iff none [] = (λ h. tt, λ h. refl)
repeats_iff none (o ∷ earlier) = (λ h. (tt, (repeats_iff none earlier).0 refl), λ h. refl)
repeats_iff (some id) [] = (λ h. tt, λ h. refl)
repeats_iff (some id) (none ∷ earlier) =
    let ih = repeats_iff (some id) earlier in (λ h. (tt, ih.0 h), λ h. ih.1 h.1)
repeats_iff (some id) (some other ∷ earlier) =
    let ih = repeats_iff (some id) earlier in
    let here = same_id_iff other id in
    (
      (λ h. let parts = or_false _ _ h in (here.0 parts.0, ih.0 parts.1)),
      (λ h. rw (here.1 h.0) (ih.1 h.1)),
    )

has_repeat_iff :
    (earlier rest : List (Option PlanActionId))
    → (has_repeat earlier rest ≡ false) ↔ Distinct earlier rest
unfolding has_repeat
has_repeat_iff earlier [] = (λ h. tt, λ h. refl)
has_repeat_iff earlier (id ∷ rest) =
    let here = repeats_iff id earlier in
    let ih = has_repeat_iff (earlier ++ (id ∷ [])) rest in
    (
      (λ h. let parts = or_false _ _ h in (here.0 parts.0, ih.0 parts.1)),
      (λ h. rw (here.1 h.0) (ih.1 h.1)),
    )

validate_iff :
    (plan : OnlinePlan)
    → (validate plan ≡ ok tt) ↔ (IsPlan plan × (has_repeat [] (ids plan) ≡ false))
unfolding validate validate_range
validate_iff plan = ground arith

-- A specification is accepted, with its own values as the plan, exactly when its ranges hold and
-- no action identifier is used twice.
pub new_iff :
    (spec : OnlinePlanSpec) (plan : OnlinePlan)
    → (new spec ≡ ok plan) ↔ ((spec_of plan ≡ spec) × IsPlan plan × Distinct [] (ids plan))
unfolding new from_spec spec_of
new_iff spec plan = (forth, back)
  where
    forth : new spec ≡ ok plan → (spec_of plan ≡ spec) × IsPlan plan × Distinct [] (ids plan)
    forth h = elim (Result-cases (validate (from_spec spec))) [
      | inl (u, e) ↦
          let same : from_spec spec ≡ plan = cc (rw e at h) in
          let (valid, apart) = (validate_iff (from_spec spec)).0 e in
          subst (λ q. (spec_of q ≡ spec) × IsPlan q × Distinct [] (ids q)) same
            (refl, valid, (has_repeat_iff [] (ids (from_spec spec))).0 apart)
      | inr (x, e) ↦ absurd (cc (rw e at h))
    ]

    back : (spec_of plan ≡ spec) × IsPlan plan × Distinct [] (ids plan) → new spec ≡ ok plan
    back (e, valid, apart) =
        let passes = (validate_iff plan).1 (valid, (has_repeat_iff [] (ids plan)).1 apart) in
        subst (λ s. new s ≡ ok plan) e (rw passes)
