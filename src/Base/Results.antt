-- ===== src/Base/Results.antt =====
-- Rust's `Result`, and a method on `&mut self` that returns one: after an error the receiver keeps
-- what the method had written to it.
use mathlib.Core.Path.{◌≡◌, refl}
use mathlib.Core.Bool.{Bool, true, false}
use mathlib.Core.Option.{Option, none, some}
use mathlib.Core.Logic.{◌⊎◌, inl, inr}
use native.Mathlib.Omega.{arith}

pub data Result {ℓ κ} (A : Type ℓ) (E : Type κ) : Type (ℓ ⊔ κ) where
  ok : A → Result A E
  err : E → Result A E

module _ {ℓ κ} {A : Type ℓ} {E : Type κ} where
  -- `?` without a change of the error type.
  abbrev pub and_then {μ} : {B : Type μ} → Result A E → (A → Result B E) → Result B E
  and_then (ok a) f = f a
  and_then (err e) f = err e

  abbrev pub map_err {μ} : {F : Type μ} → (E → F) → Result A E → Result A F
  map_err f (ok a) = ok a
  map_err f (err e) = err (f e)

  abbrev pub ok_or : Option A → E → Result A E
  ok_or none e = err e
  ok_or (some a) e = ok a

  pub Result-cases : (r : Result A E) → ((a : A) × (r ≡ ok a)) ⊎ ((e : E) × (r ≡ err e))
  Result-cases (ok a) = inl (a, refl)
  Result-cases (err e) = inr (e, refl)

-- An early `return Err(e)` unless the test holds.
abbrev pub ensure {κ} : {E : Type κ} → Bool → E → Result (Unit {0}) E
ensure true e = ok tt
ensure false e = err e

-- A method on `&mut S`.
abbrev pub Method : Type 0 → Type 0 → Type 0 → Type 0
Method S E A = S → Result A E × S

abbrev pub run_on : {S E A B : Type 0} → Result A E × S → (A → S → Result B E × S) → Result B E × S
run_on (ok a, s) f = f a s
run_on (err e, s) f = (err e, s)

-- What a chain that succeeds went through.
pub and_then_ok {ℓ κ μ} :
    {A : Type ℓ} {E : Type κ} {B : Type μ} (r : Result A E) (f : A → Result B E) (b : B)
    → and_then r f ≡ ok b
    → (a : A) × (r ≡ ok a) × (f a ≡ ok b)
and_then_ok (ok a) f b h = (a, refl, h)
and_then_ok (err e) f b h = absurd (ground arith)

pub ensure_ok {κ} : {E : Type κ} (b : Bool) (e : E) (u : Unit {0}) → ensure b e ≡ ok u → b ≡ true
ensure_ok true e u h = refl
ensure_ok false e u h = absurd (ground arith)

module _ {S E A B : Type 0} (m : Result A E × S) (f : A → S → Result B E × S) where
  pub run_on_ok : (a : A) → m.0 ≡ ok a → run_on m f ≡ f a m.1
  run_on_ok a h = rw h

  pub run_on_err : (e : E) → m.0 ≡ err e → run_on m f ≡ (err e, m.1)
  run_on_err e h = rw h
