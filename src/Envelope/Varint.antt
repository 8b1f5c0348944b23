-- ===== src/Envelope/Varint.antt =====
-- crates/qq-envelope/src/marked.rs: the variable-length integers. Their loops run on ten turns, the
-- bytes of a `u64`, and an offset is kept as the bytes from there on.
use lirvena.Base.{
  ℕ, zero, suc, ◌<◌, ◌≤◌, ◌+◌, ◌*◌, ◌^◌, ◌/◌, ◌%◌, ◌≡◌, true, false, ltb, leb, ◌==◌, ◌&&◌,
  if◌then◌else◌, List, [], ◌∷◌, ◌++◌, Result, ok, err, ap, ◌∙◌, arith, Bool-cases, inl, inr,
}
use native.Mathlib.Nat.{pow-suc}
use lirvena.Base.Words.{u64_max}
use lirvena.Envelope.{EnvelopeError, invalid_field}

-- A value and the bytes behind it.
abbrev pub Scan : Type 0 → Type 0
Scan A = Result (A × List ℕ) EnvelopeError

unfoldable pub read_varint_from : ℕ → ℕ → ℕ → List ℕ → Scan ℕ
read_varint_from zero shift value encoded = err invalid_field
read_varint_from (suc turns) shift value [] = err invalid_field
read_varint_from (suc turns) shift value (byte ∷ rest) =
    let with_byte = value + byte % 128 * 2 ^ shift in
    let later = read_varint_from turns (shift + 7) with_byte rest in
    if shift == 63 && ltb 1 byte
    then err invalid_field
    else if leb 128 byte
    then later
    else ok (with_byte, rest)

unfoldable pub read_varint : List ℕ → Scan ℕ
read_varint encoded = read_varint_from 10 0 0 encoded

unfoldable pub put_varint_from : ℕ → ℕ → List ℕ
put_varint_from zero value = value % 256 ∷ []
put_varint_from (suc turns) value =
    let later = put_varint_from turns (value / 128) in
    if leb 128 value then (value % 128 + 128) ∷ later else value % 256 ∷ []

unfoldable pub put_varint : ℕ → List ℕ
put_varint value = put_varint_from 9 value

pow_seven : (s : ℕ) → 2 ^ (s + 7) ≡ 2 ^ s * 128
pow_seven s =
    let s2 : ℕ = suc (suc s) in
    let s4 : ℕ = suc (suc s2) in
    ap (λ (t : ℕ). 2 ^ t) seven
    ∙ omega (
      arith,
      pow-suc 2 s,
      pow-suc 2 (suc s),
      pow-suc 2 s2,
      pow-suc 2 (suc s2),
      pow-suc 2 s4,
      pow-suc 2 (suc s4),
      pow-suc 2 (suc (suc s4)),
    )
  where
    seven : s + 7 ≡ suc (suc (suc (suc (suc (suc (suc s))))))
    seven = omega arith

-- The seven low bits of a value and the others.
regroup_digits : (r q p : ℕ) → r * p + q * (p * 128) ≡ (r + q * 128) * p
regroup_digits r q p = grind arith

regroup : (v p : ℕ) → v % 128 * p + v / 128 * (p * 128) ≡ v * p
regroup v p = regroup_digits (v % 128) (v / 128) p ∙ ap (λ (t : ℕ). t * p) (omega arith)

mark : (v : ℕ) → (v % 128 + 128) % 128 ≡ v % 128
mark v = omega arith

-- What `put_varint` writes is read back.
read_varint_from-put :
    (turns shift value v : ℕ) (rest : List ℕ)
    → shift + 7 * turns ≡ 63
    → v < 2 * 128 ^ turns
    → read_varint_from (suc turns) shift value (put_varint_from turns v ++ rest)
      ≡ ok (value + v * 2 ^ shift, rest)
unfolding read_varint_from put_varint_from
read_varint_from-put zero shift value zero rest e h = ground arith
read_varint_from-put zero shift value (suc zero) rest e h = ground arith
read_varint_from-put zero shift value (suc (suc v)) rest e h = absurd (omega arith)
read_varint_from-put (suc turns) shift value v rest e h = elim (Bool-cases (leb 128 v)) [
  | inl b ↦ rw b (
      let early : (shift == 63) ≡ false = ground arith in
      let long : leb 128 (v % 128 + 128) ≡ true = ground arith in
      let low : ℕ = (v % 128 + 128) % 128 in
      let all : value + low * 2 ^ shift + v / 128 * 2 ^ (shift + 7) ≡ value + v * 2 ^ shift =
        ap (λ (t : ℕ). value + t * 2 ^ shift + v / 128 * 2 ^ (shift + 7)) (mark v)
        ∙ rw (pow_seven shift) (omega (arith, regroup v (2 ^ shift))) in
      let others =
        read_varint_from-put turns (shift + 7) (value + low * 2 ^ shift) (v / 128) rest
          (omega arith) (omega (arith, pow-suc 128 turns)) in
      rw (early, long) (others ∙ ap (λ (t : ℕ). ok (t, rest)) all))
  | inr b ↦ rw b (ground arith)
]

-- Every `u64` that `put_varint` writes is read back by `read_varint`, which stops where the number
-- ends, whatever bytes follow.
pub read-put_varint :
    (v : ℕ) (rest : List ℕ) → v ≤ u64_max → read_varint (put_varint v ++ rest) ≡ ok (v, rest)
unfolding read_varint put_varint
read-put_varint v rest h =
    read_varint_from-put 9 0 0 v rest (omega arith) (omega arith)
    ∙ ap (λ (t : ℕ). ok (t, rest)) (omega arith)
