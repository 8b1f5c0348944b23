-- ===== src/Envelope/Writes.antt =====
-- What a chain of writes appends.
use mathlib.Core.List.{append_assoc}
use lirvena.Base.{
  ℕ, ◌+◌, ◌^◌, ◌<◌, ◌≤◌, ◌≡◌, sym, ap, subst, ◌∙◌, inl, inr, leb, Bool-cases, List, [], ◌∷◌, ◌++◌,
  length, length-append, arith, Result, ok, err, Method, run_on, run_on_ok, run_on_err,
  Result-cases, and_then,
}
use lirvena.Base.Bytes.{to_be, length-to_be}
use lirvena.Wire.Prefix.{LengthPrefix, WireError, width}
use lirvena.Wire.Writer.{WireWriter, put_bytes, put_u8, put_u32, put_prefixed_bytes}
use lirvena.Wire.Writer.Bounds.{
  IsWriter, extend, encoded, put_bytes_lem, extend-Grows, put_prefixed_bytes_accepts,
}
use lirvena.Wire.Writer
use lirvena.Envelope.{EnvelopeError, max_packet_len, wired}
use lirvena.Envelope.Sso.{written}

-- A call that succeeds appends `xs`, within the bound.
pub record Appends (w : WireWriter) (xs : List ℕ) (v : WireWriter) : Type 0 where
  pub appended : v ≡ extend w xs
  pub valid : IsWriter v

abbrev pub Writes : Method WireWriter EnvelopeError (Unit {0}) → List ℕ → Type 0
Writes put xs = (w v : WireWriter) → IsWriter w → put w ≡ (ok tt, v) → Appends w xs v

unwired :
    {S A : Type 0} {m : Result A WireError × S} {a : A} {s : S}
    → wired m ≡ (ok a, s)
    → m ≡ (ok a, s)
unwired {m = (ok a, s)} e = ground arith
unwired {m = (err x, s)} e = absurd (ground arith)

Appends-trans :
    (u w v : WireWriter) (xs ys : List ℕ) → Appends u xs w → Appends w ys v → Appends u (xs ++ ys) v
Appends-trans u w v xs ys p q = record {
  appended =
      q.appended
      ∙ ap (λ (t : WireWriter). extend t ys) p.appended
      ∙ ap (λ (zs : List ℕ). record { output = zs; maximum = u.maximum })
          (append_assoc u.output xs ys);
  valid = q.valid;
}

pub Writes-then :
    {m k : Method WireWriter EnvelopeError (Unit {0})} (xs ys : List ℕ)
    → Writes m xs
    → Writes k ys
    → Writes (λ w. run_on (m w) (λ _ w. k w)) (xs ++ ys)
Writes-then {m} {k} xs ys p q w v h e = elim (Result-cases (m w).0) [
  | inr (x, f) ↦ absurd (cc (e, run_on_err (m w) (λ _ w. k w) x f))
  | inl (_, f) ↦
      let first = p w (m w).1 h (λ i. (f i, (m w).1)) in
      let second = q (m w).1 v first.valid (sym (run_on_ok (m w) (λ _ w. k w) tt f) ∙ e) in
      Appends-trans w (m w).1 v xs ys first second
]

pub Writes-bytes : (xs : List ℕ) → length xs < 2 ^ 63 → Writes (λ w. wired (put_bytes xs w)) xs
Writes-bytes xs b w v h e = elim (Bool-cases (leb (length w.output + length xs) w.maximum)) [
  | inr over ↦ absurd (ground (arith, put_bytes_lem xs w h b, unwired e))
  | inl room ↦
      let end : v ≡ extend w xs = ground (arith, put_bytes_lem xs w h b, unwired e) in
      let grown = (extend-Grows xs w h (ground arith)).valid in
      record { appended = end; valid = subst IsWriter (sym end) grown }
]

pub Writes-u8 : (n : ℕ) → Writes (λ w. wired (put_u8 n w)) (n ∷ [])
unfolding put_u8
Writes-u8 n = Writes-bytes (n ∷ []) (omega arith)

pub Writes-u32 : (n : ℕ) → Writes (λ w. wired (put_u32 n w)) (to_be 4 n)
unfolding put_u32
Writes-u32 n = Writes-bytes (to_be 4 n) (omega (arith, length-to_be 4 n))

pub length-encoded : (p : LengthPrefix) (xs : List ℕ) → length (encoded p xs) ≡ width p + length xs
length-encoded p xs = omega (arith, length-append (to_be (width p) _) xs, length-to_be (width p) _)

pub Writes-field :
    (p : LengthPrefix) (xs : List ℕ)
    → length xs < 2 ^ 63
    → Writes (λ w. wired (put_prefixed_bytes p xs w)) (encoded p xs)
Writes-field p xs b w v h e =
    let (small, room, end) = put_prefixed_bytes_accepts p xs w h b v (unwired e) in
    let grown = (extend-Grows (encoded p xs) w h (omega (arith, length-encoded p xs))).valid in
    record { appended = end; valid = subst IsWriter (sym end) grown }

-- What `finish` returns.
pub written-Writes :
    (put : Method WireWriter EnvelopeError (Unit {0})) (xs bytes : List ℕ)
    → Writes put xs
    → written put ≡ ok bytes
    → (bytes ≡ xs) × (length bytes ≤ max_packet_len)
written-Writes put xs bytes p e = elim (Result-cases (put start).0) [
  | inr (x, f) ↦
      absurd (cc (e, ap (λ (r : Result (Unit {0}) EnvelopeError). and_then r λ _. ok out) f))
  | inl (_, f) ↦
      let got =
        p start (put start).1 (record { bounded = omega arith; sized = omega arith })
          (λ i. (f i, (put start).1)) in
      let same : bytes ≡ out = ground (arith, e, f) in
      (
        same ∙ ap (λ (w : WireWriter). w.output) got.appended,
        omega (
          arith,
          ap length same,
          got.valid.bounded,
          ap (λ (w : WireWriter). w.maximum) got.appended,
        ),
      )
]
  where
    start : WireWriter
    start = Writer.new max_packet_len

    out : List ℕ
    out = (put start).1.output
