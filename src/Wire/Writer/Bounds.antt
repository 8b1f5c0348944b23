-- ===== src/Wire/Writer/Bounds.antt =====
-- What the writer's calls do to its output, on every branch.
use mathlib.Core.List.{append-nil, append_assoc}
use lirvena.Base.{
  ℕ, ◌+◌, ◌^◌, ◌≤◌, ◌<◌, ◌≡◌, refl, sym, ap, subst, ◌∙◌, true, false, List, [], ◌∷◌, ◌++◌, arith,
  leb, if◌then◌else◌, length, length-append, ok, err, run_on, Bool-cases, inl, inr,
}
use lirvena.Base.Bytes.{to_be, length-to_be}
use lirvena.Base.Words.{u8_max, u16_max, u32_max}
use lirvena.Wire.Prefix.{
  LengthPrefix, u8_payload, u8_inclusive, u16_payload, u16_inclusive, u32_payload, u32_inclusive,
  width, includes_prefix, WireError, length_limit_exceeded,
}
use lirvena.Wire.Writer.{
  WireWriter, put_bytes, put_u8, put_u16, put_u32, declared_length, put_declared,
  put_prefixed_bytes,
}

-- The output respects the bound, which is a Rust allocation's.
pub record IsWriter (w : WireWriter) : Type 0 where
  pub bounded : length w.output ≤ w.maximum
  pub sized : w.maximum < 2 ^ 63

-- What every call does: it appends, and it keeps the bound.
pub record Grows (w v : WireWriter) : Type 0 where
  pub suffix : List ℕ
  pub appended : v.output ≡ w.output ++ suffix
  pub same_maximum : v.maximum ≡ w.maximum
  pub valid : IsWriter v

abbrev pub extend : WireWriter → List ℕ → WireWriter
extend w bytes = record w { output = w.output ++ bytes }

pub Grows-refl : (w : WireWriter) → IsWriter w → Grows w w
Grows-refl w h = record {
  suffix = [];
  appended = sym (append-nil w.output);
  same_maximum = refl;
  valid = h;
}

pub Grows-trans : {u v w : WireWriter} → Grows u v → Grows v w → Grows u w
Grows-trans {u} g k = record {
  suffix = g.suffix ++ k.suffix;
  appended =
      k.appended ∙ (ap (λ xs. xs ++ k.suffix) g.appended ∙ append_assoc u.output g.suffix k.suffix);
  same_maximum = k.same_maximum ∙ g.same_maximum;
  valid = k.valid;
}

-- Bytes within the bound are appended; others leave the writer as it was.
pub put_bytes_lem :
    (bytes : List ℕ) (w : WireWriter)
    → IsWriter w
    → length bytes < 2 ^ 63
    → put_bytes bytes w ≡ (
        if leb (length w.output + length bytes) w.maximum
        then (ok tt, extend w bytes)
        else (err (length_limit_exceeded w.maximum (length w.output + length bytes)), w))
unfolding put_bytes
put_bytes_lem bytes w h b = ground (arith, h.bounded, h.sized)

pub extend-Grows :
    (bytes : List ℕ) (w : WireWriter)
    → IsWriter w
    → length w.output + length bytes ≤ w.maximum
    → Grows w (extend w bytes)
extend-Grows bytes w h fits = record {
  suffix = bytes;
  appended = refl;
  same_maximum = refl;
  valid = record { bounded = omega (arith, length-append w.output bytes); sized = h.sized };
}

pub put_bytes-Grows :
    (bytes : List ℕ) (w : WireWriter)
    → IsWriter w
    → length bytes < 2 ^ 63
    → Grows w (put_bytes bytes w).1
put_bytes-Grows bytes w h b = elim (Bool-cases (leb (length w.output + length bytes) w.maximum)) [
  | inl e ↦ rw (put_bytes_lem bytes w h b, e) (extend-Grows bytes w h (ground arith))
  | inr e ↦ rw (put_bytes_lem bytes w h b, e) (Grows-refl w h)
]

-- The largest number that a prefix holds, and the number that it announces for a payload.
abbrev pub prefix_max : LengthPrefix → ℕ
prefix_max u8_payload = u8_max
prefix_max u8_inclusive = u8_max
prefix_max u16_payload = u16_max
prefix_max u16_inclusive = u16_max
prefix_max u32_payload = u32_max
prefix_max u32_inclusive = u32_max

abbrev pub announced : LengthPrefix → List ℕ → ℕ
announced p bytes = length bytes + (if includes_prefix p then width p else 0)

declared_length_lem :
    (p : LengthPrefix) (bytes : List ℕ)
    → length bytes < 2 ^ 63
    → declared_length p bytes ≡ ok (announced p bytes)
declared_length_lem u8_payload bytes b = ground arith
declared_length_lem u8_inclusive bytes b = ground arith
declared_length_lem u16_payload bytes b = ground arith
declared_length_lem u16_inclusive bytes b = ground arith
declared_length_lem u32_payload bytes b = ground arith
declared_length_lem u32_inclusive bytes b = ground arith

one_byte : (v : ℕ) → v ≤ 255 → to_be 1 v ≡ v ∷ []
unfolding to_be
one_byte v h = ap (λ (t : ℕ). t ∷ []) (omega arith)

-- The prefix is written in its own width, or refused with its own limit.
put_declared_lem :
    (p : LengthPrefix) (declared : ℕ) (w : WireWriter)
    → put_declared p declared w ≡ (
        if leb declared (prefix_max p)
        then put_bytes (to_be (width p) declared) w
        else (err (length_limit_exceeded (prefix_max p) declared), w))
unfolding put_declared put_u8 put_u16 put_u32
put_declared_lem u8_payload d w = ground (arith, one_byte d)
put_declared_lem u8_inclusive d w = ground (arith, one_byte d)
put_declared_lem u16_payload d w = ground arith
put_declared_lem u16_inclusive d w = ground arith
put_declared_lem u32_payload d w = ground arith
put_declared_lem u32_inclusive d w = ground arith

width-small : (p : LengthPrefix) → width p ≤ 4
width-small u8_payload = omega arith
width-small u8_inclusive = omega arith
width-small u16_payload = omega arith
width-small u16_inclusive = omega arith
width-small u32_payload = omega arith
width-small u32_inclusive = omega arith

-- The whole field.
abbrev pub encoded : LengthPrefix → List ℕ → List ℕ
encoded p bytes = to_be (width p) (announced p bytes) ++ bytes

module _ (p : LengthPrefix) (bytes : List ℕ) (w : WireWriter) (h : IsWriter w)
    (b : length bytes < 2 ^ 63) where
  head : List ℕ
  head = to_be (width p) (announced p bytes)

  length-head : length head ≡ width p
  unfolding head
  length-head = length-to_be (width p) (announced p bytes)

  length-extend_head : length (w.output ++ head) ≡ length w.output + width p
  length-extend_head = omega (arith, length-append w.output head, length-head)

  -- The call after the checks on the announced length.
  put_prefixed_bytes_lem : put_prefixed_bytes p bytes w ≡ (
      if leb (announced p bytes) (prefix_max p)
      then run_on (put_bytes head w) (λ _ v. put_bytes bytes v)
      else (err (length_limit_exceeded (prefix_max p) (announced p bytes)), w))
  unfolding put_prefixed_bytes head
  put_prefixed_bytes_lem = elim (Bool-cases (leb (announced p bytes) (prefix_max p))) [
    | inl e ↦ rw (declared_length_lem p bytes b, put_declared_lem p (announced p bytes) w, e)
    | inr e ↦ rw (declared_length_lem p bytes b, put_declared_lem p (announced p bytes) w, e)
  ]

  put_head : put_bytes head w ≡ (
      if leb (length w.output + width p) w.maximum
      then (ok tt, extend w head)
      else (err (length_limit_exceeded w.maximum (length w.output + width p)), w))
  put_head =
      subst
        (λ (k : ℕ). put_bytes head w ≡ (
          if leb (length w.output + k) w.maximum
          then (ok tt, extend w head)
          else (err (length_limit_exceeded w.maximum (length w.output + k)), w)))
        length-head (put_bytes_lem head w h (omega (arith, length-head, width-small p)))

  -- A field that fits its prefix and the bound is appended whole.
  pub put_prefixed_bytes_fits :
      announced p bytes ≤ prefix_max p
      → length w.output + width p + length bytes ≤ w.maximum
      → put_prefixed_bytes p bytes w ≡ (ok tt, extend w (encoded p bytes))
  unfolding head
  put_prefixed_bytes_fits small room =
      let announce : leb (announced p bytes) (prefix_max p) ≡ true = ground arith in
      let first : leb (length w.output + width p) w.maximum ≡ true = ground arith in
      let grown : IsWriter (extend w head) = record {
        bounded = omega (arith, length-extend_head);
        sized = h.sized;
      } in
      let second : leb (length (w.output ++ head) + length bytes) w.maximum ≡ true =
        ground (arith, length-extend_head) in
      rw
        (
          put_prefixed_bytes_lem,
          announce,
          put_head,
          first,
          put_bytes_lem bytes (extend w head) grown b,
          second,
        )
        (ap (λ xs. (ok tt, record w { output = xs })) (append_assoc w.output head bytes))

  -- A payload that its prefix cannot announce is refused before anything is written.
  pub put_prefixed_bytes_refused :
      prefix_max p < announced p bytes
      → put_prefixed_bytes p bytes w
        ≡ (err (length_limit_exceeded (prefix_max p) (announced p bytes)), w)
  put_prefixed_bytes_refused large =
      let refuse : leb (announced p bytes) (prefix_max p) ≡ false = ground arith in
      rw (put_prefixed_bytes_lem, refuse)

  -- Whatever the call returns, a writer within its bound has only appended, and its output still
  -- respects the bound.
  pub put_prefixed_bytes-Grows : Grows w (put_prefixed_bytes p bytes w).1
  put_prefixed_bytes-Grows = elim (Bool-cases (leb (announced p bytes) (prefix_max p))) [
    | inr e ↦ rw (put_prefixed_bytes_lem, e) (Grows-refl w h)
    | inl e ↦ elim (Bool-cases (leb (length w.output + width p) w.maximum)) [
      | inr over ↦ rw (put_prefixed_bytes_lem, e, put_head, over) (Grows-refl w h)
      | inl room ↦
          let step = extend-Grows head w h (ground (arith, length-head)) in
          rw (put_prefixed_bytes_lem, e, put_head, room)
            (Grows-trans step (put_bytes-Grows bytes (extend w head) step.valid b))
    ]
  ]

  put_prefixed_bytes_over :
      announced p bytes ≤ prefix_max p
      → w.maximum < length w.output + width p + length bytes
      → (x : WireError) × (u : WireWriter) × (put_prefixed_bytes p bytes w ≡ (err x, u))
  put_prefixed_bytes_over small over =
      elim (Bool-cases (leb (length w.output + width p) w.maximum)) [
        | inr no_prefix ↦ (
          length_limit_exceeded w.maximum (length w.output + width p),
          w,
          rw (put_prefixed_bytes_lem, announce, put_head, no_prefix),
        )
        | inl room ↦
            let grown : IsWriter (extend w head) = record {
              bounded = ground (arith, length-extend_head);
              sized = h.sized;
            } in
            let second : leb (length (w.output ++ head) + length bytes) w.maximum ≡ false =
              ground (arith, length-extend_head) in
            (
              length_limit_exceeded w.maximum (length (w.output ++ head) + length bytes),
              extend w head,
              rw (
                put_prefixed_bytes_lem,
                announce,
                put_head,
                room,
                put_bytes_lem bytes (extend w head) grown b,
                second,
              ),
            )
      ]
    where
      announce : leb (announced p bytes) (prefix_max p) ≡ true
      announce = ground arith

  -- The call succeeds only on a field that fits.
  pub put_prefixed_bytes_accepts :
      (v : WireWriter)
      → put_prefixed_bytes p bytes w ≡ (ok tt, v)
      → (announced p bytes ≤ prefix_max p)
        × (length w.output + width p + length bytes ≤ w.maximum)
        × (v ≡ extend w (encoded p bytes))
  put_prefixed_bytes_accepts v e = elim (Bool-cases (leb (announced p bytes) (prefix_max p))) [
    | inr large ↦ absurd (ground (arith, put_prefixed_bytes_lem))
    | inl small ↦ elim (Bool-cases (leb (length w.output + width p + length bytes) w.maximum)) [
      | inl room ↦ (ground arith, ground arith, ground (arith, put_prefixed_bytes_fits))
      | inr over ↦
          let (x, u, r) = put_prefixed_bytes_over (ground arith) (ground arith) in
          absurd (cc (sym e ∙ r))
    ]
  ]
