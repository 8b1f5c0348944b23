-- ===== src/Jce/Skip.antt =====
-- A reader that does not know a value steps over it.
use mathlib.Core.List.{append_assoc}
use lirvena.Base.{
  ℕ, suc, ◌+◌, ◌-◌, ◌*◌, ◌<◌, ◌≤◌, ◌≡◌, refl, ap, ◌∙◌, leb, List, [], ◌∷◌, ◌++◌, length, arith, ok,
  run_on, inl, inr, Bool-cases,
}
use lirvena.Base.Bytes.{to_be, length-to_be}
use lirvena.Base.Int.{ℤ, pos}
use lirvena.Jce.{
  OnlinePacketError, packet_error, Reader, Reading, Head, take_bytes, advance, string_bytes, string,
  collection_count, simple_length, bytes, integer_list, skip_values, skip_collection, skip_value,
  skip_levels, skip, max_value_len, max_depth,
}
use lirvena.Jce
use lirvena.Jce.Kind
use lirvena.Jce.Writer.{is_zero, fits}
use lirvena.Jce.Cursor.{Takes, Reads, Reads-then, Reads-last, Reads-advance, IsReader, rest_of}
use lirvena.Jce.RoundTrip.{head_bytes, integer_kind, integer_bytes, field_of}
use lirvena.Jce.Values.{simple_bytes, Reads-simple_length, items}
use lirvena.Jce.Strings.{
  Reads-headed, Reads-count, integer_kind-lt, string_kind, length_bytes, Reads-string_bytes,
}
use lirvena.Jce.Written.{
  number, text, blob, no_entries, numbers, Value, kind_of, body_of, write, IsValue, write_lem,
  kind_of-lt,
}

module _ (one : ℕ → Reading (Unit {0})) where
  Reads-skip_integer :
      (v : ℤ) (rest : List ℕ) → Reads (skip_value one (integer_kind v)) (integer_bytes v) tt rest
  unfolding skip_value
  Reads-skip_integer v rest = elim (Bool-cases (is_zero v)) [
    | inl a ↦ rw a (λ r h e. record { result = refl; left = e; valid = h })
    | inr a ↦ elim (Bool-cases (fits 128 v)) [
      | inl b ↦ rw (a, b) (Reads-advance 1 (to_be 1 _) rest (length-to_be 1 _))
      | inr b ↦ elim (Bool-cases (fits 32768 v)) [
        | inl c ↦ rw (a, b, c) (Reads-advance 2 (to_be 2 _) rest (length-to_be 2 _))
        | inr c ↦ elim (Bool-cases (fits 2147483648 v)) [
          | inl d ↦ rw (a, b, c, d) (Reads-advance 4 (to_be 4 _) rest (length-to_be 4 _))
          | inr d ↦ rw (a, b, c, d) (Reads-advance 8 (to_be 8 _) rest (length-to_be 8 _))
        ]
      ]
    ]
  ]

  skip_text :
      (xs : List ℕ)
      → skip_value one (string_kind xs) ≡ λ r.
          run_on (string_bytes (string_kind xs) r) λ _ r. (ok tt, r)
  unfolding skip_value
  skip_text xs = elim (Bool-cases (leb (length xs) 255)) [
    | inl short ↦ rw short
    | inr long ↦ rw long
  ]

  Reads-skip_text :
      (xs rest : List ℕ)
      → length xs ≤ max_value_len
      → Reads (skip_value one (string_kind xs)) (length_bytes xs ++ xs) tt rest
  Reads-skip_text xs rest b =
      rw (skip_text xs)
        (Reads-last (length_bytes xs ++ xs) rest xs (λ _. tt) (Reads-string_bytes xs rest b))

  Reads-skip_blob :
      (xs rest : List ℕ)
      → length xs ≤ max_value_len
      → Reads (skip_value one Kind.simple_list) (simple_bytes xs ++ xs) tt rest
  unfolding skip_value
  Reads-skip_blob xs rest b =
      Reads-then (λ n r. advance n r) (simple_bytes xs) xs rest (length xs) tt
        (Reads-simple_length xs (xs ++ rest) b) (Reads-advance (length xs) xs rest refl)

  -- A list, when `one` steps over each item.
  Reads-skip_items :
      (vs : List ℤ) (rest : List ℕ)
      → ((v : ℤ) (rest : List ℕ) → Reads (one (integer_kind v)) (integer_bytes v) tt rest)
      → Reads (skip_values one (length vs)) (items vs) tt rest
  unfolding skip_values
  Reads-skip_items [] rest a = λ r h e. record { result = refl; left = e; valid = h }
  Reads-skip_items (v ∷ vs) rest a = λ r h e.
      Reads-headed _ 0 (integer_kind v) (integer_bytes v ++ items vs) rest tt (omega arith)
        (integer_kind-lt v)
        (Reads-then _ (integer_bytes v) (items vs) rest tt tt (a v (items vs ++ rest))
          (Reads-skip_items vs rest a))
        r h
        (e
          ∙ ap (λ xs. xs ++ rest)
              (append_assoc (head_bytes 0 (integer_kind v)) (integer_bytes v) (items vs)))

  Reads-skip_list :
      (vs : List ℤ) (rest : List ℕ)
      → length vs ≤ 1000000
      → ((v : ℤ) (rest : List ℕ) → Reads (one (integer_kind v)) (integer_bytes v) tt rest)
      → Reads (skip_value one Kind.list) (field_of 0 (pos (length vs)) ++ items vs) tt rest
  unfolding skip_value skip_collection
  Reads-skip_list vs rest b a =
      Reads-then _ (field_of 0 (pos (length vs))) (items vs) rest (length vs) tt
        (Reads-count 1000000 (length vs) (items vs ++ rest) b (omega (arith, b)))
        (Reads-skip_items vs rest a)

  Reads-skip_map : (rest : List ℕ) → Reads (skip_value one Kind.map) (field_of 0 (pos 0)) tt rest
  unfolding skip_value skip_collection skip_values
  Reads-skip_map rest =
      Reads-then (λ n r. skip_values one (n * 2) r) (field_of 0 (pos 0)) [] rest 0 tt
        (Reads-count 1000000 0 rest (omega arith) (omega arith))
        (λ r h e. record { result = refl; left = e; valid = h })

pub Reads-skip_levels :
    (levels : ℕ) (v : Value) (rest : List ℕ)
    → IsValue v
    → Reads (skip_levels (suc (suc levels)) (kind_of v)) (body_of v) tt rest
unfolding skip_levels
Reads-skip_levels levels (number v) rest h = Reads-skip_integer _ v rest
Reads-skip_levels levels (text xs) rest h = Reads-skip_text _ xs rest h.0
Reads-skip_levels levels (blob xs) rest h = Reads-skip_blob _ xs rest h
Reads-skip_levels levels no_entries rest h = Reads-skip_map _ rest
Reads-skip_levels levels (numbers vs) rest h =
    Reads-skip_list (skip_levels (suc levels)) vs rest h.0
      (λ v rest. Reads-skip_integer (skip_levels levels) v rest)

-- A written value is stepped over exactly: behind the head, the skip takes the value's bytes and no
-- more, at every depth that leaves room for the items of a list. The value is within the bounds, the
-- tag is a byte, and the reader stands in front of what was written.
pub skip-write :
    (tag depth : ℕ) (v : Value) (rest : List ℕ) (r : Reader)
    → tag < 256
    → depth < max_depth
    → IsValue v
    → IsReader r
    → rest_of r ≡ (write tag v []).1 ++ rest
    → Takes (run_on (Jce.head r) λ h r. skip h.kind depth r) tt rest
unfolding skip
skip-write tag depth v rest r t d h p e =
    let front : (write tag v []).1 ≡ head_bytes tag (kind_of v) ++ body_of v =
      ap (λ m. m.1) (write_lem tag v [] h) in
    let levels : max_depth + 1 - depth ≡ suc (suc (max_depth - 1 - depth)) = omega arith in
    rw levels (
      Reads-headed (λ h r. skip_levels (suc (suc (max_depth - 1 - depth))) h.kind r) tag (kind_of v)
        (body_of v) rest tt t (kind_of-lt v) (Reads-skip_levels (max_depth - 1 - depth) v rest h) r
        p (e ∙ ap (λ ys. ys ++ rest) front))
