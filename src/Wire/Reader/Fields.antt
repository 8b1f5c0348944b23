-- ===== src/Wire/Reader/Fields.antt =====
-- The prefixed fields that a reader accepts, exactly.
use lirvena.Base.{
  ℕ, ◌+◌, ◌^◌, ◌≤◌, ◌<◌, ◌≡◌, ◌↔◌, refl, sym, ap, subst, ◌∙◌, true, false, List, arith, ltb, leb,
  if◌then◌else◌, length, take, drop, length-take, length-drop, Result, ok, err, run_on, Bool-cases,
  inl, inr,
}
use lirvena.Wire.Prefix.{LengthPrefix, width, WireError, length_limit_exceeded}
use lirvena.Wire.Reader.{WireReader, remaining, read_bytes, payload_length, read_prefixed_bytes}
use lirvena.Wire.Reader.Cursor.{
  IsReader, advance, read_bytes_lem, first_word, read_prefixed_bytes_lem, payload_length-le,
  first_word-small, advance-IsReader,
}

-- What a successful read has checked and what it returns.
pub record Field (p : LengthPrefix) (maximum : ℕ) (r : WireReader) (field : List ℕ) (s : WireReader)
    : Type 0 where
  pub bounded : length field ≤ maximum
  pub declared : payload_length p (first_word (width p) r) ≡ ok (length field)
  pub payload : field ≡ take (length field) (drop (r.cursor + width p) r.input)
  pub room : width p + length field ≤ remaining r
  pub moved : s ≡ advance r (width p + length field)

abbrev rest_of : WireReader → List ℕ
rest_of s = drop s.cursor s.input

-- The part of `Field` that is left once the prefix has been read.
abbrev Payload : LengthPrefix → ℕ → ℕ → WireReader → List ℕ → WireReader → Type 0
Payload p maximum declared s field t =
    (length field ≤ maximum)
    × (payload_length p declared ≡ ok (length field))
    × (field ≡ take (length field) (rest_of s))
    × (length field ≤ remaining s)
    × (t ≡ advance s (length field))

length-slice : (n : ℕ) (s : WireReader) → n ≤ remaining s → length (take n (rest_of s)) ≡ n
length-slice n s h = omega (arith, length-take n (rest_of s), length-drop s.cursor s.input)

read_bytes_accepts :
    (n : ℕ) (s : WireReader) (field : List ℕ) (t : WireReader)
    → IsReader s
    → n < 2 ^ 63
    → read_bytes n s ≡ (ok field, t)
    → (n ≤ remaining s) × (length field ≡ n) × (field ≡ take n (rest_of s)) × (t ≡ advance s n)
read_bytes_accepts n s field t h b r = ground (arith, read_bytes_lem n s h b, length-slice n s)

module _ (p : LengthPrefix) (maximum declared : ℕ) (s : WireReader) (field : List ℕ)
    (t : WireReader) (h : IsReader s) (b : declared < 2 ^ 63) where
  bounded_accepts :
      (n : ℕ)
      → payload_length p declared ≡ ok n
      → (if ltb maximum n then (err (length_limit_exceeded maximum n), s) else read_bytes n s)
        ≡ (ok field, t)
      → Payload p maximum declared s field t
  bounded_accepts n e r = elim (Bool-cases (ltb maximum n)) [
    | inl over ↦ absurd (ground (arith, over))
    | inr fits ↦
        let got =
          read_bytes_accepts n s field t h (omega (arith, payload_length-le p declared e))
            (rw fits at r) in
        (
          ground (arith, got),
          e ∙ ap ok (sym got.1),
          subst (λ (k : ℕ). field ≡ take k (rest_of s)) (sym got.1) got.2,
          omega (arith, got.0, got.1),
          subst (λ (k : ℕ). t ≡ advance s k) (sym got.1) got.3,
        )
  ]

  length_accepts :
      (q : Result ℕ WireError)
      → payload_length p declared ≡ q
      → run_on
          (q, s)
          (λ n t.
            if ltb maximum n then (err (length_limit_exceeded maximum n), t) else read_bytes n t)
        ≡ (ok field, t)
      → Payload p maximum declared s field t
  length_accepts (ok n) e r = bounded_accepts n e r
  length_accepts (err x) e r = absurd (ground arith)

-- A prefixed read returns `field` and leaves the reader `s` exactly when the prefix is there, the
-- declared payload is `field`, it is within the bound, and `s` stands right behind it.
pub read_prefixed_bytes_iff :
    (p : LengthPrefix) (maximum : ℕ) (r : WireReader) (field : List ℕ) (s : WireReader)
    → IsReader r
    → (read_prefixed_bytes p maximum r ≡ (ok field, s)) ↔ Field p maximum r field s
read_prefixed_bytes_iff p maximum r field s h = (forth, back)
  where
    forth : read_prefixed_bytes p maximum r ≡ (ok field, s) → Field p maximum r field s
    forth e = elim (Bool-cases (leb (width p) (remaining r))) [
      | inl room ↦
          let there : width p ≤ remaining r = ground arith in
          let got =
            length_accepts p maximum (first_word (width p) r) (advance r (width p)) field s
              (advance-IsReader r (width p) h there) (first_word-small p r h there) _ refl
              (rw (read_prefixed_bytes_lem p maximum r h, room) at e) in
          record {
            bounded = got.0;
            declared = got.1;
            payload = got.2;
            room = omega (arith, got.3);
            moved = got.4 ∙ ap (λ (k : ℕ). record { input = r.input; cursor = k }) (omega arith);
          }
      | inr short ↦ absurd (ground (arith, read_prefixed_bytes_lem p maximum r h))
    ]

    back : Field p maximum r field s → read_prefixed_bytes p maximum r ≡ (ok field, s)
    back f =
        let there : leb (width p) (remaining r) ≡ true = ground (arith, f.room) in
        let fits : ltb maximum (length field) ≡ false = ground (arith, f.bounded) in
        let next : WireReader = advance r (width p) in
        let inside : leb (length field) (remaining next) ≡ true = ground (arith, f.room) in
        let ready = advance-IsReader r (width p) h (omega (arith, f.room)) in
        let end : advance next (length field) ≡ s =
          ap (λ (k : ℕ). record { input = r.input; cursor = k }) (omega arith) ∙ sym f.moved in
        rw
          (
            read_prefixed_bytes_lem p maximum r h,
            there,
            f.declared,
            fits,
            read_bytes_lem (length field) next ready (omega (arith, f.room, h.sized)),
            inside,
          )
          (λ i. (ok (sym f.payload i), end i))
