-- ===== src/Jce/RoundTrip.antt =====
-- What the writer writes, and that the reader reads it.
use mathlib.Core.List.{append_assoc, append-nil}
use lirvena.Base.{
  ℕ, ◌+◌, ◌*◌, ◌/◌, ◌%◌, ◌^◌, ◌<◌, ◌≡◌, refl, ap, subst, ◌∙◌, true, false, ltb, ◌==◌, if◌then◌else◌,
  List, [], ◌∷◌, ◌++◌, arith, ok, run_on, inl, inr, Bool-cases,
}
use lirvena.Base.Bits.{bit_and, bit_or_join, bit_and_mask}
use lirvena.Base.Bytes.{to_be}
use lirvena.Base.Int.{ℤ, pos, negsuc, signed, unsigned}
use lirvena.Jce.{
  OnlinePacketError, packet_error, Reader, Reading, Head, take_bytes, byte, number, string_length,
  string_bytes, string, count_of, collection_count, simple_length, bytes, integers, integer_list,
  max_value_len,
}
use lirvena.Jce
use lirvena.Jce.Kind
use lirvena.Jce.Writer
use lirvena.Jce.Writer.{is_zero, fits}
use lirvena.Jce.Cursor.{Reads, Reads-then, Reads-last, Reads-byte, Reads-number}

-- The bytes of a head.
abbrev pub head_bytes : ℕ → ℕ → List ℕ
head_bytes tag kind = if ltb tag 15 then (tag * 16 + kind) ∷ [] else (240 + kind) ∷ tag ∷ []

pub head_lem :
    (tag kind : ℕ) (w : List ℕ) → kind < 16 → Writer.head tag kind w ≡ w ++ head_bytes tag kind
unfolding Writer.head
head_lem tag kind w k = elim (Bool-cases (ltb tag 15)) [
  | inl small ↦
      let low : tag * 2 ^ 4 % 256 ≡ tag * 2 ^ 4 = ground arith in
      rw (small, low, bit_or_join 4 4 tag kind (ground arith) k)
  | inr large ↦ rw (large, bit_or_join 4 4 15 kind (omega arith) k)
]

pub Reads-head :
    (tag kind : ℕ) (rest : List ℕ)
    → tag < 256
    → kind < 16
    → Reads Jce.head (head_bytes tag kind) (record { tag = tag; kind = kind }) rest
unfolding Jce.head
Reads-head tag kind rest t k = elim (Bool-cases (ltb tag 15)) [
  | inl small ↦
      let mask : bit_and (tag * 16 + kind) 15 ≡ kind =
        bit_and_mask 8 4 (tag * 16 + kind) (ground arith) ∙ omega arith in
      let high : (tag * 16 + kind) / 16 ≡ tag = omega arith in
      let other : (tag == 15) ≡ false = ground arith in
      rw small (
        Reads-then _ ((tag * 16 + kind) ∷ []) [] rest (tag * 16 + kind)
          (record { tag = tag; kind = kind }) (Reads-byte (tag * 16 + kind) rest)
          (λ r h e. rw (high, other, mask) (record { result = refl; left = e; valid = h })))
  | inr large ↦
      let mask : bit_and (240 + kind) 15 ≡ kind =
        bit_and_mask 8 4 (240 + kind) (omega arith) ∙ omega arith in
      let high : (240 + kind) / 16 ≡ 15 = omega arith in
      rw large (
        Reads-then _ ((240 + kind) ∷ []) (tag ∷ []) rest (240 + kind)
          (record { tag = tag; kind = kind }) (Reads-byte (240 + kind) (tag ∷ rest))
          (rw (high, mask)
            (Reads-last (tag ∷ []) rest tag (λ (t : ℕ). record { tag = t; kind = kind })
              (Reads-byte tag rest))))
]

-- How the writer spells an integer: the kind and the bytes behind the head.
abbrev pub integer_kind : ℤ → ℕ
integer_kind v =
    if Writer.is_zero v
    then Kind.zero
    else if fits 128 v
    then Kind.byte
    else if fits 32768 v
    then Kind.short
    else if fits 2147483648 v
    then Kind.int
    else Kind.long

abbrev pub integer_bytes : ℤ → List ℕ
integer_bytes v =
    if is_zero v
    then []
    else if fits 128 v
    then to_be 1 (unsigned 8 v)
    else if fits 32768 v
    then to_be 2 (unsigned 16 v)
    else if fits 2147483648 v
    then to_be 4 (unsigned 32 v)
    else to_be 8 (unsigned 64 v)

abbrev pub field_of : ℕ → ℤ → List ℕ
field_of tag v = head_bytes tag (integer_kind v) ++ integer_bytes v

pub integer_lem : (tag : ℕ) (v : ℤ) (w : List ℕ) → Writer.integer tag v w ≡ w ++ field_of tag v
unfolding Writer.integer
integer_lem tag v w = elim (Bool-cases (is_zero v)) [
  | inl a ↦ rw (a, head_lem tag Kind.zero w (omega arith), append-nil)
  | inr a ↦ elim (Bool-cases (fits 128 v)) [
    | inl b ↦ rw (a, b, head_lem tag Kind.byte w (omega arith)) (append_assoc w _ _)
    | inr b ↦ elim (Bool-cases (fits 32768 v)) [
      | inl c ↦ rw (a, b, c, head_lem tag Kind.short w (omega arith)) (append_assoc w _ _)
      | inr c ↦ elim (Bool-cases (fits 2147483648 v)) [
        | inl d ↦ rw (a, b, c, d, head_lem tag Kind.int w (omega arith)) (append_assoc w _ _)
        | inr d ↦ rw (a, b, c, d, head_lem tag Kind.long w (omega arith)) (append_assoc w _ _)
      ]
    ]
  ]
]

zero_pos : (v : ℤ) → is_zero v ≡ true → pos 0 ≡ v
zero_pos (pos n) h = ap pos (ground arith)
zero_pos (negsuc n) h = absurd (ground arith)

signed-unsigned8 :
    (v : ℤ) → fits 128 v ≡ true → (signed 8 (unsigned 8 v) ≡ v) × (unsigned 8 v < 256)
signed-unsigned8 (pos n) h = (ground arith, ground arith)
signed-unsigned8 (negsuc n) h = (ground arith, ground arith)

signed-unsigned16 :
    (v : ℤ) → fits 32768 v ≡ true → (signed 16 (unsigned 16 v) ≡ v) × (unsigned 16 v < 65536)
signed-unsigned16 (pos n) h = (ground arith, ground arith)
signed-unsigned16 (negsuc n) h = (ground arith, ground arith)

signed-unsigned32 :
    (v : ℤ)
    → fits 2147483648 v ≡ true
    → (signed 32 (unsigned 32 v) ≡ v) × (unsigned 32 v < 4294967296)
signed-unsigned32 (pos n) h = (ground arith, ground arith)
signed-unsigned32 (negsuc n) h = (ground arith, ground arith)

-- An `i64`.
abbrev pub IsI64 : ℤ → Type 0
IsI64 v = fits 9223372036854775808 v ≡ true

signed-unsigned64 :
    (v : ℤ) → IsI64 v → (signed 64 (unsigned 64 v) ≡ v) × (unsigned 64 v < 18446744073709551616)
signed-unsigned64 (pos n) h = (ground arith, ground arith)
signed-unsigned64 (negsuc n) h = (ground arith, ground arith)

-- A number of `k` bytes under a head, read as a signed one.
Reads-signed :
    (k width word : ℕ) (v : ℤ) (rest : List ℕ)
    → word < 256 ^ k
    → signed width word ≡ v
    → Reads (λ r. run_on (number k r) λ n r. (ok (signed width n), r)) (to_be k word) v rest
Reads-signed k width word v rest b e =
    subst
      (λ (x : ℤ).
        Reads (λ r. run_on (number k r) λ n r. (ok (signed width n), r)) (to_be k word) x rest)
      e (Reads-last (to_be k word) rest word (signed width) (Reads-number k word rest b))

one_byte : (n : ℕ) → n < 256 → to_be 1 n ≡ n ∷ []
unfolding to_be
one_byte n h = ap (λ (x : ℕ). x ∷ []) (omega arith)

Reads-signed-byte :
    (word : ℕ) (v : ℤ) (rest : List ℕ)
    → word < 256
    → signed 8 word ≡ v
    → Reads (λ r. run_on (byte r) λ n r. (ok (signed 8 n), r)) (to_be 1 word) v rest
Reads-signed-byte word v rest b e =
    subst
      (λ (x : ℤ). Reads (λ r. run_on (byte r) λ n r. (ok (signed 8 n), r)) (to_be 1 word) x rest) e
      (rw (one_byte word b) (Reads-last (word ∷ []) rest word (signed 8) (Reads-byte word rest)))

pub Reads-integer :
    (v : ℤ) (rest : List ℕ)
    → IsI64 v
    → Reads (Jce.integer (integer_kind v)) (integer_bytes v) v rest
unfolding Jce.integer
Reads-integer v rest i = elim (Bool-cases (is_zero v)) [
  | inl a ↦ rw a (λ r h e. record { result = ap ok (zero_pos v a); left = e; valid = h })
  | inr a ↦ elim (Bool-cases (fits 128 v)) [
    | inl b ↦
        let (s, n) = signed-unsigned8 v b in rw (a, b) (Reads-signed-byte (unsigned 8 v) v rest n s)
    | inr b ↦ elim (Bool-cases (fits 32768 v)) [
      | inl c ↦
          let (s, n) = signed-unsigned16 v c in
          rw (a, b, c) (Reads-signed 2 16 (unsigned 16 v) v rest n s)
      | inr c ↦ elim (Bool-cases (fits 2147483648 v)) [
        | inl d ↦
            let (s, n) = signed-unsigned32 v d in
            rw (a, b, c, d) (Reads-signed 4 32 (unsigned 32 v) v rest n s)
        | inr d ↦
            let (s, n) = signed-unsigned64 v i in
            rw (a, b, c, d) (Reads-signed 8 64 (unsigned 64 v) v rest n s)
      ]
    ]
  ]
]
