-- ===== src/Jce/Strings.antt =====
-- Heads, counts and strings: what the writer writes for each, and what the reader takes.
use mathlib.Core.List.{append_assoc, append-nil}
use lirvena.Base.{
  ℕ, ◌^◌, ◌<◌, ◌≤◌, ◌≡◌, refl, ap, subst, ◌∙◌, true, false, ltb, leb, if◌then◌else◌, List, [], ◌∷◌,
  ◌++◌, length, arith, ok, run_on, run_on_ok, inl, inr, Bool-cases,
}
use lirvena.Base.Bytes.{to_be}
use lirvena.Base.Int.{ℤ, pos}
use lirvena.Base.Text.{is_utf8}
use lirvena.Base.Words.{u32_max}
use lirvena.Jce.{
  OnlinePacketError, packet_error, Reader, Reading, Head, take_bytes, byte, number, string_length,
  string_bytes, string, count_of, collection_count, simple_length, bytes, integers, integer_list,
  max_value_len,
}
use lirvena.Jce
use lirvena.Jce.Kind
use lirvena.Jce.Writer
use lirvena.Jce.Writer.{is_zero, fits}
use lirvena.Jce.Cursor.{Reads, Reads-then, Reads-bytes, Reads-byte, Reads-number}
use lirvena.Jce.RoundTrip.{
  head_bytes, head_lem, Reads-head, integer_kind, integer_bytes, field_of, Reads-integer,
}

pub integer_kind-lt : (v : ℤ) → integer_kind v < 16
integer_kind-lt v = ground arith

-- A head, and what `k` makes of its kind.
pub Reads-headed :
    {A : Type 0} (k : Head → Reading A) (tag kind : ℕ) (xs rest : List ℕ) (a : A)
    → tag < 256
    → kind < 16
    → Reads (k (record { tag = tag; kind = kind })) xs a rest
    → Reads (λ r. run_on (Jce.head r) k) (head_bytes tag kind ++ xs) a rest
Reads-headed k tag kind xs rest a t b p =
    Reads-then k (head_bytes tag kind) xs rest (record { tag = tag; kind = kind }) a
      (Reads-head tag kind (xs ++ rest) t b) p

pub Reads-count :
    (maximum n : ℕ) (rest : List ℕ)
    → n ≤ maximum
    → n < 2 ^ 63
    → Reads (collection_count maximum) (field_of 0 (pos n)) n rest
unfolding collection_count
Reads-count maximum n rest b m =
    Reads-headed (λ h r. run_on (Jce.integer h.kind r) λ n r. (count_of maximum n, r)) 0
      (integer_kind (pos n)) (integer_bytes (pos n)) rest n (omega arith) (integer_kind-lt (pos n))
      (subst
        (λ xs.
          Reads (λ r. run_on (Jce.integer (integer_kind (pos n)) r) λ n r. (count_of maximum n, r))
            xs n rest)
        (append-nil (integer_bytes (pos n)))
        (Reads-then (λ n r. (count_of maximum n, r)) (integer_bytes (pos n)) [] rest (pos n) n
          (Reads-integer (pos n) rest (ground arith))
          (λ r h e. record { result = ground arith; left = e; valid = h })))

-- A string's kind, and its length in front of it.
abbrev pub string_kind : List ℕ → ℕ
string_kind xs = if leb (length xs) 255 then Kind.string_one else Kind.string_four

abbrev pub length_bytes : List ℕ → List ℕ
length_bytes xs = if leb (length xs) 255 then length xs ∷ [] else to_be 4 (length xs)

pub string_kind-lt : (xs : List ℕ) → string_kind xs < 16
string_kind-lt xs = ground arith

string_head_lem :
    (tag : ℕ) (xs w : List ℕ)
    → length xs ≤ u32_max
    → Writer.string_head tag xs w
      ≡ (ok tt, w ++ (head_bytes tag (string_kind xs) ++ length_bytes xs))
unfolding Writer.string_head
string_head_lem tag xs w b = elim (Bool-cases (leb (length xs) 255)) [
  | inl short ↦
      rw (Writer.string_head, short)
        (ap (λ ys. (ok tt, ys))
          (ap (λ ys. ys ++ length xs ∷ []) (head_lem tag Kind.string_one w (omega arith))
            ∙ append_assoc w (head_bytes tag Kind.string_one) (length xs ∷ [])))
  | inr long ↦
      let narrow : leb (length xs) u32_max ≡ true = ground arith in
      rw (Writer.string_head, long, narrow)
        (ap (λ ys. (ok tt, ys))
          (ap (λ ys. ys ++ to_be 4 (length xs)) (head_lem tag Kind.string_four w (omega arith))
            ∙ append_assoc w (head_bytes tag Kind.string_four) (to_be 4 (length xs))))
]

pub string_lem :
    (tag : ℕ) (xs w : List ℕ)
    → length xs ≤ u32_max
    → Writer.string tag xs w
      ≡ (ok tt, w ++ (head_bytes tag (string_kind xs) ++ (length_bytes xs ++ xs)))
unfolding Writer.string
string_lem tag xs w b =
    let front = head_bytes tag (string_kind xs) in
    rw (string_head_lem tag xs w b) (
      ap (λ ys. (ok tt, ys))
        (append_assoc w (front ++ length_bytes xs) xs
          ∙ ap (λ ys. w ++ ys) (append_assoc front (length_bytes xs) xs)))

Reads-length :
    (xs rest : List ℕ)
    → length xs ≤ u32_max
    → Reads (string_length (string_kind xs)) (length_bytes xs) (length xs) rest
unfolding string_length
Reads-length xs rest b = elim (Bool-cases (leb (length xs) 255)) [
  | inl short ↦ rw short (Reads-byte (length xs) rest)
  | inr long ↦ rw long (Reads-number 4 (length xs) rest (omega (arith, b)))
]

pub Reads-string_bytes :
    (xs rest : List ℕ)
    → length xs ≤ max_value_len
    → Reads (string_bytes (string_kind xs)) (length_bytes xs ++ xs) xs rest
unfolding string_bytes
Reads-string_bytes xs rest b =
    let fits : ltb max_value_len (length xs) ≡ false = ground arith in
    Reads-then _ (length_bytes xs) xs rest (length xs) xs
      (Reads-length xs (xs ++ rest) (omega (arith, b)))
      (rw fits (Reads-bytes (length xs) xs rest refl))

pub Reads-string :
    (xs rest : List ℕ)
    → length xs ≤ max_value_len
    → is_utf8 xs ≡ true
    → Reads (string (string_kind xs)) (length_bytes xs ++ xs) xs rest
unfolding string
Reads-string xs rest b u r h e =
    let got = Reads-string_bytes xs rest b r h e in
    rw (run_on_ok (string_bytes (string_kind xs) r) _ xs got.result, u)
      (record { result = refl; left = got.left; valid = got.valid })
