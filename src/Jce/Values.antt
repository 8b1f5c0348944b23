-- ===== src/Jce/Values.antt =====
-- The values of a push: what the writer writes for each, and the read that a decoder makes for it.
use mathlib.Core.List.{append_assoc, append-nil}
use lirvena.Base.{
  ℕ, ◌^◌, ◌<◌, ◌≤◌, ◌≡◌, refl, sym, ap, ◌∙◌, true, leb, List, [], ◌∷◌, ◌++◌, length, All, arith, ok,
}
use lirvena.Base.Int.{ℤ, pos}
use lirvena.Jce.{simple_length, bytes, integers, integer_list, max_value_len}
use lirvena.Jce.Kind
use lirvena.Jce.Writer
use lirvena.Jce.Writer.{is_zero, fits}
use lirvena.Jce.Cursor.{Reads, Reads-then, Reads-last, Reads-bytes}
use lirvena.Jce.RoundTrip.{
  head_bytes, head_lem, integer_kind, integer_bytes, field_of, integer_lem, IsI64, Reads-integer,
}
use lirvena.Jce.Strings.{integer_kind-lt, Reads-headed, Reads-count}

-- What stands behind the head of a `SIMPLE_LIST`.
abbrev pub simple_bytes : List ℕ → List ℕ
simple_bytes xs = head_bytes 0 Kind.byte ++ field_of 0 (pos (length xs))

five : (a b c d e : List ℕ) → (((a ++ b) ++ c) ++ d) ++ e ≡ a ++ (b ++ ((c ++ d) ++ e))
five a b c d e =
    append_assoc ((a ++ b) ++ c) d e
    ∙ append_assoc (a ++ b) c (d ++ e)
    ∙ append_assoc a b (c ++ (d ++ e))
    ∙ ap (λ ys. a ++ (b ++ ys)) (sym (append_assoc c d e))

pub bytes_lem :
    (tag : ℕ) (xs w : List ℕ)
    → length xs < 2 ^ 63
    → Writer.bytes tag xs w
      ≡ (ok tt, w ++ (head_bytes tag Kind.simple_list ++ (simple_bytes xs ++ xs)))
unfolding Writer.bytes
bytes_lem tag xs w b =
    let narrow : leb (length xs) 9223372036854775807 ≡ true = ground arith in
    let one = head_bytes tag Kind.simple_list in
    let two = head_bytes 0 Kind.byte in
    let three = field_of 0 (pos (length xs)) in
    let written : Writer.integer 0 (pos (length xs))
          (Writer.head 0 Kind.byte (Writer.head tag Kind.simple_list w))
        ≡ ((w ++ one) ++ two) ++ three =
      integer_lem 0 (pos (length xs)) _
      ∙ ap (λ ys. ys ++ three)
          (head_lem 0 Kind.byte _ (omega arith)
            ∙ ap (λ ys. ys ++ two) (head_lem tag Kind.simple_list w (omega arith))) in
    rw narrow (ap (λ ys. (ok tt, ys)) (ap (λ ys. ys ++ xs) written ∙ five w one two three xs))

pub Reads-simple_length :
    (xs rest : List ℕ)
    → length xs ≤ max_value_len
    → Reads simple_length (simple_bytes xs) (length xs) rest
unfolding simple_length
Reads-simple_length xs rest b =
    Reads-headed _ 0 Kind.byte (field_of 0 (pos (length xs))) rest (length xs) (omega arith)
      (omega arith) (Reads-count max_value_len (length xs) rest b (omega (arith, b)))

pub Reads-blob :
    (xs rest : List ℕ)
    → length xs ≤ max_value_len
    → Reads (bytes Kind.simple_list) (simple_bytes xs ++ xs) xs rest
unfolding bytes
Reads-blob xs rest b =
    Reads-then _ (simple_bytes xs) xs rest (length xs) xs (Reads-simple_length xs (xs ++ rest) b)
      (Reads-bytes (length xs) xs rest refl)

-- The items of a list.
abbrev pub items : List ℤ → List ℕ
items [] = []
items (v ∷ vs) = field_of 0 v ++ items vs

integers_lem : (vs : List ℤ) (w : List ℕ) → Writer.integers vs w ≡ w ++ items vs
unfolding Writer.integers
integers_lem [] w = sym (append-nil w)
integers_lem (v ∷ vs) w =
    rw (integer_lem 0 v w, integers_lem vs (w ++ field_of 0 v))
      (append_assoc w (field_of 0 v) (items vs))

pub integer_list_lem :
    (tag : ℕ) (vs : List ℤ) (w : List ℕ)
    → length vs < 2 ^ 63
    → Writer.integer_list tag vs w
      ≡ (ok tt, w ++ (head_bytes tag Kind.list ++ (field_of 0 (pos (length vs)) ++ items vs)))
unfolding Writer.integer_list
integer_list_lem tag vs w b =
    let narrow : leb (length vs) 9223372036854775807 ≡ true = ground arith in
    let one = head_bytes tag Kind.list in
    let two = field_of 0 (pos (length vs)) in
    let written : Writer.integers vs
          (Writer.integer 0 (pos (length vs)) (Writer.head tag Kind.list w))
        ≡ ((w ++ one) ++ two) ++ items vs =
      integers_lem vs _
      ∙ ap (λ ys. ys ++ items vs)
          (integer_lem 0 (pos (length vs)) _
            ∙ ap (λ ys. ys ++ two) (head_lem tag Kind.list w (omega arith))) in
    rw narrow (
      ap (λ ys. (ok tt, ys))
        (written ∙ append_assoc (w ++ one) two (items vs) ∙ append_assoc w one (two ++ items vs)))

pub Reads-integers :
    (vs : List ℤ) (rest : List ℕ) → All IsI64 vs → Reads (integers (length vs)) (items vs) vs rest
unfolding integers
Reads-integers [] rest a = λ r h e. record { result = refl; left = e; valid = h }
Reads-integers (v ∷ vs) rest a = λ r h e.
    Reads-headed _ 0 (integer_kind v) (integer_bytes v ++ items vs) rest (v ∷ vs) (omega arith)
      (integer_kind-lt v)
      (Reads-then _ (integer_bytes v) (items vs) rest v (v ∷ vs)
        (Reads-integer v (items vs ++ rest) a.0)
        (Reads-last (items vs) rest vs (λ vs. v ∷ vs) (Reads-integers vs rest a.1)))
      r h
      (e
        ∙ ap (λ xs. xs ++ rest)
            (append_assoc (head_bytes 0 (integer_kind v)) (integer_bytes v) (items vs)))

pub Reads-list :
    (maximum : ℕ) (vs : List ℤ) (rest : List ℕ)
    → length vs ≤ maximum
    → length vs < 2 ^ 63
    → All IsI64 vs
    → Reads (integer_list Kind.list maximum) (field_of 0 (pos (length vs)) ++ items vs) vs rest
unfolding integer_list
Reads-list maximum vs rest b m a =
    Reads-then _ (field_of 0 (pos (length vs))) (items vs) rest (length vs) vs
      (Reads-count maximum (length vs) (items vs ++ rest) b m) (Reads-integers vs rest a)
