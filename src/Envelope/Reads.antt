-- ===== src/Envelope/Reads.antt =====
-- What a chain of reads takes from the front of the bytes that are left.
use mathlib.Core.List.{append_assoc}
use lirvena.Base.{
  ℕ, ◌+◌, ◌^◌, ◌<◌, ◌≤◌, ◌≡◌, refl, sym, ap, subst, ◌∙◌, true, leb, List, [], ◌∷◌, ◌++◌, length,
  length-append, take, drop, take-append_left, drop-append_left, length-drop, drop_sum, All, arith,
  Result, ok, Method, run_on, run_on_ok, map_err,
}
use lirvena.Base.Bytes.{IsByte, to_be, from_be, from_be-to_be, length-to_be}
use lirvena.Base.Int.{signed}
use lirvena.Wire.Prefix.{u32_inclusive}
use lirvena.Wire.Reader.{
  WireReader, remaining, read_bytes, read_be, read_u8, read_u32, read_i32, payload_length,
  read_prefixed_bytes, finish,
}
use lirvena.Wire.Reader.Cursor.{IsReader, advance, read_bytes_lem, advance-IsReader, first_word}
use lirvena.Wire.Reader.Fields.{read_prefixed_bytes_iff}
use lirvena.Wire.Writer.Bounds.{encoded, announced}
use lirvena.Wire.Reader
use lirvena.Envelope.{EnvelopeError, wire, max_packet_len, wired}

abbrev pub rest_of : WireReader → List ℕ
rest_of r = drop r.cursor r.input

-- A call that takes `a` and leaves `rest`.
pub record Takes {A : Type 0} (m : Result A EnvelopeError × WireReader) (a : A) (rest : List ℕ)
    : Type 0 where
  pub result : m.0 ≡ ok a
  pub left : rest_of m.1 ≡ rest
  pub valid : IsReader m.1

abbrev pub Reads : {A : Type 0} → Method WireReader EnvelopeError A → List ℕ → A → List ℕ → Type 0
Reads read xs a rest =
    (r : WireReader) → IsReader r → rest_of r ≡ xs ++ rest → Takes (read r) a rest

pub Reads-then :
    {A B : Type 0} {m : Method WireReader EnvelopeError A}
    (k : A → Method WireReader EnvelopeError B) (xs ys rest : List ℕ) (a : A) (b : B)
    → Reads m xs a (ys ++ rest)
    → Reads (k a) ys b rest
    → Reads (λ r. run_on (m r) k) (xs ++ ys) b rest
Reads-then {m = m} k xs ys rest a b p q r h e =
    let first = p r h (e ∙ append_assoc xs ys rest) in
    let second = q (m r).1 first.valid first.left in rw (run_on_ok (m r) k a first.result) second

pub Reads-last :
    {A B : Type 0} {m : Method WireReader EnvelopeError A} (xs rest : List ℕ) (a : A) (f : A → B)
    → Reads m xs a rest
    → Reads (λ r. run_on (m r) (λ a r. (ok (f a), r))) xs (f a) rest
Reads-last {m = m} xs rest a f p r h e =
    let got = p r h e in
    rw (run_on_ok (m r) (λ a r. (ok (f a), r)) a got.result)
      (record { result = refl; left = got.left; valid = got.valid })

pub length-rest : (r : WireReader) → length (rest_of r) ≡ remaining r
length-rest r = length-drop r.cursor r.input

rest-advance : (r : WireReader) (n : ℕ) → rest_of (advance r n) ≡ drop n (rest_of r)
rest-advance r n = drop_sum r.cursor n r.input

module _ (r : WireReader) (h : IsReader r) (xs rest : List ℕ) (e : rest_of r ≡ xs ++ rest) where
  room : length xs + length rest ≡ remaining r
  room = omega (arith, length-append xs rest, ap length e, length-rest r)

  pub read_bytes_front : read_bytes (length xs) r ≡ (ok xs, advance r (length xs))
  read_bytes_front =
      let fits : leb (length xs) (remaining r) ≡ true = ground (arith, room) in
      let front : take (length xs) (rest_of r) ≡ xs =
        ap (take (length xs)) e ∙ take-append_left xs rest in
      rw (read_bytes_lem (length xs) r h (omega (arith, room, h.sized)), fits, front)

  pub rest_front : rest_of (advance r (length xs)) ≡ rest
  rest_front = rest-advance r (length xs) ∙ ap (drop (length xs)) e ∙ drop-append_left xs rest

  pub front-IsReader : IsReader (advance r (length xs))
  front-IsReader = advance-IsReader r (length xs) h (omega (arith, room))

pub Reads-bytes :
    (n : ℕ) (xs rest : List ℕ) → length xs ≡ n → Reads (λ r. wired (read_bytes n r)) xs xs rest
Reads-bytes n xs rest l r h e =
    subst (λ (k : ℕ). Takes (wired (read_bytes k r)) xs rest) l
      (rw (read_bytes_front r h xs rest e) (record {
        result = refl;
        left = rest_front r h xs rest e;
        valid = front-IsReader r h xs rest e;
      }))

-- `read_bytes(remaining())`
pub Reads-all : (xs : List ℕ) → Reads (λ r. wired (read_bytes (remaining r) r)) xs xs []
Reads-all xs r h e =
    Reads-bytes (remaining r) xs [] (omega (arith, length-append xs [], ap length e, length-rest r))
      r h e

module _ (n : ℕ) (rest : List ℕ) (b : n < 2 ^ 32) (r : WireReader) (h : IsReader r)
    (e : rest_of r ≡ to_be 4 n ++ rest) where
  read_be_front : read_be 4 r ≡ (ok n, advance r 4)
  unfolding read_be
  read_be_front =
      let step : read_bytes 4 r ≡ (ok (to_be 4 n), advance r 4) =
        subst (λ (k : ℕ). read_bytes k r ≡ (ok (to_be 4 n), advance r k)) (length-to_be 4 n)
          (read_bytes_front r h (to_be 4 n) rest e) in
      rw (step, from_be-to_be 4 n (omega (arith, b)))

  four-Takes : {A : Type 0} (a : A) → Takes (ok a, advance r 4) a rest
  four-Takes a = record {
    result = refl;
    left =
        subst (λ (k : ℕ). rest_of (advance r k) ≡ rest) (length-to_be 4 n)
          (rest_front r h (to_be 4 n) rest e);
    valid =
        subst (λ (k : ℕ). IsReader (advance r k)) (length-to_be 4 n)
          (front-IsReader r h (to_be 4 n) rest e);
  }

pub Reads-u32 :
    (n : ℕ) (rest : List ℕ) → n < 2 ^ 32 → Reads (λ r. wired (read_u32 r)) (to_be 4 n) n rest
unfolding read_u32
Reads-u32 n rest b r h e = rw (read_be_front n rest b r h e) (four-Takes n rest b r h e n)

pub Reads-i32 :
    (n : ℕ) (rest : List ℕ)
    → n < 2 ^ 32
    → Reads (λ r. wired (read_i32 r)) (to_be 4 n) (signed 32 n) rest
unfolding read_i32
Reads-i32 n rest b r h e =
    rw (read_be_front n rest b r h e) (four-Takes n rest b r h e (signed 32 n))

pub Reads-u8 : (n : ℕ) (rest : List ℕ) → Reads (λ r. wired (read_u8 r)) (n ∷ []) n rest
unfolding read_u8
Reads-u8 n rest r h e = rw (read_bytes_front r h (n ∷ []) rest e) (record {
  result = refl;
  left = rest_front r h (n ∷ []) rest e;
  valid = front-IsReader r h (n ∷ []) rest e;
})

pub Reads-field :
    (maximum : ℕ) (xs rest : List ℕ)
    → length xs ≤ maximum
    → maximum ≤ max_packet_len
    → Reads
        (λ r. wired (read_prefixed_bytes u32_inclusive maximum r))
        (encoded u32_inclusive xs)
        xs
        rest
Reads-field maximum xs rest b m r h e =
    let n = announced u32_inclusive xs in
    let size : length (encoded u32_inclusive xs) ≡ 4 + length xs =
      omega (arith, length-append (to_be 4 n) xs, length-to_be 4 n) in
    let split : rest_of r ≡ to_be 4 n ++ (xs ++ rest) = e ∙ append_assoc (to_be 4 n) xs rest in
    let head : take 4 (rest_of r) ≡ to_be 4 n =
      ap (take 4) split
      ∙ subst (λ (k : ℕ). take k (to_be 4 n ++ (xs ++ rest)) ≡ to_be 4 n) (length-to_be 4 n)
          (take-append_left (to_be 4 n) (xs ++ rest)) in
    let told : first_word 4 r ≡ n = ap from_be head ∙ from_be-to_be 4 n (omega arith) in
    let tail : drop (r.cursor + 4) r.input ≡ xs ++ rest =
      (four-Takes n (xs ++ rest) (omega arith) r h split tt).left in
    let got : read_prefixed_bytes u32_inclusive maximum r ≡ (ok xs, advance r (4 + length xs)) =
      (read_prefixed_bytes_iff u32_inclusive maximum r xs (advance r (4 + length xs)) h).1 (record {
        bounded = b;
        declared = ap (payload_length u32_inclusive) told ∙ ground arith;
        payload = sym (ap (take (length xs)) tail ∙ take-append_left xs rest);
        room = omega (arith, room r h (encoded u32_inclusive xs) rest e, size);
        moved = refl;
      }) in
    rw got (record {
      result = refl;
      left =
          subst (λ (k : ℕ). rest_of (advance r k) ≡ rest) size
            (rest_front r h (encoded u32_inclusive xs) rest e);
      valid =
          subst (λ (k : ℕ). IsReader (advance r k)) size
            (front-IsReader r h (encoded u32_inclusive xs) rest e);
    })

pub Reads-finish : Reads (λ r. (map_err (λ _. wire) (finish r), r)) [] tt []
unfolding finish
Reads-finish r h e =
    let none_left : remaining r ≡ 0 = omega (arith, ap length e, length-rest r) in
    record { result = ground (arith, none_left); left = e; valid = h }

-- A last field, after which `finish` is called.
pub Reads-end :
    {A B : Type 0} {m : Method WireReader EnvelopeError A} (xs : List ℕ) (a : A) (f : A → B)
    → Reads m xs a []
    → Reads
        (λ r. run_on (m r) (λ a r. run_on (map_err (λ _. wire) (finish r), r) λ _ r. (ok (f a), r)))
        xs
        (f a)
        []
Reads-end {A} {B} {m = m} xs a f p r h e =
    let got = p r h e in
    let second = Reads-last {B = B} [] [] tt (λ _. f a) Reads-finish (m r).1 got.valid got.left in
    rw
      (run_on_ok (m r) (λ a r. run_on (map_err (λ _. wire) (finish r), r) λ _ r. (ok (f a), r)) a
        got.result)
      second

-- A reader that stands at the start.
pub new-IsReader : (xs : List ℕ) → length xs < 2 ^ 63 → All IsByte xs → IsReader (Reader.new xs)
new-IsReader xs l b = record { within = omega arith; sized = l; bytes = b }
