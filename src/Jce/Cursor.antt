-- ===== src/Jce/Cursor.antt =====
-- What the reader's calls take from the front of the bytes that are left.
use mathlib.Core.List.{append_assoc}
use lirvena.Base.{
  ℕ, ◌+◌, ◌^◌, ◌<◌, ◌≤◌, ◌≡◌, refl, ap, subst, ◌∙◌, true, false, ltb, leb, List, [], ◌∷◌, ◌++◌,
  length, length-append, take, drop, take-append_left, drop-append_left, length-drop, drop_sum,
  arith, Result, ok, run_on, run_on_ok,
}
use lirvena.Base.Bytes.{from_be, to_be, from_be-to_be, length-to_be}
use lirvena.Jce.{OnlinePacketError, Reader, Reading, take_bytes, advance, byte, number}

abbrev pub rest_of : Reader → List ℕ
rest_of r = drop r.position r.input

-- The position is within the input, which is a Rust slice.
pub record IsReader (r : Reader) : Type 0 where
  pub within : r.position ≤ length r.input
  pub sized : length r.input < 2 ^ 63

-- A call that takes `a` and leaves `rest`.
pub record Takes {A : Type 0} (m : Result A OnlinePacketError × Reader) (a : A) (rest : List ℕ)
    : Type 0 where
  pub result : m.0 ≡ ok a
  pub left : rest_of m.1 ≡ rest
  pub valid : IsReader m.1

abbrev pub Reads : {A : Type 0} → Reading A → List ℕ → A → List ℕ → Type 0
Reads read xs a rest = (r : Reader) → IsReader r → rest_of r ≡ xs ++ rest → Takes (read r) a rest

pub Reads-then :
    {A B : Type 0} {m : Reading A} (k : A → Reading B) (xs ys rest : List ℕ) (a : A) (b : B)
    → Reads m xs a (ys ++ rest)
    → Reads (k a) ys b rest
    → Reads (λ r. run_on (m r) k) (xs ++ ys) b rest
Reads-then {m = m} k xs ys rest a b p q r h e =
    let first = p r h (e ∙ append_assoc xs ys rest) in
    let second = q (m r).1 first.valid first.left in rw (run_on_ok (m r) k a first.result) second

pub Reads-last :
    {A B : Type 0} {m : Reading A} (xs rest : List ℕ) (a : A) (f : A → B)
    → Reads m xs a rest
    → Reads (λ r. run_on (m r) (λ a r. (ok (f a), r))) xs (f a) rest
Reads-last {m = m} xs rest a f p r h e =
    let got = p r h e in
    rw (run_on_ok (m r) (λ a r. (ok (f a), r)) a got.result)
      (record { result = refl; left = got.left; valid = got.valid })

module _ (r : Reader) (h : IsReader r) (xs rest : List ℕ) (e : rest_of r ≡ xs ++ rest) where
  pub room : r.position + (length xs + length rest) ≡ length r.input
  room = omega (arith, length-append xs rest, ap length e, length-drop r.position r.input, h.within)

  moved : Reader
  moved = record r { position = r.position + length xs }

  moved_left : rest_of moved ≡ rest
  unfolding moved
  moved_left =
      drop_sum r.position (length xs) r.input ∙ ap (drop (length xs)) e ∙ drop-append_left xs rest

  moved-IsReader : IsReader moved
  unfolding moved
  moved-IsReader = record { within = omega (arith, room); sized = h.sized }

  take_front : take_bytes (length xs) r ≡ (ok xs, moved)
  unfolding moved take_bytes
  take_front =
      let fits : ltb (length r.input) (r.position + length xs) ≡ false = ground (arith, room) in
      let sum : leb (r.position + length xs) 18446744073709551615 ≡ true =
        ground (arith, room, h.sized) in
      let front : take (length xs) (rest_of r) ≡ xs =
        ap (take (length xs)) e ∙ take-append_left xs rest in
      rw (sum, fits, front)

pub Reads-bytes : (n : ℕ) (xs rest : List ℕ) → length xs ≡ n → Reads (take_bytes n) xs xs rest
Reads-bytes n xs rest l r h e =
    subst (λ (k : ℕ). Takes (take_bytes k r) xs rest) l
      (rw (take_front r h xs rest e) (record {
        result = refl;
        left = moved_left r h xs rest e;
        valid = moved-IsReader r h xs rest e;
      }))

pub Reads-advance : (n : ℕ) (xs rest : List ℕ) → length xs ≡ n → Reads (advance n) xs tt rest
unfolding advance
Reads-advance n xs rest l = Reads-last xs rest xs (λ _. tt) (Reads-bytes n xs rest l)

pub Reads-byte : (n : ℕ) (rest : List ℕ) → Reads byte (n ∷ []) n rest
unfolding byte moved
Reads-byte n rest r h e =
    let inside : ltb r.position (length r.input) ≡ true =
      ground (arith, room r h (n ∷ []) rest e) in
    rw (inside, e)
      (record {
        result = refl;
        left = moved_left r h (n ∷ []) rest e;
        valid = moved-IsReader r h (n ∷ []) rest e;
      })

pub Reads-number : (k n : ℕ) (rest : List ℕ) → n < 256 ^ k → Reads (number k) (to_be k n) n rest
unfolding number
Reads-number k n rest b r h e =
    let got =
      Reads-last (to_be k n) rest (to_be k n) from_be
        (Reads-bytes k (to_be k n) rest (length-to_be k n)) r h e in
    record { result = got.result ∙ ap ok (from_be-to_be k n b); left = got.left; valid = got.valid }
