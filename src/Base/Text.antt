-- ===== src/Base/Text.antt =====
-- Text as its UTF-8 bytes: Rust's `str::from_utf8`, the classes of ASCII bytes and `to_string` of an
-- unsigned number.
use native.Mathlib.Nat.{pow-suc}
use lirvena.Base.{
  ℕ, zero, suc, ◌+◌, ◌-◌, ◌*◌, ◌/◌, ◌%◌, ◌^◌, ◌≤◌, ◌<◌, ◌≡◌, refl, Bool, true, false, ◌&&◌, ◌||◌,
  ltb, leb, ◌==◌, if◌then◌else◌, Option, none, some, List, [], ◌∷◌, ◌++◌, arith, inl, inr,
  Bool-cases, all, all-append, is_empty, length, length-append,
}

abbrev between : ℕ → ℕ → ℕ → Bool
between low high b = leb low b && leb b high

-- How many bytes follow a first byte, and the range of the next one.
pub record Lead : Type 0 where
  pub following : ℕ
  pub low : ℕ
  pub high : ℕ

abbrev pub lead : ℕ → Option Lead
lead b =
    if ltb b 0x80
    then some (record { following = 0; low = 0x80; high = 0xBF })
    else if between 0xC2 0xDF b
    then some (record { following = 1; low = 0x80; high = 0xBF })
    else if b == 0xE0
    then some (record { following = 2; low = 0xA0; high = 0xBF })
    else if b == 0xED
    then some (record { following = 2; low = 0x80; high = 0x9F })
    else if between 0xE1 0xEF b
    then some (record { following = 2; low = 0x80; high = 0xBF })
    else if b == 0xF0
    then some (record { following = 3; low = 0x90; high = 0xBF })
    else if between 0xF1 0xF3 b
    then some (record { following = 3; low = 0x80; high = 0xBF })
    else if b == 0xF4
    then some (record { following = 3; low = 0x80; high = 0x8F })
    else none

unfoldable pub utf8_from : ℕ → ℕ → ℕ → List ℕ → Bool
utf8_from zero low high [] = true
utf8_from (suc n) low high [] = false
utf8_from (suc n) low high (b ∷ bs) = between low high b && utf8_from n 0x80 0xBF bs
utf8_from zero low high (b ∷ bs) = elim (lead b) [
  | none ↦ false
  | some l ↦ utf8_from l.following l.low l.high bs
]

unfoldable pub is_utf8 : List ℕ → Bool
unfolding utf8_from
is_utf8 bytes = utf8_from 0 0x80 0xBF bytes

abbrev pub is_ascii_digit : ℕ → Bool
is_ascii_digit b = between b'0' b'9' b

abbrev pub is_ascii_graphic : ℕ → Bool
is_ascii_graphic b = between b'!' b'~' b

abbrev pub is_ascii_hexdigit : ℕ → Bool
is_ascii_hexdigit b = is_ascii_digit b || between b'A' b'F' b || between b'a' b'f' b

-- The digits of a number below ten to the power of the fuel, the highest first.
unfoldable pub digits : ℕ → ℕ → List ℕ
digits zero n = []
digits (suc f) n =
    let front = digits f (n / 10) in
    let last = b'0' + n % 10 in if ltb n 10 then last ∷ [] else front ++ last ∷ []

-- `u32::to_string`: ten digits are enough.
unfoldable pub to_string : ℕ → List ℕ
unfolding digits
to_string n = digits 10 n

length-digits : (f n : ℕ) → length (digits f n) ≤ f
unfolding digits
length-digits zero n = omega arith
length-digits (suc f) n = elim (Bool-cases (ltb n 10)) [
  | inl small ↦ rw (digits, small) (omega arith)
  | inr big ↦
      rw (digits, big)
        (omega (
          arith,
          length-append (digits f (n / 10)) ((b'0' + n % 10) ∷ []),
          length-digits f (n / 10),
        ))
]

pub length-to_string : (n : ℕ) → length (to_string n) ≤ 10
unfolding to_string
length-to_string n = length-digits 10 n

digits-all : (f n : ℕ) → all is_ascii_digit (digits f n) ≡ true
unfolding digits
digits-all zero n = refl
digits-all (suc f) n =
    let last : is_ascii_digit (b'0' + n % 10) ≡ true = ground arith in
    elim (Bool-cases (ltb n 10)) [
      | inl small ↦ rw (digits, small, last)
      | inr big ↦ rw (
        digits,
        big,
        all-append is_ascii_digit (digits f (n / 10)) ((b'0' + n % 10) ∷ []),
        digits-all f (n / 10),
        last,
      )
    ]

pub to_string-all : (n : ℕ) → all is_ascii_digit (to_string n) ≡ true
unfolding to_string
to_string-all n = digits-all 10 n

digits-present : (f n : ℕ) → is_empty (digits (suc f) n) ≡ false
unfolding digits
digits-present f n = elim (Bool-cases (ltb n 10)) [
  | inl small ↦ rw (digits, small)
  | inr big ↦ rw (digits, big) (append-present (digits f (n / 10)) (b'0' + n % 10))
]
  where
    append-present : (xs : List ℕ) (y : ℕ) → is_empty (xs ++ y ∷ []) ≡ false
    append-present [] y = refl
    append-present (x ∷ xs) y = refl

pub to_string-present : (n : ℕ) → is_empty (to_string n) ≡ false
unfolding to_string
to_string-present n = digits-present 9 n

-- The number that digits spell.
unfoldable pub spelled : ℕ → List ℕ → ℕ
spelled acc [] = acc
spelled acc (d ∷ ds) = spelled (acc * 10 + (d - b'0')) ds

spelled-append : (acc : ℕ) (xs ys : List ℕ) → spelled acc (xs ++ ys) ≡ spelled (spelled acc xs) ys
unfolding spelled
spelled-append acc [] ys = refl
spelled-append acc (x ∷ xs) ys = spelled-append (acc * 10 + (x - b'0')) xs ys

spelled-digits : (f n : ℕ) → n < 10 ^ f → spelled 0 (digits f n) ≡ n
unfolding spelled digits
spelled-digits zero n h = omega arith
spelled-digits (suc f) n h = elim (Bool-cases (ltb n 10)) [
  | inl small ↦ rw (digits, small) (ground arith)
  | inr big ↦
      let rest = spelled-digits f (n / 10) (omega (arith, pow-suc 10 f)) in
      rw (digits, big, spelled-append 0 (digits f (n / 10)) ((b'0' + n % 10) ∷ []), rest)
        (omega arith)
]

-- The text of a `u32` tells the number.
pub spelled-to_string : (n : ℕ) → n < 10 ^ 10 → spelled 0 (to_string n) ≡ n
unfolding to_string
spelled-to_string n h = spelled-digits 10 n h
