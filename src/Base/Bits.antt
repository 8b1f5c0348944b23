-- ===== src/Base/Bits.antt =====
-- Exclusive or of machine words: the laws that a cipher needs, at every width.
use Prim.Native.Nat.{digits, bitwise, differ, bit_xor-bitwise, bit_or-bitwise, bit_and-bitwise}
use native.Mathlib.Nat.{pow-suc, le_refl, one-le-pow}
use lirvena.Base.{
  ℕ, zero, suc, ◌+◌, ◌*◌, ◌/◌, ◌%◌, ◌^◌, ◌≤◌, ◌<◌, ◌-◌, min, max, ◌≡◌, refl, ap, ◌∙◌, arith,
}
pub use Prim.Native.Nat.{bit_and, bit_or, bit_xor}

-- The digit recursion behind the bit operations, without its fuel.
module _ (z : ℕ → ℕ) (f : ℕ → ℕ → ℕ) where
  digits_enough : (k n a b : ℕ) → n ≤ k → a ≤ n → digits z f n a b ≡ bitwise z f a b
  digits_enough k zero zero b p q = refl
  digits_enough k zero (suc a) b p q = absurd (omega arith)
  digits_enough k (suc n) zero b p q = refl
  digits_enough zero (suc n) (suc a) b p q = absurd (omega arith)
  digits_enough (suc k) (suc n) (suc a) b p q = omega (
    arith,
    digits_enough k n (suc a / 2) (b / 2) (omega arith) (omega arith),
    digits_enough k a (suc a / 2) (b / 2) (omega arith) (omega arith),
  )

  lowest_digit :
      (a b : ℕ)
      → bitwise z f (suc a) b ≡ bitwise z f (suc a / 2) (b / 2) * 2 + f (suc a % 2) (b % 2)
  lowest_digit a b = omega (arith, digits_enough a a (suc a / 2) (b / 2) (le_refl a) (omega arith))

zero-bit_xor : (b : ℕ) → bit_xor 0 b ≡ b
zero-bit_xor b = bit_xor-bitwise 0 b

-- One equation for the lowest digit.
bit_xor_step : (a b : ℕ) → bit_xor a b ≡ bit_xor (a / 2) (b / 2) * 2 + differ (a % 2) (b % 2)
bit_xor_step zero b = omega (arith, zero-bit_xor b, zero-bit_xor (b / 2))
bit_xor_step (suc a) b = omega (
  arith,
  lowest_digit (λ y. y) differ a b,
  bit_xor-bitwise (suc a) b,
  bit_xor-bitwise (suc a / 2) (b / 2),
)

bit_or_step : (a b : ℕ) → bit_or a b ≡ bit_or (a / 2) (b / 2) * 2 + max (a % 2) (b % 2)
bit_or_step zero b = omega (arith, bit_or-bitwise 0 b, bit_or-bitwise 0 (b / 2))
bit_or_step (suc a) b = omega (
  arith,
  lowest_digit (λ y. y) max a b,
  bit_or-bitwise (suc a) b,
  bit_or-bitwise (suc a / 2) (b / 2),
)

bit_and_step : (a b : ℕ) → bit_and a b ≡ bit_and (a / 2) (b / 2) * 2 + min (a % 2) (b % 2)
bit_and_step zero b = omega (arith, bit_and-bitwise 0 b, bit_and-bitwise 0 (b / 2))
bit_and_step (suc a) b = omega (
  arith,
  lowest_digit (λ y. 0) min a b,
  bit_and-bitwise (suc a) b,
  bit_and-bitwise (suc a / 2) (b / 2),
)

-- `|` with zeros.
bit_or-zero : (k a : ℕ) → a < 2 ^ k → bit_or a 0 ≡ a
bit_or-zero zero zero h = refl
bit_or-zero zero (suc a) h = absurd (omega arith)
bit_or-zero (suc k) a h =
    omega (arith, bit_or_step a 0, bit_or-zero k (a / 2) (omega (arith, pow-suc 2 k)))

-- `&` with a mask of no ones.
bit_and-zero : (k a : ℕ) → a < 2 ^ k → bit_and a 0 ≡ 0
bit_and-zero zero zero h = refl
bit_and-zero zero (suc a) h = absurd (omega arith)
bit_and-zero (suc k) a h =
    omega (arith, bit_and_step a 0, bit_and-zero k (a / 2) (omega (arith, pow-suc 2 k)))

bit_or_plain : (w q : ℕ) → q < 2 ^ w → bit_or (q * 2 ^ 0) 0 ≡ q * 2 ^ 0 + 0
bit_or_plain w q h =
    let one : q * 2 ^ 0 ≡ q = omega arith in rw one (omega (arith, bit_or-zero w q h))

regroup : (q t : ℕ) → q * (t * 2) ≡ q * t * 2
regroup q t = omega arith

-- `(q << k) | r` where `r` has `k` bits and `q` has `w`.
pub bit_or_join : (w k q r : ℕ) → q < 2 ^ w → r < 2 ^ k → bit_or (q * 2 ^ k) r ≡ q * 2 ^ k + r
bit_or_join w zero q zero p h = bit_or_plain w q p
bit_or_join w zero q (suc r) p h = absurd (omega arith)
bit_or_join w (suc k) q r p h =
    let double : q * 2 ^ suc k ≡ q * 2 ^ k * 2 =
      ap (λ (t : ℕ). q * t) (pow-suc 2 k) ∙ regroup q (2 ^ k) in
    let half : q * 2 ^ k * 2 / 2 ≡ q * 2 ^ k = omega arith in
    rw double (
      omega (
        arith,
        bit_or_step (q * 2 ^ k * 2) r,
        ap (λ (t : ℕ). bit_or t (r / 2)) half,
        bit_or_join w k q (r / 2) p (omega (arith, pow-suc 2 k)),
      ))

mod_double : (a p : ℕ) → 0 < p → a / 2 % p * 2 + a % 2 ≡ a % (p * 2)
mod_double a p h = grind arith

-- `a & (2 ^ k - 1)`, for a word `a` of `w` bits.
pub bit_and_mask : (w k a : ℕ) → a < 2 ^ w → bit_and a (2 ^ k - 1) ≡ a % 2 ^ k
bit_and_mask w zero a h = omega (arith, bit_and-zero w a h)
bit_and_mask w (suc k) a h =
    let half : (2 ^ suc k - 1) / 2 ≡ 2 ^ k - 1 =
      omega (arith, pow-suc 2 k, one-le-pow k 2 (omega arith)) in
    let odd : (2 ^ suc k - 1) % 2 ≡ 1 = omega (arith, pow-suc 2 k, one-le-pow k 2 (omega arith)) in
    omega (
      arith,
      bit_and_step a (2 ^ suc k - 1),
      ap (λ (t : ℕ). bit_and (a / 2) t) half,
      odd,
      bit_and_mask w k (a / 2) (omega arith),
      ap (λ (t : ℕ). a % t) (pow-suc 2 k),
      mod_double a (2 ^ k) (one-le-pow k 2 (omega arith)),
    )

abbrev IsDigit : ℕ → Type 0
IsDigit x = x < 2

differ-lt : (x y : ℕ) → IsDigit x → IsDigit y → differ x y < 2
differ-lt zero y p q = q
differ-lt (suc x) zero p q = p
differ-lt (suc x) (suc zero) p q = ground arith
differ-lt (suc x) (suc (suc y)) p q = absurd (omega arith)

digit-lt : (a : ℕ) → a % 2 < 2
digit-lt a = omega arith

differ_comm : (x y : ℕ) → differ x y ≡ differ y x
differ_comm zero zero = refl
differ_comm zero (suc y) = refl
differ_comm (suc x) zero = refl
differ_comm (suc x) (suc y) = differ_comm x y

differ_cancel : (x y : ℕ) → IsDigit x → IsDigit y → differ (differ x y) y ≡ x
differ_cancel zero zero p q = refl
differ_cancel zero (suc zero) p q = refl
differ_cancel zero (suc (suc y)) p q = absurd (omega arith)
differ_cancel (suc zero) zero p q = refl
differ_cancel (suc zero) (suc zero) p q = refl
differ_cancel (suc zero) (suc (suc y)) p q = absurd (omega arith)
differ_cancel (suc (suc x)) y p q = absurd (omega arith)

bit_xor_half : (a b : ℕ) → bit_xor a b / 2 ≡ bit_xor (a / 2) (b / 2)
bit_xor_half a b =
    omega (arith, bit_xor_step a b, differ-lt (a % 2) (b % 2) (digit-lt a) (digit-lt b))

bit_xor_low : (a b : ℕ) → bit_xor a b % 2 ≡ differ (a % 2) (b % 2)
bit_xor_low a b =
    omega (arith, bit_xor_step a b, differ-lt (a % 2) (b % 2) (digit-lt a) (digit-lt b))

-- The exclusive or of two `k`-bit words is a `k`-bit word.
pub bit_xor-lt : (k a b : ℕ) → a < 2 ^ k → b < 2 ^ k → bit_xor a b < 2 ^ k
bit_xor-lt zero zero zero p q = omega (arith, zero-bit_xor 0)
bit_xor-lt zero (suc a) b p q = absurd (omega arith)
bit_xor-lt zero zero (suc b) p q = absurd (omega arith)
bit_xor-lt (suc k) a b p q = omega (
  arith,
  pow-suc 2 k,
  bit_xor_step a b,
  differ-lt (a % 2) (b % 2) (digit-lt a) (digit-lt b),
  bit_xor-lt k (a / 2) (b / 2) (omega (arith, pow-suc 2 k)) (omega (arith, pow-suc 2 k)),
)

bit_xor_comm_fuel : (k a b : ℕ) → a < 2 ^ k → b < 2 ^ k → bit_xor a b ≡ bit_xor b a
bit_xor_comm_fuel zero zero zero p q = refl
bit_xor_comm_fuel zero (suc a) b p q = absurd (omega arith)
bit_xor_comm_fuel zero zero (suc b) p q = absurd (omega arith)
bit_xor_comm_fuel (suc k) a b p q = omega (
  arith,
  bit_xor_step a b,
  bit_xor_step b a,
  differ_comm (a % 2) (b % 2),
  bit_xor_comm_fuel k (a / 2) (b / 2) (omega (arith, pow-suc 2 k)) (omega (arith, pow-suc 2 k)),
)

-- `(a ^ b) ^ b` is `a`, on `k`-bit words.
pub bit_xor_cancel : (k a b : ℕ) → a < 2 ^ k → b < 2 ^ k → bit_xor (bit_xor a b) b ≡ a
bit_xor_cancel zero zero zero p q = refl
bit_xor_cancel zero (suc a) b p q = absurd (omega arith)
bit_xor_cancel zero zero (suc b) p q = absurd (omega arith)
bit_xor_cancel (suc k) a b p q = omega (
  arith,
  bit_xor_step (bit_xor a b) b,
  ap (λ (t : ℕ). bit_xor t (b / 2)) (bit_xor_half a b),
  ap (λ (t : ℕ). differ t (b % 2)) (bit_xor_low a b),
  differ_cancel (a % 2) (b % 2) (digit-lt a) (digit-lt b),
  bit_xor_cancel k (a / 2) (b / 2) (omega (arith, pow-suc 2 k)) (omega (arith, pow-suc 2 k)),
)

-- `a ^ (b ^ a)` is `b`, on `k`-bit words.
pub bit_xor_cancel_left : (k a b : ℕ) → a < 2 ^ k → b < 2 ^ k → bit_xor a (bit_xor b a) ≡ b
bit_xor_cancel_left k a b p q =
    bit_xor_comm_fuel k a (bit_xor b a) p (bit_xor-lt k b a q p) ∙ bit_xor_cancel k b a q p
