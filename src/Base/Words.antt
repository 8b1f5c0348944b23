-- ===== src/Base/Words.antt =====
-- Machine words: a word is a number, and each operation cuts its result as the hardware does.
-- `usize` has 64 bits.
use lirvena.Base.{
  ℕ, ◌+◌, ◌-◌, ◌*◌, ◌/◌, ◌%◌, ◌^◌, ◌<◌, ◌≡◌, arith, leb, if◌then◌else◌, Option, none, some,
}

abbrev pub u8_max : ℕ
u8_max = 255

abbrev pub u16_max : ℕ
u16_max = 65535

abbrev pub u32_max : ℕ
u32_max = 4294967295

abbrev pub u64_max : ℕ
u64_max = 18446744073709551615

-- `u8::try_from` and the like: the value, if it is at most `limit`.
abbrev pub try_from : ℕ → ℕ → Option ℕ
try_from limit v = if leb v limit then some v else none

-- `checked_add` on `u64` and `usize`.
abbrev pub checked_add : ℕ → ℕ → Option ℕ
checked_add a b = try_from u64_max (a + b)

-- `checked_sub`.
abbrev pub checked_sub : ℕ → ℕ → Option ℕ
checked_sub a b = if leb b a then some (a - b) else none

-- `u32` arithmetic that wraps. The second operand of the difference is read as a `u32`.
unfoldable pub wrapping_add : ℕ → ℕ → ℕ
wrapping_add a b = (a + b) % 2 ^ 32

unfoldable pub wrapping_sub : ℕ → ℕ → ℕ
wrapping_sub a b = (a + 2 ^ 32 - b % 2 ^ 32) % 2 ^ 32

unfoldable pub wrapping_mul : ℕ → ℕ → ℕ
wrapping_mul a b = a * b % 2 ^ 32

unfoldable pub wrapping_shl : ℕ → ℕ → ℕ
wrapping_shl a k = a * 2 ^ k % 2 ^ 32

unfoldable pub wrapping_shr : ℕ → ℕ → ℕ
wrapping_shr a k = a / 2 ^ k

pub wrapping_add-lt : (a b : ℕ) → wrapping_add a b < 2 ^ 32
unfolding wrapping_add
wrapping_add-lt a b = omega arith

pub wrapping_sub-lt : (a b : ℕ) → wrapping_sub a b < 2 ^ 32
unfolding wrapping_sub
wrapping_sub-lt a b = omega arith

-- Subtraction undoes addition, and the other way round, whatever was added.
pub wrapping_sub-add : (a b : ℕ) → a < 2 ^ 32 → wrapping_sub (wrapping_add a b) b ≡ a
unfolding wrapping_add wrapping_sub
wrapping_sub-add a b h = omega arith

pub wrapping_add-sub : (a b : ℕ) → a < 2 ^ 32 → wrapping_add (wrapping_sub a b) b ≡ a
unfolding wrapping_add wrapping_sub
wrapping_add-sub a b h = omega arith
