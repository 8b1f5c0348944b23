-- ===== src/Base/Int.antt =====
-- Signed integers over the native numbers, under the library's names, and the two's complement
-- reading of a word.
use lirvena.Base.{ℕ, ◌-◌, ◌*◌, ◌%◌, ◌^◌, ltb, if◌then◌else◌}

-- `negsuc n` is -(n + 1).
pub data ℤ : Type 0 where
  pos : ℕ → ℤ
  negsuc : ℕ → ℤ

-- The integer that a word of `w` bits stands for, and the word of an integer.
abbrev pub signed : ℕ → ℕ → ℤ
signed w v = if ltb (v * 2) (2 ^ w) then pos v else negsuc (2 ^ w - v - 1)

abbrev pub unsigned : ℕ → ℤ → ℕ
unsigned w (pos n) = n % 2 ^ w
unsigned w (negsuc n) = (2 ^ w - 1 - n % 2 ^ w) % 2 ^ w
