-- ===== src/Wire/Prefix.antt =====
-- crates/qq-wire/src/error.rs: the length prefixes and the errors of the codec.
use lirvena.Base.{ℕ, Bool, true, false}

pub data LengthPrefix : Type 0 where
  u8_payload u8_inclusive u16_payload u16_inclusive u32_payload u32_inclusive : LengthPrefix

abbrev pub width : LengthPrefix → ℕ
width u8_payload = 1
width u8_inclusive = 1
width u16_payload = 2
width u16_inclusive = 2
width u32_payload = 4
width u32_inclusive = 4

abbrev pub includes_prefix : LengthPrefix → Bool
includes_prefix u8_payload = false
includes_prefix u8_inclusive = true
includes_prefix u16_payload = false
includes_prefix u16_inclusive = true
includes_prefix u32_payload = false
includes_prefix u32_inclusive = true

pub data WireError : Type 0 where
  -- needed, available
  truncated : ℕ → ℕ → WireError
  -- remaining
  trailing_bytes : ℕ → WireError
  length_overflow : WireError
  -- limit, actual
  length_limit_exceeded : ℕ → ℕ → WireError
  invalid_inclusive_length : WireError
