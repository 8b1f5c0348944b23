-- ===== src/Wire/Writer.antt =====
-- crates/qq-wire/src/writer.rs: the writer with a hard output bound. A field whose payload does not
-- fit leaves its prefix behind.
pub mod Bounds
use lirvena.Base.{
  ℕ, ◌+◌, Bool, Option, none, some, List, [], ◌∷◌, ◌++◌, ltb, leb, if◌then◌else◌, length, Result,
  ok, err, ok_or, ensure, Method, run_on,
}
use lirvena.Base.Bytes.{to_be}
use lirvena.Base.Words.{u8_max, u16_max, u32_max, checked_add, try_from}
use lirvena.Wire.Prefix.{
  LengthPrefix, u8_payload, u8_inclusive, u16_payload, u16_inclusive, u32_payload, u32_inclusive,
  width, includes_prefix, WireError, length_overflow, length_limit_exceeded,
}

pub record WireWriter : Type 0 where
  pub output : List ℕ
  pub maximum : ℕ

abbrev pub new : ℕ → WireWriter
new maximum = record { output = []; maximum = maximum }

unfoldable pub ensure_growth : ℕ → WireWriter → Result (Unit {0}) WireError
ensure_growth additional w = elim (checked_add (length w.output) additional) [
  | none ↦ err length_overflow
  | some n ↦ ensure (leb n w.maximum) (length_limit_exceeded w.maximum n)
]

unfoldable pub put_bytes : List ℕ → Method WireWriter WireError (Unit {0})
unfolding ensure_growth
put_bytes bytes w =
    run_on (ensure_growth (length bytes) w, w)
      λ _ w. (ok tt, record w { output = w.output ++ bytes })

unfoldable pub put_u8 : ℕ → Method WireWriter WireError (Unit {0})
put_u8 value w = put_bytes (value ∷ []) w

unfoldable pub put_u16 : ℕ → Method WireWriter WireError (Unit {0})
put_u16 value w = put_bytes (to_be 2 value) w

unfoldable pub put_u32 : ℕ → Method WireWriter WireError (Unit {0})
put_u32 value w = put_bytes (to_be 4 value) w

unfoldable pub put_u64 : ℕ → Method WireWriter WireError (Unit {0})
put_u64 value w = put_bytes (to_be 8 value) w

-- The prefix's number: the length of the payload, and of the prefix where it counts itself.
abbrev pub declared_length : LengthPrefix → List ℕ → Result ℕ WireError
declared_length prefix bytes =
    if includes_prefix prefix
    then ok_or (checked_add (length bytes) (width prefix)) length_overflow
    else ok (length bytes)

-- `uN::try_from(declared)`, with the limit in the error.
abbrev pub narrow : ℕ → ℕ → Result ℕ WireError
narrow limit declared = ok_or (try_from limit declared) (length_limit_exceeded limit declared)

unfoldable pub put_declared : LengthPrefix → ℕ → Method WireWriter WireError (Unit {0})
put_declared u8_payload declared w = run_on (narrow u8_max declared, w) put_u8
put_declared u8_inclusive declared w = run_on (narrow u8_max declared, w) put_u8
put_declared u16_payload declared w = run_on (narrow u16_max declared, w) put_u16
put_declared u16_inclusive declared w = run_on (narrow u16_max declared, w) put_u16
put_declared u32_payload declared w = run_on (narrow u32_max declared, w) put_u32
put_declared u32_inclusive declared w = run_on (narrow u32_max declared, w) put_u32

unfoldable pub put_prefixed_bytes : LengthPrefix → List ℕ → Method WireWriter WireError (Unit {0})
put_prefixed_bytes prefix bytes w =
    run_on (declared_length prefix bytes, w)
      λ declared w. run_on (put_declared prefix declared w) λ _ w. put_bytes bytes w
