-- ===== src/Wire/Reader.antt =====
-- crates/qq-wire/src/reader.rs: the forward-only reader. A method returns its result and the
-- reader after the call, which keeps what an unsuccessful call has consumed.
pub mod Cursor
pub mod Fields
use lirvena.Base.{
  ℕ, ◌+◌, ◌-◌, Bool, List, Option, none, some, ltb, ◌==◌, if◌then◌else◌, length, take, drop, get_or,
  Result, ok, err, and_then, ok_or, ensure, Method, run_on,
}
use lirvena.Base.Bytes.{from_be}
use lirvena.Base.Int.{ℤ, signed}
use lirvena.Base.Words.{u64_max, checked_add, checked_sub, try_from}
use lirvena.Wire.Prefix.{
  LengthPrefix, u8_payload, u8_inclusive, u16_payload, u16_inclusive, u32_payload, u32_inclusive,
  width, includes_prefix, WireError, truncated, trailing_bytes, length_overflow,
  length_limit_exceeded, invalid_inclusive_length,
}

pub record WireReader : Type 0 where
  pub input : List ℕ
  pub cursor : ℕ

abbrev pub new : List ℕ → WireReader
new input = record { input = input; cursor = 0 }

abbrev pub remaining : WireReader → ℕ
remaining r = length r.input - r.cursor

-- The tests of `read_bytes`, then the slice and the moved cursor.
unfoldable pub read_bytes : ℕ → Method WireReader WireError (List ℕ)
read_bytes n r =
    run_on (ok_or (checked_add r.cursor n) length_overflow, r)
      λ end r.
        if ltb (length r.input) end
        then (err (truncated n (remaining r)), r)
        else (ok (take n (drop r.cursor r.input)), record r { cursor = end })

unfoldable pub read_u8 : Method WireReader WireError ℕ
read_u8 r = run_on (read_bytes 1 r) λ bytes r. (ok (get_or bytes 0 0), r)

-- `read_array::<N>` and `from_be_bytes`.
unfoldable pub read_be : ℕ → Method WireReader WireError ℕ
read_be n r = run_on (read_bytes n r) λ bytes r. (ok (from_be bytes), r)

unfoldable pub read_u16 : Method WireReader WireError ℕ
unfolding read_be
read_u16 r = read_be 2 r

unfoldable pub read_u32 : Method WireReader WireError ℕ
unfolding read_be
read_u32 r = read_be 4 r

unfoldable pub read_u64 : Method WireReader WireError ℕ
unfolding read_be
read_u64 r = read_be 8 r

unfoldable pub read_i32 : Method WireReader WireError ℤ
unfolding read_be
read_i32 r = run_on (read_be 4 r) λ word r. (ok (signed 32 word), r)

-- The declared length, in the prefix's own width.
unfoldable pub read_declared : LengthPrefix → Method WireReader WireError ℕ
read_declared u8_payload r = read_u8 r
read_declared u8_inclusive r = read_u8 r
read_declared u16_payload r = read_u16 r
read_declared u16_inclusive r = read_u16 r
read_declared u32_payload r =
    run_on (read_u32 r) λ word r. (ok_or (try_from u64_max word) length_overflow, r)
read_declared u32_inclusive r =
    run_on (read_u32 r) λ word r. (ok_or (try_from u64_max word) length_overflow, r)

abbrev pub payload_length : LengthPrefix → ℕ → Result ℕ WireError
payload_length prefix declared =
    if includes_prefix prefix
    then ok_or (checked_sub declared (width prefix)) invalid_inclusive_length
    else ok declared

unfoldable pub read_prefixed_bytes : LengthPrefix → ℕ → Method WireReader WireError (List ℕ)
read_prefixed_bytes prefix maximum r = run_on (read_declared prefix r) λ declared r.
    run_on (payload_length prefix declared, r)
      λ n r. if ltb maximum n then (err (length_limit_exceeded maximum n), r) else read_bytes n r

unfoldable pub finish : WireReader → Result (Unit {0}) WireError
finish r = ensure (remaining r == 0) (trailing_bytes (remaining r))
