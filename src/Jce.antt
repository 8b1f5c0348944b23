-- ===== src/Jce.antt =====
-- crates/qq-online/src/push/jce: the tagged values inside a push, their reader and their writer. The
-- reader's methods leave it where an unsuccessful call has come to.
pub mod Kind
pub mod Cursor
pub mod Writer
pub mod RoundTrip
pub mod Values
pub mod Strings
pub mod Skip
pub mod Written
pub mod Forward
pub mod Ends
pub mod Named
pub mod Parameters
pub mod Gives
pub mod Lookup
mod Tests
use lirvena.Base.{
  ℕ, zero, suc, ◌+◌, ◌-◌, ◌*◌, ◌/◌, ◌%◌, ◌^◌, Bool, true, false, not, ◌&&◌, ◌||◌, ◌==◌, ltb, leb,
  if◌then◌else◌, Option, none, some, List, [], ◌∷◌, ◌++◌, length, take, drop, get_or, Result, ok,
  err, ok_or, ensure, Method, run_on,
}
use lirvena.Base.Bits.{bit_and}
use lirvena.Base.Bytes.{from_be, same_bytes}
use lirvena.Base.Int.{ℤ, pos, negsuc, signed}
use lirvena.Base.Text.{is_utf8}
use lirvena.Base.Words.{checked_add}
use lirvena.Jce.Kind

pub data OnlinePacketError : Type 0 where
  packet_error : OnlinePacketError

abbrev pub max_value_len : ℕ
max_value_len = 1048576

abbrev pub max_depth : ℕ
max_depth = 24

abbrev pub max_named_values : ℕ
max_named_values = 32

pub record Head : Type 0 where
  pub tag : ℕ
  pub kind : ℕ

pub record Reader : Type 0 where
  pub input : List ℕ
  pub position : ℕ

abbrev pub new : List ℕ → Reader
new input = record { input = input; position = 0 }

abbrev pub remaining : Reader → ℕ
remaining r = length r.input - r.position

abbrev pub Reading : Type 0 → Type 0
Reading A = Method Reader OnlinePacketError A

-- `Reader::take`
unfoldable pub take_bytes : ℕ → Reading (List ℕ)
take_bytes n r =
    run_on (ok_or (checked_add r.position n) packet_error, r)
      λ end r.
        if ltb (length r.input) end
        then (err packet_error, r)
        else (ok (take n (drop r.position r.input)), record r { position = end })

unfoldable pub advance : ℕ → Reading (Unit {0})
advance n r = run_on (take_bytes n r) λ _ r. (ok tt, r)

unfoldable pub byte : Reading ℕ
byte r =
    if ltb r.position (length r.input)
    then (ok (get_or (drop r.position r.input) 0 0), record r { position = r.position + 1 })
    else (err packet_error, r)

-- `from_be_bytes` of an array of `n` bytes.
unfoldable pub number : ℕ → Reading ℕ
number n r = run_on (take_bytes n r) λ bytes r. (ok (from_be bytes), r)

unfoldable pub head : Reading Head
head r = run_on (byte r) λ raw r.
    let kind = bit_and raw 0x0f in
    if raw / 2 ^ 4 == 15
    then (run_on (byte r) λ tag r. (ok (record { tag = tag; kind = kind }), r))
    else (ok (record { tag = raw / 2 ^ 4; kind = kind }), r)

unfoldable pub integer : ℕ → Reading ℤ
integer kind r =
    if kind == Kind.zero
    then (ok (pos 0), r)
    else if kind == Kind.byte
    then (run_on (byte r) λ v r. (ok (signed 8 v), r))
    else if kind == Kind.short
    then (run_on (number 2 r) λ v r. (ok (signed 16 v), r))
    else if kind == Kind.int
    then (run_on (number 4 r) λ v r. (ok (signed 32 v), r))
    else if kind == Kind.long
    then (run_on (number 8 r) λ v r. (ok (signed 64 v), r))
    else (err packet_error, r)

unfoldable pub string_length : ℕ → Reading ℕ
string_length kind r =
    if kind == Kind.string_one
    then byte r
    else if kind == Kind.string_four
    then number 4 r
    else (err packet_error, r)

unfoldable pub string_bytes : ℕ → Reading (List ℕ)
string_bytes kind r =
    run_on (string_length kind r)
      λ n r. if ltb max_value_len n then (err packet_error, r) else take_bytes n r

unfoldable pub string : ℕ → Reading (List ℕ)
string kind r = run_on (string_bytes kind r) λ bytes r. (ensure_text bytes, r)
  where
    ensure_text : List ℕ → Result (List ℕ) OnlinePacketError
    ensure_text bytes = if is_utf8 bytes then ok bytes else err packet_error

-- `usize::try_from` of an `i64`, and the bound.
abbrev pub count_of : ℕ → ℤ → Result ℕ OnlinePacketError
count_of maximum (pos n) = if ltb maximum n then err packet_error else ok n
count_of maximum (negsuc n) = err packet_error

unfoldable pub collection_count : ℕ → Reading ℕ
collection_count maximum r =
    run_on (head r) λ h r. run_on (integer h.kind r) λ n r. (count_of maximum n, r)

-- The length of a `SIMPLE_LIST`.
unfoldable pub simple_length : Reading ℕ
simple_length r = run_on (head r) λ h r.
    if not (h.kind == Kind.byte) then (err packet_error, r) else collection_count max_value_len r

unfoldable pub bytes : ℕ → Reading (List ℕ)
bytes kind r =
    if not (kind == Kind.simple_list)
    then string_bytes kind r
    else (run_on (simple_length r) λ n r. take_bytes n r)

-- The loop of `integer_list`.
unfoldable pub integers : ℕ → Reading (List ℤ)
integers zero r = (ok [], r)
integers (suc n) r =
    run_on (head r)
      λ h r. run_on (integer h.kind r) λ v r. run_on (integers n r) λ vs r. (ok (v ∷ vs), r)

unfoldable pub integer_list : ℕ → ℕ → Reading (List ℤ)
integer_list kind maximum r =
    if not (kind == Kind.list)
    then (err packet_error, r)
    else (run_on (collection_count maximum r) λ n r. integers n r)

-- The loop of `skip_collection`, over `one` value.
unfoldable pub skip_values : (ℕ → Reading (Unit {0})) → ℕ → Reading (Unit {0})
skip_values one zero r = (ok tt, r)
skip_values one (suc n) r = run_on (head r) λ h r. run_on (one h.kind r) λ _ r. skip_values one n r

-- `checked_mul` does not fail on a count of at most a million.
unfoldable pub skip_collection : (ℕ → Reading (Unit {0})) → Bool → Reading (Unit {0})
skip_collection one pairs r =
    run_on (collection_count 1000000 r) λ n r. skip_values one (if pairs then n * 2 else n) r

-- The loop of `skip_struct`. Each turn reads a byte at least, so that as many turns as bytes are left
-- are enough.
unfoldable pub skip_fields : (ℕ → Reading (Unit {0})) → ℕ → Reading (Unit {0})
skip_fields one zero r = (err packet_error, r)
skip_fields one (suc turns) r =
    if remaining r == 0
    then (err packet_error, r)
    else (run_on (head r) λ h r.
        if h.kind == Kind.struct_end
        then (ok tt, r)
        else (run_on (one h.kind r) λ _ r. skip_fields one turns r))

unfoldable pub skip_struct : (ℕ → Reading (Unit {0})) → Reading (Unit {0})
skip_struct one r = skip_fields one (remaining r) r

-- One value, by its kind, with `one` for the values inside.
unfoldable pub skip_value : (ℕ → Reading (Unit {0})) → ℕ → Reading (Unit {0})
skip_value one kind r =
    if kind == Kind.zero || kind == Kind.struct_end
    then (ok tt, r)
    else if kind == Kind.byte
    then advance 1 r
    else if kind == Kind.short
    then advance 2 r
    else if kind == Kind.int || kind == 4
    then advance 4 r
    else if kind == Kind.long || kind == 5
    then advance 8 r
    else if kind == Kind.string_one || kind == Kind.string_four
    then (run_on (string_bytes kind r) λ _ r. (ok tt, r))
    else if kind == Kind.simple_list
    then (run_on (simple_length r) λ n r. advance n r)
    else if kind == Kind.map
    then skip_collection one true r
    else if kind == Kind.list
    then skip_collection one false r
    else if kind == Kind.struct_begin
    then skip_struct one r
    else (err packet_error, r)

-- `skip` at the depth that leaves `levels` levels below `max_depth + 1`.
unfoldable pub skip_levels : ℕ → ℕ → Reading (Unit {0})
skip_levels zero kind r = (err packet_error, r)
skip_levels (suc levels) kind r = skip_value (skip_levels levels) kind r

unfoldable pub skip : ℕ → ℕ → Reading (Unit {0})
unfolding skip_levels
skip kind depth r = skip_levels (max_depth + 1 - depth) kind r
