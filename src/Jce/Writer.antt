-- ===== src/Jce/Writer.antt =====
-- crates/qq-online/src/push/jce/writer.rs: the writer, which is the bytes so far.
use lirvena.Base.{
  ℕ, ◌*◌, ◌%◌, ◌^◌, Bool, false, ◌==◌, ltb, if◌then◌else◌, none, some, List, [], ◌∷◌, ◌++◌, length,
  ok, ok_or, Method, run_on,
}
use lirvena.Base.Bits.{bit_or}
use lirvena.Base.Bytes.{to_be}
use lirvena.Base.Int.{ℤ, pos, negsuc, unsigned}
use lirvena.Base.Words.{u8_max, u32_max, try_from}
use lirvena.Jce.{OnlinePacketError, packet_error}
use lirvena.Jce.Kind

abbrev pub Writer : Type 0
Writer = List ℕ

unfoldable pub head : ℕ → ℕ → Writer → Writer
head tag kind w =
    if ltb tag 15
    then w ++ bit_or (tag * 2 ^ 4 % 256) kind ∷ []
    else w ++ bit_or 0xf0 kind ∷ tag ∷ []

abbrev pub is_zero : ℤ → Bool
is_zero (pos n) = n == 0
is_zero (negsuc n) = false

-- `i8::try_from` and the like succeed: the number is from -`half` on and below `half`.
abbrev pub fits : ℕ → ℤ → Bool
fits half (pos n) = ltb n half
fits half (negsuc n) = ltb n half

unfoldable pub integer : ℕ → ℤ → Writer → Writer
integer tag value w =
    if is_zero value
    then head tag Kind.zero w
    else if fits 128 value
    then head tag Kind.byte w ++ to_be 1 (unsigned 8 value)
    else if fits 32768 value
    then head tag Kind.short w ++ to_be 2 (unsigned 16 value)
    else if fits 2147483648 value
    then head tag Kind.int w ++ to_be 4 (unsigned 32 value)
    else head tag Kind.long w ++ to_be 8 (unsigned 64 value)

-- What stands before the bytes of a string.
unfoldable pub string_head : ℕ → List ℕ → Method Writer OnlinePacketError (Unit {0})
string_head tag value w = elim (try_from u8_max (length value)) [
  | some n ↦ (ok tt, head tag Kind.string_one w ++ n ∷ [])
  | none ↦
      let w = head tag Kind.string_four w in
      run_on (ok_or (try_from u32_max (length value)) packet_error, w)
        λ n w. (ok tt, w ++ to_be 4 n)
]

unfoldable pub string : ℕ → List ℕ → Method Writer OnlinePacketError (Unit {0})
string tag value w = run_on (string_head tag value w) λ _ w. (ok tt, w ++ value)

-- `i64::try_from` of a length, which is that of a Rust slice.
unfoldable pub bytes : ℕ → List ℕ → Method Writer OnlinePacketError (Unit {0})
bytes tag value w =
    let w = head 0 Kind.byte (head tag Kind.simple_list w) in
    run_on (ok_or (try_from 9223372036854775807 (length value)) packet_error, w)
      λ n w. (ok tt, integer 0 (pos n) w ++ value)

unfoldable pub empty_map : ℕ → Writer → Writer
empty_map tag w = integer 0 (pos 0) (head tag Kind.map w)

-- The loop of `integer_list`.
unfoldable pub integers : List ℤ → Writer → Writer
integers [] w = w
integers (v ∷ vs) w = integers vs (integer 0 v w)

unfoldable pub integer_list : ℕ → List ℤ → Method Writer OnlinePacketError (Unit {0})
integer_list tag values w =
    run_on (ok_or (try_from 9223372036854775807 (length values)) packet_error, head tag Kind.list w)
      λ n w. (ok tt, integers values (integer 0 (pos n) w))
