-- ===== src/Jce/Written.antt =====
-- The values that the writer writes, and that the reader reads each of them.
use mathlib.Core.List.{append_assoc}
use lirvena.Base.{
  ℕ, ◌<◌, ◌≤◌, ◌≡◌, ap, ◌∙◌, true, List, [], ◌++◌, length, All, arith, ok, Method, run_on,
}
use lirvena.Base.Int.{ℤ, pos}
use lirvena.Base.Text.{is_utf8}
use lirvena.Jce.{
  OnlinePacketError, packet_error, Reader, Reading, Head, take_bytes, advance, string_bytes, string,
  collection_count, simple_length, bytes, integer_list, skip_values, skip_collection, skip_value,
  skip_levels, skip, max_value_len, max_depth,
}
use lirvena.Jce
use lirvena.Jce.Kind
use lirvena.Jce.Writer
use lirvena.Jce.Writer.{is_zero, fits}
use lirvena.Jce.Cursor.{Takes, Reads, Reads-last, IsReader, rest_of}
use lirvena.Jce.RoundTrip.{
  head_bytes, head_lem, integer_kind, integer_bytes, field_of, integer_lem, IsI64, Reads-integer,
}
use lirvena.Jce.Values.{simple_bytes, bytes_lem, Reads-blob, items, integer_list_lem, Reads-list}
use lirvena.Jce.Strings.{
  Reads-headed, Reads-count, integer_kind-lt, string_kind, string_kind-lt, length_bytes, string_lem,
  Reads-string,
}

-- The values that the writer knows.
pub data Value : Type 0 where
  number : ℤ → Value
  text : List ℕ → Value
  blob : List ℕ → Value
  no_entries : Value
  numbers : List ℤ → Value

abbrev pub kind_of : Value → ℕ
kind_of (number v) = integer_kind v
kind_of (text xs) = string_kind xs
kind_of (blob xs) = Kind.simple_list
kind_of no_entries = Kind.map
kind_of (numbers vs) = Kind.list

-- What stands behind the head.
abbrev pub body_of : Value → List ℕ
body_of (number v) = integer_bytes v
body_of (text xs) = length_bytes xs ++ xs
body_of (blob xs) = simple_bytes xs ++ xs
body_of no_entries = field_of 0 (pos 0)
body_of (numbers vs) = field_of 0 (pos (length vs)) ++ items vs

-- The call of the writer.
abbrev pub write : ℕ → Value → Method (List ℕ) OnlinePacketError (Unit {0})
write tag (number v) w = (ok tt, Writer.integer tag v w)
write tag (text xs) w = Writer.string tag xs w
write tag (blob xs) w = Writer.bytes tag xs w
write tag no_entries w = (ok tt, Writer.empty_map tag w)
write tag (numbers vs) w = Writer.integer_list tag vs w

-- The call of the reader that a decoder makes for the sort of `like`.
abbrev pub read_like : Value → ℕ → Reading Value
read_like (number v) kind r = run_on (Jce.integer kind r) λ v r. (ok (number v), r)
read_like (text xs) kind r = run_on (string kind r) λ xs r. (ok (text xs), r)
read_like (blob xs) kind r = run_on (bytes kind r) λ xs r. (ok (blob xs), r)
read_like no_entries kind r = run_on (collection_count 0 r) λ n r. (ok no_entries, r)
read_like (numbers vs) kind r = run_on (integer_list kind 1000000 r) λ vs r. (ok (numbers vs), r)

-- Within the reader's bounds; a number is an `i64`, and a text is UTF-8.
abbrev pub IsValue : Value → Type 0
IsValue (number v) = IsI64 v
IsValue (text xs) = (length xs ≤ max_value_len) × (is_utf8 xs ≡ true)
IsValue (blob xs) = length xs ≤ max_value_len
IsValue no_entries = Unit {0}
IsValue (numbers vs) = (length vs ≤ 1000000) × All IsI64 vs

pub write_lem :
    (tag : ℕ) (v : Value) (w : List ℕ)
    → IsValue v
    → write tag v w ≡ (ok tt, w ++ (head_bytes tag (kind_of v) ++ body_of v))
write_lem tag (number v) w h = ap (λ ys. (ok tt, ys)) (integer_lem tag v w)
write_lem tag (text xs) w h = string_lem tag xs w (omega (arith, h.0))
write_lem tag (blob xs) w h = bytes_lem tag xs w (omega (arith, h))
write_lem tag no_entries w h =
    unfold Writer.empty_map in
    ap (λ ys. (ok tt, ys))
      (integer_lem 0 (pos 0) (Writer.head tag Kind.map w)
        ∙ ap (λ ys. ys ++ field_of 0 (pos 0)) (head_lem tag Kind.map w (omega arith))
        ∙ append_assoc w (head_bytes tag Kind.map) (field_of 0 (pos 0)))
write_lem tag (numbers vs) w h = integer_list_lem tag vs w (omega (arith, h.0))

pub kind_of-lt : (v : Value) → kind_of v < 16
kind_of-lt (number v) = integer_kind-lt v
kind_of-lt (text xs) = string_kind-lt xs
kind_of-lt (blob xs) = omega arith
kind_of-lt no_entries = omega arith
kind_of-lt (numbers vs) = omega arith

Reads-like :
    (v : Value) (rest : List ℕ) → IsValue v → Reads (read_like v (kind_of v)) (body_of v) v rest
Reads-like (number v) rest h = Reads-last (integer_bytes v) rest v number (Reads-integer v rest h)
Reads-like (text xs) rest h =
    Reads-last (length_bytes xs ++ xs) rest xs text (Reads-string xs rest h.0 h.1)
Reads-like (blob xs) rest h = Reads-last (simple_bytes xs ++ xs) rest xs blob (Reads-blob xs rest h)
Reads-like no_entries rest h =
    Reads-last (field_of 0 (pos 0)) rest 0 (λ _. no_entries)
      (Reads-count 0 0 rest (omega arith) (omega arith))
Reads-like (numbers vs) rest h =
    Reads-last (field_of 0 (pos (length vs)) ++ items vs) rest vs numbers
      (Reads-list 1000000 vs rest h.0 (omega (arith, h.0)) h.1)

-- What the writer writes, the reader reads: behind the head, with the tag, it takes the value and
-- leaves the bytes that follow. The value is within the bounds, the tag is a byte, and the reader
-- stands in front of what was written.
pub read-write :
    (tag : ℕ) (v : Value) (rest : List ℕ) (r : Reader)
    → tag < 256
    → IsValue v
    → IsReader r
    → rest_of r ≡ (write tag v []).1 ++ rest
    → Takes {A = ℕ × Value}
        (run_on (Jce.head r) λ h r. run_on (read_like v h.kind r) λ v r. (ok (h.tag, v), r))
        (tag, v)
        rest
read-write tag v rest r t h p e =
    let front : (write tag v []).1 ≡ head_bytes tag (kind_of v) ++ body_of v =
      ap (λ m. m.1) (write_lem tag v [] h) in
    Reads-headed (λ h r. run_on (read_like v h.kind r) λ v r. (ok (h.tag, v), r)) tag (kind_of v)
      (body_of v) rest (tag, v) t (kind_of-lt v)
      (Reads-last {B = ℕ × Value} (body_of v) rest v (λ (x : Value). (tag, x))
        (Reads-like v rest h))
      r p (e ∙ ap (λ ys. ys ++ rest) front)
