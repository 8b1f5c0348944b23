-- ===== src/Jce/Tests.antt =====
-- Values of a small push.
use lirvena.Base.{ℕ, ◌<◌, ◌≡◌, refl, List, [], ◌∷◌, ◌++◌, length, arith, ok, run_on}
use lirvena.Base.Bytes.{to_be, same_bytes}
use lirvena.Base.Int.{pos, negsuc}
use lirvena.Base.Text.{is_utf8, utf8_from}
use lirvena.Jce.{Reader, new, head, skip, skip_fields, skip_struct, skip_levels}
use lirvena.Jce.Cursor.{Takes, IsReader}
use lirvena.Jce.Skip.{skip-write}
use lirvena.Jce.Written.{Value, number, numbers, write, read_like, read-write}
use lirvena.Jce.Forward.{Moves, skip-Moves}
use lirvena.Jce.Ends.{skip_struct-enough}
use lirvena.Jce.Named.{named_payload}
use lirvena.Jce.Parameters.{Parameter, typed, other, AreParameters, named_layout}
use lirvena.Jce.Lookup.{named_payload-layout}
use lirvena.Jce.Writer

abbrev sample : Value
sample = numbers (pos 300 ∷ negsuc 0 ∷ [])

-- Under the tag 20, with a byte behind it.
abbrev written : List ℕ
written = (write 20 sample []).1 ++ 7 ∷ []

start-IsReader : IsReader (new written)
unfolding Writer.integer_list Writer.integers Writer.integer Writer.head to_be
start-IsReader = record { within = omega arith; sized = omega arith }

read-write_example :
    Takes {A = ℕ × Value}
      (run_on
        (head (new written))
        λ h r. run_on (read_like sample h.kind r) λ v r. (ok (h.tag, v), r))
      (20, sample)
      (7 ∷ [])
read-write_example =
    read-write 20 sample (7 ∷ []) (new written) (omega arith) (omega arith, (refl, (refl, tt)))
      start-IsReader refl

skip-write_example : Takes (run_on (head (new written)) λ h r. skip h.kind 3 r) tt (7 ∷ [])
skip-write_example =
    skip-write 20 3 sample (7 ∷ []) (new written) (omega arith) (omega arith)
      (omega arith, (refl, (refl, tt))) start-IsReader refl

-- A struct that is never closed.
abbrev unclosed : Reader
unclosed = new (10 ∷ 12 ∷ 12 ∷ [])

unclosed-IsReader : IsReader unclosed
unclosed-IsReader = record { within = omega arith; sized = omega arith }

skip-Moves_example : Moves unclosed (skip 10 0 unclosed)
skip-Moves_example = skip-Moves 10 0 unclosed unclosed-IsReader

skip_struct-enough_example :
    skip_fields (skip_levels 2) 8 unclosed ≡ skip_struct (skip_levels 2) unclosed
skip_struct-enough_example = skip_struct-enough 2 5 unclosed unclosed-IsReader

abbrev name : List ℕ
name = b'p' ∷ []

abbrev type_name : List ℕ
type_name = b't' ∷ []

-- A number under another name, the wanted type under a third, and two types under the name.
abbrev parameters : List Parameter
parameters =
    (b'a' ∷ [], other (number (pos 7)))
    ∷ (b'b' ∷ [], typed ((type_name, 9 ∷ []) ∷ []))
    ∷ (name, typed ((b'u' ∷ [], 8 ∷ []) ∷ (type_name, 1 ∷ 2 ∷ []) ∷ []))
    ∷ []

parameters-AreParameters : AreParameters parameters
unfolding is_utf8 utf8_from
parameters-AreParameters = (
  ((omega arith, refl), (refl, refl)),
  (
    ((omega arith, refl), (omega arith, (((omega arith, refl), omega arith), tt))),
    (
      (
        (omega arith, refl),
        (
          omega arith,
          (((omega arith, refl), omega arith), (((omega arith, refl), omega arith), tt)),
        ),
      ),
      tt,
    ),
  ),
)

parameters-sized : length (named_layout parameters ++ 7 ∷ []) < 9223372036854775808
unfolding to_be
parameters-sized = omega arith

named_payload-layout_example :
    named_payload (named_layout parameters ++ 7 ∷ []) name type_name ≡ ok (1 ∷ 2 ∷ [])
unfolding same_bytes
named_payload-layout_example =
    named_payload-layout name type_name parameters (7 ∷ []) (omega arith) parameters-AreParameters
      parameters-sized
