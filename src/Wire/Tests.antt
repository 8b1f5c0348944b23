-- ===== src/Wire/Tests.antt =====
-- The reader and the writer at concrete inputs.
use lirvena.Base.{◌≡◌, ◌↔◌, refl, [], ◌∷◌, ◌++◌, ok, err, arith}
use lirvena.Base.Bytes.{to_be, from_be}
use lirvena.Wire.Prefix.{u16_inclusive, length_limit_exceeded}
use lirvena.Wire.Reader.{WireReader, read_prefixed_bytes, read_declared, read_u16, read_bytes}
use lirvena.Wire.Reader.Cursor.{IsReader}
use lirvena.Wire.Reader.Fields.{Field, read_prefixed_bytes_iff}
use lirvena.Wire.Writer.{WireWriter, put_prefixed_bytes, put_declared, put_u16, put_bytes}
use lirvena.Wire.Writer.Bounds.{IsWriter, Grows, put_prefixed_bytes-Grows}
use lirvena.Wire.RoundTrip.{read-put_prefixed_bytes}

abbrev packet : WireReader
packet = record { input = 0 ∷ 5 ∷ 1 ∷ 2 ∷ 3 ∷ 9 ∷ []; cursor = 0 }

packet-IsReader : IsReader packet
packet-IsReader = record { within = omega arith; sized = omega arith; bytes = omega arith }

abbrev after_field : WireReader
after_field = record { input = packet.input; cursor = 5 }

read_prefixed_bytes_iff_example :
    (read_prefixed_bytes u16_inclusive 3 packet ≡ (ok (1 ∷ 2 ∷ 3 ∷ []), after_field))
    ↔ Field u16_inclusive 3 packet (1 ∷ 2 ∷ 3 ∷ []) after_field
read_prefixed_bytes_iff_example =
    read_prefixed_bytes_iff u16_inclusive 3 packet (1 ∷ 2 ∷ 3 ∷ []) after_field packet-IsReader

packet_read : read_prefixed_bytes u16_inclusive 3 packet ≡ (ok (1 ∷ 2 ∷ 3 ∷ []), after_field)
unfolding read_prefixed_bytes read_declared read_u16 read_bytes from_be
packet_read = refl

-- The bound is checked after the prefix has been consumed.
packet_over :
    read_prefixed_bytes u16_inclusive 2 packet
    ≡ (err (length_limit_exceeded 2 3), record { input = packet.input; cursor = 2 })
unfolding read_prefixed_bytes read_declared read_u16 read_bytes from_be
packet_over = refl

abbrev started : WireWriter
started = record { output = 7 ∷ []; maximum = 10 }

abbrev written : WireWriter
written = record { output = 7 ∷ 0 ∷ 4 ∷ 1 ∷ 2 ∷ []; maximum = 10 }

started-IsWriter : IsWriter started
started-IsWriter = record { bounded = omega arith; sized = omega arith }

written_field : put_prefixed_bytes u16_inclusive (1 ∷ 2 ∷ []) started ≡ (ok tt, written)
unfolding put_prefixed_bytes put_declared put_u16 put_bytes to_be
written_field = refl

put_prefixed_bytes-Grows_example :
    Grows started (put_prefixed_bytes u16_inclusive (1 ∷ 2 ∷ []) started).1
put_prefixed_bytes-Grows_example =
    put_prefixed_bytes-Grows u16_inclusive (1 ∷ 2 ∷ []) started started-IsWriter (omega arith)

read-put_prefixed_bytes_example :
    read_prefixed_bytes u16_inclusive 8
      (record { input = written.output ++ (5 ∷ 6 ∷ []); cursor = 1 })
    ≡ (ok (1 ∷ 2 ∷ []), record { input = written.output ++ (5 ∷ 6 ∷ []); cursor = 5 })
read-put_prefixed_bytes_example =
    read-put_prefixed_bytes u16_inclusive (1 ∷ 2 ∷ []) (5 ∷ 6 ∷ []) 8 started written
      started-IsWriter (omega arith) (omega arith) (omega arith) (omega arith) (omega arith)
      (omega arith) written_field
