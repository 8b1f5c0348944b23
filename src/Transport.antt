-- ===== src/Transport.antt =====
-- crates/qq-transport/src/tcp.rs, config.rs and error.rs: length-delimited frames over a stream. The
-- stream is what it will deliver, in the order of the calls that read it: the bytes of a call, an
-- elapsed deadline or a failure. Where nothing is left it has ended. A record keeps the part of
-- each buffer that is filled; DNS and the opening of the connection are not modelled.
pub mod Stream
pub mod Filled
pub mod Framing
pub mod Phases
pub mod Sequence
mod Tests
use lirvena.Base.{
  ℕ, suc, zero, ◌+◌, ◌-◌, Bool, true, false, ◌||◌, ◌==◌, not, ltb, if◌then◌else◌, Option, none,
  some, List, [], ◌∷◌, ◌++◌, length, take, drop, is_empty, Result, ok, err, ensure, and_then,
  Method, run_on,
}
use lirvena.Base.Bytes.{from_be}

pub data QqEndpoint : Type 0 where
  primary alternate : QqEndpoint

pub data TransportError : Type 0 where
  invalid_configuration invalid_frame io timeout : TransportError

-- Durations are numbers of nanoseconds.
pub record TransportConfig : Type 0 where
  pub connect_timeout : ℕ
  pub io_timeout : ℕ
  pub maximum_frame_len : ℕ

abbrev pub hard_max_frame_len : ℕ
hard_max_frame_len = 2097152

-- `TransportConfig::new`
unfoldable pub new_config : ℕ → ℕ → ℕ → Result TransportConfig TransportError
new_config connect_timeout io_timeout maximum_frame_len =
    if connect_timeout == 0
      || io_timeout == 0
      || ltb maximum_frame_len 4
      || ltb hard_max_frame_len maximum_frame_len
    then err invalid_configuration
    else ok (record {
      connect_timeout = connect_timeout;
      io_timeout = io_timeout;
      maximum_frame_len = maximum_frame_len;
    })

-- What the next call of `AsyncRead::read` meets.
pub data Arrival : Type 0 where
  arrived : List ℕ → Arrival
  elapsed broken : Arrival

-- One call on a buffer of `room` bytes: it takes what has arrived, as far as there is room, and
-- returns no bytes at the end of the stream.
unfoldable pub read : ℕ → Method (List Arrival) TransportError (List ℕ)
read room [] = (ok [], [])
read room (elapsed ∷ later) = (err timeout, later)
read room (broken ∷ later) = (err io, later)
read room (arrived xs ∷ later) =
    if ltb room (length xs)
    then (ok (take room xs), arrived (drop room xs) ∷ later)
    else (ok xs, later)

-- `prefix` is `read_prefix[..read_prefix_len]`, `declared` is `read_frame.len()` and `frame` is
-- `read_frame[..read_frame_len]`. `sent` is what the peer has been sent.
pub record QqTransport : Type 0 where
  pub stream : List Arrival
  pub config : TransportConfig
  pub prefix : List ℕ
  pub declared : ℕ
  pub frame : List ℕ
  pub sent : List ℕ

unfoldable pub from_stream : List Arrival → TransportConfig → QqTransport
from_stream stream config = record {
  stream = stream;
  config = config;
  prefix = [];
  declared = 0;
  frame = [];
  sent = [];
}

-- A buffer of `size` bytes, of which `filled` are in place, and the stream.
pub record Filling : Type 0 where
  pub filled : List ℕ
  pub stream : List Arrival

-- A loop of `read_frame`: it reads until the buffer is full. Each turn adds a byte, so that as many
-- turns as bytes are missing are enough.
unfoldable pub fill_loop : ℕ → ℕ → Method Filling TransportError (Unit {0})
fill_loop zero size f = (ok tt, f)
fill_loop (suc turns) size f = elim (ltb (length f.filled) size) [
  | false ↦ (ok tt, f)
  | true ↦
      let (result, later) = read (size - length f.filled) f.stream in
      elim result [
        | err e ↦ (err e, record f { stream = later })
        | ok got ↦ elim (is_empty got) [
          | true ↦ (err io, record f { stream = later })
          | false ↦ fill_loop turns size (record { filled = f.filled ++ got; stream = later })
        ]
      ]
]

unfoldable pub fill : ℕ → Method Filling TransportError (Unit {0})
fill size f = fill_loop (size - length f.filled) size f

unfoldable pub fill_prefix : Method QqTransport TransportError (Unit {0})
fill_prefix t =
    let (result, f) = fill 4 (record { filled = t.prefix; stream = t.stream }) in
    (result, record t { prefix = f.filled; stream = f.stream })

-- The length that the prefix declares, which becomes the size of the frame's buffer. The
-- conversion of a `u32` to a `usize` does not fail on the targets of 64 bits.
unfoldable pub open_frame : Method QqTransport TransportError (Unit {0})
open_frame t =
    let declared = from_be t.prefix in
    if not (t.declared == 0)
    then (ok tt, t)
    else if ltb declared 4 || ltb t.config.maximum_frame_len declared
    then (err invalid_frame, t)
    else (ok tt, record t { declared = declared; frame = t.prefix })

unfoldable pub fill_frame : Method QqTransport TransportError (Unit {0})
fill_frame t =
    let (result, f) = fill t.declared (record { filled = t.frame; stream = t.stream }) in
    (result, record t { frame = f.filled; stream = f.stream })

unfoldable pub read_frame : Method QqTransport TransportError (List ℕ)
read_frame t = run_on (fill_prefix t) λ _ t. run_on (open_frame t) λ _ t.
    run_on (fill_frame t) λ _ t. (ok t.frame, record t { prefix = []; declared = 0; frame = [] })

unfoldable pub validate_complete_frame : List ℕ → ℕ → Result (Unit {0}) TransportError
validate_complete_frame frame maximum =
    if ltb (length frame) 4
    then err invalid_frame
    else let declared = from_be (take 4 frame) in
      if not (declared == length frame) || ltb maximum declared then err invalid_frame else ok tt

-- How far the stream takes a write of the whole frame, or a flush.
pub data Delivery : Type 0 where
  delivered : Delivery
  cut_short : ℕ → TransportError → Delivery

unfoldable pub write_frame :
    Delivery → Delivery → List ℕ → Method QqTransport TransportError (Unit {0})
unfolding validate_complete_frame
write_frame writing flushing frame t =
    run_on (validate_complete_frame frame t.config.maximum_frame_len, t)
      λ _ t. elim writing [
        | cut_short n e ↦ (err e, record t { sent = t.sent ++ take n frame })
        | delivered ↦ elim flushing [
          | cut_short n e ↦ (err e, record t { sent = t.sent ++ frame })
          | delivered ↦ (ok tt, record t { sent = t.sent ++ frame })
        ]
      ]
