-- ===== src/Transport/Tests.antt =====
-- Two frames, cut in three reads.
use lirvena.Base.{ℕ, ◌≡◌, refl, List, [], ◌∷◌, ◌++◌, arith, ok, All}
use lirvena.Base.Bytes.{from_be}
use lirvena.Transport.{
  TransportConfig, Arrival, arrived, elapsed, from_stream, read_frame, validate_complete_frame,
  read, fill_loop, fill, fill_prefix, open_frame, fill_frame,
}
use lirvena.Transport.Framing.{ReadOutcome, read_frame-ReadOutcome}
use lirvena.Transport.Phases.{unread, from_stream-IsTransport}
use lirvena.Transport.Sequence.{read_frames, joined, read_frames-joined}

abbrev config : TransportConfig
config = record { connect_timeout = 10; io_timeout = 15; maximum_frame_len = 64 }

abbrev first : List ℕ
first = 0 ∷ 0 ∷ 0 ∷ 6 ∷ 1 ∷ 2 ∷ []

abbrev second : List ℕ
second = 0 ∷ 0 ∷ 0 ∷ 4 ∷ []

abbrev cuts : List Arrival
cuts = arrived (0 ∷ 0 ∷ []) ∷ arrived (0 ∷ 6 ∷ 1 ∷ 2 ∷ 0 ∷ 0 ∷ []) ∷ arrived (0 ∷ 4 ∷ 9 ∷ []) ∷ []

admitted :
    All (λ f. validate_complete_frame f config.maximum_frame_len ≡ ok tt) (first ∷ second ∷ [])
unfolding validate_complete_frame from_be
admitted = (refl, (refl, tt))

cuts_join : unread (from_stream cuts config) ≡ joined (first ∷ second ∷ []) ++ (9 ∷ [])
unfolding from_stream
cuts_join = refl

read_frames-joined_example :
    ((read_frames 2 (from_stream cuts config)).0 ≡ ok (first ∷ second ∷ []))
    × (unread (read_frames 2 (from_stream cuts config)).1 ≡ 9 ∷ [])
unfolding from_stream
read_frames-joined_example =
    read_frames-joined (first ∷ second ∷ []) (from_stream cuts config) (9 ∷ [])
      (from_stream-IsTransport cuts config) (omega arith) admitted cuts_join

-- A deadline that elapses in the middle of a frame.
abbrev cut_short : List Arrival
cut_short = arrived (0 ∷ 0 ∷ 0 ∷ 6 ∷ 1 ∷ []) ∷ elapsed ∷ arrived (2 ∷ []) ∷ []

read_frame-ReadOutcome_example :
    ReadOutcome (from_stream cut_short config) (read_frame (from_stream cut_short config))
read_frame-ReadOutcome_example =
    read_frame-ReadOutcome (from_stream cut_short config) (from_stream-IsTransport cut_short config)

-- The next call goes on where the deadline cut the first one short.
resumed : (read_frame (read_frame (from_stream cut_short config)).1).0 ≡ ok first
unfolding read_frame from_stream fill_prefix open_frame fill_frame fill fill_loop read from_be
resumed = refl
