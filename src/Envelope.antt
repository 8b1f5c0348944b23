-- ===== src/Envelope.antt =====
-- crates/qq-envelope/src/transport: the SSO request and reply inside an encrypted service frame, and
-- their binding to an account. A text is its UTF-8 bytes; a key is its 16 bytes.
pub mod Sso
pub mod Service
pub mod Session
pub mod Writes
pub mod Layout
pub mod Peer
pub mod Request
pub mod Reads
pub mod Reply
pub mod Binding
pub mod Varint
pub mod Marked
pub mod Samples
mod Tests
use lirvena.Base.{ℕ, Result, map_err}
use lirvena.Wire.Prefix.{WireError}
use lirvena.Tea.Codec.{QqTeaError}

pub data EnvelopeError : Type 0 where
  wire crypto invalid_field unsupported : EnvelopeError

abbrev pub max_packet_len : ℕ
max_packet_len = 2097152

-- `?` on a `WireError`: the conversion `From<WireError>`.
abbrev pub wired : {A S : Type 0} → Result A WireError × S → Result A EnvelopeError × S
wired (r, s) = (map_err (λ _. wire) r, s)

-- The conversion `From<QqTeaError>`.
abbrev pub ciphered : {A : Type 0} → Result A QqTeaError → Result A EnvelopeError
ciphered r = map_err (λ _. crypto) r
