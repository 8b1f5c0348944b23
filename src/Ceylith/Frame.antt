-- ===== src/Ceylith/Frame.antt =====
-- crates/ceylith-protocol/src/frame/mod.rs, error.rs and bounds.rs: the limits and the checks that
-- the frames share.
pub mod Slices
use lirvena.Base.{
  ℕ, ◌+◌, ◌-◌, ◌*◌, Bool, true, false, ltb, ◌==◌, if◌then◌else◌, List, [], ◌∷◌, length, take, drop,
  Result, ok, err, ensure, and_then,
}
use lirvena.Base.Bytes.{from_be}

pub data FrameKind : Type 0 where
  handshake secure inner : FrameKind

pub data LengthKind : Type 0 where
  outer_frame handshake_payload ciphertext inner_frame field collection : LengthKind

pub data CodecError : Type 0 where
  truncated trailing_bytes : ℕ → ℕ → CodecError
  invalid_magic : FrameKind → CodecError
  unsupported_version invalid_handshake_step invalid_flags : CodecError
  length_limit_exceeded : LengthKind → ℕ → ℕ → CodecError
  length_overflow protobuf invalid_contract unsupported_body invalid_field : CodecError

abbrev pub hard_max_outer_frame_len : ℕ
hard_max_outer_frame_len = 2097152

abbrev pub default_inner_frame_len : ℕ
default_inner_frame_len = 61440

abbrev pub default_secure_ciphertext_len : ℕ
default_secure_ciphertext_len = 61456

abbrev pub current_wire_version : ℕ
current_wire_version = 2

abbrev pub handshake_header_len : ℕ
handshake_header_len = 12

abbrev pub secure_frame_header_len : ℕ
secure_frame_header_len = 52

abbrev pub hard_max_handshake_payload_len : ℕ
hard_max_handshake_payload_len = hard_max_outer_frame_len - handshake_header_len

abbrev pub hard_max_ciphertext_len : ℕ
hard_max_ciphertext_len = hard_max_outer_frame_len - secure_frame_header_len

pub record WireLimits : Type 0 where
  pub handshake_payload : ℕ
  pub ciphertext : ℕ
  pub inner_frame : ℕ

unfoldable pub enforce_limit : LengthKind → ℕ → ℕ → Result (Unit {0}) CodecError
enforce_limit kind actual limit =
    if ltb limit actual then err (length_limit_exceeded kind limit actual) else ok tt

-- `WireLimits::new`
unfoldable pub new_limits : ℕ → ℕ → ℕ → Result WireLimits CodecError
new_limits max_handshake_payload_len max_ciphertext_len max_inner_frame_len =
    if ltb hard_max_handshake_payload_len max_handshake_payload_len
    then err (
        length_limit_exceeded LengthKind.handshake_payload hard_max_handshake_payload_len
          max_handshake_payload_len)
    else if ltb hard_max_ciphertext_len max_ciphertext_len
    then err
        (length_limit_exceeded LengthKind.ciphertext hard_max_ciphertext_len max_ciphertext_len)
    else if ltb hard_max_outer_frame_len max_inner_frame_len
    then err
        (length_limit_exceeded LengthKind.inner_frame hard_max_outer_frame_len max_inner_frame_len)
    else ok (record {
      handshake_payload = max_handshake_payload_len;
      ciphertext = max_ciphertext_len;
      inner_frame = max_inner_frame_len;
    })

abbrev pub default_limits : WireLimits
default_limits = record {
  handshake_payload = hard_max_handshake_payload_len;
  ciphertext = default_secure_ciphertext_len;
  inner_frame = default_inner_frame_len;
}

abbrev pub validate_version : ℕ → Result (Unit {0}) CodecError
validate_version version = ensure (version == current_wire_version) unsupported_version

-- The conversion of a `u32` to a `usize` does not fail on the targets of 64 bits.
abbrev pub decode_u32_len : List ℕ → Result ℕ CodecError
decode_u32_len bytes = if length bytes == 4 then ok (from_be bytes) else err length_overflow

abbrev pub require_header : List ℕ → ℕ → Result (Unit {0}) CodecError
require_header input needed =
    if ltb (length input) needed then err (truncated needed (length input)) else ok tt

abbrev pub require_exact_len : List ℕ → ℕ → Result (Unit {0}) CodecError
require_exact_len input expected =
    if ltb (length input) expected
    then err (truncated expected (length input))
    else if ltb expected (length input)
    then err (trailing_bytes expected (length input))
    else ok tt

-- `input[from..to]`, of an input that is long enough.
abbrev pub slice : ℕ → ℕ → List ℕ → List ℕ
slice from to input = take (to - from) (drop from input)
