-- ===== src/Ceylith/Handshake.antt =====
-- crates/ceylith-protocol/src/frame/handshake.rs, with the envelope of frame/mod.rs.
pub mod Canonical
mod Tests
use lirvena.Base.{
  ℕ, ◌+◌, Bool, true, false, ◌==◌, if◌then◌else◌, Option, List, [], ◌∷◌, ◌++◌, length, drop, get_or,
  Result, ok, err, ensure, and_then, ok_or,
}
use lirvena.Base.Bytes.{to_be, from_be, same_bytes}
use lirvena.Base.Words.{checked_add, try_from, u32_max}
use lirvena.Ceylith.Frame.{
  LengthKind, CodecError, FrameKind, invalid_magic, invalid_handshake_step, invalid_flags,
  length_overflow, outer_frame, WireLimits, enforce_limit, validate_version, decode_u32_len,
  require_header, require_exact_len, slice, current_wire_version, handshake_header_len,
  hard_max_outer_frame_len,
}

-- "CYH2"
abbrev pub handshake_magic : List ℕ
handshake_magic = 67 ∷ 89 ∷ 72 ∷ 50 ∷ []

pub data HandshakeStep : Type 0 where
  client_hello server_welcome : HandshakeStep

abbrev pub step_code : HandshakeStep → ℕ
step_code client_hello = 1
step_code server_welcome = 2

abbrev pub try_step : ℕ → Result HandshakeStep CodecError
try_step value =
    if value == 1
    then ok client_hello
    else if value == 2
    then ok server_welcome
    else err invalid_handshake_step

pub record HandshakeEnvelope : Type 0 where
  pub step : HandshakeStep
  pub payload : List ℕ

unfoldable pub new_envelope :
    HandshakeStep → List ℕ → WireLimits → Result HandshakeEnvelope CodecError
unfolding enforce_limit
new_envelope step payload limits =
    and_then (enforce_limit LengthKind.handshake_payload (length payload) limits.handshake_payload)
      λ _. ok (record { step = step; payload = payload })

unfoldable pub encode_handshake_envelope :
    HandshakeEnvelope → WireLimits → Result (List ℕ) CodecError
unfolding enforce_limit
encode_handshake_envelope envelope limits =
    let payload_len = length envelope.payload in
    and_then (enforce_limit LengthKind.handshake_payload payload_len limits.handshake_payload) λ _.
      and_then (ok_or (checked_add handshake_header_len payload_len) length_overflow) λ total_len.
        and_then (enforce_limit outer_frame total_len hard_max_outer_frame_len) λ _.
          and_then (ok_or (try_from u32_max payload_len) length_overflow) λ encoded_len. ok (
            handshake_magic
            ++ (to_be 2 current_wire_version
                ++ (step_code envelope.step ∷ 0 ∷ (to_be 4 encoded_len ++ envelope.payload))))

unfoldable pub decode_handshake_envelope : List ℕ → WireLimits → Result HandshakeEnvelope CodecError
unfolding enforce_limit
decode_handshake_envelope input limits = and_then (require_header input handshake_header_len) λ _.
    and_then
      (ensure (same_bytes (slice 0 4 input) handshake_magic) (invalid_magic FrameKind.handshake))
      λ _. and_then (validate_version (from_be (slice 4 6 input))) λ _.
        and_then (try_step (get_or input 6 0)) λ step.
          and_then (ensure (get_or input 7 0 == 0) invalid_flags) λ _.
            and_then (decode_u32_len (slice 8 12 input)) λ declared.
              and_then
                (enforce_limit LengthKind.handshake_payload declared limits.handshake_payload)
                λ _.
                  and_then (ok_or (checked_add handshake_header_len declared) length_overflow)
                    λ total_len.
                      and_then (require_exact_len input total_len)
                        λ _. new_envelope step (drop handshake_header_len input) limits
