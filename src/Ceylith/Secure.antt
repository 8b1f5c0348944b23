-- ===== src/Ceylith/Secure.antt =====
-- crates/ceylith-protocol/src/frame/secure.rs, with the frame of frame/mod.rs.
pub mod Fields
pub mod Canonical
mod Tests
use lirvena.Base.{
  ℕ, ◌+◌, Bool, true, false, ◌==◌, List, [], ◌∷◌, ◌++◌, length, drop, Result, ok, err, ensure,
  and_then, ok_or,
}
use lirvena.Base.Bytes.{to_be, from_be, same_bytes}
use lirvena.Base.Words.{checked_add, try_from, u32_max}
use lirvena.Ceylith.Frame.{
  LengthKind, CodecError, FrameKind, invalid_magic, invalid_flags, invalid_field, length_overflow,
  outer_frame, WireLimits, enforce_limit, validate_version, decode_u32_len, require_header,
  require_exact_len, slice, current_wire_version, secure_frame_header_len, hard_max_outer_frame_len,
}

-- "CYF2"
abbrev pub secure_frame_magic : List ℕ
secure_frame_magic = 67 ∷ 89 ∷ 70 ∷ 50 ∷ []

-- The identifiers are arrays of sixteen bytes.
pub record SecureFrame : Type 0 where
  pub session_id : List ℕ
  pub counter : ℕ
  pub request_id : List ℕ
  pub ciphertext : List ℕ

unfoldable pub new_frame : List ℕ → ℕ → List ℕ → List ℕ → WireLimits → Result SecureFrame CodecError
unfolding enforce_limit
new_frame session_id counter request_id ciphertext limits =
    and_then (enforce_limit LengthKind.ciphertext (length ciphertext) limits.ciphertext) λ _.
      ok (record {
        session_id = session_id;
        counter = counter;
        request_id = request_id;
        ciphertext = ciphertext;
      })

unfoldable pub encode_secure_frame_header :
    List ℕ → ℕ → List ℕ → ℕ → WireLimits → Result (List ℕ) CodecError
unfolding enforce_limit
encode_secure_frame_header session_id counter request_id ciphertext_len limits =
    and_then (enforce_limit LengthKind.ciphertext ciphertext_len limits.ciphertext) λ _.
      and_then (ok_or (checked_add secure_frame_header_len ciphertext_len) length_overflow)
        λ total_len. and_then (enforce_limit outer_frame total_len hard_max_outer_frame_len) λ _.
          and_then (ok_or (try_from u32_max ciphertext_len) length_overflow) λ encoded_len. ok (
            secure_frame_magic
            ++ (to_be 2 current_wire_version
                ++ (to_be 2 0
                    ++ (session_id ++ (to_be 8 counter ++ (request_id ++ to_be 4 encoded_len))))))

unfoldable pub encode_secure_frame : SecureFrame → WireLimits → Result (List ℕ) CodecError
encode_secure_frame frame limits =
    and_then
      (encode_secure_frame_header frame.session_id frame.counter frame.request_id
        (length frame.ciphertext) limits)
      λ header.
        and_then (ok_or (checked_add (length header) (length frame.ciphertext)) length_overflow)
          λ total_len. ok (header ++ frame.ciphertext)

-- `SessionId::try_from` and `RequestId::try_from` of a slice.
abbrev pub sixteen : List ℕ → Result (List ℕ) CodecError
sixteen bytes = and_then (ensure (length bytes == 16) invalid_field) λ _. ok bytes

-- The slice of the counter has eight bytes, so that its conversion to an array does not fail.
unfoldable pub decode_secure_frame : List ℕ → WireLimits → Result SecureFrame CodecError
unfolding enforce_limit
decode_secure_frame input limits = and_then (require_header input secure_frame_header_len) λ _.
    and_then
      (ensure (same_bytes (slice 0 4 input) secure_frame_magic) (invalid_magic FrameKind.secure))
      λ _. and_then (validate_version (from_be (slice 4 6 input))) λ _.
        and_then (ensure (same_bytes (slice 6 8 input) (0 ∷ 0 ∷ [])) invalid_flags) λ _.
          and_then (sixteen (slice 8 24 input)) λ session_id.
            let counter = from_be (slice 24 32 input) in
            and_then (sixteen (slice 32 48 input)) λ request_id.
              and_then (decode_u32_len (slice 48 52 input)) λ declared.
                and_then (enforce_limit LengthKind.ciphertext declared limits.ciphertext) λ _.
                  and_then (ok_or (checked_add secure_frame_header_len declared) length_overflow)
                    λ total_len. and_then (require_exact_len input total_len) λ _.
                      new_frame session_id counter request_id (drop secure_frame_header_len input)
                        limits
