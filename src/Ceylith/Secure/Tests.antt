-- ===== src/Ceylith/Secure/Tests.antt =====
-- A frame of two bytes of ciphertext.
use lirvena.Base.{ℕ, ◌≡◌, ◌↔◌, List, [], ◌∷◌, ◌++◌, arith, ok, All, replicate}
use lirvena.Base.Bytes.{IsByte}
use lirvena.Ceylith.Frame.{default_limits}
use lirvena.Ceylith.Frame.Slices.{IsLimits}
use lirvena.Ceylith.Secure.{SecureFrame, encode_secure_frame, decode_secure_frame}
use lirvena.Ceylith.Secure.Fields.{IsFrame}
use lirvena.Ceylith.Secure.Canonical.{decode_iff-encode_secure_frame}

abbrev small : SecureFrame
small = record {
  session_id = replicate 16 5;
  counter = 258;
  request_id = replicate 16 6;
  ciphertext = 8 ∷ 9 ∷ [];
}

abbrev small_input : List ℕ
small_input =
    (67 ∷ 89 ∷ 70 ∷ 50 ∷ 0 ∷ 2 ∷ 0 ∷ 0 ∷ [])
    ++ replicate 16 5
    ++ (0 ∷ 0 ∷ 0 ∷ 0 ∷ 0 ∷ 0 ∷ 1 ∷ 2 ∷ [])
    ++ replicate 16 6
    ++ (0 ∷ 0 ∷ 0 ∷ 2 ∷ 8 ∷ 9 ∷ [])

small-bytes : All IsByte small_input
small-bytes = ground arith

default-IsLimits : IsLimits default_limits
default-IsLimits = record {
  handshake_bound = omega arith;
  ciphertext_bound = omega arith;
  inner_bound = omega arith;
}

decode_iff-encode_secure_frame_example :
    (decode_secure_frame small_input default_limits ≡ ok small)
    ↔ (IsFrame small × (encode_secure_frame small default_limits ≡ ok small_input))
decode_iff-encode_secure_frame_example =
    decode_iff-encode_secure_frame small default_limits small_input default-IsLimits small-bytes
