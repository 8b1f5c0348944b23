-- ===== src/Ceylith/Handshake/Tests.antt =====
-- An envelope of three bytes.
use lirvena.Base.{ℕ, ◌≡◌, ◌↔◌, refl, List, [], ◌∷◌, arith, ok, All}
use lirvena.Base.Bytes.{IsByte}
use lirvena.Ceylith.Frame.{default_limits, new_limits}
use lirvena.Ceylith.Frame.Slices.{IsLimits}
use lirvena.Ceylith.Handshake.{
  HandshakeEnvelope, client_hello, encode_handshake_envelope, decode_handshake_envelope,
}
use lirvena.Ceylith.Handshake.Canonical.{decode_iff-encode_handshake_envelope}

abbrev hello : HandshakeEnvelope
hello = record { step = client_hello; payload = 1 ∷ 2 ∷ 3 ∷ [] }

abbrev hello_input : List ℕ
hello_input = 67 ∷ 89 ∷ 72 ∷ 50 ∷ 0 ∷ 2 ∷ 1 ∷ 0 ∷ 0 ∷ 0 ∷ 0 ∷ 3 ∷ 1 ∷ 2 ∷ 3 ∷ []

hello-bytes : All IsByte hello_input
hello-bytes = ground arith

default-IsLimits : IsLimits default_limits
default-IsLimits = record {
  handshake_bound = omega arith;
  ciphertext_bound = omega arith;
  inner_bound = omega arith;
}

default_accepted : new_limits 2097140 61456 61440 ≡ ok default_limits
unfolding new_limits
default_accepted = refl

decode_iff-encode_handshake_envelope_example :
    (decode_handshake_envelope hello_input default_limits ≡ ok hello)
    ↔ (encode_handshake_envelope hello default_limits ≡ ok hello_input)
decode_iff-encode_handshake_envelope_example =
    decode_iff-encode_handshake_envelope hello default_limits hello_input default-IsLimits
      hello-bytes
