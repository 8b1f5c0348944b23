-- ===== src/Wire/Oidb/Tests.antt =====
-- The envelope over a small codec that is a function.
use lirvena.Base.{
  ℕ, zero, suc, ◌+◌, ◌≤◌, ◌≡◌, refl, false, Option, none, some, List, [], ◌∷◌, ◌++◌, length, ok,
  arith, length-append, take, drop, take-append_left, drop-append_left,
}
use lirvena.Base.Int.{ℤ, pos}
use lirvena.Wire.Oidb.{
  Prost, OidbWire, OidbRequestFrame, decode_oidb_request, validate_command_and_body,
}

abbrev sign_of : ℤ → ℕ
sign_of (pos n) = 0
sign_of (ℤ.negsuc n) = 1

abbrev size_of : ℤ → ℕ
size_of (pos n) = n
size_of (ℤ.negsuc n) = n

abbrev from_parts : ℕ → ℕ → ℤ
from_parts zero n = pos n
from_parts (suc _) n = ℤ.negsuc n

-- One item for each number, the body behind its length, and the text at the end.
abbrev flat_encode : OidbWire → List ℕ
flat_encode w =
    w.command
    ∷ w.subcommand
    ∷ w.error_code
    ∷ sign_of w.reserved
    ∷ size_of w.reserved
    ∷ length w.body
    ∷ (w.body ++ w.error_message)

abbrev flat_decode : List ℕ → Option OidbWire
flat_decode (c ∷ s ∷ e ∷ sign ∷ n ∷ size ∷ rest) = some (record {
  command = c;
  subcommand = s;
  error_code = e;
  body = take size rest;
  error_message = drop size rest;
  reserved = from_parts sign n;
})
flat_decode _ = none

from_parts_of : (z : ℤ) → from_parts (sign_of z) (size_of z) ≡ z
from_parts_of (pos n) = refl
from_parts_of (ℤ.negsuc n) = refl

flat_decode-encode : (w : OidbWire) → flat_decode (flat_encode w) ≡ some w
flat_decode-encode w = λ i. some (record {
  command = w.command;
  subcommand = w.subcommand;
  error_code = w.error_code;
  body = take-append_left w.body w.error_message i;
  error_message = drop-append_left w.body w.error_message i;
  reserved = from_parts_of w.reserved i;
})

flat-length : (w : OidbWire) → length (flat_encode w) ≤ length w.body + length w.error_message + 64
flat-length w = omega (arith, length-append w.body w.error_message)

abbrev flat : Prost
flat = record {
  encode_to_vec = flat_encode;
  decode_wire = flat_decode;
  text_len = length;
  is_control = λ c. false;
  decode-encode = flat_decode-encode;
  length-encode = flat-length;
  text_len-nil = refl;
}

abbrev seven : List ℕ
seven = 7 ∷ []

abbrev nine : OidbRequestFrame
nine = record { command = 5; subcommand = 1; body = 9 ∷ []; reserved = pos 0 }

nine_accepted : decode_oidb_request flat (5 ∷ 1 ∷ 0 ∷ 0 ∷ 0 ∷ 1 ∷ 9 ∷ []) ≡ ok nine
unfolding decode_oidb_request validate_command_and_body
nine_accepted = refl
