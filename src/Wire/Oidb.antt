-- ===== src/Wire/Oidb.antt =====
-- crates/qq-wire/src/oidb.rs: the generic OIDB envelope. The protobuf codec is prost's derived
-- code and enters as `Prost`: what `encode_to_vec` returns, `decode` reads back, and its length is
-- the payload's plus at most 64 bytes of keys, varints and lengths.
pub mod Envelope
mod Tests
use lirvena.Base.{
  ℕ, ◌+◌, ◌*◌, ◌≤◌, ◌≡◌, Bool, not, ◌||◌, Option, none, some, List, [], ltb, leb, ◌==◌,
  if◌then◌else◌, length, is_empty, any, Result, ok, err, and_then, ok_or, ensure,
}
use lirvena.Base.Int.{ℤ}

abbrev pub max_oidb_body_bytes : ℕ
max_oidb_body_bytes = 2 * 1024 * 1024

abbrev pub max_error_message_bytes : ℕ
max_error_message_bytes = 4 * 1024

-- A text is the list of its characters' code points; `text_len` is the length of its UTF-8 bytes.
pub record OidbWire : Type 0 where
  pub command : ℕ
  pub subcommand : ℕ
  pub error_code : ℕ
  pub body : List ℕ
  pub error_message : List ℕ
  pub reserved : ℤ

pub record OidbRequestFrame : Type 0 where
  pub command : ℕ
  pub subcommand : ℕ
  pub body : List ℕ
  pub reserved : ℤ

pub record OidbResponseFrame : Type 0 where
  pub error_code : ℕ
  pub body : List ℕ

pub data OidbFrameError : Type 0 where
  oidb_frame_error : OidbFrameError

-- The third-party codec, and the two methods of `str` and `char` that the envelope calls.
pub record Prost : Type 0 where
  pub encode_to_vec : OidbWire → List ℕ
  pub decode_wire : List ℕ → Option OidbWire
  pub text_len : List ℕ → ℕ
  pub is_control : ℕ → Bool
  pub decode-encode : (w : OidbWire) → decode_wire (encode_to_vec w) ≡ some w
  pub length-encode :
      (w : OidbWire) → length (encode_to_vec w) ≤ length w.body + text_len w.error_message + 64
  pub text_len-nil : text_len [] ≡ 0

unfoldable pub validate_command_and_body : ℕ → List ℕ → Result (Unit {0}) OidbFrameError
validate_command_and_body command body =
    if command == 0 || ltb max_oidb_body_bytes (length body) then err oidb_frame_error else ok tt

module _ (prost : Prost) where
  open prost use {encode_to_vec, decode_wire, text_len, is_control}

  encode_request : ℕ → ℕ → List ℕ → ℤ → List ℕ
  encode_request command subcommand body reserved = encode_to_vec (record {
    command = command;
    subcommand = subcommand;
    error_code = 0;
    body = body;
    error_message = [];
    reserved = reserved;
  })

  pub encode_oidb_request : ℕ → ℕ → List ℕ → ℤ → Result (List ℕ) OidbFrameError
  encode_oidb_request command subcommand body reserved =
      and_then (validate_command_and_body command body) λ _.
        if is_empty body
        then err oidb_frame_error
        else ok (encode_request command subcommand body reserved)

  pub encode_empty_oidb_request : ℕ → ℕ → ℤ → Result (List ℕ) OidbFrameError
  encode_empty_oidb_request command subcommand reserved =
      and_then (validate_command_and_body command [])
        λ _. ok (encode_request command subcommand [] reserved)

  decode : List ℕ → Result OidbWire OidbFrameError
  decode input =
      if ltb (max_oidb_body_bytes + max_error_message_bytes + 256) (length input)
      then err oidb_frame_error
      else ok_or (decode_wire input) oidb_frame_error

  pub decode_oidb_request : List ℕ → Result OidbRequestFrame OidbFrameError
  unfolding decode
  decode_oidb_request input = and_then (decode input) λ frame.
      and_then (validate_command_and_body frame.command frame.body) λ _.
        if not (frame.error_code == 0) || not (is_empty frame.error_message)
        then err oidb_frame_error
        else ok (record {
          command = frame.command;
          subcommand = frame.subcommand;
          body = frame.body;
          reserved = frame.reserved;
        })

  pub decode_oidb_response : List ℕ → Result OidbResponseFrame OidbFrameError
  unfolding decode
  decode_oidb_response input = and_then (decode input) λ frame.
      if ltb max_oidb_body_bytes (length frame.body)
        || ltb max_error_message_bytes (text_len frame.error_message)
        || any is_control frame.error_message
      then err oidb_frame_error
      else ok (record { error_code = frame.error_code; body = frame.body })
