-- ===== src/Envelope/Tests.antt =====
-- A request and a reply of small sessions.
use lirvena.Base.{
  ℕ, ◌≤◌, ◌≡◌, refl, Option, some, some-injective, List, [], ◌∷◌, length, replicate, All, arith,
  Result, ok, err, false, is_empty, subst, length-replicate,
}
use lirvena.Base.Bytes.{IsByte, to_be, from_be, from_be_acc, all-IsByte}
use lirvena.Base.Text.{to_string, digits, spelled}
use lirvena.Envelope.Varint.{
  read_varint, read_varint_from, put_varint, put_varint_from, read-put_varint,
}
use lirvena.Envelope.{invalid_field}
use lirvena.Base.{◌++◌}
use lirvena.Transport.{validate_complete_frame}
use lirvena.Envelope.{EnvelopeError}
use lirvena.Wire.Writer.{
  put_bytes, put_u32, put_u16, put_u8, put_declared, put_prefixed_bytes, ensure_growth,
}
use lirvena.Tea.Codec.{
  encrypt_qq_tea, encrypt_qq_tea_with_padding, validate_plaintext, padding_len, padded,
  encrypt_blocks, encrypt_loop, words,
}
use lirvena.Tea.Block.{encrypt, encrypt_rounds, encrypt_round, split, mix, join}
use lirvena.Base.Words.{wrapping_add, wrapping_shl, wrapping_shr}
use lirvena.Envelope.Sso.{validate, encode_sso_request, put_header, put_parts}
use lirvena.Envelope.Service.{
  encode_service_frame, put_body, ServiceResponse, decode_service_response,
}
use lirvena.Envelope.Session.{
  anonymous, SessionRequestParts, encode_session_request, decode_session_response,
}
use lirvena.Envelope.Layout.{field, Fills}
use lirvena.Envelope.Peer.{IsAccepted, IsFrame}
use lirvena.Envelope.Request.{IsSession, encode_session_request-Frame}
use lirvena.Envelope.Reply.{response_of}
use lirvena.Envelope.Samples.{session, answer, body, answer-IsFrameOf}
use lirvena.Envelope.Binding.{
  frame_body, decode_session_response-reply, decode_session_response-binds,
}

decode_session_response-reply_example :
    decode_session_response
      (field (frame_body body))
      (record { auth = session; sequence = 5; command = b'o' ∷ b'k' ∷ [] })
    ≡ ok (response_of answer)
decode_session_response-reply_example =
    decode_session_response-reply session body answer answer-IsFrameOf

decode_session_response-binds_example :
    ((service : ServiceResponse) × (decode_service_response
          (field (frame_body body))
          (some (replicate 16 7))
        ≡ ok service)
      × (spelled 0 service.uin ≡ 42))
    × (answer.sequence ≡ 5)
    × (answer.command ≡ b'o' ∷ b'k' ∷ [])
    × (1 ≤ answer.sequence)
    × (is_empty answer.command ≡ false)
decode_session_response-binds_example =
    decode_session_response-binds (field (frame_body body))
      (record { auth = session; sequence = 5; command = b'o' ∷ b'k' ∷ [] }) (response_of answer)
      (omega arith) (decode_session_response-reply session body answer answer-IsFrameOf)

-- A first request, before the account is known.
abbrev hello : SessionRequestParts
hello = record {
  auth = anonymous 0;
  sequence = 1;
  sub_app_id = 2;
  locale_id = 3;
  command = b'q' ∷ [];
  device_guid_hex = replicate 32 b'a';
  client_version = b'1' ∷ [];
  reserve = [];
  payload = 8 ∷ [];
}

hello-IsSession : IsSession hello
hello-IsSession = record {
  tgt = (omega arith, tt);
  d2 = omega arith;
  command = (omega arith, all-IsByte hello.command refl);
  device_guid_hex = (omega arith, all-IsByte hello.device_guid_hex refl);
  client_version = (omega arith, all-IsByte hello.client_version refl);
  reserve = (omega arith, tt);
  payload = (omega arith, all-IsByte hello.payload refl);
}

abbrev zero_fill : ℕ → Option (List ℕ)
zero_fill n = some (replicate n 0)

zeros-IsByte : (n : ℕ) → All IsByte (replicate n 0)
zeros-IsByte ℕ.zero = tt
zeros-IsByte (ℕ.suc n) = (omega arith, zeros-IsByte n)

zero_fill-Fills : Fills zero_fill
zero_fill-Fills n padding e =
    subst (λ p. (length p ≡ n) × All IsByte p) (some-injective _ _ e)
      (length-replicate n 0, zeros-IsByte n)

abbrev hello_frame : List ℕ
hello_frame = frame_of (encode_session_request zero_fill hello)
  where
    frame_of : Result (List ℕ) EnvelopeError → List ℕ
    frame_of (ok bytes) = bytes
    frame_of (err e) = []

hello-encoded : encode_session_request zero_fill hello ≡ ok hello_frame
unfolding encode_session_request encode_sso_request encode_service_frame validate put_header
    put_parts put_body put_bytes put_u32 put_u16 put_u8 put_declared put_prefixed_bytes
    ensure_growth encrypt_qq_tea encrypt_qq_tea_with_padding validate_plaintext padding_len padded
    encrypt_blocks encrypt_loop words encrypt encrypt_rounds encrypt_round split mix join
    wrapping_add wrapping_shl wrapping_shr to_string digits to_be from_be from_be_acc
hello-encoded = refl

encode_session_request-Frame_example :
    IsAccepted hello
    × IsFrame hello hello_frame
    × (validate_complete_frame hello_frame 2097152 ≡ ok tt)
encode_session_request-Frame_example =
    encode_session_request-Frame zero_fill hello hello_frame zero_fill-Fills hello-IsSession
      hello-encoded

put_varint_two : put_varint 300 ≡ 172 ∷ 2 ∷ []
unfolding put_varint put_varint_from
put_varint_two = refl

-- A tenth byte that does not fit a `u64`.
read_varint_too_big : read_varint (replicate 9 255 ++ 2 ∷ []) ≡ err invalid_field
unfolding read_varint read_varint_from
read_varint_too_big = refl

read-put_varint_example : read_varint (put_varint 300 ++ 7 ∷ []) ≡ ok (300, 7 ∷ [])
read-put_varint_example = read-put_varint 300 (7 ∷ []) (omega arith)
