-- ===== src/Envelope/Service.antt =====
-- crates/qq-envelope/src/transport/service.rs: the outer frame, whose SSO field is encrypted.
-- Entropy is a parameter: `fill n` is what `getrandom` puts into a buffer of `n` bytes, if it does
-- not fail.
use lirvena.Base.{
  ℕ, not, ◌||◌, ◌==◌, if◌then◌else◌, Option, List, replicate, is_empty, all, Result, ok, err,
  and_then, map_err, ok_or, ensure, Method, run_on,
}
use lirvena.Base.Text.{is_ascii_digit, to_string}
use lirvena.Tea.Codec.{encrypt_qq_tea, decrypt_qq_tea}
use lirvena.Wire.Prefix.{u32_inclusive}
use lirvena.Wire.Reader.{
  WireReader, remaining, read_u8, read_u32, read_bytes, read_prefixed_bytes, finish,
}
use lirvena.Wire.Writer.{WireWriter, put_u8, put_u32, put_bytes, put_prefixed_bytes}
use lirvena.Wire.Reader
use lirvena.Envelope.{
  EnvelopeError, wire, invalid_field, unsupported, max_packet_len, wired, ciphered,
}
use lirvena.Envelope.Sso.{written}

abbrev pub protocol_version : ℕ
protocol_version = 12

pub record ServiceFrameParts : Type 0 where
  pub uin : ℕ
  pub d2 : List ℕ
  pub d2_key : List ℕ
  pub sso : List ℕ

pub record ServiceResponse : Type 0 where
  pub uin : List ℕ
  pub payload : List ℕ

abbrev pub zero_key : List ℕ
zero_key = replicate 16 0

abbrev pub auth_flag_of : ServiceFrameParts → ℕ
auth_flag_of parts = if is_empty parts.d2 then 2 else 1

abbrev pub encryption_key : ServiceFrameParts → List ℕ
encryption_key parts = if is_empty parts.d2 then zero_key else parts.d2_key

unfoldable pub put_body : ServiceFrameParts → List ℕ → Method WireWriter EnvelopeError (Unit {0})
put_body parts encrypted w = run_on (wired (put_u32 protocol_version w)) λ _ w.
    run_on (wired (put_u8 (auth_flag_of parts) w)) λ _ w.
      run_on (wired (put_prefixed_bytes u32_inclusive parts.d2 w)) λ _ w.
        run_on (wired (put_u8 0 w)) λ _ w.
          run_on (wired (put_prefixed_bytes u32_inclusive (to_string parts.uin) w))
            λ _ w. wired (put_bytes encrypted w)

abbrev pub put_frame : List ℕ → Method WireWriter EnvelopeError (Unit {0})
put_frame body w = wired (put_prefixed_bytes u32_inclusive body w)

unfoldable pub encode_service_frame :
    (ℕ → Option (List ℕ)) → ServiceFrameParts → Result (List ℕ) EnvelopeError
encode_service_frame fill parts = and_then (ensure (not (is_empty parts.sso)) invalid_field) λ _.
    and_then (ciphered (encrypt_qq_tea fill parts.sso (encryption_key parts)))
      λ encrypted. and_then (written (put_body parts encrypted)) λ body. written (put_frame body)

-- What the reads of the frame return.
pub record ServiceBody : Type 0 where
  pub auth_flag : ℕ
  pub flag : ℕ
  pub uin : List ℕ
  pub encrypted : List ℕ

unfoldable pub read_uin : Method WireReader EnvelopeError (List ℕ)
read_uin r = run_on (wired (read_prefixed_bytes u32_inclusive 32 r)) λ uin r.
    if is_empty uin || not (all is_ascii_digit uin) then (err invalid_field, r) else (ok uin, r)

unfoldable pub read_body : Method WireReader EnvelopeError ServiceBody
read_body r = run_on (wired (read_u32 r)) λ version r.
    run_on (ensure (version == protocol_version) unsupported, r)
      λ _ r. run_on (wired (read_u8 r)) λ auth_flag r. run_on (wired (read_u8 r)) λ flag r.
        run_on (read_uin r) λ uin r. run_on (wired (read_bytes (remaining r) r)) λ encrypted r.
          run_on (map_err (λ _. wire) (finish r), r)
            λ _ r. (
              ok (record { auth_flag = auth_flag; flag = flag; uin = uin; encrypted = encrypted }),
              r,
            )

-- The `match` on the authentication flag.
unfoldable pub open_body : Option (List ℕ) → ServiceBody → Result (List ℕ) EnvelopeError
open_body d2_key b =
    if b.auth_flag == 0
    then ok b.encrypted
    else if b.auth_flag == 1
    then (and_then (ok_or d2_key invalid_field) λ key. ciphered (decrypt_qq_tea b.encrypted key))
    else if b.auth_flag == 2
    then ciphered (decrypt_qq_tea b.encrypted zero_key)
    else err unsupported

unfoldable pub read_frame_body : Method WireReader EnvelopeError (List ℕ)
read_frame_body r =
    run_on (wired (read_prefixed_bytes u32_inclusive max_packet_len r))
      λ body r. run_on (map_err (λ _. wire) (finish r), r) λ _ r. (ok body, r)

unfoldable pub decode_service_response :
    List ℕ → Option (List ℕ) → Result ServiceResponse EnvelopeError
decode_service_response encoded d2_key = and_then (read_frame_body (Reader.new encoded)).0 λ body.
    and_then (read_body (Reader.new body)).0 λ b. and_then (open_body d2_key b) λ payload.
      if is_empty payload then err invalid_field else ok (record { uin = b.uin; payload = payload })
