-- ===== src/Envelope/Sso.antt =====
-- crates/qq-envelope/src/transport/sso.rs: the request's two fields, header and payload, and the
-- reply's.
use lirvena.Base.{
  ℕ, Bool, false, not, ◌||◌, ◌==◌, ltb, if◌then◌else◌, List, [], ◌∷◌, length, is_empty, all, Result,
  ok, err, and_then, map_err, Method, run_on,
}
use lirvena.Base.Int.{ℤ, pos, negsuc}
use lirvena.Base.Text.{is_utf8, is_ascii_graphic, is_ascii_hexdigit}
use lirvena.Wire.Prefix.{u16_inclusive, u32_inclusive}
use lirvena.Wire.Reader.{
  WireReader, remaining, read_u32, read_i32, read_bytes, read_prefixed_bytes, finish,
}
use lirvena.Wire.Writer.{WireWriter, put_u32, put_bytes, put_prefixed_bytes}
use lirvena.Wire.Reader
use lirvena.Wire.Writer
use lirvena.Envelope.{EnvelopeError, wire, invalid_field, unsupported, max_packet_len, wired}

abbrev pub fixed_header_value : List ℕ
fixed_header_value = 2 ∷ 0 ∷ 0 ∷ 0 ∷ 0 ∷ 0 ∷ 0 ∷ 0 ∷ 0 ∷ 0 ∷ 0 ∷ 0 ∷ []

abbrev pub max_command_len : ℕ
max_command_len = 128

abbrev pub max_version_len : ℕ
max_version_len = 64

abbrev pub max_response_extension_len : ℕ
max_response_extension_len = 4096

abbrev pub guid_hex_len : ℕ
guid_hex_len = 32

pub record SsoRequestParts : Type 0 where
  pub sequence : ℕ
  pub sub_app_id : ℕ
  pub locale_id : ℕ
  pub tgt : List ℕ
  pub command : List ℕ
  pub device_guid_hex : List ℕ
  pub client_version : List ℕ
  pub reserve : List ℕ
  pub payload : List ℕ

pub record SsoResponse : Type 0 where
  pub sequence : ℕ
  pub return_code : ℤ
  pub command : List ℕ
  pub extra : List ℕ
  pub reserve : List ℕ
  pub extension : List ℕ
  pub payload : List ℕ

unfoldable pub validate : SsoRequestParts → Result (Unit {0}) EnvelopeError
validate parts =
    if parts.sequence == 0
      || parts.sub_app_id == 0
      || parts.locale_id == 0
      || is_empty parts.command
      || ltb max_command_len (length parts.command)
      || not (all is_ascii_graphic parts.command)
      || not (length parts.device_guid_hex == guid_hex_len)
      || not (all is_ascii_hexdigit parts.device_guid_hex)
      || is_empty parts.client_version
      || ltb max_version_len (length parts.client_version)
      || not (all is_ascii_graphic parts.client_version)
      || is_empty parts.payload
    then err invalid_field
    else ok tt

-- The eleven fields of the header.
unfoldable pub put_header : SsoRequestParts → Method WireWriter EnvelopeError (Unit {0})
put_header parts w = run_on (wired (put_u32 parts.sequence w)) λ _ w.
    run_on (wired (put_u32 parts.sub_app_id w)) λ _ w.
      run_on (wired (put_u32 parts.locale_id w)) λ _ w.
        run_on (wired (put_bytes fixed_header_value w)) λ _ w.
          run_on (wired (put_prefixed_bytes u32_inclusive parts.tgt w)) λ _ w.
            run_on (wired (put_prefixed_bytes u32_inclusive parts.command w)) λ _ w.
              run_on (wired (put_prefixed_bytes u32_inclusive [] w)) λ _ w.
                run_on (wired (put_prefixed_bytes u32_inclusive parts.device_guid_hex w)) λ _ w.
                  run_on (wired (put_prefixed_bytes u32_inclusive [] w)) λ _ w.
                    run_on (wired (put_prefixed_bytes u16_inclusive parts.client_version w))
                      λ _ w. wired (put_prefixed_bytes u32_inclusive parts.reserve w)

unfoldable pub put_parts : List ℕ → List ℕ → Method WireWriter EnvelopeError (Unit {0})
put_parts header payload w =
    run_on (wired (put_prefixed_bytes u32_inclusive header w))
      λ _ w. wired (put_prefixed_bytes u32_inclusive payload w)

-- What a writer that starts empty has written once its calls succeeded: `finish`.
abbrev pub written : Method WireWriter EnvelopeError (Unit {0}) → Result (List ℕ) EnvelopeError
written put = let (result, w) = put (Writer.new max_packet_len) in and_then result λ _. ok w.output

unfoldable pub encode_sso_request : SsoRequestParts → Result (List ℕ) EnvelopeError
encode_sso_request parts =
    and_then (validate parts)
      λ _. and_then (written (put_header parts)) λ header. written (put_parts header parts.payload)

unfoldable pub read_text : ℕ → Method WireReader EnvelopeError (List ℕ)
read_text maximum r =
    run_on (wired (read_prefixed_bytes u32_inclusive maximum r))
      λ bytes r. if is_utf8 bytes then (ok bytes, r) else (err invalid_field, r)

-- What the reads of the reply's header return.
pub record SsoHeader : Type 0 where
  pub sequence : ℕ
  pub return_code : ℤ
  pub extra : List ℕ
  pub command : List ℕ
  pub message_cookie : List ℕ
  pub compression : ℤ
  pub reserve : List ℕ
  pub extension : List ℕ

unfoldable pub read_extension : Method WireReader EnvelopeError (List ℕ)
read_extension r =
    if ltb max_response_extension_len (remaining r)
    then (err invalid_field, r)
    else run_on (wired (read_bytes (remaining r) r))
        λ extension r. run_on (map_err (λ _. wire) (finish r), r) λ _ r. (ok extension, r)

unfoldable pub read_header : Method WireReader EnvelopeError SsoHeader
read_header r = run_on (wired (read_u32 r)) λ sequence r.
    run_on (wired (read_i32 r)) λ return_code r. run_on (read_text 4096 r) λ extra r.
      run_on (read_text max_command_len r) λ command r.
        run_on (wired (read_prefixed_bytes u32_inclusive 4096 r)) λ message_cookie r.
          run_on (wired (read_i32 r)) λ compression r.
            run_on (wired (read_prefixed_bytes u32_inclusive 65536 r)) λ reserve r.
              run_on (read_extension r) λ extension r. (
                ok (record {
                  sequence = sequence;
                  return_code = return_code;
                  extra = extra;
                  command = command;
                  message_cookie = message_cookie;
                  compression = compression;
                  reserve = reserve;
                  extension = extension;
                }),
                r,
              )

-- `matches!(compression, 0 | 4)`
abbrev pub known_compression : ℤ → Bool
known_compression (pos n) = n == 0 || n == 4
known_compression (negsuc n) = false

-- The checks that follow the reads, and the reply.
unfoldable pub accept_header : List ℕ → SsoHeader → Result SsoResponse EnvelopeError
accept_header payload h =
    if h.sequence == 0 || is_empty h.command
    then err invalid_field
    else if not (known_compression h.compression)
    then err unsupported
    else ok (record {
      sequence = h.sequence;
      return_code = h.return_code;
      command = h.command;
      extra = h.extra;
      reserve = h.reserve;
      extension = h.extension;
      payload = payload;
    })

-- The reply's two fields.
unfoldable pub read_parts : Method WireReader EnvelopeError (List ℕ × List ℕ)
read_parts r = run_on (wired (read_prefixed_bytes u32_inclusive max_packet_len r)) λ header r.
    run_on (wired (read_prefixed_bytes u32_inclusive max_packet_len r))
      λ payload r. run_on (map_err (λ _. wire) (finish r), r) λ _ r. (ok (header, payload), r)

unfoldable pub decode_sso_response : List ℕ → Result SsoResponse EnvelopeError
decode_sso_response encoded =
    and_then (read_parts (Reader.new encoded)).0
      λ (header, payload). and_then (read_header (Reader.new header)).0 λ h. accept_header payload h
