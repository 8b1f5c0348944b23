-- ===== src/Envelope/Session.antt =====
-- crates/qq-envelope/src/transport/session.rs: one request and one reply of a session, under the
-- authentication that it holds.
use lirvena.Base.{
  ℕ, not, ◌||◌, ◌==◌, if◌then◌else◌, Option, none, some, List, [], is_empty, Result, ok, err,
  and_then,
}
use lirvena.Base.Bytes.{same_bytes}
use lirvena.Base.Text.{to_string}
use lirvena.Envelope.{EnvelopeError, invalid_field}
use lirvena.Envelope.Sso.{SsoResponse, encode_sso_request, decode_sso_response}
use lirvena.Envelope.Service.{zero_key, encode_service_frame, decode_service_response}

pub data SessionAuth : Type 0 where
  anonymous_auth : (uin : ℕ) → SessionAuth
  authenticated_auth : (uin : ℕ) (tgt d2 d2_key : List ℕ) → SessionAuth

abbrev pub anonymous : ℕ → SessionAuth
anonymous uin = anonymous_auth uin

unfoldable pub authenticated : ℕ → List ℕ → List ℕ → List ℕ → Result SessionAuth EnvelopeError
authenticated uin tgt d2 d2_key =
    if uin == 0 || is_empty tgt || is_empty d2
    then err invalid_field
    else ok (authenticated_auth uin tgt d2 d2_key)

abbrev pub uin_of : SessionAuth → ℕ
uin_of (anonymous_auth uin) = uin
uin_of (authenticated_auth uin tgt d2 d2_key) = uin

abbrev pub tgt_of : SessionAuth → List ℕ
tgt_of (anonymous_auth uin) = []
tgt_of (authenticated_auth uin tgt d2 d2_key) = tgt

abbrev pub d2_of : SessionAuth → List ℕ
d2_of (anonymous_auth uin) = []
d2_of (authenticated_auth uin tgt d2 d2_key) = d2

abbrev pub d2_key_of : SessionAuth → Option (List ℕ)
d2_key_of (anonymous_auth uin) = none
d2_key_of (authenticated_auth uin tgt d2 d2_key) = some d2_key

pub record SessionRequestParts : Type 0 where
  pub auth : SessionAuth
  pub sequence : ℕ
  pub sub_app_id : ℕ
  pub locale_id : ℕ
  pub command : List ℕ
  pub device_guid_hex : List ℕ
  pub client_version : List ℕ
  pub reserve : List ℕ
  pub payload : List ℕ

pub record ExpectedSsoResponse : Type 0 where
  pub auth : SessionAuth
  pub sequence : ℕ
  pub command : List ℕ

-- `unwrap_or(&zero_key)`
abbrev pub key_or_zero : Option (List ℕ) → List ℕ
key_or_zero none = zero_key
key_or_zero (some key) = key

unfoldable pub encode_session_request :
    (ℕ → Option (List ℕ)) → SessionRequestParts → Result (List ℕ) EnvelopeError
encode_session_request fill parts =
    and_then
      (encode_sso_request (record {
        sequence = parts.sequence;
        sub_app_id = parts.sub_app_id;
        locale_id = parts.locale_id;
        tgt = tgt_of parts.auth;
        command = parts.command;
        device_guid_hex = parts.device_guid_hex;
        client_version = parts.client_version;
        reserve = parts.reserve;
        payload = parts.payload;
      }))
      λ sso. encode_service_frame fill (record {
        uin = uin_of parts.auth;
        d2 = d2_of parts.auth;
        d2_key = key_or_zero (d2_key_of parts.auth);
        sso = sso;
      })

unfoldable pub decode_session_frame : List ℕ → SessionAuth → Result SsoResponse EnvelopeError
decode_session_frame encoded auth =
    and_then (decode_service_response encoded (d2_key_of auth)) λ service.
      if not (same_bytes service.uin (to_string (uin_of auth)))
      then err invalid_field
      else decode_sso_response service.payload

unfoldable pub decode_session_response :
    List ℕ → ExpectedSsoResponse → Result SsoResponse EnvelopeError
decode_session_response encoded expected =
    and_then (decode_session_frame encoded expected.auth) λ sso.
      if not (sso.sequence == expected.sequence) || not (same_bytes sso.command expected.command)
      then err invalid_field
      else ok sso
