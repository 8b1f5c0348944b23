-- ===== src/Envelope/Request.antt =====
-- The frame of a session's request.
use lirvena.Base.{
  ℕ, ◌^◌, ◌<◌, ◌≡◌, sym, ap, subst, ◌∙◌, Option, List, [], ◌∷◌, ◌++◌, length, replicate, All,
  All-append, arith, ok, and_then_ok,
}
use lirvena.Base.Bytes.{IsByte, to_be, to_be-bytes}
use lirvena.Base.Text.{length-to_string}
use lirvena.Transport.{validate_complete_frame}
use lirvena.Wire.Prefix.{LengthPrefix, u16_inclusive, u32_inclusive, width}
use lirvena.Wire.Writer.Bounds.{encoded, announced}
use lirvena.Envelope.{max_packet_len}
use lirvena.Envelope.Sso.{encode_sso_request}
use lirvena.Envelope.Service.{encode_service_frame}
use lirvena.Envelope.Session.{uin_of, tgt_of, d2_of, SessionRequestParts, encode_session_request}
use lirvena.Envelope.Layout.{
  field, header_layout, sso_layout, body_layout, IsRequest, encode_sso_request-layout, Fills,
  encode_service_frame-Frame, field_complete,
}
use lirvena.Envelope.Peer.{
  sso_of, service_of, IsFrame, IsAccepted, validate-IsAccepted, Frame-IsFrame,
}

abbrev IsSlice : List ℕ → Type 0
IsSlice xs = (length xs < 2 ^ 63) × All IsByte xs

-- The fields are Rust slices of bytes.
pub record IsSession (p : SessionRequestParts) : Type 0 where
  pub tgt : IsSlice (tgt_of p.auth)
  pub d2 : length (d2_of p.auth) < 2 ^ 63
  pub command : IsSlice p.command
  pub device_guid_hex : IsSlice p.device_guid_hex
  pub client_version : IsSlice p.client_version
  pub reserve : IsSlice p.reserve
  pub payload : IsSlice p.payload

encoded-bytes : (q : LengthPrefix) (xs : List ℕ) → All IsByte xs → All IsByte (encoded q xs)
encoded-bytes q xs h =
    All-append IsByte (to_be (width q) (announced q xs)) xs (to_be-bytes (width q) (announced q xs))
      h

both : (xs ys : List ℕ) → All IsByte xs → All IsByte ys → All IsByte (xs ++ ys)
both xs ys h k = All-append IsByte xs ys h k

fixed-bytes : All IsByte (2 ∷ replicate 11 0)
fixed-bytes = (
  omega arith,
  (
    omega arith,
    (
      omega arith,
      (
        omega arith,
        (
          omega arith,
          (
            omega arith,
            (
              omega arith,
              (omega arith, (omega arith, (omega arith, (omega arith, (omega arith, tt))))),
            ),
          ),
        ),
      ),
    ),
  ),
)

header-bytes : (p : SessionRequestParts) → IsSession p → All IsByte (header_layout (sso_of p))
header-bytes p h = both (to_be 4 p.sequence) _ (to_be-bytes 4 p.sequence) (
    both (to_be 4 p.sub_app_id) _ (to_be-bytes 4 p.sub_app_id) (
      both (to_be 4 p.locale_id) _ (to_be-bytes 4 p.locale_id) (
        both (2 ∷ replicate 11 0) _ fixed-bytes (
          both (field (tgt_of p.auth)) _ (encoded-bytes u32_inclusive (tgt_of p.auth) h.tgt.1) (
            both (field p.command) _ (encoded-bytes u32_inclusive p.command h.command.1) (
              both (field []) _ (encoded-bytes u32_inclusive [] tt) (
                both (field p.device_guid_hex) _
                  (encoded-bytes u32_inclusive p.device_guid_hex h.device_guid_hex.1)
                  (both (field []) _ (encoded-bytes u32_inclusive [] tt) (
                    both (encoded u16_inclusive p.client_version) (field p.reserve)
                      (encoded-bytes u16_inclusive p.client_version h.client_version.1)
                      (encoded-bytes u32_inclusive p.reserve h.reserve.1))))))))))

sso-bytes : (p : SessionRequestParts) → IsSession p → All IsByte (sso_layout (sso_of p))
sso-bytes p h =
    both (field (header_layout (sso_of p))) (field p.payload)
      (encoded-bytes u32_inclusive (header_layout (sso_of p)) (header-bytes p h))
      (encoded-bytes u32_inclusive p.payload h.payload.1)

IsRequest-slices : (p : SessionRequestParts) → IsSession p → IsRequest (sso_of p)
IsRequest-slices p h = record {
  tgt = h.tgt.0;
  command = h.command.0;
  device_guid_hex = h.device_guid_hex.0;
  client_version = h.client_version.0;
  reserve = h.reserve.0;
  payload = h.payload.0;
}

-- A request is encoded only if its identifiers are not zero, its command, device and version are
-- texts of the required lengths and its payload is not empty. Its frame is laid out as a peer reads
-- it: without a D2 ticket it is marked by 2 and what it seals opens under the key of zeros, with
-- one it is marked by 1, shows the ticket and opens under the ticket's key. It shows the account,
-- and what opens is the SSO request in its layout with the session's TGT. The transport admits the
-- frame. The fields are slices of bytes, and the entropy source fills its buffer with bytes.
pub encode_session_request-Frame :
    (fill : ℕ → Option (List ℕ)) (p : SessionRequestParts) (bytes : List ℕ)
    → Fills fill
    → IsSession p
    → encode_session_request fill p ≡ ok bytes
    → IsAccepted p × IsFrame p bytes × (validate_complete_frame bytes 2097152 ≡ ok tt)
unfolding encode_session_request
encode_session_request-Frame fill p bytes f h e =
    let (sso, es, e1) = and_then_ok (encode_sso_request (sso_of p)) _ bytes e in
    let (good, same, _) = encode_sso_request-layout (sso_of p) sso (IsRequest-slices p h) es in
    let e2 : encode_service_frame fill (service_of p) ≡ ok bytes =
      ap (λ x. encode_service_frame fill (record (service_of p) { sso = x })) (sym same) ∙ e1 in
    let frame =
      encode_service_frame-Frame fill (service_of p) bytes f (sso-bytes p h) h.d2
        (omega (arith, length-to_string (uin_of p.auth))) e2 in
    (
      validate-IsAccepted p good,
      Frame-IsFrame p bytes frame,
      subst (λ xs. validate_complete_frame xs max_packet_len ≡ ok tt) (sym frame.layout)
          (field_complete (body_layout (service_of p) frame.encrypted)
            (omega (arith, frame.fits, ap length frame.layout))),
    )
