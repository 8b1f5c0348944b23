-- ===== src/Envelope/Layout.antt =====
-- The layout of a request, from the plain request to the frame that the transport sends.
use lirvena.Base.{
  ℕ, ◌+◌, ◌^◌, ◌<◌, ◌≤◌, ◌≡◌, inl, inr, ap, subst, ◌∙◌, false, not, Option, some, List, [], ◌∷◌,
  ◌++◌, length, replicate, is_empty, all, All, arith, ok, and_then_ok, ensure, take,
  take-append_left,
}
use lirvena.Base.Bytes.{IsByte, to_be, from_be, from_be-to_be, length-to_be}
use lirvena.Base.Text.{to_string}
use lirvena.Tea.Codec.{encrypt_qq_tea, decrypt_qq_tea}
use lirvena.Tea.Codec.Limits.{encrypt_qq_tea_outcome, decrypt_qq_tea_accepts}
use lirvena.Transport.{validate_complete_frame}
use lirvena.Wire.Prefix.{u16_inclusive, u32_inclusive}
use lirvena.Wire.Writer.Bounds.{encoded, announced}
use lirvena.Envelope.{invalid_field, max_packet_len, ciphered}
use lirvena.Envelope.Sso.{
  SsoRequestParts, fixed_header_value, validate, put_header, put_parts, written, encode_sso_request,
}
use lirvena.Envelope.Service.{
  ServiceFrameParts, protocol_version, auth_flag_of, encryption_key, put_body, put_frame,
  encode_service_frame,
}
use lirvena.Envelope.Writes.{
  Writes, Writes-then, Writes-bytes, Writes-u8, Writes-u32, Writes-field, written-Writes,
  length-encoded,
}

-- A field that counts its own prefix.
abbrev pub field : List ℕ → List ℕ
field xs = encoded u32_inclusive xs

abbrev pub header_layout : SsoRequestParts → List ℕ
header_layout p =
    to_be 4 p.sequence
    ++ (to_be 4 p.sub_app_id
        ++ (to_be 4 p.locale_id
            ++ ((2 ∷ replicate 11 0)
                ++ (field p.tgt
                    ++ (field p.command
                        ++ (field []
                            ++ (field p.device_guid_hex
                                ++ (field []
                                    ++ (encoded u16_inclusive p.client_version
                                        ++ field p.reserve)))))))))

abbrev pub sso_layout : SsoRequestParts → List ℕ
sso_layout p = field (header_layout p) ++ field p.payload

abbrev pub body_layout : ServiceFrameParts → List ℕ → List ℕ
body_layout p encrypted =
    to_be 4 12
    ++ ((auth_flag_of p ∷ [])
        ++ (field p.d2 ++ ((0 ∷ []) ++ (field (to_string p.uin) ++ encrypted))))

-- The byte strings of a request are Rust slices.
pub record IsRequest (p : SsoRequestParts) : Type 0 where
  pub tgt : length p.tgt < 2 ^ 63
  pub command : length p.command < 2 ^ 63
  pub device_guid_hex : length p.device_guid_hex < 2 ^ 63
  pub client_version : length p.client_version < 2 ^ 63
  pub reserve : length p.reserve < 2 ^ 63
  pub payload : length p.payload < 2 ^ 63

header-Writes : (p : SsoRequestParts) → IsRequest p → Writes (put_header p) (header_layout p)
unfolding put_header
header-Writes p h = Writes-then (to_be 4 p.sequence) _ (Writes-u32 p.sequence) (
    Writes-then (to_be 4 p.sub_app_id) _ (Writes-u32 p.sub_app_id) (
      Writes-then (to_be 4 p.locale_id) _ (Writes-u32 p.locale_id) (
        Writes-then fixed_header_value _ (Writes-bytes fixed_header_value (omega arith)) (
          Writes-then (field p.tgt) _ (Writes-field u32_inclusive p.tgt h.tgt) (
            Writes-then (field p.command) _ (Writes-field u32_inclusive p.command h.command) (
              Writes-then (field []) _ (Writes-field u32_inclusive [] (omega arith)) (
                Writes-then (field p.device_guid_hex) _
                  (Writes-field u32_inclusive p.device_guid_hex h.device_guid_hex)
                  (Writes-then (field []) _ (Writes-field u32_inclusive [] (omega arith)) (
                    Writes-then (encoded u16_inclusive p.client_version) (field p.reserve)
                      (Writes-field u16_inclusive p.client_version h.client_version)
                      (Writes-field u32_inclusive p.reserve h.reserve))))))))))

parts-Writes :
    (header payload : List ℕ)
    → length header < 2 ^ 63
    → length payload < 2 ^ 63
    → Writes (put_parts header payload) (field header ++ field payload)
unfolding put_parts
parts-Writes header payload h k =
    Writes-then (field header) (field payload) (Writes-field u32_inclusive header h)
      (Writes-field u32_inclusive payload k)

-- A request that is encoded passed the checks and has the layout, within the bound.
pub encode_sso_request-layout :
    (p : SsoRequestParts) (bytes : List ℕ)
    → IsRequest p
    → encode_sso_request p ≡ ok bytes
    → (validate p ≡ ok tt) × (bytes ≡ sso_layout p) × (length bytes ≤ max_packet_len)
unfolding encode_sso_request
encode_sso_request-layout p bytes h e =
    let (_, good, e1) = and_then_ok (validate p) _ bytes e in
    let (header, eh, e2) = and_then_ok (written (put_header p)) _ bytes e1 in
    let (same, small) =
      written-Writes (put_header p) (header_layout p) header (header-Writes p h) eh in
    let (all, fits) =
      written-Writes (put_parts header p.payload) (field header ++ field p.payload) bytes
        (parts-Writes header p.payload (omega (arith, small)) h.payload) e2 in
    (good, all ∙ ap (λ (x : List ℕ). field x ++ field p.payload) same, fits)

body-Writes :
    (p : ServiceFrameParts) (encrypted : List ℕ)
    → length p.d2 < 2 ^ 63
    → length (to_string p.uin) < 2 ^ 63
    → length encrypted < 2 ^ 63
    → Writes (put_body p encrypted) (body_layout p encrypted)
unfolding put_body
body-Writes p encrypted d u n =
    Writes-then (to_be 4 protocol_version) _ (Writes-u32 protocol_version) (
      Writes-then (auth_flag_of p ∷ []) _ (Writes-u8 (auth_flag_of p)) (
        Writes-then (field p.d2) _ (Writes-field u32_inclusive p.d2 d) (
          Writes-then (0 ∷ []) _ (Writes-u8 0) (
            Writes-then (field (to_string p.uin)) encrypted
              (Writes-field u32_inclusive (to_string p.uin) u) (Writes-bytes encrypted n)))))

-- The entropy source fills the buffer that it is given with bytes.
abbrev pub Fills : (ℕ → Option (List ℕ)) → Type 0
Fills fill =
    (n : ℕ) (padding : List ℕ) → fill n ≡ some padding → (length padding ≡ n) × All IsByte padding

ciphered_ok :
    (fill : ℕ → Option (List ℕ)) (plaintext key encrypted : List ℕ)
    → Fills fill
    → All IsByte plaintext
    → ciphered (encrypt_qq_tea fill plaintext key) ≡ ok encrypted
    → decrypt_qq_tea encrypted key ≡ ok plaintext
ciphered_ok fill plaintext key encrypted f b e =
    elim (encrypt_qq_tea_outcome fill plaintext key f b) [
      | inl (_, x) ↦ absurd (ground (arith, e, x))
      | inr (inl (_, x)) ↦ absurd (ground (arith, e, x))
      | inr (inr (c, x, d)) ↦ let same : encrypted ≡ c = ground (arith, e, x) in rw same d
    ]

-- What a peer sees: the frame has the layout, and its last field opens to the SSO data.
pub record Frame (p : ServiceFrameParts) (bytes : List ℕ) : Type 0 where
  pub encrypted : List ℕ
  pub layout : bytes ≡ field (body_layout p encrypted)
  pub opens : decrypt_qq_tea encrypted (encryption_key p) ≡ ok p.sso
  pub fits : length bytes ≤ max_packet_len
  pub present : is_empty p.sso ≡ false

pub encode_service_frame-Frame :
    (fill : ℕ → Option (List ℕ)) (p : ServiceFrameParts) (bytes : List ℕ)
    → Fills fill
    → All IsByte p.sso
    → length p.d2 < 2 ^ 63
    → length (to_string p.uin) < 2 ^ 63
    → encode_service_frame fill p ≡ ok bytes
    → Frame p bytes
unfolding encode_service_frame
encode_service_frame-Frame fill p bytes f b d u e =
    let (_, some_sso, e1) = and_then_ok (ensure (not (is_empty p.sso)) invalid_field) _ bytes e in
    let (encrypted, ec, e2) =
      and_then_ok (ciphered (encrypt_qq_tea fill p.sso (encryption_key p))) _ bytes e1 in
    let opens = ciphered_ok fill p.sso (encryption_key p) encrypted f b ec in
    let (body, eb, e3) = and_then_ok (written (put_body p encrypted)) _ bytes e2 in
    let short : length encrypted < 2 ^ 63 =
      omega (arith, (decrypt_qq_tea_accepts encrypted (encryption_key p) opens).2) in
    let (same, small) =
      written-Writes (put_body p encrypted) (body_layout p encrypted) body
        (body-Writes p encrypted d u short) eb in
    let (all, fits) =
      written-Writes (put_frame body) (field body) bytes
        (Writes-field u32_inclusive body (omega (arith, small))) e3 in
    record {
      encrypted = encrypted;
      layout = all ∙ ap field same;
      opens = opens;
      fits = fits;
      present = ground arith;
    }

-- A field that is within the bound is a complete frame.
pub field_complete :
    (xs : List ℕ)
    → length (field xs) ≤ max_packet_len
    → validate_complete_frame (field xs) max_packet_len ≡ ok tt
unfolding validate_complete_frame
field_complete xs h =
    let n = announced u32_inclusive xs in
    let head : take 4 (field xs) ≡ to_be 4 n =
      subst (λ (k : ℕ). take k (field xs) ≡ to_be 4 n) (length-to_be 4 n)
        (take-append_left (to_be 4 n) xs) in
    let size : length (field xs) ≡ 4 + length xs = length-encoded u32_inclusive xs in
    let told : from_be (take 4 (field xs)) ≡ n =
      ap from_be head ∙ from_be-to_be 4 n (omega (arith, size)) in
    ground (arith, told, size)
