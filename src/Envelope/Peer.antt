-- ===== src/Envelope/Peer.antt =====
-- A session's request as a peer reads it, written out by the sort of authentication.
use lirvena.Base.{
  ℕ, ◌<◌, ◌≡◌, ◌≤◌, refl, ap, subst, ◌∙◌, List, [], ◌∷◌, ◌++◌, length, replicate, all, is_empty,
  true, false, arith, ok,
}
use lirvena.Base.Bytes.{to_be}
use lirvena.Base.Text.{to_string, is_ascii_graphic, is_ascii_hexdigit}
use lirvena.Wire.Prefix.{u16_inclusive}
use lirvena.Wire.Writer.Bounds.{encoded}
use lirvena.Envelope.Sso.{SsoRequestParts, validate}
use lirvena.Tea.Codec.{decrypt_qq_tea}
use lirvena.Envelope.Service.{ServiceFrameParts, auth_flag_of, encryption_key}
use lirvena.Envelope.Session.{
  SessionAuth, anonymous_auth, authenticated_auth, uin_of, tgt_of, d2_of, d2_key_of, key_or_zero,
  SessionRequestParts,
}
use lirvena.Envelope.Layout.{field, sso_layout, body_layout, Frame}

-- The SSO request inside.
abbrev pub sso_of : SessionRequestParts → SsoRequestParts
sso_of p = record {
  sequence = p.sequence;
  sub_app_id = p.sub_app_id;
  locale_id = p.locale_id;
  tgt = tgt_of p.auth;
  command = p.command;
  device_guid_hex = p.device_guid_hex;
  client_version = p.client_version;
  reserve = p.reserve;
  payload = p.payload;
}

-- The frame around it.
abbrev pub service_of : SessionRequestParts → ServiceFrameParts
service_of p = record {
  uin = uin_of p.auth;
  d2 = d2_of p.auth;
  d2_key = key_or_zero (d2_key_of p.auth);
  sso = sso_layout (sso_of p);
}

-- What the two sorts of authentication show in a frame. Without a D2 ticket the frame is marked by 2
-- and sealed under the key of zeros; with one it is marked by 1 and sealed under the ticket's key.
pub record Credentials : Type 0 where
  pub uin : ℕ
  pub tgt : List ℕ
  pub d2 : List ℕ
  pub flag : ℕ
  pub key : List ℕ

abbrev pub credentials : SessionAuth → Credentials
credentials (anonymous_auth uin) = record {
  uin = uin;
  tgt = [];
  d2 = [];
  flag = 2;
  key = replicate 16 0;
}
credentials (authenticated_auth uin tgt [] d2_key) = record {
  uin = uin;
  tgt = tgt;
  d2 = [];
  flag = 2;
  key = replicate 16 0;
}
credentials (authenticated_auth uin tgt (x ∷ d2) d2_key) = record {
  uin = uin;
  tgt = tgt;
  d2 = x ∷ d2;
  flag = 1;
  key = d2_key;
}

-- The SSO request that the frame carries, and the frame around what is sealed.
abbrev pub sso_fields : SessionRequestParts → List ℕ
sso_fields p =
    field (
      to_be 4 p.sequence
      ++ (to_be 4 p.sub_app_id
          ++ (to_be 4 p.locale_id
              ++ ((2 ∷ replicate 11 0)
                  ++ (field (credentials p.auth).tgt
                      ++ (field p.command
                          ++ (field []
                              ++ (field p.device_guid_hex
                                  ++ (field []
                                      ++ (encoded u16_inclusive p.client_version
                                          ++ field p.reserve))))))))))
    ++ field p.payload

abbrev pub frame_fields : Credentials → List ℕ → List ℕ
frame_fields c sealed =
    to_be 4 12
    ++ ((c.flag ∷ []) ++ (field c.d2 ++ ((0 ∷ []) ++ (field (to_string c.uin) ++ sealed))))

-- The frame as a peer reads it.
pub record IsFrame (p : SessionRequestParts) (bytes : List ℕ) : Type 0 where
  pub sealed : List ℕ
  pub layout : bytes ≡ field (frame_fields (credentials p.auth) sealed)
  pub opens : decrypt_qq_tea sealed (credentials p.auth).key ≡ ok (sso_fields p)
  pub fits : length bytes ≤ 2097152

-- The fields of a request that may be sent.
pub record IsAccepted (p : SessionRequestParts) : Type 0 where
  pub sequence : 0 < p.sequence
  pub sub_app_id : 0 < p.sub_app_id
  pub locale_id : 0 < p.locale_id
  pub command : (0 < length p.command) × (length p.command ≤ 128)
  pub command_text : all is_ascii_graphic p.command ≡ true
  pub device_guid : length p.device_guid_hex ≡ 32
  pub device_guid_text : all is_ascii_hexdigit p.device_guid_hex ≡ true
  pub client_version : (0 < length p.client_version) × (length p.client_version ≤ 64)
  pub client_version_text : all is_ascii_graphic p.client_version ≡ true
  pub payload : 0 < length p.payload

some_bytes : (xs : List ℕ) → is_empty xs ≡ false → 0 < length xs
some_bytes [] h = absurd (ground arith)
some_bytes (x ∷ xs) h = omega arith

pub validate-IsAccepted : (p : SessionRequestParts) → validate (sso_of p) ≡ ok tt → IsAccepted p
unfolding validate
validate-IsAccepted p h = record {
  sequence = ground arith;
  sub_app_id = ground arith;
  locale_id = ground arith;
  command = (some_bytes p.command (ground arith), ground arith);
  command_text = ground arith;
  device_guid = ground arith;
  device_guid_text = ground arith;
  client_version = (some_bytes p.client_version (ground arith), ground arith);
  client_version_text = ground arith;
  payload = some_bytes p.payload (ground arith);
}

uin-credentials : (a : SessionAuth) → uin_of a ≡ (credentials a).uin
uin-credentials (anonymous_auth uin) = refl
uin-credentials (authenticated_auth uin tgt [] key) = refl
uin-credentials (authenticated_auth uin tgt (x ∷ d2) key) = refl

tgt-credentials : (a : SessionAuth) → tgt_of a ≡ (credentials a).tgt
tgt-credentials (anonymous_auth uin) = refl
tgt-credentials (authenticated_auth uin tgt [] key) = refl
tgt-credentials (authenticated_auth uin tgt (x ∷ d2) key) = refl

d2-credentials : (a : SessionAuth) → d2_of a ≡ (credentials a).d2
d2-credentials (anonymous_auth uin) = refl
d2-credentials (authenticated_auth uin tgt [] key) = refl
d2-credentials (authenticated_auth uin tgt (x ∷ d2) key) = refl

abbrev framed : SessionAuth → List ℕ → ServiceFrameParts
framed a sso = record {
  uin = uin_of a;
  d2 = d2_of a;
  d2_key = key_or_zero (d2_key_of a);
  sso = sso;
}

flag-credentials :
    (a : SessionAuth) (sso : List ℕ) → auth_flag_of (framed a sso) ≡ (credentials a).flag
flag-credentials (anonymous_auth uin) sso = refl
flag-credentials (authenticated_auth uin tgt [] key) sso = refl
flag-credentials (authenticated_auth uin tgt (x ∷ d2) key) sso = refl

key-credentials :
    (a : SessionAuth) (sso : List ℕ) → encryption_key (framed a sso) ≡ (credentials a).key
key-credentials (anonymous_auth uin) sso = refl
key-credentials (authenticated_auth uin tgt [] key) sso = refl
key-credentials (authenticated_auth uin tgt (x ∷ d2) key) sso = refl

body-credentials :
    (p : SessionRequestParts) (sealed : List ℕ)
    → body_layout (service_of p) sealed ≡ frame_fields (credentials p.auth) sealed
body-credentials p sealed =
    let flag = flag-credentials p.auth (sso_layout (sso_of p)) in
    ap
      (λ (n : ℕ).
        to_be 4 12
        ++ ((n ∷ [])
            ++ (field (d2_of p.auth)
                ++ ((0 ∷ []) ++ (field (to_string (uin_of p.auth)) ++ sealed)))))
      flag
    ∙ ap
        (λ xs.
          to_be 4 12
          ++ (((credentials p.auth).flag ∷ [])
              ++ (field xs ++ ((0 ∷ []) ++ (field (to_string (uin_of p.auth)) ++ sealed)))))
        (d2-credentials p.auth)
    ∙ ap
        (λ (n : ℕ).
          to_be 4 12
          ++ (((credentials p.auth).flag ∷ [])
              ++ (field (credentials p.auth).d2 ++ ((0 ∷ []) ++ (field (to_string n) ++ sealed)))))
        (uin-credentials p.auth)

sso-credentials : (p : SessionRequestParts) → sso_layout (sso_of p) ≡ sso_fields p
sso-credentials p = ap (λ xs. sso_layout (record (sso_of p) { tgt = xs })) (tgt-credentials p.auth)

pub Frame-IsFrame :
    (p : SessionRequestParts) (bytes : List ℕ) → Frame (service_of p) bytes → IsFrame p bytes
Frame-IsFrame p bytes f = record {
  sealed = f.encrypted;
  layout = f.layout ∙ ap field (body-credentials p f.encrypted);
  opens =
      subst (λ k. decrypt_qq_tea f.encrypted k ≡ ok (sso_layout (sso_of p)))
        (key-credentials p.auth (sso_layout (sso_of p))) f.opens
      ∙ ap (λ (xs : List ℕ). ok xs) (sso-credentials p);
  fits = f.fits;
}
