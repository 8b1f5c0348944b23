-- ===== src/Envelope/Binding.antt =====
-- Whose reply a session accepts.
use mathlib.Core.List.{append-nil}
use lirvena.Base.{
  ℕ, ◌^◌, ◌<◌, ◌≤◌, ◌≡◌, ◌⊎◌, inl, inr, refl, sym, ap, subst, ◌∙◌, false, not, ◌||◌, if◌then◌else◌,
  some, List, [], ◌∷◌, ◌++◌, length, length-append, is_empty, all, All, arith, ok, err, run_on_ok,
  and_then_ok, ==_refl,
}
use lirvena.Base.Bytes.{IsByte, to_be, same_bytes_refl, same_bytes_sound}
use lirvena.Base.Text.{
  to_string, is_ascii_digit, length-to_string, to_string-all, to_string-present, spelled,
  spelled-to_string,
}
use lirvena.Tea.Codec.{decrypt_qq_tea}
use lirvena.Wire.Prefix.{u32_inclusive}
use lirvena.Wire.Reader.{
  WireReader, remaining, read_u8, read_u32, read_bytes, read_prefixed_bytes, finish,
}
use lirvena.Wire.Reader
use lirvena.Envelope.{invalid_field, max_packet_len, wired}
use lirvena.Envelope.Sso.{SsoResponse, read_header, read_parts, accept_header, decode_sso_response}
use lirvena.Envelope.Service.{
  protocol_version, zero_key, ServiceResponse, ServiceBody, read_uin, read_body, open_body,
  read_frame_body, decode_service_response,
}
use lirvena.Envelope.Session.{
  SessionAuth, uin_of, d2_key_of, ExpectedSsoResponse, decode_session_frame,
  decode_session_response,
}
use lirvena.Envelope.Layout.{field}
use lirvena.Envelope.Reads.{
  Reads, Reads-then, Reads-u8, Reads-u32, Reads-field, Reads-all, Reads-end, new-IsReader,
}
use lirvena.Envelope.Reply.{
  Reply, IsReply, reply_header, reply_layout, response_of, length-field, decode_sso_response-reply,
}

-- The frame around a reply.
abbrev pub frame_body : ServiceBody → List ℕ
frame_body b =
    to_be 4 protocol_version
    ++ ((b.auth_flag ∷ []) ++ ((b.flag ∷ []) ++ (field b.uin ++ b.encrypted)))

-- How a peer may protect the SSO data: not at all, under the session's key, or under the zero key.
abbrev pub Protects : SessionAuth → ServiceBody → List ℕ → Type 0
Protects auth b sso =
    ((b.auth_flag ≡ 0) × (b.encrypted ≡ sso))
    ⊎ ((b.auth_flag ≡ 1)
        × ((key : List ℕ) × (d2_key_of auth ≡ some key)
            × (decrypt_qq_tea b.encrypted key ≡ ok sso)))
    ⊎ ((b.auth_flag ≡ 2) × (decrypt_qq_tea b.encrypted zero_key ≡ ok sso))

open_body-Protects :
    (auth : SessionAuth) (b : ServiceBody) (sso : List ℕ)
    → Protects auth b sso
    → open_body (d2_key_of auth) b ≡ ok sso
unfolding open_body
open_body-Protects auth b sso (inl (f, e)) = rw (f, e)
open_body-Protects auth b sso (inr (inl (f, (key, k, e)))) = rw (f, k, e)
open_body-Protects auth b sso (inr (inr (f, e))) = rw (f, e)

Reads-uin : (n : ℕ) (rest : List ℕ) → Reads read_uin (field (to_string n)) (to_string n) rest
unfolding read_uin
Reads-uin n rest r h e =
    let got =
      Reads-field 32 (to_string n) rest (omega (arith, length-to_string n)) (omega arith) r h e in
    let step =
      run_on_ok (wired (read_prefixed_bytes u32_inclusive 32 r))
        (λ uin r.
          if is_empty uin || not (all is_ascii_digit uin)
          then (err invalid_field, r)
          else (ok uin, r))
        (to_string n) got.result in
    rw (step, to_string-present n, to_string-all n)
      (record { result = refl; left = got.left; valid = got.valid })

Reads-body : (b : ServiceBody) (n : ℕ) → b.uin ≡ to_string n → Reads read_body (frame_body b) b []
unfolding read_body
Reads-body b n u =
    Reads-then _ (to_be 4 protocol_version) _ [] protocol_version b
      (Reads-u32 protocol_version _ (omega arith))
      (Reads-then _ (b.auth_flag ∷ []) ((b.flag ∷ []) ++ (field b.uin ++ b.encrypted)) []
        b.auth_flag b (Reads-u8 b.auth_flag _)
        (Reads-then _ (b.flag ∷ []) _ [] b.flag b (Reads-u8 b.flag _) (
          Reads-then _ (field b.uin) b.encrypted [] b.uin b
            (subst (λ x. Reads read_uin (field x) x (b.encrypted ++ [])) (sym u) (Reads-uin n _))
            (Reads-end b.encrypted b.encrypted (λ (x : List ℕ). record b { encrypted = x })
              (Reads-all b.encrypted)))))

Reads-frame :
    (body : List ℕ) → length body ≤ max_packet_len → Reads read_frame_body (field body) body []
unfolding read_frame_body
Reads-frame body h =
    Reads-end (field body) body (λ (x : List ℕ). x)
      (Reads-field max_packet_len body [] h (omega arith))

-- The frame of a reply to the account `n`.
pub record IsFrameOf (auth : SessionAuth) (b : ServiceBody) (p : Reply) : Type 0 where
  pub account : b.uin ≡ to_string (uin_of auth)
  pub protects : Protects auth b (reply_layout p)
  pub reply : IsReply p
  pub bytes : All IsByte (field (frame_body b))
  pub body_bytes : All IsByte (frame_body b)
  pub fits : length (frame_body b) ≤ max_packet_len

long-present : (xs : List ℕ) → 1 ≤ length xs → is_empty xs ≡ false
long-present [] h = absurd (omega arith)
long-present (x ∷ xs) h = refl

reply-present : (p : Reply) → is_empty (reply_layout p) ≡ false
reply-present p = long-present (reply_layout p) (
    omega (arith, length-append (field (reply_header p)) (field p.payload), length-field p.payload))

service-reply :
    (auth : SessionAuth) (b : ServiceBody) (p : Reply)
    → IsFrameOf auth b p
    → decode_service_response (field (frame_body b)) (d2_key_of auth)
      ≡ ok (record { uin = b.uin; payload = reply_layout p })
unfolding decode_service_response
service-reply auth b p f =
    let frame =
      Reads-frame (frame_body b) f.fits (Reader.new (field (frame_body b)))
        (new-IsReader (field (frame_body b)) (omega (arith, length-field (frame_body b), f.fits))
          f.bytes)
        (sym (append-nil (field (frame_body b)))) in
    let body =
      Reads-body b (uin_of auth) f.account (Reader.new (frame_body b))
        (new-IsReader (frame_body b) (omega (arith, f.fits)) f.body_bytes)
        (sym (append-nil (frame_body b))) in
    rw (
      frame.result,
      body.result,
      open_body-Protects auth b (reply_layout p) f.protects,
      reply-present p,
    )

pub decode_session_frame-reply :
    (auth : SessionAuth) (b : ServiceBody) (p : Reply)
    → IsFrameOf auth b p
    → decode_session_frame (field (frame_body b)) auth ≡ ok (response_of p)
unfolding decode_session_frame
decode_session_frame-reply auth b p f =
    rw (service-reply auth b p f, f.account, same_bytes_refl) (decode_sso_response-reply p f.reply)

-- A peer's reply to the session's account, laid out within the bounds and protected in one of the
-- three ways, is read back field by field, by the session that expects its sequence and command.
pub decode_session_response-reply :
    (auth : SessionAuth) (b : ServiceBody) (p : Reply)
    → IsFrameOf auth b p
    → decode_session_response
        (field (frame_body b))
        (record { auth = auth; sequence = p.sequence; command = p.command })
      ≡ ok (response_of p)
unfolding decode_session_response
decode_session_response-reply auth b p f =
    rw (decode_session_frame-reply auth b p f, ==_refl p.sequence, same_bytes_refl p.command)

sso-accepts :
    (encoded : List ℕ) (r : SsoResponse)
    → decode_sso_response encoded ≡ ok r
    → (1 ≤ r.sequence) × (is_empty r.command ≡ false)
unfolding decode_sso_response accept_header
sso-accepts encoded r e =
    let ((header, payload), _, e1) = and_then_ok (read_parts (Reader.new encoded)).0 _ r e in
    let (h, _, e2) = and_then_ok (read_header (Reader.new header)).0 _ r e1 in ground arith

-- A response that is accepted carries the account of the session, the expected sequence, which is
-- not zero, and the expected command, which is not empty.
pub decode_session_response-binds :
    (encoded : List ℕ) (expected : ExpectedSsoResponse) (r : SsoResponse)
    → uin_of expected.auth < 2 ^ 32
    → decode_session_response encoded expected ≡ ok r
    → ((service : ServiceResponse) × (decode_service_response encoded (d2_key_of expected.auth)
          ≡ ok service)
        × (spelled 0 service.uin ≡ uin_of expected.auth))
      × (r.sequence ≡ expected.sequence)
      × (r.command ≡ expected.command)
      × (1 ≤ r.sequence)
      × (is_empty r.command ≡ false)
unfolding decode_session_response decode_session_frame
decode_session_response-binds encoded expected r u e =
    let (sso, e1, f1) = and_then_ok (decode_session_frame encoded expected.auth) _ r e in
    let (service, e2, f2) =
      and_then_ok (decode_service_response encoded (d2_key_of expected.auth)) _ sso e1 in
    let uin : service.uin ≡ to_string (uin_of expected.auth) =
      same_bytes_sound service.uin (to_string (uin_of expected.auth)) (ground arith) in
    let same : r ≡ sso = ground arith in
    let sound = same_bytes_sound sso.command expected.command in
    let (positive, named) = sso-accepts service.payload r (ground arith) in
    (
      (
        service,
        e2,
        ap (spelled 0) uin ∙ spelled-to_string (uin_of expected.auth) (omega (arith, u)),
      ),
      ground arith,
      ground (arith, sound),
      positive,
      named,
    )
