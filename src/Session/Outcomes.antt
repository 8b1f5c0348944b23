-- ===== src/Session/Outcomes.antt =====
-- What a response can be to an exchange, and what an exchange owes.
use mathlib.Core.List.{append-nil}
use lirvena.Base.{
  ℕ, ◌≤◌, ◌<◌, ◌≡◌, refl, sym, ap, ◌∙◌, ◌⊎◌, inl, inr, Bool, true, not, ◌&&◌, ◌==◌, List, [], ◌∷◌,
  ◌++◌, length, All, arith, Result, ok, err, map_err, Result-cases,
}
use lirvena.Base.Bytes.{same_bytes_sound}
use lirvena.Base.Int.{pos}
use lirvena.Transport.{QqTransport, TransportError, read_frame}
use lirvena.Envelope.{EnvelopeError}
use lirvena.Envelope.Sso.{SsoResponse}
use lirvena.Envelope.Session.{SessionAuth, decode_session_frame}
use lirvena.Session.{
  SessionError, transport_error, envelope_error, push_limit, AuthenticatedSession, read, enqueue,
  Inbound, answered, pushed, refused, classify, max_queued_pushes,
}

pub read_lem :
    (auth : SessionAuth) (s : AuthenticatedSession)
    → (read auth s).1 ≡ record s { transport = (read_frame s.transport).1 }
unfolding read
read_lem auth s = elim (Result-cases (read_frame s.transport).0) [
  | inl (f, e) ↦ rw e
  | inr (x, e) ↦ rw e
]

-- A response that may wait in the queue.
abbrev pub waits : ℕ → (List ℕ → Bool) → SsoResponse → Bool
waits sequence admits_push p = not (p.sequence == sequence) && admits_push p.command

-- What the loop and the exchange do to the queue.
pub record Queues (q : SsoResponse → Bool) (s u : AuthenticatedSession) : Type 0 where
  pub added : List SsoResponse
  pub appended : u.pushes ≡ s.pushes ++ added
  pub admitted : All (λ p. q p ≡ true) added
  pub bounded : length u.pushes ≤ max_queued_pushes

-- The frames that stand next in a transport's stream, as the responses that they decode to, up to
-- the transport that has read them.
pub data Receives (auth : SessionAuth) (u : QqTransport)
    : QqTransport → List SsoResponse → Type 0 where
  nothing_more : Receives auth u u []
  receives :
      {t : QqTransport} {rs : List SsoResponse} (frame : List ℕ) (r : SsoResponse)
      → (read_frame t).0 ≡ ok frame
      → decode_session_frame frame auth ≡ ok r
      → Receives auth u (read_frame t).1 rs
      → Receives auth u t (r ∷ rs)

-- An answer is the frame that stands in the stream of `t` behind those that joined the queue of `v`; it
-- decodes for this session to a response to this request, and not to an error.
pub record IsAnswer (auth : SessionAuth) (sequence : ℕ) (command payload : List ℕ) (t : QqTransport)
    (queue : List SsoResponse) (v : AuthenticatedSession) : Type 0 where
  pub before : QqTransport
  pub skipped : List SsoResponse
  pub received : Receives auth before t skipped
  pub queued : v.pushes ≡ queue ++ skipped
  pub frame : List ℕ
  pub response : SsoResponse
  pub is_next : (read_frame before).0 ≡ ok frame
  pub is_last : v.transport ≡ (read_frame before).1
  pub decoded : decode_session_frame frame auth ≡ ok response
  pub same_sequence : response.sequence ≡ sequence
  pub same_command : response.command ≡ command
  pub success : response.return_code ≡ pos 0
  pub same_payload : response.payload ≡ payload

abbrev pub Answers :
    SessionAuth
    → ℕ
    → List ℕ
    → QqTransport
    → List SsoResponse
    → Result (List ℕ) SessionError × AuthenticatedSession
    → Type 0
Answers auth sequence command t queue (ok payload, v) =
    IsAnswer auth sequence command payload t queue v
Answers auth sequence command t queue (err e, v) = Unit {0}

unconverted :
    (x : Result SsoResponse EnvelopeError) (r : SsoResponse)
    → map_err envelope_error x ≡ ok r
    → x ≡ ok r
unconverted (ok p) r h = ground arith
unconverted (err e) r h = absurd (ground arith)

read_decodes :
    (auth : SessionAuth) (s : AuthenticatedSession) (frame : List ℕ)
    → (read_frame s.transport).0 ≡ ok frame
    → (read auth s).0 ≡ map_err envelope_error (decode_session_frame frame auth)
unfolding read
read_decodes auth s frame e = rw e

read_fails :
    (auth : SessionAuth) (s : AuthenticatedSession) (x : TransportError)
    → (read_frame s.transport).0 ≡ err x
    → (read auth s).0 ≡ err (transport_error x)
unfolding read
read_fails auth s x e = rw e

-- What the reader returns was decoded from the next frame.
pub frame_of :
    (auth : SessionAuth) (s : AuthenticatedSession) (r : SsoResponse)
    → (read auth s).0 ≡ ok r
    → (frame : List ℕ) × ((read_frame s.transport).0 ≡ ok frame)
      × (decode_session_frame frame auth ≡ ok r)
frame_of auth s r h = elim (Result-cases (read_frame s.transport).0) [
  | inl (f, e) ↦
      (f, e, unconverted (decode_session_frame f auth) r (sym (read_decodes auth s f e) ∙ h))
  | inr (x, e) ↦ absurd (ground (arith, sym h ∙ read_fails auth s x e))
]

pub classify_answered :
    (sequence : ℕ) (command : List ℕ) (admits_push : List ℕ → Bool) (r : SsoResponse)
    (payload : List ℕ)
    → classify sequence command admits_push r ≡ answered payload
    → (r.sequence ≡ sequence)
      × (r.command ≡ command)
      × (r.return_code ≡ pos 0)
      × (r.payload ≡ payload)
unfolding classify
classify_answered sequence command admits_push r payload e =
    let sound = same_bytes_sound r.command command in
    (ground arith, ground (arith, sound), ground arith, ground arith)

pub classify_pushed :
    (sequence : ℕ) (command : List ℕ) (admits_push : List ℕ → Bool) (r : SsoResponse)
    → classify sequence command admits_push r ≡ pushed
    → waits sequence admits_push r ≡ true
unfolding classify
classify_pushed sequence command admits_push r e = ground arith

pub Queues-refl :
    (q : SsoResponse → Bool) (s u : AuthenticatedSession)
    → u.pushes ≡ s.pushes
    → length s.pushes ≤ max_queued_pushes
    → Queues q s u
Queues-refl q s u e h = record {
  added = [];
  appended = e ∙ sym (append-nil s.pushes);
  admitted = tt;
  bounded = omega (arith, ap length e);
}

pub Inbound-cases :
    (i : Inbound) → ((payload : List ℕ) × (i ≡ answered payload)) ⊎ (i ≡ pushed) ⊎ (i ≡ refused)
Inbound-cases (answered payload) = inl (payload, refl)
Inbound-cases pushed = inr (inl refl)
Inbound-cases refused = inr (inr refl)

pub enqueue_lem :
    (p : SsoResponse) (s : AuthenticatedSession)
    → length s.pushes < max_queued_pushes
    → enqueue p s ≡ (ok tt, record s { pushes = s.pushes ++ p ∷ [] })
unfolding enqueue
enqueue_lem p s h = ground arith

pub enqueue_full :
    (p : SsoResponse) (s : AuthenticatedSession)
    → max_queued_pushes ≤ length s.pushes
    → enqueue p s ≡ (err push_limit, s)
unfolding enqueue
enqueue_full p s h = ground arith
