-- ===== src/Session/Idle.antt =====
-- A push that is not there yet.
use lirvena.Base.{
  ℕ, ◌≡◌, refl, sym, subst, ◌∙◌, inl, inr, Bool, true, not, ◌||◌, if◌then◌else◌, List, arith,
  Result, ok, err, run_on_ok, run_on_err, Result-cases, Bool-cases,
}
use lirvena.Transport.{TransportError, read_frame}
use lirvena.Transport.Framing.{ReadOutcome, read_frame-ReadOutcome}
use lirvena.Transport.Phases.{IsTransport, unread}
use lirvena.Envelope.{EnvelopeError}
use lirvena.Envelope.Sso.{SsoResponse}
use lirvena.Envelope.Session.{SessionAuth, decode_session_frame}
use lirvena.Session.{
  SessionError, envelope_error, protocol, is_idle_timeout, AuthenticatedSession, read, is_success,
  read_push,
}
use lirvena.Session.Outcomes.{read_lem}
use lirvena.Session.Exchange.{read_ok}

read_undecoded :
    (auth : SessionAuth) (s : AuthenticatedSession) (g : List ℕ) (x : EnvelopeError)
    → (read_frame s.transport).0 ≡ ok g
    → decode_session_frame g auth ≡ err x
    → (read auth s).0 ≡ err (envelope_error x)
unfolding read
read_undecoded auth s g x e d = rw (e, d)

timeout-idle :
    (s : AuthenticatedSession) (auth : SessionAuth) (e : SessionError)
    → (read auth s).0 ≡ err e
    → is_idle_timeout e ≡ true
    → (x : TransportError) × ((read_frame s.transport).0 ≡ err x)
unfolding read
timeout-idle s auth e h i = elim (Result-cases (read_frame s.transport).0) [
  | inr (x, f) ↦ (x, f)
  | inl (g, f) ↦ elim (Result-cases (decode_session_frame g auth)) [
    | inl (r, k) ↦ absurd (cc (h, read_ok auth s (g, r) f k))
    | inr (x, k) ↦ absurd (ground (arith, sym h ∙ read_undecoded auth s g x f k))
  ]
]

-- The test of `read_push`.
abbrev judged :
    (List ℕ → Bool)
    → SsoResponse
    → AuthenticatedSession
    → Result SsoResponse SessionError × AuthenticatedSession
judged admits_push inbound s =
    if not (is_success inbound.return_code) || not (admits_push inbound.command)
    then (err protocol, s)
    else (ok inbound, s)

-- A read of a push that reports an idle timeout has lost nothing: the bytes that were unread are
-- still unread, the transport is valid, and the queue is the one before. The transport is valid
-- before the call.
pub read_push-idle :
    (auth : SessionAuth) (admits_push : List ℕ → Bool) (s : AuthenticatedSession) (e : SessionError)
    → IsTransport s.transport
    → (read_push auth admits_push s).0 ≡ err e
    → is_idle_timeout e ≡ true
    → let u = (read_push auth admits_push s).1 in
      IsTransport u.transport × (unread u.transport ≡ unread s.transport) × (u.pushes ≡ s.pushes)
unfolding read_push
read_push-idle auth admits_push s e v h i = elim (Result-cases (read auth s).0) [
  | inl (r, f) ↦ elim (Bool-cases (not (is_success r.return_code) || not (admits_push r.command))) [
    | inl bad ↦ absurd (ground (arith, h, run_on_ok (read auth s) (judged admits_push) r f))
    | inr good ↦ absurd (ground (arith, h, run_on_ok (read auth s) (judged admits_push) r f))
  ]
  | inr (x, f) ↦
      let same : x ≡ e = ground (arith, h, run_on_err (read auth s) (judged admits_push) x f) in
      let (y, g) = timeout-idle s auth x f (rw same i) in
      let kept =
        subst (λ m. ReadOutcome s.transport m) (λ j. (g j, (read_frame s.transport).1))
          (read_frame-ReadOutcome s.transport v) in
      rw (run_on_err (read auth s) (judged admits_push) x f, read_lem auth s)
        (kept.valid, kept.same, refl)
]
