-- ===== src/Session.antt =====
-- crates/qq-session: the one reader of an authenticated connection. Replies that a request does not
-- wait for are pushes, which are admitted by their command and queued. The queue is a list, its
-- front first; a call of `write_frame` has the stream's behaviour for it as arguments.
pub mod Queue
pub mod Outcomes
pub mod Exchange
pub mod Idle
mod Tests
use lirvena.Base.{
  ℕ, zero, suc, Bool, true, false, not, ◌||◌, ◌&&◌, ◌==◌, ltb, leb, if◌then◌else◌, Option, none,
  some, List, [], ◌∷◌, ◌++◌, length, Result, ok, err, map_err, Method, run_on,
}
use lirvena.Base.Bytes.{same_bytes}
use lirvena.Base.Int.{ℤ, pos, negsuc}
use lirvena.Transport.{
  TransportError, invalid_configuration, invalid_frame, io, timeout, QqTransport, Delivery,
  read_frame, write_frame,
}
use lirvena.Envelope.{EnvelopeError}
use lirvena.Envelope.Sso.{SsoResponse}
use lirvena.Envelope.Session.{SessionAuth, decode_session_frame}

abbrev pub max_queued_pushes : ℕ
max_queued_pushes = 64

abbrev pub max_interleaved_pushes : ℕ
max_interleaved_pushes = 64

pub data SessionError : Type 0 where
  transport_error : TransportError → SessionError
  envelope_error : EnvelopeError → SessionError
  protocol push_limit : SessionError

-- `SessionError::is_idle_timeout`
abbrev pub is_idle_timeout : SessionError → Bool
is_idle_timeout (transport_error e) = is_timeout e
  where
    is_timeout : TransportError → Bool
    is_timeout timeout = true
    is_timeout invalid_configuration = false
    is_timeout invalid_frame = false
    is_timeout io = false
is_idle_timeout (envelope_error e) = false
is_idle_timeout protocol = false
is_idle_timeout push_limit = false

pub record AuthenticatedSession : Type 0 where
  pub transport : QqTransport
  pub pushes : List SsoResponse

abbrev pub new : QqTransport → AuthenticatedSession
new transport = record { transport = transport; pushes = [] }

unfoldable pub pop_push : AuthenticatedSession → Option SsoResponse × AuthenticatedSession
pop_push s = elim (s.pushes) [
  | [] ↦ (none, s)
  | ◌∷◌ push rest ↦ (some push, record s { pushes = rest })
]

-- A call on the transport, with its error converted.
abbrev pub on_transport :
    {A : Type 0}
    → AuthenticatedSession
    → Result A TransportError × QqTransport
    → Result A SessionError × AuthenticatedSession
on_transport s (result, t) = (map_err transport_error result, record s { transport = t })

unfoldable pub send :
    Delivery → Delivery → List ℕ → Method AuthenticatedSession SessionError (Unit {0})
send writing flushing frame s = on_transport s (write_frame writing flushing frame s.transport)

unfoldable pub read : SessionAuth → Method AuthenticatedSession SessionError SsoResponse
read auth s =
    run_on (on_transport s (read_frame s.transport))
      λ encoded s. (map_err envelope_error (decode_session_frame encoded auth), s)

unfoldable pub enqueue : SsoResponse → Method AuthenticatedSession SessionError (Unit {0})
enqueue push s =
    if leb max_queued_pushes (length s.pushes)
    then (err push_limit, s)
    else (ok tt, record s { pushes = s.pushes ++ push ∷ [] })

abbrev pub is_success : ℤ → Bool
is_success (pos n) = n == 0
is_success (negsuc n) = false

-- What one turn of the loop makes of a frame: the answer, or a push, or neither.
pub data Inbound : Type 0 where
  answered : List ℕ → Inbound
  pushed : Inbound
  refused : Inbound

unfoldable pub classify : ℕ → List ℕ → (List ℕ → Bool) → SsoResponse → Inbound
classify sequence command admits_push inbound =
    if inbound.sequence == sequence && same_bytes inbound.command command
    then (if not (is_success inbound.return_code) then refused else answered inbound.payload)
    else if inbound.sequence == sequence || not (admits_push inbound.command)
    then refused
    else pushed

-- The loop of `exchange`, with the turns that are left.
unfoldable pub exchange_loop :
    ℕ
    → SessionAuth
    → ℕ
    → List ℕ
    → (List ℕ → Bool)
    → Method AuthenticatedSession SessionError (List ℕ)
exchange_loop zero auth sequence command admits_push s = (err push_limit, s)
exchange_loop (suc turns) auth sequence command admits_push s = run_on (read auth s) λ inbound s.
    elim (classify sequence command admits_push inbound) [
      | answered payload ↦ (ok payload, s)
      | refused ↦ (err protocol, s)
      | pushed ↦
          run_on (enqueue inbound s) λ _ s. exchange_loop turns auth sequence command admits_push s
    ]

unfoldable pub exchange :
    Delivery
    → Delivery
    → SessionAuth
    → ℕ
    → List ℕ
    → List ℕ
    → (List ℕ → Bool)
    → Method AuthenticatedSession SessionError (List ℕ)
exchange writing flushing auth sequence command frame admits_push s =
    run_on (on_transport s (write_frame writing flushing frame s.transport))
      λ _ s. exchange_loop (suc max_interleaved_pushes) auth sequence command admits_push s

unfoldable pub read_push :
    SessionAuth → (List ℕ → Bool) → Method AuthenticatedSession SessionError SsoResponse
read_push auth admits_push s = run_on (read auth s) λ inbound s.
    if not (is_success inbound.return_code) || not (admits_push inbound.command)
    then (err protocol, s)
    else (ok inbound, s)
