-- ===== src/Session/Tests.antt =====
-- An exchange that a push interrupts, and an idle read.
use lirvena.Base.{ℕ, ◌≡◌, refl, Bool, true, List, [], ◌∷◌, ◌++◌, arith, ok, err}
use lirvena.Base.Bytes.{to_be, from_be, from_be_acc}
use lirvena.Transport.{
  TransportConfig, timeout, Arrival, arrived, elapsed, from_stream, delivered,
  validate_complete_frame, read, fill_loop, fill, fill_prefix, read_frame, write_frame,
}
use lirvena.Transport.Phases.{IsTransport, unread, from_stream-IsTransport}
use lirvena.Envelope.Layout.{field}
use lirvena.Envelope.Reply.{response_of}
use lirvena.Envelope.Binding.{frame_body, decode_session_frame-reply}
use lirvena.Envelope.Samples.{
  session, answer, body, answer-IsFrameOf, notice, notice_body, notice-IsFrameOf,
}
use lirvena.Session.{AuthenticatedSession, new, transport_error, exchange, read_push}
use lirvena.Session.Queue.{exchange-Owes}
use lirvena.Session.Outcomes.{Queues, Answers, waits}
use lirvena.Session.Exchange.{Sent, IsSent, exchange-Delivers}
use lirvena.Session.Idle.{read_push-idle}
use lirvena.Session

abbrev config : TransportConfig
config = record { connect_timeout = 10; io_timeout = 15; maximum_frame_len = 2097152 }

abbrev request : List ℕ
request = 0 ∷ 0 ∷ 0 ∷ 4 ∷ []

abbrev push : Sent
push = (field (frame_body notice_body), response_of notice)

abbrev reply : Sent
reply = (field (frame_body body), response_of answer)

-- The push, the answer and a byte more.
abbrev stream : List Arrival
stream = arrived (push.0 ++ []) ∷ arrived (reply.0 ++ 7 ∷ []) ∷ []

abbrev start : AuthenticatedSession
start = new (from_stream stream config)

abbrev admits : List ℕ → Bool
admits command = true

push-IsSent : IsSent session 2097152 push
unfolding validate_complete_frame from_be from_be_acc to_be
push-IsSent = record {
  complete = refl;
  decodes = decode_session_frame-reply session notice_body notice notice-IsFrameOf;
}

reply-IsSent : IsSent session 2097152 reply
unfolding validate_complete_frame from_be from_be_acc to_be
reply-IsSent = record {
  complete = refl;
  decodes = decode_session_frame-reply session body answer answer-IsFrameOf;
}

request_complete : validate_complete_frame request 2097152 ≡ ok tt
unfolding validate_complete_frame from_be from_be_acc
request_complete = refl

stream-joins : unread (from_stream stream config) ≡ (push.0 ++ []) ++ (reply.0 ++ 7 ∷ [])
unfolding from_stream to_be
stream-joins = refl

exchange-Delivers_example :
    let m = exchange delivered delivered session 5 (b'o' ∷ b'k' ∷ []) request admits start in
    (m.0 ≡ ok (3 ∷ [])) × (m.1.pushes ≡ response_of notice ∷ []) × (unread m.1.transport ≡ 7 ∷ [])
unfolding from_stream to_be
exchange-Delivers_example =
    exchange-Delivers session 5 (b'o' ∷ b'k' ∷ []) request admits (push ∷ []) reply (7 ∷ []) start
      refl refl refl request_complete (from_stream-IsTransport stream config) (omega arith)
      ((push-IsSent, refl), tt) reply-IsSent stream-joins (omega arith)

exchange-Owes_example :
    let m = exchange delivered delivered session 5 (b'o' ∷ b'k' ∷ []) request admits start in
    let (sent, t) = write_frame delivered delivered request start.transport in
    Queues (waits 5 admits) start m.1
    × Answers session 5 (b'o' ∷ b'k' ∷ []) t [] m
    × ((payload : List ℕ) → m.0 ≡ ok payload → sent ≡ ok tt)
exchange-Owes_example =
    exchange-Owes delivered delivered session 5 (b'o' ∷ b'k' ∷ []) request admits start
      (omega arith)

-- A deadline that elapses after two bytes.
abbrev waiting : AuthenticatedSession
waiting = new (from_stream (arrived (0 ∷ 0 ∷ []) ∷ elapsed ∷ []) config)

waiting-times_out : (read_push session admits waiting).0 ≡ err (transport_error timeout)
unfolding read_push Session.read read_frame fill_prefix fill fill_loop read from_stream
waiting-times_out = refl

read_push-idle_example :
    let u = (read_push session admits waiting).1 in
    IsTransport u.transport × (unread u.transport ≡ unread waiting.transport) × (u.pushes ≡ [])
read_push-idle_example =
    read_push-idle session admits waiting (transport_error timeout)
      (from_stream-IsTransport (arrived (0 ∷ 0 ∷ []) ∷ elapsed ∷ []) config) waiting-times_out refl
