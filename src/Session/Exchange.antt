-- ===== src/Session/Exchange.antt =====
-- An exchange on a stream that delivers, and a push that is not there yet.
use mathlib.Core.List.{append_assoc, append-nil}
use lirvena.Base.{
  ℕ, suc, ◌+◌, ◌-◌, ◌≤◌, ◌≡◌, refl, sym, ap, subst, ◌∙◌, inl, inr, Bool, true, List, [], ◌∷◌, ◌++◌,
  length, length-append, All, arith, ok, run_on_ok, ==_refl,
}
use lirvena.Base.Bytes.{same_bytes_refl}
use lirvena.Transport.{
  QqTransport, TransportConfig, delivered, read_frame, write_frame, validate_complete_frame,
}
use lirvena.Transport.Stream.{Delivers}
use lirvena.Transport.Phases.{IsTransport, unread}
use lirvena.Transport.Sequence.{joined, read_frame-Delivered, validate-IsFrame}
use lirvena.Envelope.Sso.{SsoResponse}
use lirvena.Envelope.Session.{SessionAuth, decode_session_frame}
use lirvena.Session.{
  AuthenticatedSession, read, is_success, answered, pushed, classify, exchange_loop, exchange,
  max_queued_pushes,
}
use lirvena.Session.Queue.{step_answered, step_pushed, exchange_sent}
use lirvena.Session.Outcomes.{read_lem, waits}

-- A frame, and the response that the session decodes from it.
abbrev pub Sent : Type 0
Sent = List ℕ × SsoResponse

abbrev pub frames : List Sent → List (List ℕ)
frames [] = []
frames (p ∷ ps) = p.0 ∷ frames ps

abbrev pub responses : List Sent → List SsoResponse
responses [] = []
responses (p ∷ ps) = p.1 ∷ responses ps

-- A frame that the transport and the session accept.
pub record IsSent (auth : SessionAuth) (maximum : ℕ) (p : Sent) : Type 0 where
  pub complete : validate_complete_frame p.0 maximum ≡ ok tt
  pub decodes : decode_session_frame p.0 auth ≡ ok p.1

pub classify_answer :
    (sequence : ℕ) (command : List ℕ) (admits_push : List ℕ → Bool) (r : SsoResponse)
    → r.sequence ≡ sequence
    → r.command ≡ command
    → is_success r.return_code ≡ true
    → classify sequence command admits_push r ≡ answered r.payload
unfolding classify
classify_answer sequence command admits_push r s c k =
    rw (sym s, sym c, ==_refl r.sequence, same_bytes_refl r.command, k)

pub classify_push :
    (sequence : ℕ) (command : List ℕ) (admits_push : List ℕ → Bool) (r : SsoResponse)
    → waits sequence admits_push r ≡ true
    → classify sequence command admits_push r ≡ pushed
unfolding classify
classify_push sequence command admits_push r w = ground arith

-- The reader returns what stands first in the stream.
record Received (auth : SessionAuth) (s : AuthenticatedSession) (p : Sent) (rest : List ℕ)
    : Type 0 where
  result : (read auth s).0 ≡ ok p.1
  queue : (read auth s).1.pushes ≡ s.pushes
  left : unread (read auth s).1.transport ≡ rest
  valid : IsTransport (read auth s).1.transport
  delivers : Delivers (read auth s).1.transport.stream
  config : (read auth s).1.transport.config ≡ s.transport.config

pub read_ok :
    (auth : SessionAuth) (s : AuthenticatedSession) (p : Sent)
    → (read_frame s.transport).0 ≡ ok p.0
    → decode_session_frame p.0 auth ≡ ok p.1
    → (read auth s).0 ≡ ok p.1
unfolding read
read_ok auth s p e d = rw (e, d)

read-Received :
    (auth : SessionAuth) (s : AuthenticatedSession) (p : Sent) (rest : List ℕ)
    → IsTransport s.transport
    → Delivers s.transport.stream
    → unread s.transport ≡ p.0 ++ rest
    → IsSent auth s.transport.config.maximum_frame_len p
    → Received auth s p rest
read-Received auth s p rest v d e h =
    let got =
      read_frame-Delivered s.transport p.0 rest v d e
        (validate-IsFrame p.0 s.transport.config.maximum_frame_len h.complete) in
    record {
      result = read_ok auth s p got.result h.decodes;
      queue = rw (read_lem auth s);
      left = rw (read_lem auth s) got.left;
      valid = rw (read_lem auth s) got.valid;
      delivers = rw (read_lem auth s) got.delivers;
      config = rw (read_lem auth s) got.config;
    }

module _ (auth : SessionAuth) (sequence : ℕ) (command : List ℕ) (admits_push : List ℕ → Bool)
    (answer : Sent) (rest : List ℕ) (same_sequence : answer.1.sequence ≡ sequence)
    (same_command : answer.1.command ≡ command)
    (success : is_success answer.1.return_code ≡ true) where
  -- What is in the stream: pushes that may wait, then the answer.
  record Stands (ps : List Sent) (s : AuthenticatedSession) : Type 0 where
    valid : IsTransport s.transport
    delivers : Delivers s.transport.stream
    pushes :
        All
          (λ p.
            IsSent auth s.transport.config.maximum_frame_len p
            × (waits sequence admits_push p.1 ≡ true))
          ps
    last : IsSent auth s.transport.config.maximum_frame_len answer
    content : unread s.transport ≡ joined (frames ps) ++ (answer.0 ++ rest)
    room : length s.pushes + length ps ≤ max_queued_pushes

  loop-delivers :
      (ps : List Sent) (extra : ℕ) (s : AuthenticatedSession)
      → Stands ps s
      → let m = exchange_loop (suc (length ps + extra)) auth sequence command admits_push s in
        (m.0 ≡ ok answer.1.payload)
        × (m.1.pushes ≡ s.pushes ++ responses ps)
        × (unread m.1.transport ≡ rest)
  loop-delivers [] extra s h =
      let got = read-Received auth s answer rest h.valid h.delivers h.content h.last in
      let step =
        step_answered auth sequence command admits_push (0 + extra) s answer.1 answer.1.payload
          got.result
          (classify_answer sequence command admits_push answer.1 same_sequence same_command
            success) in
      rw step (refl, got.queue ∙ sym (append-nil s.pushes), got.left)
  loop-delivers (p ∷ ps) extra s h =
      let got =
        read-Received auth s p (joined (frames ps) ++ (answer.0 ++ rest)) h.valid h.delivers
          (h.content ∙ append_assoc p.0 (joined (frames ps)) (answer.0 ++ rest)) h.pushes.0.0 in
      let u = (read auth s).1 in
      let step =
        step_pushed auth sequence command admits_push (suc (length ps) + extra) s p.1 got.result
          (classify_push sequence command admits_push p.1 h.pushes.0.1)
          (omega (arith, h.room, ap length got.queue)) in
      let v : AuthenticatedSession = record u { pushes = u.pushes ++ p.1 ∷ [] } in
      let stands : Stands ps v = record {
        valid = got.valid;
        delivers = got.delivers;
        pushes =
            subst
              (λ (c : TransportConfig).
                All
                  (λ p. IsSent auth c.maximum_frame_len p × (waits sequence admits_push p.1 ≡ true))
                  ps)
              (sym got.config) h.pushes.1;
        last =
            subst (λ (c : TransportConfig). IsSent auth c.maximum_frame_len answer) (sym got.config)
              h.last;
        content = got.left;
        room = omega (arith, h.room, ap length got.queue, length-append u.pushes (p.1 ∷ []));
      } in
      let (a, b, c) = loop-delivers ps extra v stands in
      let count : suc (length ps) + extra ≡ suc (length ps + extra) = omega arith in
      rw (step, count)
        (
          a,
          b
              ∙ append_assoc u.pushes (p.1 ∷ []) (responses ps)
              ∙ ap (λ xs. xs ++ p.1 ∷ responses ps) got.queue,
          c,
        )

write-sent :
    (frame : List ℕ) (t : QqTransport)
    → validate_complete_frame frame t.config.maximum_frame_len ≡ ok tt
    → write_frame delivered delivered frame t ≡ (ok tt, record t { sent = t.sent ++ frame })
unfolding write_frame
write-sent frame t e =
    run_on_ok (validate_complete_frame frame t.config.maximum_frame_len, t) _ tt e

sent-IsTransport :
    (t : QqTransport) (out : List ℕ) → IsTransport t → IsTransport (record t { sent = out })
sent-IsTransport t out (inl o) = inl (record { undeclared = o.undeclared; short = o.short })
sent-IsTransport t out (inr f) = inr (record {
  width = f.width;
  announced = f.announced;
  least = f.least;
  most = f.most;
  starts = f.starts;
  fits = f.fits;
})

-- When the stream delivers at most as many admissible pushes as the queue has room for, and then the
-- answer, the exchange returns the answer's payload, the pushes stand in the queue in their order,
-- and what follows the answer is left unread. The request is a complete frame that is written whole;
-- the frames are ones that the transport and the session accept; the answer has the request's
-- sequence and command and reports success.
pub exchange-Delivers :
    (auth : SessionAuth) (sequence : ℕ) (command frame : List ℕ) (admits_push : List ℕ → Bool)
    (ps : List Sent) (answer : Sent) (rest : List ℕ) (s : AuthenticatedSession)
    → answer.1.sequence ≡ sequence
    → answer.1.command ≡ command
    → is_success answer.1.return_code ≡ true
    → validate_complete_frame frame s.transport.config.maximum_frame_len ≡ ok tt
    → IsTransport s.transport
    → Delivers s.transport.stream
    → All
        (λ p.
          IsSent auth s.transport.config.maximum_frame_len p
          × (waits sequence admits_push p.1 ≡ true))
        ps
    → IsSent auth s.transport.config.maximum_frame_len answer
    → unread s.transport ≡ joined (frames ps) ++ (answer.0 ++ rest)
    → length s.pushes + length ps ≤ max_queued_pushes
    → let m = exchange delivered delivered auth sequence command frame admits_push s in
      (m.0 ≡ ok answer.1.payload)
      × (m.1.pushes ≡ s.pushes ++ responses ps)
      × (unread m.1.transport ≡ rest)
exchange-Delivers auth sequence command frame admits_push ps answer rest s same_sequence
      same_command success f v d p a e r =
    let t = s.transport in
    let w = write-sent frame t f in
    let sent : QqTransport = record t { sent = t.sent ++ frame } in
    let u : AuthenticatedSession = record s { transport = sent } in
    let turns : 65 ≡ suc (length ps + (64 - length ps)) = omega (arith, r) in
    let go =
      loop-delivers auth sequence command admits_push answer rest same_sequence same_command success
        ps (64 - length ps) u
        (record {
          valid = sent-IsTransport t (t.sent ++ frame) v;
          delivers = d;
          pushes = p;
          last = a;
          content = e;
          room = r;
        }) in
    rw
      (
        exchange_sent delivered delivered auth sequence command frame admits_push s
            (ap (λ m. m.0) w),
        w,
        turns,
      )
      go
