-- ===== src/Session/Queue.antt =====
-- What an exchange leaves in the queue, and whose answer it returns.
use mathlib.Core.List.{append_assoc, append-nil}
use lirvena.Base.{
  ℕ, zero, suc, ◌≤◌, ◌<◌, ◌≡◌, refl, sym, subst, ap, ◌∙◌, inl, inr, Bool, true, false, leb, List,
  [], ◌∷◌, ◌++◌, length, length-append, arith, Result, ok, err, run_on_ok, Result-cases, Bool-cases,
}
use lirvena.Transport.{TransportError, Delivery, read_frame, write_frame}
use lirvena.Envelope.Sso.{SsoResponse}
use lirvena.Envelope.Session.{SessionAuth, decode_session_frame}
use lirvena.Session.{
  SessionError, transport_error, protocol, push_limit, AuthenticatedSession, read, answered, pushed,
  refused, classify, exchange_loop, exchange, max_queued_pushes,
}
use lirvena.Session.Outcomes.{
  read_lem, waits, Queues, Answers, Receives, nothing_more, receives, frame_of, classify_answered,
  classify_pushed, Queues-refl, Inbound-cases, enqueue_lem, enqueue_full,
}

module _ (auth : SessionAuth) (sequence : ℕ) (command : List ℕ) (admits_push : List ℕ → Bool) where
  abbrev Owes : AuthenticatedSession → Result (List ℕ) SessionError × AuthenticatedSession → Type 0
  Owes s m =
      Queues (waits sequence admits_push) s m.1
      × Answers auth sequence command s.transport s.pushes m

  -- The turns of the loop, by what the reader returns.
  step_failed :
      (turns : ℕ) (s : AuthenticatedSession) (x : SessionError)
      → (read auth s).0 ≡ err x
      → exchange_loop (suc turns) auth sequence command admits_push s ≡ (err x, (read auth s).1)
  unfolding exchange_loop
  step_failed turns s x e = rw e

  pub step_answered :
      (turns : ℕ) (s : AuthenticatedSession) (r : SsoResponse) (payload : List ℕ)
      → (read auth s).0 ≡ ok r
      → classify sequence command admits_push r ≡ answered payload
      → exchange_loop (suc turns) auth sequence command admits_push s
        ≡ (ok payload, (read auth s).1)
  unfolding exchange_loop
  step_answered turns s r payload e c = run_on_ok (read auth s) _ r e ∙ rw c

  step_refused :
      (turns : ℕ) (s : AuthenticatedSession) (r : SsoResponse)
      → (read auth s).0 ≡ ok r
      → classify sequence command admits_push r ≡ refused
      → exchange_loop (suc turns) auth sequence command admits_push s
        ≡ (err protocol, (read auth s).1)
  unfolding exchange_loop
  step_refused turns s r e c = run_on_ok (read auth s) _ r e ∙ rw c

  step_full :
      (turns : ℕ) (s : AuthenticatedSession) (r : SsoResponse)
      → (read auth s).0 ≡ ok r
      → classify sequence command admits_push r ≡ pushed
      → max_queued_pushes ≤ length (read auth s).1.pushes
      → exchange_loop (suc turns) auth sequence command admits_push s
        ≡ (err push_limit, (read auth s).1)
  unfolding exchange_loop
  step_full turns s r e c h =
      run_on_ok (read auth s) _ r e ∙ rw (c, enqueue_full r (read auth s).1 h)

  pub step_pushed :
      (turns : ℕ) (s : AuthenticatedSession) (r : SsoResponse)
      → let u = (read auth s).1 in
        (read auth s).0 ≡ ok r
        → classify sequence command admits_push r ≡ pushed
        → length u.pushes < max_queued_pushes
        → exchange_loop (suc turns) auth sequence command admits_push s
          ≡ exchange_loop turns auth sequence command admits_push
              (record u { pushes = u.pushes ++ r ∷ [] })
  unfolding exchange_loop
  step_pushed turns s r e c h =
      run_on_ok (read auth s) _ r e ∙ rw (c, enqueue_lem r (read auth s).1 h)

  one_more :
      (s u : AuthenticatedSession) (p : SsoResponse) (frame : List ℕ)
      (m : Result (List ℕ) SessionError × AuthenticatedSession)
      → u.pushes ≡ s.pushes ++ p ∷ []
      → waits sequence admits_push p ≡ true
      → (read_frame s.transport).0 ≡ ok frame
      → decode_session_frame frame auth ≡ ok p
      → u.transport ≡ (read_frame s.transport).1
      → Owes u m
      → Owes s m
  one_more s u p frame m e w f d t (q, a) = (
    record {
      added = p ∷ q.added;
      appended = longer q.added m.1 q.appended;
      admitted = (w, q.admitted);
      bounded = q.bounded;
    },
    answers m a,
  )
    where
      longer :
          (ps : List SsoResponse) (v : AuthenticatedSession)
          → v.pushes ≡ u.pushes ++ ps
          → v.pushes ≡ s.pushes ++ p ∷ ps
      longer ps v k = k ∙ ap (λ xs. xs ++ ps) e ∙ append_assoc s.pushes (p ∷ []) ps

      answers :
          (m : Result (List ℕ) SessionError × AuthenticatedSession)
          → Answers auth sequence command u.transport u.pushes m
          → Answers auth sequence command s.transport s.pushes m
      answers (ok payload, v) a = record {
        before = a.before;
        skipped = p ∷ a.skipped;
        received =
            receives frame p f d (subst (λ x. Receives auth a.before x a.skipped) t a.received);
        queued = longer a.skipped v a.queued;
        frame = a.frame;
        response = a.response;
        is_next = a.is_next;
        is_last = a.is_last;
        decoded = a.decoded;
        same_sequence = a.same_sequence;
        same_command = a.same_command;
        success = a.success;
        same_payload = a.same_payload;
      }
      answers (err x, v) a = tt

  exchange_loop-Owes :
      (turns : ℕ) (s : AuthenticatedSession)
      → length s.pushes ≤ max_queued_pushes
      → Owes s (exchange_loop turns auth sequence command admits_push s)
  exchange_loop-Owes zero s h = unfold exchange_loop in (Queues-refl _ s s refl h, tt)
  exchange_loop-Owes (suc turns) s h =
      let u = (read auth s).1 in
      let kept : u.pushes ≡ s.pushes =
        ap (λ (t : AuthenticatedSession). t.pushes) (read_lem auth s) in
      let read_on : u.transport ≡ (read_frame s.transport).1 =
        ap (λ (t : AuthenticatedSession). t.transport) (read_lem auth s) in
      elim (Result-cases (read auth s).0) [
        | inr (x, e) ↦ rw (step_failed turns s x e) (Queues-refl _ s u kept h, tt)
        | inl (r, e) ↦ elim (Inbound-cases (classify sequence command admits_push r)) [
          | inl (payload, c) ↦
              let (a, b, d, f) = classify_answered sequence command admits_push r payload c in
              let (frame, next, decoded) = frame_of auth s r e in
              rw (step_answered turns s r payload e c) (
                Queues-refl _ s u kept h,
                record {
                  before = s.transport;
                  skipped = [];
                  received = nothing_more;
                  queued = kept ∙ sym (append-nil s.pushes);
                  frame = frame;
                  response = r;
                  is_next = next;
                  is_last = read_on;
                  decoded = decoded;
                  same_sequence = a;
                  same_command = b;
                  success = d;
                  same_payload = f;
                },
              )
          | inr (inr c) ↦ rw (step_refused turns s r e c) (Queues-refl _ s u kept h, tt)
          | inr (inl c) ↦ elim (Bool-cases (leb max_queued_pushes (length u.pushes))) [
            | inl full ↦ rw (step_full turns s r e c (ground arith)) (Queues-refl _ s u kept h, tt)
            | inr room ↦
                let v : AuthenticatedSession = record u { pushes = u.pushes ++ r ∷ [] } in
                let later =
                  exchange_loop-Owes turns v
                    (omega (arith, length-append u.pushes (r ∷ []), leb_false room)) in
                let (frame, next, decoded) = frame_of auth s r e in
                rw (step_pushed turns s r e c (leb_false room)) (
                  one_more s v r frame _ (ap (λ xs. xs ++ r ∷ []) kept)
                    (classify_pushed sequence command admits_push r c) next decoded read_on later)
          ]
        ]
      ]
    where
      leb_false : {a b : ℕ} → leb a b ≡ false → b < a
      leb_false e = ground arith

module _ (writing flushing : Delivery) (auth : SessionAuth) (sequence : ℕ) (command frame : List ℕ)
    (admits_push : List ℕ → Bool) (s : AuthenticatedSession) where
  exchange_unsent :
      (x : TransportError)
      → (write_frame writing flushing frame s.transport).0 ≡ err x
      → exchange writing flushing auth sequence command frame admits_push s ≡ (
        err (transport_error x),
        record s { transport = (write_frame writing flushing frame s.transport).1 },
      )
  unfolding exchange
  exchange_unsent x e = rw e

  pub exchange_sent :
      (write_frame writing flushing frame s.transport).0 ≡ ok tt
      → exchange writing flushing auth sequence command frame admits_push s
        ≡ exchange_loop 65 auth sequence command admits_push
            (record s { transport = (write_frame writing flushing frame s.transport).1 })
  unfolding exchange
  exchange_sent e = rw e

-- However an exchange ends, the pushes that were queued stay, in their order. Behind them stand only
-- responses whose command is admitted and whose sequence is not the request's, and the queue keeps
-- its bound. An exchange that returns a payload has sent the request whole, and the payload is that of
-- a frame which the session's own stream holds next to be read: behind the frames before it, which are
-- exactly the pushes that were added, in order. Nothing behind it is read. It decodes for the session
-- to a response that has the request's sequence and command and reports success. The queue is within
-- its bound before.
pub exchange-Owes :
    (writing flushing : Delivery) (auth : SessionAuth) (sequence : ℕ) (command frame : List ℕ)
    (admits_push : List ℕ → Bool) (s : AuthenticatedSession)
    → length s.pushes ≤ max_queued_pushes
    → let m = exchange writing flushing auth sequence command frame admits_push s in
      let (sent, t) = write_frame writing flushing frame s.transport in
      Queues (waits sequence admits_push) s m.1
      × Answers auth sequence command t s.pushes m
      × ((payload : List ℕ) → m.0 ≡ ok payload → sent ≡ ok tt)
exchange-Owes writing flushing auth sequence command frame admits_push s h =
    let u : AuthenticatedSession = record s {
      transport = (write_frame writing flushing frame s.transport).1;
    } in
    elim (Result-cases (write_frame writing flushing frame s.transport).0) [
      | inr (x, e) ↦
          rw (exchange_unsent writing flushing auth sequence command frame admits_push s x e)
            (Queues-refl _ s u refl h, tt, λ payload k. absurd (ground arith))
      | inl (_, e) ↦
          let (q, a) = exchange_loop-Owes auth sequence command admits_push 65 u h in
          rw (exchange_sent writing flushing auth sequence command frame admits_push s e) (
            record {
              added = q.added;
              appended = q.appended;
              admitted = q.admitted;
              bounded = q.bounded;
            },
            a,
            λ payload k. e,
          )
    ]
