-- ===== src/Transport/Framing.antt =====
-- A frame is read whole or not at all, and no byte is lost when a read is cut short.
use lirvena.Base.{
  ℕ, ◌≡◌, inl, inr, refl, sym, subst, ap, ◌∙◌, List, [], ◌++◌, length, Result, ok, err, run_on_ok,
  run_on_err, arith, Result-cases,
}
use lirvena.Base.Bytes.{from_be}
use lirvena.Transport.{
  TransportError, TransportConfig, QqTransport, fill_prefix, open_frame, fill_frame, read_frame,
}
use lirvena.Transport.Stream.{content}
use lirvena.Transport.Filled.{fill_full}
use lirvena.Transport.Phases.{
  unread, IsFilling, IsTransport, Keeps, IsFrame, pending_filling, fill_prefix-Keeps,
  fill_prefix_full, open_frame-Keeps, open_frame-IsFilling, fill_frame-Keeps,
}

-- What a call owes: a complete frame, with all that follows it still unread, or an error, with all
-- that was unread before.
abbrev pub ReadOutcome : QqTransport → Result (List ℕ) TransportError × QqTransport → Type 0
ReadOutcome t (ok f, u) =
    IsFrame t.config.maximum_frame_len f
    × (unread t ≡ f ++ unread u)
    × IsTransport u
    × (u.config ≡ t.config)
ReadOutcome t (err e, u) = Keeps t u

-- After a whole frame the reader starts over.
abbrev pub fresh : QqTransport → QqTransport
fresh t = record t { prefix = []; declared = 0; frame = [] }

read_frame_first :
    (t : QqTransport) (e : TransportError)
    → (fill_prefix t).0 ≡ err e
    → read_frame t ≡ (err e, (fill_prefix t).1)
unfolding read_frame
read_frame_first t e h = run_on_err (fill_prefix t) _ e h

read_frame_second :
    (t : QqTransport) (e : TransportError)
    → (fill_prefix t).0 ≡ ok tt
    → (open_frame (fill_prefix t).1).0 ≡ err e
    → read_frame t ≡ (err e, (open_frame (fill_prefix t).1).1)
unfolding read_frame
read_frame_second t e a h =
    run_on_ok (fill_prefix t) _ tt a ∙ run_on_err (open_frame (fill_prefix t).1) _ e h

read_frame_third :
    (t : QqTransport) (e : TransportError)
    → (fill_prefix t).0 ≡ ok tt
    → (open_frame (fill_prefix t).1).0 ≡ ok tt
    → (fill_frame (open_frame (fill_prefix t).1).1).0 ≡ err e
    → read_frame t ≡ (err e, (fill_frame (open_frame (fill_prefix t).1).1).1)
unfolding read_frame
read_frame_third t e a b h =
    run_on_ok (fill_prefix t) _ tt a
    ∙ run_on_ok (open_frame (fill_prefix t).1) _ tt b
    ∙ run_on_err (fill_frame (open_frame (fill_prefix t).1).1) _ e h

pub read_frame_done :
    (t : QqTransport)
    → let u = (fill_frame (open_frame (fill_prefix t).1).1).1 in
      (fill_prefix t).0 ≡ ok tt
      → (open_frame (fill_prefix t).1).0 ≡ ok tt
      → (fill_frame (open_frame (fill_prefix t).1).1).0 ≡ ok tt
      → read_frame t ≡ (ok u.frame, fresh u)
unfolding read_frame
read_frame_done t a b c =
    run_on_ok (fill_prefix t) _ tt a
    ∙ run_on_ok (open_frame (fill_prefix t).1) _ tt b
    ∙ run_on_ok (fill_frame (open_frame (fill_prefix t).1).1) _ tt c

Keeps-trans : (t u v : QqTransport) → Keeps t u → Keeps u v → Keeps t v
Keeps-trans t u v h k = record {
  valid = k.valid;
  same = k.same ∙ h.same;
  config = k.config ∙ h.config;
}

fill_frame_full :
    (t : QqTransport)
    → IsFilling t
    → (fill_frame t).0 ≡ ok tt
    → length (fill_frame t).1.frame ≡ t.declared
unfolding fill_frame
fill_frame_full t f h =
    fill_full t.declared (record { filled = t.frame; stream = t.stream }) f.fits h

fill_frame_declared : (t : QqTransport) → (fill_frame t).1.declared ≡ t.declared
unfolding fill_frame
fill_frame_declared t = refl

-- A full buffer is a frame.
full-IsFrame :
    (u : QqTransport)
    → IsFilling u
    → length u.frame ≡ u.declared
    → IsFrame u.config.maximum_frame_len u.frame
full-IsFrame u f full = record {
  announced = full ∙ f.announced ∙ ap from_be (sym f.starts);
  least = omega (arith, f.least);
  most = omega (arith, f.most);
}

complete :
    (t u : QqTransport)
    → Keeps t u
    → IsFilling u
    → length u.frame ≡ u.declared
    → ReadOutcome t (ok u.frame, fresh u)
complete t u k g full = (
  subst (λ (c : TransportConfig). IsFrame c.maximum_frame_len u.frame) k.config
      (full-IsFrame u g full),
  sym k.same ∙ ap (λ p. p ++ content u.stream) (pending_filling u g.least),
  inl (record { undeclared = refl; short = omega arith }),
  k.config,
)

-- From a valid state, a call returns one complete frame within the bound, with all that follows it
-- still unread, or it fails, and then nothing that was unread is lost, whether it was in a buffer or
-- still to come; either way the state stays valid.
pub read_frame-ReadOutcome : (t : QqTransport) → IsTransport t → ReadOutcome t (read_frame t)
read_frame-ReadOutcome t v =
    let a = fill_prefix t in
    let b = open_frame a.1 in
    let c = fill_frame b.1 in
    let ka = fill_prefix-Keeps t v in
    elim (Result-cases a.0) [
      | inr (e, h) ↦ rw (read_frame_first t e h) ka
      | inl (_, ha) ↦
          let w = fill_prefix_full t v ha in
          let kb = Keeps-trans t a.1 b.1 ka (open_frame-Keeps a.1 ka.valid w) in
          elim (Result-cases b.0) [
            | inr (e, h) ↦ rw (read_frame_second t e ha h) kb
            | inl (_, hb) ↦
                let f = open_frame-IsFilling a.1 ka.valid w hb in
                let (kc', g) = fill_frame-Keeps b.1 f in
                let kc = Keeps-trans t b.1 c.1 kb kc' in
                elim (Result-cases c.0) [
                  | inr (e, h) ↦ rw (read_frame_third t e ha hb h) kc
                  | inl (_, hc) ↦ rw (read_frame_done t ha hb hc) (
                      complete t c.1 kc g
                        (fill_frame_full b.1 f hc ∙ sym (fill_frame_declared b.1)))
                ]
          ]
    ]
