-- ===== src/Transport/Sequence.antt =====
-- The frames that were sent are the frames that are read, however the stream cuts them.
use mathlib.Core.List.{append_assoc}
use lirvena.Base.{
  ℕ, suc, zero, ◌≤◌, ◌≡◌, inl, inr, refl, sym, subst, ap, ◌∙◌, false, List, [], ◌∷◌, ◌++◌, length,
  take, drop, All, Result, ok, arith, length-append, take-append_fit, take_all, length-take, run_on,
  run_on_ok, take-append_left, drop-append_left,
}
use lirvena.Base.Bytes.{from_be}
use lirvena.Transport.{
  TransportError, TransportConfig, QqTransport, fill_prefix, open_frame, fill_frame, read_frame,
  validate_complete_frame,
}
use lirvena.Transport.Stream.{content, Delivers}
use lirvena.Transport.Filled.{fill-Delivers}
use lirvena.Transport.Framing.{ReadOutcome, read_frame-ReadOutcome, read_frame_done, fresh}
use lirvena.Transport.Phases.{
  unread, IsOpening, IsFilling, IsTransport, IsFrame, fill_prefix-Keeps, fill_prefix_full,
  fill_prefix_filling, pending_opening, pending_filling, refused, open_opening_good, open_filling,
  open_frame-Keeps, open_frame-IsFilling,
}

-- A complete frame, as the writer tests it.
pub validate-IsFrame :
    (f : List ℕ) (maximum : ℕ) → validate_complete_frame f maximum ≡ ok tt → IsFrame maximum f
unfolding validate_complete_frame
validate-IsFrame f maximum h = ground arith

same_front :
    (xs ys more rest : List ℕ)
    → xs ++ more ≡ ys ++ rest
    → length xs ≡ length ys
    → (xs ≡ ys) × (more ≡ rest)
same_front xs ys more rest e n = (
  sym (take-append_left xs more)
      ∙ ap (λ (k : ℕ). take k (xs ++ more)) n
      ∙ ap (take (length ys)) e
      ∙ take-append_left ys rest,
  sym (drop-append_left xs more)
      ∙ ap (λ (k : ℕ). drop k (xs ++ more)) n
      ∙ ap (drop (length ys)) e
      ∙ drop-append_left ys rest,
)

-- A stream begins with at most one frame.
frame_unique :
    (maximum : ℕ) (f g more rest : List ℕ)
    → IsFrame maximum f
    → IsFrame maximum g
    → f ++ more ≡ g ++ rest
    → (f ≡ g) × (more ≡ rest)
frame_unique maximum f g more rest p q e =
    let heads : take 4 f ≡ take 4 g =
      sym (take-append_fit 4 f more p.least) ∙ ap (take 4) e ∙ take-append_fit 4 g rest q.least in
    same_front f g more rest e (p.announced ∙ ap from_be heads ∙ sym q.announced)

-- What a stream that delivers a frame gives each phase.
module _ (t : QqTransport) (f rest : List ℕ) (d : Delivers t.stream) (e : unread t ≡ f ++ rest)
    (whole_frame : IsFrame t.config.maximum_frame_len f) where
  enough : 4 ≤ length (unread t)
  enough = omega (arith, whole_frame.least, length-append f rest, ap length e)

  prefix-Delivers : IsTransport t → ((fill_prefix t).0 ≡ ok tt) × Delivers (fill_prefix t).1.stream
  prefix-Delivers (inl o) =
      unfold fill_prefix in
      fill-Delivers 4 (record { filled = t.prefix; stream = t.stream }) d
        (subst (λ p. 4 ≤ length (p ++ content t.stream)) (pending_opening t o.undeclared) enough)
  prefix-Delivers (inr g) = rw (fill_prefix_filling t g) (refl, d)

  front : (xs more : List ℕ) → 4 ≤ length xs → xs ++ more ≡ unread t → take 4 xs ≡ take 4 f
  front xs more h same =
      sym (take-append_fit 4 xs more h)
      ∙ ap (take 4) (same ∙ e)
      ∙ take-append_fit 4 f rest whole_frame.least

  prefix_front : length t.prefix ≡ 4 → IsOpening t → t.prefix ≡ take 4 f
  prefix_front w o =
      sym (take_all 4 t.prefix (omega arith))
      ∙ front t.prefix (content t.stream) (omega arith)
          (ap (λ p. p ++ content t.stream) (sym (pending_opening t o.undeclared)))

  prefix_good : length t.prefix ≡ 4 → IsOpening t → refused t ≡ false
  prefix_good w o =
      let size : from_be t.prefix ≡ length f =
        ap from_be (prefix_front w o) ∙ sym whole_frame.announced in
      ground (arith, whole_frame.least, whole_frame.most)

  open-Delivers :
      IsTransport t
      → length t.prefix ≡ 4
      → ((open_frame t).0 ≡ ok tt) × Delivers (open_frame t).1.stream
  open-Delivers (inl o) w = rw (open_opening_good t o (prefix_good w o)) (refl, d)
  open-Delivers (inr g) w = rw (open_filling t g) (refl, d)

  declared_size : IsFilling t → t.declared ≡ length f
  declared_size g =
      let long : 4 ≤ length t.frame =
        omega (arith, length-take 4 t.frame, ap length g.starts, g.width) in
      g.announced
      ∙ ap from_be (
          sym g.starts
          ∙ front t.frame (content t.stream) long
              (ap (λ p. p ++ content t.stream) (sym (pending_filling t g.least))))
      ∙ sym whole_frame.announced

  frame-Delivers : IsFilling t → ((fill_frame t).0 ≡ ok tt) × Delivers (fill_frame t).1.stream
  unfolding fill_frame
  frame-Delivers g =
      fill-Delivers t.declared (record { filled = t.frame; stream = t.stream }) d
        (subst (λ p. t.declared ≤ length (p ++ content t.stream)) (pending_filling t g.least)
          (omega (arith, declared_size g, length-append f rest, ap length e)))

-- What is left of a stream that has delivered a frame.
pub record Delivered (t : QqTransport) (f rest : List ℕ) : Type 0 where
  pub result : (read_frame t).0 ≡ ok f
  pub left : unread (read_frame t).1 ≡ rest
  pub valid : IsTransport (read_frame t).1
  pub delivers : Delivers (read_frame t).1.stream
  pub config : (read_frame t).1.config ≡ t.config

read-Delivered :
    (t : QqTransport) (f rest g : List ℕ) (u : QqTransport)
    → unread t ≡ f ++ rest
    → IsFrame t.config.maximum_frame_len f
    → read_frame t ≡ (ok g, u)
    → ReadOutcome t (ok g, u)
    → Delivers u.stream
    → Delivered t f rest
read-Delivered t f rest g u e whole_frame r (is_frame, split, valid, config) d =
    let (same, left) =
      frame_unique t.config.maximum_frame_len g f (unread u) rest is_frame whole_frame
        (sym split ∙ e) in
    record {
      result = ap (λ p. p.0) r ∙ ap ok same;
      left = ap (λ p. unread p.1) r ∙ left;
      valid = rw r valid;
      delivers = rw r d;
      config = ap (λ p. p.1.config) r ∙ config;
    }

-- A valid reader whose stream delivers without a failure, and whose unread bytes begin with a
-- complete frame within the bound, returns that frame and keeps what follows it.
pub read_frame-Delivered :
    (t : QqTransport) (f rest : List ℕ)
    → IsTransport t
    → Delivers t.stream
    → unread t ≡ f ++ rest
    → IsFrame t.config.maximum_frame_len f
    → Delivered t f rest
read_frame-Delivered t f rest v d e w =
    let a = (fill_prefix t).1 in
    let b = (open_frame a).1 in
    let (ha, da) = prefix-Delivers t f rest d e w v in
    let ka = fill_prefix-Keeps t v in
    let four = fill_prefix_full t v ha in
    let wa : IsFrame a.config.maximum_frame_len f =
      subst (λ (c : TransportConfig). IsFrame c.maximum_frame_len f) (sym ka.config) w in
    let (hb, db) = open-Delivers a f rest da (ka.same ∙ e) wa ka.valid four in
    let kb = open_frame-Keeps a ka.valid four in
    let g = open_frame-IsFilling a ka.valid four hb in
    let wb : IsFrame b.config.maximum_frame_len f =
      subst (λ (c : TransportConfig). IsFrame c.maximum_frame_len f) (sym kb.config) wa in
    let (hc, dc) = frame-Delivers b f rest db (kb.same ∙ ka.same ∙ e) wb g in
    let done = read_frame_done t ha hb hc in
    read-Delivered t f rest (fill_frame b).1.frame (fresh (fill_frame b).1) e w done
      (subst (ReadOutcome t) done (read_frame-ReadOutcome t v)) dc

-- Calls until the list of wanted frames is read or a call fails.
unfoldable pub read_frames : ℕ → QqTransport → Result (List (List ℕ)) TransportError × QqTransport
read_frames zero t = (ok [], t)
read_frames (suc n) t =
    run_on (read_frame t) λ f t. run_on (read_frames n t) λ fs t. (ok (f ∷ fs), t)

abbrev pub joined : List (List ℕ) → List ℕ
joined [] = []
joined (f ∷ fs) = f ++ joined fs

-- The frames that were sent are read back, each as it was and in order, however the stream cuts
-- their bytes into reads, and what follows them is left unread. The frames are ones that the writer
-- admits, and the stream delivers without a failure.
pub read_frames-joined :
    (fs : List (List ℕ)) (t : QqTransport) (rest : List ℕ)
    → IsTransport t
    → Delivers t.stream
    → All (λ f. validate_complete_frame f t.config.maximum_frame_len ≡ ok tt) fs
    → unread t ≡ joined fs ++ rest
    → ((read_frames (length fs) t).0 ≡ ok fs) × (unread (read_frames (length fs) t).1 ≡ rest)
unfolding read_frames
read_frames-joined [] t rest v d a e = (refl, e)
read_frames-joined (f ∷ fs) t rest v d a e =
    let one =
      read_frame-Delivered t f (joined fs ++ rest) v d (e ∙ append_assoc f (joined fs) rest)
        (validate-IsFrame f t.config.maximum_frame_len a.0) in
    let u = (read_frame t).1 in
    let (others, left) =
      read_frames-joined fs u rest one.valid one.delivers
        (subst
          (λ (c : TransportConfig).
            All (λ f. validate_complete_frame f c.maximum_frame_len ≡ ok tt) fs)
          (sym one.config) a.1)
        one.left in
    let first =
      run_on_ok (read_frame t) (λ f t. run_on (read_frames (length fs) t) λ fs t. (ok (f ∷ fs), t))
        f one.result in
    let second = run_on_ok (read_frames (length fs) u) (λ fs t. (ok (f ∷ fs), t)) fs others in
    rw (first, second) (refl, left)
