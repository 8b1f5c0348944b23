-- ===== src/Transport/Phases.antt =====
-- The phases of a read: the prefix, the buffer that it opens and the frame, each of which may be cut short.
use lirvena.Base.{
  ℕ, ◌≤◌, ◌≡◌, ◌⊎◌, inl, inr, refl, sym, ap, ◌∙◌, Bool, true, false, ◌||◌, ◌==◌, ltb, if◌then◌else◌,
  List, ◌++◌, length, take, ok, err, arith, length-take, take-append_fit, take_all, Bool-cases,
}
use lirvena.Base.Bytes.{from_be}
use lirvena.Transport.{
  TransportConfig, invalid_frame, Arrival, QqTransport, Filling, fill, fill_prefix, open_frame,
  fill_frame, from_stream,
}
use lirvena.Transport.Stream.{content, fill-Fills}
use lirvena.Transport.Filled.{fill_full, fill_done}

-- The bytes of a frame that is not yet complete.
abbrev pub pending : QqTransport → List ℕ
pending t = if t.declared == 0 then t.prefix else t.frame

-- The bytes that are not yet returned.
abbrev pub unread : QqTransport → List ℕ
unread t = pending t ++ content t.stream

-- The prefix is being read.
pub record IsOpening (t : QqTransport) : Type 0 where
  pub undeclared : t.declared ≡ 0
  pub short : length t.prefix ≤ 4

-- The prefix is complete, and the frame it announces is being read.
pub record IsFilling (t : QqTransport) : Type 0 where
  pub width : length t.prefix ≡ 4
  pub announced : t.declared ≡ from_be t.prefix
  pub least : 4 ≤ t.declared
  pub most : t.declared ≤ t.config.maximum_frame_len
  pub starts : take 4 t.frame ≡ t.prefix
  pub fits : length t.frame ≤ t.declared

abbrev pub IsTransport : QqTransport → Type 0
IsTransport t = IsOpening t ⊎ IsFilling t

pub from_stream-IsTransport :
    (s : List Arrival) (c : TransportConfig) → IsTransport (from_stream s c)
unfolding from_stream
from_stream-IsTransport s c = inl (record { undeclared = refl; short = omega arith })

-- What a call that fails leaves.
pub record Keeps (t u : QqTransport) : Type 0 where
  pub valid : IsTransport u
  pub same : unread u ≡ unread t
  pub config : u.config ≡ t.config

-- A complete frame under a bound.
pub record IsFrame (maximum : ℕ) (f : List ℕ) : Type 0 where
  pub announced : length f ≡ from_be (take 4 f)
  pub least : 4 ≤ length f
  pub most : length f ≤ maximum

abbrev filled_prefix : QqTransport → Filling
filled_prefix t = (fill 4 (record { filled = t.prefix; stream = t.stream })).1

abbrev filled_frame : QqTransport → Filling
filled_frame t = (fill t.declared (record { filled = t.frame; stream = t.stream })).1

pub pending_opening : (t : QqTransport) → t.declared ≡ 0 → pending t ≡ t.prefix
pending_opening t h = rw h

pub pending_filling : (t : QqTransport) → 4 ≤ t.declared → pending t ≡ t.frame
pending_filling t h = ground arith

fill_prefix-IsOpening :
    (t : QqTransport) → IsOpening t → Keeps t (fill_prefix t).1 × IsOpening (fill_prefix t).1
unfolding fill_prefix
fill_prefix-IsOpening t o =
    let kept = fill-Fills 4 (record { filled = t.prefix; stream = t.stream }) o.short in
    let still : IsOpening (fill_prefix t).1 = record {
      undeclared = o.undeclared;
      short = kept.room;
    } in
    (record { valid = inl still; same = rw (o.undeclared) kept.kept; config = refl }, still)

pub fill_prefix_filling : (t : QqTransport) → IsFilling t → fill_prefix t ≡ (ok tt, t)
unfolding fill_prefix
fill_prefix_filling t f = rw (fill_done 4 (record { filled = t.prefix; stream = t.stream }) f.width)

pub fill_prefix-Keeps : (t : QqTransport) → IsTransport t → Keeps t (fill_prefix t).1
fill_prefix-Keeps t (inl o) = (fill_prefix-IsOpening t o).0
fill_prefix-Keeps t (inr f) =
    rw (fill_prefix_filling t f) (record { valid = inr f; same = refl; config = refl })

pub fill_prefix_full :
    (t : QqTransport)
    → IsTransport t
    → (fill_prefix t).0 ≡ ok tt
    → length (fill_prefix t).1.prefix ≡ 4
fill_prefix_full t (inl o) h =
    unfold fill_prefix in fill_full 4 (record { filled = t.prefix; stream = t.stream }) o.short h
fill_prefix_full t (inr f) h = rw (fill_prefix_filling t f) f.width

-- The buffer that a good prefix opens.
abbrev pub opened : QqTransport → QqTransport
opened t = record t { declared = from_be t.prefix; frame = t.prefix }

abbrev pub refused : QqTransport → Bool
refused t = ltb (from_be t.prefix) 4 || ltb t.config.maximum_frame_len (from_be t.prefix)

pub opened-IsFilling :
    (t : QqTransport) → length t.prefix ≡ 4 → refused t ≡ false → IsFilling (opened t)
opened-IsFilling t w good = record {
  width = w;
  announced = refl;
  least = ground arith;
  most = ground arith;
  starts = take_all 4 t.prefix (omega arith);
  fits = ground arith;
}

open_opening_bad :
    (t : QqTransport) → IsOpening t → refused t ≡ true → open_frame t ≡ (err invalid_frame, t)
unfolding open_frame
open_opening_bad t o bad = rw (o.undeclared, bad)

pub open_opening_good :
    (t : QqTransport) → IsOpening t → refused t ≡ false → open_frame t ≡ (ok tt, opened t)
unfolding open_frame
open_opening_good t o good = rw (o.undeclared, good)

pub open_filling : (t : QqTransport) → IsFilling t → open_frame t ≡ (ok tt, t)
unfolding open_frame
open_filling t f = ground (arith, f.least)

pub open_frame-Keeps :
    (t : QqTransport) → IsTransport t → length t.prefix ≡ 4 → Keeps t (open_frame t).1
open_frame-Keeps t (inr f) w =
    rw (open_filling t f) (record { valid = inr f; same = refl; config = refl })
open_frame-Keeps t (inl o) w = elim (Bool-cases (refused t)) [
  | inl bad ↦ rw (open_opening_bad t o bad) (record { valid = inl o; same = refl; config = refl })
  | inr good ↦
      let f = opened-IsFilling t w good in
      rw (open_opening_good t o good) (record {
        valid = inr f;
        same = rw (pending_filling (opened t) f.least, pending_opening t o.undeclared);
        config = refl;
      })
]

pub open_frame-IsFilling :
    (t : QqTransport)
    → IsTransport t
    → length t.prefix ≡ 4
    → (open_frame t).0 ≡ ok tt
    → IsFilling (open_frame t).1
open_frame-IsFilling t (inr f) w h = rw (open_filling t f) f
open_frame-IsFilling t (inl o) w h = elim (Bool-cases (refused t)) [
  | inl bad ↦ absurd (cc (h, open_opening_bad t o bad))
  | inr good ↦ rw (open_opening_good t o good) (opened-IsFilling t w good)
]

-- The first four bytes stay when more are put behind them.
take_kept :
    (xs ys more rest : List ℕ)
    → xs ++ more ≡ ys ++ rest
    → 4 ≤ length xs
    → 4 ≤ length ys
    → take 4 xs ≡ take 4 ys
take_kept xs ys more rest e h k =
    sym (take-append_fit 4 xs more h) ∙ ap (take 4) e ∙ take-append_fit 4 ys rest k

frame_long : (t : QqTransport) → IsFilling t → 4 ≤ length t.frame
frame_long t f = omega (arith, length-take 4 t.frame, ap length f.starts, f.width)

pub fill_frame-Keeps :
    (t : QqTransport) → IsFilling t → Keeps t (fill_frame t).1 × IsFilling (fill_frame t).1
unfolding fill_frame
fill_frame-Keeps t f =
    let before : Filling = record { filled = t.frame; stream = t.stream } in
    let after = (fill t.declared before).1 in
    let kept = fill-Fills t.declared before f.fits in
    let long = frame_long t f in
    let starts : take 4 after.filled ≡ t.prefix =
      take_kept after.filled t.frame (content after.stream) (content t.stream) kept.kept
        (omega (arith, kept.grown)) long
      ∙ f.starts in
    let g : IsFilling (fill_frame t).1 = record {
      width = f.width;
      announced = f.announced;
      least = f.least;
      most = f.most;
      starts = starts;
      fits = kept.room;
    } in
    (
      record {
        valid = inr g;
        same = rw (pending_filling (fill_frame t).1 f.least, pending_filling t f.least) kept.kept;
        config = refl;
      },
      g,
    )
