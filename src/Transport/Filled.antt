-- ===== src/Transport/Filled.antt =====
-- When a buffer is full, and what a stream that delivers makes of it.
use lirvena.Base.{
  ℕ, suc, zero, ◌-◌, ◌≤◌, ◌<◌, ◌≡◌, inl, inr, refl, false, ltb, List, [], ◌∷◌, length, take,
  is_empty, ok, arith, length-take, length-drop, length-append, Bool-cases, Result-cases,
}
use lirvena.Transport.{Arrival, arrived, elapsed, broken, read, Filling, fill_loop, fill}
use lirvena.Transport.Stream.{
  content, Delivers, after_read, turn_full, turn_failed, turn_ended, turn_read, whole, whole-read,
  fill_loop-Fills, nonempty,
}

-- A loop that ends well has filled the buffer.
fill_loop_full :
    (turns size : ℕ) (f : Filling)
    → size - length f.filled ≤ turns
    → (fill_loop turns size f).0 ≡ ok tt
    → size ≤ length (fill_loop turns size f).1.filled
unfolding fill_loop
fill_loop_full zero size f t h = omega arith
fill_loop_full (suc turns) size f t h = elim (Bool-cases (ltb (length f.filled) size)) [
  | inr full ↦ rw (turn_full turns size f full) (ground arith)
  | inl short ↦ elim (Result-cases (read (size - length f.filled) f.stream).0) [
    | inr (e, failed) ↦ absurd (cc (h, turn_failed turns size f e short failed))
    | inl (xs, came) ↦ elim (Bool-cases (is_empty xs)) [
      | inl ended ↦ absurd (cc (h, turn_ended turns size f xs short came ended))
      | inr some_came ↦
          let step = turn_read turns size f xs short came some_came in
          rw step (
            fill_loop_full turns size (after_read turns size f xs)
              (omega (arith, length-append f.filled xs, nonempty xs some_came)) (rw step at h))
    ]
  ]
]

pub fill_full :
    (size : ℕ) (f : Filling)
    → length f.filled ≤ size
    → (fill size f).0 ≡ ok tt
    → length (fill size f).1.filled ≡ size
unfolding fill
fill_full size f fits h =
    let most = (fill_loop-Fills (size - length f.filled) size f fits).room in
    let least = fill_loop_full (size - length f.filled) size f (omega arith) h in omega arith

pos_nonempty : (xs : List ℕ) → 0 < length xs → is_empty xs ≡ false
pos_nonempty [] h = absurd (omega arith)
pos_nonempty (x ∷ xs) h = refl

pub fill_done : (size : ℕ) (f : Filling) → length f.filled ≡ size → fill size f ≡ (ok tt, f)
unfolding fill fill_loop
fill_done size f h = let none_left : size - length f.filled ≡ 0 = omega arith in rw none_left

read-Delivers :
    (room : ℕ) (s : List Arrival)
    → Delivers s
    → 0 < room
    → 0 < length (content s)
    → (xs : List ℕ) × ((read room s).0 ≡ ok xs) × (is_empty xs ≡ false) × Delivers (read room s).1
unfolding read
read-Delivers room [] d r c = absurd (omega arith)
read-Delivers room (elapsed ∷ later) d r c = absurd d
read-Delivers room (broken ∷ later) d r c = absurd d
read-Delivers room (arrived xs ∷ later) d r c = elim (Bool-cases (ltb room (length xs))) [
  | inl more ↦ (
    take room xs,
    rw more,
    pos_nonempty (take room xs) (ground (arith, length-take room xs)),
    rw more (ground (arith, length-drop room xs), d.1),
  )
  | inr all ↦ (xs, rw all, pos_nonempty xs d.0, rw all (d.1))
]

-- From a stream that delivers enough, the buffer is filled.
fill_loop-Delivers :
    (turns size : ℕ) (f : Filling)
    → size - length f.filled ≤ turns
    → Delivers f.stream
    → size ≤ length (whole f)
    → ((fill_loop turns size f).0 ≡ ok tt) × Delivers (fill_loop turns size f).1.stream
unfolding fill_loop
fill_loop-Delivers zero size f t d c = (refl, d)
fill_loop-Delivers (suc turns) size f t d c = elim (Bool-cases (ltb (length f.filled) size)) [
  | inr full ↦ rw (turn_full turns size f full) (refl, d)
  | inl short ↦
      let room = size - length f.filled in
      let (xs, came, some_came, rest) =
        read-Delivers room f.stream d (ground arith)
          (ground (arith, length-append f.filled (content f.stream))) in
      rw (turn_read turns size f xs short came some_came) (
        fill_loop-Delivers turns size (after_read turns size f xs)
          (omega (arith, length-append f.filled xs, nonempty xs some_came)) rest
          (rw (whole-read room f xs came) c))
]

pub fill-Delivers :
    (size : ℕ) (f : Filling)
    → Delivers f.stream
    → size ≤ length (whole f)
    → ((fill size f).0 ≡ ok tt) × Delivers (fill size f).1.stream
unfolding fill
fill-Delivers size f d c = fill_loop-Delivers (size - length f.filled) size f (omega arith) d c
