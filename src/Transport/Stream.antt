-- ===== src/Transport/Stream.antt =====
-- What the stream still holds, and what filling a buffer takes from it.
use mathlib.Core.List.{append_assoc}
use lirvena.Base.{
  ℕ, suc, zero, ◌-◌, ◌≤◌, ◌<◌, ◌≡◌, inl, inr, refl, sym, subst, ap, ◌∙◌, true, false, ltb, List, [],
  ◌∷◌, ◌++◌, length, take, drop, is_empty, Result, ok, err, arith, take-append-drop, length-take,
  length-append, Bool-cases, Result-cases,
}
use lirvena.Transport.{
  TransportError, io, Arrival, arrived, elapsed, broken, read, Filling, fill_loop, fill,
}

-- The bytes that the stream will deliver.
abbrev pub content : List Arrival → List ℕ
content [] = []
content (arrived xs ∷ later) = xs ++ content later
content (elapsed ∷ later) = content later
content (broken ∷ later) = content later

-- A stream that only delivers, and never an empty read before its end.
abbrev pub Delivers : List Arrival → Type 0
Delivers [] = Unit {0}
Delivers (arrived xs ∷ later) = (0 < length xs) × Delivers later
Delivers (elapsed ∷ later) = ⊥
Delivers (broken ∷ later) = ⊥

-- The bytes that a result holds.
abbrev got : Result (List ℕ) TransportError → List ℕ
got (ok xs) = xs
got (err e) = []

-- A read takes the next bytes and no others.
read_content :
    (room : ℕ) (s : List Arrival) → got (read room s).0 ++ content (read room s).1 ≡ content s
unfolding read
read_content room [] = refl
read_content room (elapsed ∷ later) = refl
read_content room (broken ∷ later) = refl
read_content room (arrived xs ∷ later) = elim (Bool-cases (ltb room (length xs))) [
  | inl more ↦
      rw (
        more,
        ← append_assoc (take room xs) (drop room xs) (content later),
        take-append-drop room xs,
      )
  | inr all ↦ rw all
]

length-read : (room : ℕ) (s : List Arrival) → length (got (read room s).0) ≤ room
unfolding read
length-read room [] = omega arith
length-read room (elapsed ∷ later) = omega arith
length-read room (broken ∷ later) = omega arith
length-read room (arrived xs ∷ later) = ground (arith, length-take room xs)

-- The outcomes of one turn of the loop.
module _ (turns size : ℕ) (f : Filling) where
  abbrev room_left : ℕ
  room_left = size - length f.filled

  abbrev pub after_read : List ℕ → Filling
  after_read xs = record { filled = f.filled ++ xs; stream = (read room_left f.stream).1 }

  pub turn_full : ltb (length f.filled) size ≡ false → fill_loop (suc turns) size f ≡ (ok tt, f)
  unfolding fill_loop
  turn_full full = rw (full, fill_loop)

  pub turn_failed :
      (e : TransportError)
      → ltb (length f.filled) size ≡ true
      → (read room_left f.stream).0 ≡ err e
      → fill_loop (suc turns) size f ≡ (err e, record f { stream = (read room_left f.stream).1 })
  unfolding fill_loop
  turn_failed e short failed = rw (fill_loop, short, failed)

  pub turn_ended :
      (xs : List ℕ)
      → ltb (length f.filled) size ≡ true
      → (read room_left f.stream).0 ≡ ok xs
      → is_empty xs ≡ true
      → fill_loop (suc turns) size f ≡ (err io, record f { stream = (read room_left f.stream).1 })
  unfolding fill_loop
  turn_ended xs short came ended = rw (fill_loop, short, came, ended)

  pub turn_read :
      (xs : List ℕ)
      → ltb (length f.filled) size ≡ true
      → (read room_left f.stream).0 ≡ ok xs
      → is_empty xs ≡ false
      → fill_loop (suc turns) size f ≡ fill_loop turns size (after_read xs)
  unfolding fill_loop
  turn_read xs short came some_came = rw (fill_loop, short, came, some_came)

-- The bytes in place and to come.
abbrev pub whole : Filling → List ℕ
whole f = f.filled ++ content f.stream

pub whole-read :
    (room : ℕ) (f : Filling) (xs : List ℕ)
    → (read room f.stream).0 ≡ ok xs
    → (f.filled ++ xs) ++ content (read room f.stream).1 ≡ whole f
whole-read room f xs came =
    append_assoc f.filled xs (content (read room f.stream).1)
    ∙ ap (◌++◌ f.filled)
        (ap (λ r. got r ++ content (read room f.stream).1) (sym came) ∙ read_content room f.stream)

content_failed :
    (room : ℕ) (s : List Arrival) (e : TransportError)
    → (read room s).0 ≡ err e
    → content (read room s).1 ≡ content s
content_failed room s e failed =
    ap (λ r. got r ++ content (read room s).1) (sym failed) ∙ read_content room s

content_ended :
    (room : ℕ) (s : List Arrival) (xs : List ℕ)
    → (read room s).0 ≡ ok xs
    → is_empty xs ≡ true
    → content (read room s).1 ≡ content s
content_ended room s [] came ended =
    ap (λ r. got r ++ content (read room s).1) (sym came) ∙ read_content room s
content_ended room s (x ∷ xs) came ended = absurd (cc ended)

read-le : (room : ℕ) (s : List Arrival) (xs : List ℕ) → (read room s).0 ≡ ok xs → length xs ≤ room
read-le room s xs came = subst (λ r. length (got r) ≤ room) came (length-read room s)

-- What a loop leaves: the bytes in place and to come are the same, and no more bytes are in place
-- than the buffer has.
pub record Fills (size : ℕ) (f g : Filling) : Type 0 where
  pub kept : whole g ≡ whole f
  pub room : length g.filled ≤ size
  pub grown : length f.filled ≤ length g.filled

pub fill_loop-Fills :
    (turns size : ℕ) (f : Filling)
    → length f.filled ≤ size
    → Fills size f (fill_loop turns size f).1
unfolding fill_loop
fill_loop-Fills zero size f h = record { kept = refl; room = h; grown = omega arith }
fill_loop-Fills (suc turns) size f h = elim (Bool-cases (ltb (length f.filled) size)) [
  | inr full ↦
      rw (turn_full turns size f full) (record { kept = refl; room = h; grown = omega arith })
  | inl short ↦ elim (Result-cases (read (size - length f.filled) f.stream).0) [
    | inr (e, failed) ↦ rw (turn_failed turns size f e short failed) (record {
      kept = ap (◌++◌ f.filled) (content_failed _ f.stream e failed);
      room = h;
      grown = omega arith;
    })
    | inl (xs, came) ↦ elim (Bool-cases (is_empty xs)) [
      | inl ended ↦ rw (turn_ended turns size f xs short came ended) (record {
        kept = ap (◌++◌ f.filled) (content_ended _ f.stream xs came ended);
        room = h;
        grown = omega arith;
      })
      | inr some_came ↦
          let bound = read-le (size - length f.filled) f.stream xs came in
          let rest =
            fill_loop-Fills turns size (after_read turns size f xs)
              (omega (arith, length-append f.filled xs)) in
          rw (turn_read turns size f xs short came some_came) (record {
            kept = rest.kept ∙ whole-read _ f xs came;
            room = rest.room;
            grown = omega (arith, rest.grown, length-append f.filled xs);
          })
    ]
  ]
]

pub fill-Fills : (size : ℕ) (f : Filling) → length f.filled ≤ size → Fills size f (fill size f).1
unfolding fill
fill-Fills size f h = fill_loop-Fills (size - length f.filled) size f h

pub nonempty : (xs : List ℕ) → is_empty xs ≡ false → 0 < length xs
nonempty [] h = absurd (cc h)
nonempty (x ∷ xs) h = omega arith
