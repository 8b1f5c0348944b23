-- ===== src/Jce/Forward.antt =====
-- Where the reader goes on any input, hostile ones included.
use native.Mathlib.Nat.{le_refl, le_trans}
use lirvena.Base.{
  ℕ, zero, suc, ◌+◌, ◌-◌, ◌*◌, ◌/◌, ◌^◌, ◌≤◌, ◌≡◌, refl, subst, ◌∙◌, Bool, true, false, not, ◌||◌,
  ltb, leb, ◌==◌, if◌then◌else◌, length, arith, Result, run_on, run_on_ok, run_on_err, Result-cases,
  inl, inr, Bool-cases,
}
use lirvena.Jce.{
  OnlinePacketError, Reader, Reading, remaining, take_bytes, advance, byte, number, head, integer,
  string_length, string_bytes, count_of, collection_count, simple_length, skip_values,
  skip_collection, skip_fields, skip_struct, skip_value, skip_levels, skip, max_value_len,
  max_depth,
}
use lirvena.Jce.Kind
use lirvena.Jce.Cursor.{IsReader}

-- The input stays, and the position does not go back, nor past the end.
pub record Moves {A : Type 0} (r : Reader) (m : Result A OnlinePacketError × Reader) : Type 0 where
  pub same_input : m.1.input ≡ r.input
  pub forward : r.position ≤ m.1.position
  pub within : m.1.position ≤ length r.input

abbrev pub Forward : {A : Type 0} → Reading A → Type 0
Forward m = (r : Reader) → IsReader r → Moves r (m r)

Moves-refl :
    {A : Type 0} (x : Result A OnlinePacketError) (r : Reader) → IsReader r → Moves r (x, r)
Moves-refl x r h = record { same_input = refl; forward = le_refl r.position; within = h.within }

pub Moves-IsReader :
    {A : Type 0} (r : Reader) (m : Result A OnlinePacketError × Reader)
    → IsReader r
    → Moves r m
    → IsReader m.1
Moves-IsReader r m h k = record {
  within = rw (k.same_input) k.within;
  sized = rw (k.same_input) h.sized;
}

Moves-trans :
    {A B : Type 0} (r : Reader) (m : Result A OnlinePacketError × Reader)
    (n : Result B OnlinePacketError × Reader)
    → Moves r m
    → Moves m.1 n
    → Moves r n
Moves-trans r m n h k = record {
  same_input = k.same_input ∙ h.same_input;
  forward = le_trans h.forward k.forward;
  within = subst (λ xs. n.1.position ≤ length xs) h.same_input k.within;
}

pub Forward-stop : {A : Type 0} (x : Result A OnlinePacketError) → Forward (λ r. (x, r))
Forward-stop x r h = Moves-refl x r h

pub Forward-then :
    {A B : Type 0} {m : Reading A} (k : A → Reading B)
    → Forward m
    → ((a : A) → Forward (k a))
    → Forward (λ r. run_on (m r) k)
Forward-then {m = m} k p q r h = elim (Result-cases (m r).0) [
  | inr (x, e) ↦
      let got = p r h in
      rw (run_on_err (m r) k x e)
        (record { same_input = got.same_input; forward = got.forward; within = got.within })
  | inl (a, e) ↦
      rw (run_on_ok (m r) k a e)
        (Moves-trans r (m r) (k a (m r).1) (p r h) (q a (m r).1 (Moves-IsReader r (m r) h (p r h))))
]

pub Forward-if :
    {A : Type 0} (b : Bool) {m k : Reading A}
    → Forward m
    → Forward k
    → Forward (λ r. if b then m r else k r)
Forward-if true p q = p
Forward-if false p q = q

Forward-take : (n : ℕ) → Forward (take_bytes n)
unfolding take_bytes
Forward-take n r h = elim (Bool-cases (leb (r.position + n) 18446744073709551615)) [
  | inr over ↦ rw over (Moves-refl _ r h)
  | inl sum ↦ elim (Bool-cases (ltb (length r.input) (r.position + n))) [
    | inl past ↦ rw (sum, past) (Moves-refl _ r h)
    | inr inside ↦
        rw (sum, inside)
          (record { same_input = refl; forward = omega arith; within = ground arith })
  ]
]

pub Forward-byte : Forward byte
unfolding byte
Forward-byte r h = elim (Bool-cases (ltb r.position (length r.input))) [
  | inr over ↦ rw over (Moves-refl _ r h)
  | inl inside ↦
      rw inside (record { same_input = refl; forward = omega arith; within = ground arith })
]

Forward-advance : (n : ℕ) → Forward (advance n)
unfolding advance
Forward-advance n = Forward-then _ (Forward-take n) (λ _. Forward-stop _)

Forward-number : (n : ℕ) → Forward (number n)
unfolding number
Forward-number n = Forward-then _ (Forward-take n) (λ _. Forward-stop _)

pub Forward-head : Forward head
unfolding head
Forward-head = Forward-then _ Forward-byte (λ raw.
    Forward-if (raw / 2 ^ 4 == 15) (Forward-then _ Forward-byte (λ _. Forward-stop _))
      (Forward-stop _))

Forward-integer : (kind : ℕ) → Forward (integer kind)
unfolding integer
Forward-integer kind = Forward-if (kind == Kind.zero) (Forward-stop _) (
    Forward-if (kind == Kind.byte) (Forward-then _ Forward-byte (λ _. Forward-stop _)) (
      Forward-if (kind == Kind.short) (Forward-then _ (Forward-number 2) (λ _. Forward-stop _)) (
        Forward-if (kind == Kind.int) (Forward-then _ (Forward-number 4) (λ _. Forward-stop _)) (
          Forward-if (kind == Kind.long) (Forward-then _ (Forward-number 8) (λ _. Forward-stop _))
            (Forward-stop _)))))

Forward-string_bytes : (kind : ℕ) → Forward (string_bytes kind)
unfolding string_bytes string_length
Forward-string_bytes kind =
    Forward-then _
      (Forward-if (kind == Kind.string_one) Forward-byte
        (Forward-if (kind == Kind.string_four) (Forward-number 4) (Forward-stop _)))
      (λ n. Forward-if (ltb max_value_len n) (Forward-stop _) (Forward-take n))

Forward-collection_count : (maximum : ℕ) → Forward (collection_count maximum)
unfolding collection_count
Forward-collection_count maximum =
    Forward-then _ Forward-head
      (λ h. Forward-then _ (Forward-integer h.kind) (λ n. Forward-stop (count_of maximum n)))

Forward-simple_length : Forward simple_length
unfolding simple_length
Forward-simple_length = Forward-then _ Forward-head (λ h.
    Forward-if (not (h.kind == Kind.byte)) (Forward-stop _)
      (Forward-collection_count max_value_len))

module _ (one : ℕ → Reading (Unit {0})) (steps : (kind : ℕ) → Forward (one kind)) where
  Forward-skip_values : (n : ℕ) → Forward (skip_values one n)
  unfolding skip_values
  Forward-skip_values zero = Forward-stop _
  Forward-skip_values (suc n) =
      Forward-then _ Forward-head (λ h. Forward-then _ (steps h.kind) (λ _. Forward-skip_values n))

  Forward-skip_collection : (pairs : Bool) → Forward (skip_collection one pairs)
  unfolding skip_collection
  Forward-skip_collection pairs =
      Forward-then _ (Forward-collection_count 1000000)
        (λ n. Forward-skip_values (if pairs then n * 2 else n))

  Forward-skip_fields : (turns : ℕ) → Forward (skip_fields one turns)
  unfolding skip_fields
  Forward-skip_fields zero r h = Moves-refl _ r h
  Forward-skip_fields (suc turns) r h = elim (Bool-cases (remaining r == 0)) [
    | inl none_left ↦ rw none_left (Moves-refl _ r h)
    | inr some_left ↦ rw some_left (
        Forward-then _ Forward-head
          (λ x.
            Forward-if (x.kind == Kind.struct_end) (Forward-stop _)
              (Forward-then _ (steps x.kind) (λ _. Forward-skip_fields turns)))
          r h)
  ]

  Forward-skip_value : (kind : ℕ) → Forward (skip_value one kind)
  unfolding skip_value skip_struct
  Forward-skip_value kind =
      Forward-if (kind == Kind.zero || kind == Kind.struct_end) (Forward-stop _) (
        Forward-if (kind == Kind.byte) (Forward-advance 1) (
          Forward-if (kind == Kind.short) (Forward-advance 2) (
            Forward-if (kind == Kind.int || kind == 4) (Forward-advance 4) (
              Forward-if (kind == Kind.long || kind == 5) (Forward-advance 8) (
                Forward-if (kind == Kind.string_one || kind == Kind.string_four)
                  (Forward-then _ (Forward-string_bytes kind) (λ _. Forward-stop _))
                  (Forward-if (kind == Kind.simple_list)
                    (Forward-then _ Forward-simple_length (λ n. Forward-advance n))
                    (Forward-if (kind == Kind.map) (Forward-skip_collection true) (
                      Forward-if (kind == Kind.list) (Forward-skip_collection false) (
                        Forward-if (kind == Kind.struct_begin)
                          (λ r h. Forward-skip_fields (remaining r) r h) (Forward-stop _))))))))))

pub Forward-skip_levels : (levels kind : ℕ) → Forward (skip_levels levels kind)
unfolding skip_levels
Forward-skip_levels zero kind = Forward-stop _
Forward-skip_levels (suc levels) kind =
    Forward-skip_value (skip_levels levels) (Forward-skip_levels levels) kind

-- From any position and on any input, a skip leaves the input alone, and it neither goes back nor
-- past the end of the input, whether it succeeds or fails.
pub skip-Moves : (kind depth : ℕ) (r : Reader) → IsReader r → Moves r (skip kind depth r)
unfolding skip
skip-Moves kind depth = Forward-skip_levels (max_depth + 1 - depth) kind
