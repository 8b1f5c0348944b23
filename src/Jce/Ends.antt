-- ===== src/Jce/Ends.antt =====
-- The loop over the fields of a struct comes to an end.
use native.Mathlib.Nat.{le_refl}
use lirvena.Base.{
  ℕ, zero, suc, ◌+◌, ◌/◌, ◌^◌, ◌<◌, ◌≤◌, ◌≡◌, refl, sym, ap, ◌∙◌, false, ◌==◌, if◌then◌else◌,
  length, arith, ok, err, run_on, run_on_ok, run_on_err, Result-cases, inl, inr, Bool-cases,
}
use lirvena.Base.Bits.{bit_and}
use lirvena.Jce.{
  OnlinePacketError, packet_error, Reader, Reading, Head, remaining, byte, head, skip_fields,
  skip_struct, skip_levels,
}
use lirvena.Jce.Kind
use lirvena.Jce.Cursor.{IsReader}
use lirvena.Jce.Forward.{
  Forward, Moves-IsReader, Forward-stop, Forward-then, Forward-if, Forward-byte, Forward-head,
  Forward-skip_levels,
}

byte_steps : (r : Reader) (b : ℕ) → (byte r).0 ≡ ok b → (byte r).1.position ≡ r.position + 1
unfolding byte
byte_steps r b e = ground arith

-- What `head` does behind its first byte.
abbrev head_rest : ℕ → Reading Head
head_rest raw r =
    let kind = bit_and raw 0x0f in
    if raw / 2 ^ 4 == 15
    then (run_on (byte r) λ tag r. (ok (record { tag = tag; kind = kind }), r))
    else (ok (record { tag = raw / 2 ^ 4; kind = kind }), r)

Forward-head_rest : (raw : ℕ) → Forward (head_rest raw)
Forward-head_rest raw =
    Forward-if (raw / 2 ^ 4 == 15) (Forward-then _ Forward-byte (λ _. Forward-stop _))
      (Forward-stop _)

head_ok : (r : Reader) (b : ℕ) → (byte r).0 ≡ ok b → head r ≡ head_rest b (byte r).1
unfolding head
head_ok r b e = run_on_ok (byte r) _ b e

head_err : (r : Reader) (x : OnlinePacketError) → (byte r).0 ≡ err x → (head r).0 ≡ err x
unfolding head
head_err r x e = ap (λ m. m.0) (run_on_err (byte r) _ x e)

head_steps :
    (r : Reader) (x : Head) → IsReader r → (head r).0 ≡ ok x → r.position < (head r).1.position
head_steps r x h e = elim (Result-cases (byte r).0) [
  | inr (y, f) ↦ absurd (cc (e, head_err r y f))
  | inl (b, f) ↦
      let got = Forward-head_rest b (byte r).1 (Moves-IsReader r (byte r) h (Forward-byte r h)) in
      rw (head_ok r b f) (omega (arith, got.forward, byte_steps r b f))
]

module _ (one : ℕ → Reading (Unit {0})) (steps : (kind : ℕ) → Forward (one kind)) where
  fields_done :
      (turns : ℕ) (r : Reader) → remaining r ≡ 0 → skip_fields one turns r ≡ (err packet_error, r)
  unfolding skip_fields
  fields_done zero r e = refl
  fields_done (suc turns) r e = rw e

  -- One turn, with what the later turns do.
  abbrev turn : Reading (Unit {0}) → Head → Reading (Unit {0})
  turn later x r =
      if x.kind == Kind.struct_end then (ok tt, r) else (run_on (one x.kind r) λ _ r. later r)

  fields_step :
      (turns : ℕ) (r : Reader)
      → (remaining r == 0) ≡ false
      → skip_fields one (suc turns) r ≡ run_on (head r) (turn (skip_fields one turns))
  unfolding skip_fields
  fields_step turns r e = rw e

  -- A turn does not see the difference between two ways to go on that agree on shorter inputs.
  same_turn :
      (turns more : ℕ) (r : Reader)
      → IsReader r
      → remaining r ≤ suc turns
      → ((v : Reader)
          → IsReader v
          → remaining v ≤ turns
          → skip_fields one (turns + more) v ≡ skip_fields one turns v)
      → (x : Head) → (head r).0 ≡ ok x
      → turn (skip_fields one (turns + more)) x (head r).1
        ≡ turn (skip_fields one turns) x (head r).1
  same_turn turns more r h b again x e = elim (Bool-cases (x.kind == Kind.struct_end)) [
    | inl ended ↦ rw ended
    | inr value ↦ rw value (elim (Result-cases (one x.kind (head r).1).0) [
      | inr (y, f) ↦
          run_on_err (one x.kind (head r).1) _ y f ∙ sym (run_on_err (one x.kind (head r).1) _ y f)
      | inl (_, f) ↦
          let u = (head r).1 in
          let v = (one x.kind u).1 in
          let first = Forward-head r h in
          let hu = Moves-IsReader r (head r) h first in
          let second = steps x.kind u hu in
          let hv = Moves-IsReader u (one x.kind u) hu second in
          let left : remaining v ≤ turns = omega (
            arith,
            head_steps r x h e,
            second.forward,
            second.within,
            ap length second.same_input,
            ap length first.same_input,
            first.within,
          ) in
          run_on_ok (one x.kind u) (λ _ r. skip_fields one (turns + more) r) tt f
          ∙ again v hv left
          ∙ sym (run_on_ok (one x.kind u) (λ _ r. skip_fields one turns r) tt f)
    ])
  ]

  more_turns :
      (turns more : ℕ) (r : Reader)
      → IsReader r
      → remaining r ≤ turns
      → skip_fields one (turns + more) r ≡ skip_fields one turns r
  more_turns zero more r h b =
      fields_done (0 + more) r (omega arith) ∙ sym (fields_done 0 r (omega arith))
  more_turns (suc turns) more r h b = elim (Bool-cases (remaining r == 0)) [
    | inl none_left ↦
        let e : remaining r ≡ 0 = ground arith in
        fields_done (suc turns + more) r e ∙ sym (fields_done (suc turns) r e)
    | inr some_left ↦
        let count : suc turns + more ≡ suc (turns + more) = omega arith in
        rw (count, fields_step (turns + more) r some_left, fields_step turns r some_left)
          (elim (Result-cases (head r).0) [
            | inr (x, e) ↦
                run_on_err (head r) (turn (skip_fields one (turns + more))) x e
                ∙ sym (run_on_err (head r) (turn (skip_fields one turns)) x e)
            | inl (x, e) ↦
                run_on_ok (head r) (turn (skip_fields one (turns + more))) x e
                ∙ same_turn turns more r h b (λ v hv left. more_turns turns more v hv left) x e
                ∙ sym (run_on_ok (head r) (turn (skip_fields one turns)) x e)
          ])
  ]

-- The loop over a struct's fields ends by itself: with as many turns as bytes are left it has its
-- result, and more turns change nothing, at every level and on any input.
pub skip_struct-enough :
    (levels more : ℕ) (r : Reader)
    → IsReader r
    → skip_fields (skip_levels levels) (remaining r + more) r ≡ skip_struct (skip_levels levels) r
unfolding skip_struct
skip_struct-enough levels more r h =
    more_turns (skip_levels levels) (Forward-skip_levels levels) (remaining r) more r h
      (le_refl (remaining r))
