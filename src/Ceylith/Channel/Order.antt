-- ===== src/Ceylith/Channel/Order.antt =====
-- Which counters a secure session accepts.
use lirvena.Base.{
  ℕ, suc, ◌-◌, ◌<◌, ◌≡◌, ◌⊎◌, inl, inr, refl, sym, ap, subst, ◌∙◌, true, ◌||◌, ◌==◌, ltb, leb,
  Option-cases, List, [], ◌∷◌, length, Result, ok, err, Bool-cases, arith,
}
use lirvena.Ceylith.Channel.{
  NoiseCipher, SecureSession, SecureSessionError, seal, open_message, session_closed, noise_tag_len,
  max_noise_message_len,
}

module _ (cipher : NoiseCipher) where
  Session : Type 0
  Session = SecureSession cipher

  abbrev pub next_send_counter : SecureSession cipher → ℕ
  next_send_counter s = cipher.get_next_n s.send

  abbrev pub next_receive_counter : SecureSession cipher → ℕ
  next_receive_counter s = cipher.get_next_n s.receive

  abbrev pub Opened :
      ℕ → SecureSession cipher → Result (List ℕ) SecureSessionError × SecureSession cipher → Type 0
  Opened counter s (ok p, u) =
      (counter ≡ next_receive_counter s)
      × (counter < s.message_limit)
      × (u ≡ record s { receive = u.receive })
      × (next_receive_counter u ≡ suc counter)
  Opened counter s (err e, u) = (u ≡ s) ⊎ (u.closed ≡ true)

  abbrev pub Sealed :
      ℕ → SecureSession cipher → Result (List ℕ) SecureSessionError × SecureSession cipher → Type 0
  Sealed counter s (ok p, u) =
      (counter ≡ next_send_counter s)
      × (counter < s.message_limit)
      × (u ≡ record s { send = u.send })
      × (next_send_counter u ≡ suc counter)
  Sealed counter s (err e, u) = (u ≡ s) ⊎ (u.closed ≡ true)

  open-Opened :
      (counter : ℕ) (header ciphertext : List ℕ) (s : SecureSession cipher)
      → Opened counter s (open_message cipher counter header ciphertext s)
  unfolding open_message
  open-Opened counter header ciphertext s = elim (Bool-cases s.closed) [
    | inl shut ↦ rw shut (inl refl)
    | inr live ↦ elim (Bool-cases (counter == next_receive_counter s)) [
      | inr other ↦ rw (live, other) (inr refl)
      | inl due ↦ elim (Bool-cases (leb s.message_limit counter)) [
        | inl late ↦ rw (live, due, late) (inr refl)
        | inr timely ↦
            elim (Bool-cases (
              ltb (length ciphertext) noise_tag_len
              || ltb max_noise_message_len (length ciphertext))) [
                | inl long ↦ rw (live, due, timely, long) (inl refl)
                | inr fits ↦ elim (Option-cases (cipher.decrypt_ad header ciphertext s.receive).0) [
                  | inl failed ↦ rw (live, due, timely, fits, failed) (inr refl)
                  | inr (p, got) ↦
                      let same : counter ≡ next_receive_counter s = ground arith in
                      rw (live, due, timely, fits, got)
                        (
                          same,
                          ground arith,
                          refl,
                          cipher.decrypt_ad-next header ciphertext s.receive p got
                              ∙ ap suc (sym same),
                        )
                ]
              ]
      ]
    ]
  ]

  seal-Sealed :
      (counter : ℕ) (header plaintext : List ℕ) (s : SecureSession cipher)
      → Sealed counter s (seal cipher counter header plaintext s)
  unfolding seal
  seal-Sealed counter header plaintext s = elim (Bool-cases s.closed) [
    | inl shut ↦ rw shut (inl refl)
    | inr live ↦ elim (Bool-cases (counter == next_send_counter s)) [
      | inr other ↦ rw (live, other) (inr refl)
      | inl due ↦ elim (Bool-cases (leb s.message_limit counter)) [
        | inl late ↦ rw (live, due, late) (inr refl)
        | inr timely ↦
            elim (Bool-cases (ltb (max_noise_message_len - noise_tag_len) (length plaintext))) [
              | inl long ↦ rw (live, due, timely, long) (inl refl)
              | inr fits ↦
                  let same : counter ≡ next_send_counter s = ground arith in
                  rw (live, due, timely, fits)
                    (
                      same,
                      ground arith,
                      refl,
                      cipher.encrypt_ad-next header plaintext s.send ∙ ap suc (sym same),
                    )
            ]
      ]
    ]
  ]

-- The calls on a session, in any order.
pub data Call : Type 0 where
  sealing : ℕ → List ℕ → List ℕ → Call
  opening : ℕ → List ℕ → List ℕ → Call

-- The counters that were accepted, for each direction, and the session after the calls.
pub record Trace (cipher : NoiseCipher) : Type 0 where
  pub sealed : List ℕ
  pub opened : List ℕ
  pub session : SecureSession cipher

abbrev push_if : {A : Type 0} → Result A SecureSessionError → ℕ → List ℕ → List ℕ
push_if (ok a) counter rest = counter ∷ rest
push_if (err e) counter rest = rest

-- The counters from `n` on, one after the other, below the limit.
abbrev pub Consecutive : ℕ → ℕ → List ℕ → Type 0
Consecutive limit n [] = Unit {0}
Consecutive limit n (c ∷ cs) = (c ≡ n) × (c < limit) × Consecutive limit (suc n) cs

carry : (l m n k : ℕ) (cs : List ℕ) → l ≡ m → n ≡ k → Consecutive l n cs → Consecutive m k cs
carry l m n k cs e f h =
    subst (λ (x : ℕ). Consecutive m x cs) f (subst (λ (x : ℕ). Consecutive x n cs) e h)

module _ (cipher : NoiseCipher) where
  unfoldable pub calls : List Call → SecureSession cipher → Trace cipher
  calls [] s = record { sealed = []; opened = []; session = s }
  calls (sealing c h p ∷ cs) s =
      let m = seal cipher c h p s in
      let t = calls cs m.1 in record t { sealed = push_if m.0 c t.sealed }
  calls (opening c h p ∷ cs) s =
      let m = open_message cipher c h p s in
      let t = calls cs m.1 in record t { opened = push_if m.0 c t.opened }

  closed_nothing :
      (cs : List Call) (s : SecureSession cipher)
      → s.closed ≡ true
      → ((calls cs s).sealed ≡ []) × ((calls cs s).opened ≡ [])
  unfolding calls
  closed_nothing [] s h = (refl, refl)
  closed_nothing (sealing c hd p ∷ cs) s h =
      let shut : seal cipher c hd p s ≡ (err session_closed, s) = unfold seal in rw h in
      rw shut (closed_nothing cs s h)
  closed_nothing (opening c hd p ∷ cs) s h =
      let shut : open_message cipher c hd p s ≡ (err session_closed, s) =
        unfold open_message in rw h in
      rw shut (closed_nothing cs s h)

  abbrev Ordered : SecureSession cipher → Trace cipher → Type 0
  Ordered s t =
      Consecutive s.message_limit (next_send_counter cipher s) t.sealed
      × Consecutive s.message_limit (next_receive_counter cipher s) t.opened

  closed-Ordered :
      (cs : List Call) (s u : SecureSession cipher) → u.closed ≡ true → Ordered s (calls cs u)
  closed-Ordered cs s u h = let (a, b) = closed_nothing cs u h in rw (a, b) (tt, tt)

  seal-Ordered :
      (cs : List Call) (c : ℕ) (s : SecureSession cipher) (r : Result (List ℕ) SecureSessionError)
      (u : SecureSession cipher)
      → Sealed cipher c s (r, u)
      → Ordered u (calls cs u)
      → Consecutive s.message_limit (next_send_counter cipher s) (push_if r c (calls cs u).sealed)
        × Consecutive s.message_limit (next_receive_counter cipher s) (calls cs u).opened
  seal-Ordered cs c s (ok p) u (same, below, kept, next) (a, b) =
      let limit : u.message_limit ≡ s.message_limit =
        ap (λ (t : SecureSession cipher). t.message_limit) kept in
      let other : u.receive ≡ s.receive = ap (λ (t : SecureSession cipher). t.receive) kept in
      (
        (same, below, carry _ _ _ _ (calls cs u).sealed limit (next ∙ ap suc same) a),
        carry _ _ _ _ (calls cs u).opened limit (ap cipher.get_next_n other) b,
      )
  seal-Ordered cs c s (err e) u (inl kept) o =
      subst (λ (t : SecureSession cipher). Ordered t (calls cs u)) kept o
  seal-Ordered cs c s (err e) u (inr shut) o = closed-Ordered cs s u shut

  open-Ordered :
      (cs : List Call) (c : ℕ) (s : SecureSession cipher) (r : Result (List ℕ) SecureSessionError)
      (u : SecureSession cipher)
      → Opened cipher c s (r, u)
      → Ordered u (calls cs u)
      → Consecutive s.message_limit (next_send_counter cipher s) (calls cs u).sealed
        × Consecutive s.message_limit
            (next_receive_counter cipher s)
            (push_if r c (calls cs u).opened)
  open-Ordered cs c s (ok p) u (same, below, kept, next) (a, b) =
      let limit : u.message_limit ≡ s.message_limit =
        ap (λ (t : SecureSession cipher). t.message_limit) kept in
      let other : u.send ≡ s.send = ap (λ (t : SecureSession cipher). t.send) kept in
      (
        carry _ _ _ _ (calls cs u).sealed limit (ap cipher.get_next_n other) a,
        (same, below, carry _ _ _ _ (calls cs u).opened limit (next ∙ ap suc same) b),
      )
  open-Ordered cs c s (err e) u (inl kept) o =
      subst (λ (t : SecureSession cipher). Ordered t (calls cs u)) kept o
  open-Ordered cs c s (err e) u (inr shut) o = closed-Ordered cs s u shut

  -- Whatever calls are made on a session, in whatever order and with whatever counters and bytes,
  -- the counters that it accepts are consecutive in each direction, from the next counter on, and
  -- below the limit: none is accepted twice, skipped or out of order.
  pub calls-Consecutive :
      (cs : List Call) (s : SecureSession cipher)
      → let t = calls cs s in
        Consecutive s.message_limit (next_send_counter cipher s) t.sealed
        × Consecutive s.message_limit (next_receive_counter cipher s) t.opened
  unfolding calls
  calls-Consecutive [] s = (tt, tt)
  calls-Consecutive (sealing c h p ∷ cs) s =
      let m = seal cipher c h p s in
      seal-Ordered cs c s m.0 m.1 (seal-Sealed cipher c h p s) (calls-Consecutive cs m.1)
  calls-Consecutive (opening c h p ∷ cs) s =
      let m = open_message cipher c h p s in
      open-Ordered cs c s m.0 m.1 (open-Opened cipher c h p s) (calls-Consecutive cs m.1)
