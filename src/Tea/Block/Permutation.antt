-- ===== src/Tea/Block/Permutation.antt =====
-- The block cipher is a permutation of the 64-bit blocks, under every key.
use lirvena.Base.{ℕ, zero, suc, ◌+◌, ◌*◌, ◌/◌, ◌%◌, ◌^◌, ◌<◌, ◌≡◌, refl, ◌∙◌, sym, ap, arith}
use lirvena.Base.Bits.{bit_or_join}
use lirvena.Base.Bytes.{to_be, from_be}
use lirvena.Base.Words.{
  wrapping_add, wrapping_sub, wrapping_mul, wrapping_add-lt, wrapping_sub-lt, wrapping_sub-add,
  wrapping_add-sub,
}
use lirvena.Tea.Block.{
  KeyWords, Halves, split, encrypt_round, encrypt_rounds, decrypt_round, decrypt_rounds, join,
  encrypt, decrypt, delta, rounds,
}

-- All three variables are `u32`.
abbrev pub IsHalves : Halves → Type 0
IsHalves s = (s.left < 2 ^ 32) × (s.right < 2 ^ 32) × (s.sum < 2 ^ 32)

split_left : (v : ℕ) → v < 2 ^ 64 → (split v).0 ≡ v / 2 ^ 32
unfolding split to_be from_be
split_left v h = omega arith

split_right : (v : ℕ) → (split v).1 ≡ v % 2 ^ 32
unfolding split to_be from_be
split_right v = omega arith

join_lem : (s : Halves) → IsHalves s → join s ≡ s.left * 2 ^ 32 + s.right
unfolding join
join_lem s h = bit_or_join 32 32 s.left s.right h.0 h.1

encrypt_round-IsHalves : (key : KeyWords) (s : Halves) → IsHalves (encrypt_round key s)
unfolding encrypt_round
encrypt_round-IsHalves key s = (wrapping_add-lt _ _, wrapping_add-lt _ _, wrapping_add-lt _ _)

decrypt_round-IsHalves : (key : KeyWords) (s : Halves) → IsHalves (decrypt_round key s)
unfolding decrypt_round
decrypt_round-IsHalves key s = (wrapping_sub-lt _ _, wrapping_sub-lt _ _, wrapping_sub-lt _ _)

decrypt_round-encrypt_round :
    (key : KeyWords) (s : Halves) → IsHalves s → decrypt_round key (encrypt_round key s) ≡ s
unfolding encrypt_round decrypt_round
decrypt_round-encrypt_round key s h =
    simp
      (wrapping_sub-add s.right _ h.1, wrapping_sub-add s.left _ h.0, wrapping_sub-add s.sum _ h.2)

encrypt_round-decrypt_round :
    (key : KeyWords) (s : Halves) → IsHalves s → encrypt_round key (decrypt_round key s) ≡ s
unfolding encrypt_round decrypt_round
encrypt_round-decrypt_round key s h =
    simp
      (wrapping_add-sub s.right _ h.1, wrapping_add-sub s.left _ h.0, wrapping_add-sub s.sum _ h.2)

split_left-join : (s : Halves) → IsHalves s → (split (join s)).0 ≡ s.left
split_left-join s h =
    rw (join_lem s h) (split_left (s.left * 2 ^ 32 + s.right) (omega arith) ∙ omega arith)

split_right-join : (s : Halves) → IsHalves s → (split (join s)).1 ≡ s.right
split_right-join s h = rw (join_lem s h) (split_right (s.left * 2 ^ 32 + s.right) ∙ omega arith)

-- The loop variables before the first round.
abbrev start : ℕ → ℕ → Halves
start v sum = record { left = (split v).0; right = (split v).1; sum = sum }

start-IsHalves : (v sum : ℕ) → v < 2 ^ 64 → sum < 2 ^ 32 → IsHalves (start v sum)
start-IsHalves v sum h k = omega (arith, split_left v h, split_right v)

join-start : (v sum : ℕ) → v < 2 ^ 64 → sum < 2 ^ 32 → join (start v sum) ≡ v
join-start v sum h k =
    omega (arith, join_lem (start v sum) (start-IsHalves v sum h k), split_left v h, split_right v)

start-join : (s : Halves) (sum : ℕ) → IsHalves s → s.sum ≡ sum → start (join s) sum ≡ s
start-join s sum h e =
    λ i. record { left = split_left-join s h i; right = split_right-join s h i; sum = sym e i }

join-lt : (s : Halves) → IsHalves s → join s < 2 ^ 64
join-lt s h = omega (arith, join_lem s h)

module _ (key : KeyWords) where
  encrypt_rounds-IsHalves : (n : ℕ) (s : Halves) → IsHalves s → IsHalves (encrypt_rounds n key s)
  unfolding encrypt_rounds
  encrypt_rounds-IsHalves zero s h = h
  encrypt_rounds-IsHalves (suc n) s h =
      encrypt_rounds-IsHalves n (encrypt_round key s) (encrypt_round-IsHalves key s)

  decrypt_rounds-IsHalves : (n : ℕ) (s : Halves) → IsHalves s → IsHalves (decrypt_rounds n key s)
  unfolding decrypt_rounds
  decrypt_rounds-IsHalves zero s h = h
  decrypt_rounds-IsHalves (suc n) s h =
      decrypt_rounds-IsHalves n (decrypt_round key s) (decrypt_round-IsHalves key s)

  -- The last round comes last.
  encrypt_rounds_last :
      (n : ℕ) (s : Halves)
      → encrypt_rounds (suc n) key s ≡ encrypt_round key (encrypt_rounds n key s)
  unfolding encrypt_rounds
  encrypt_rounds_last zero s = refl
  encrypt_rounds_last (suc n) s = encrypt_rounds_last n (encrypt_round key s)

  decrypt_rounds_last :
      (n : ℕ) (s : Halves)
      → decrypt_rounds (suc n) key s ≡ decrypt_round key (decrypt_rounds n key s)
  unfolding decrypt_rounds
  decrypt_rounds_last zero s = refl
  decrypt_rounds_last (suc n) s = decrypt_rounds_last n (decrypt_round key s)

  decrypt_rounds-encrypt_rounds :
      (n : ℕ) (s : Halves) → IsHalves s → decrypt_rounds n key (encrypt_rounds n key s) ≡ s
  unfolding decrypt_rounds
  decrypt_rounds-encrypt_rounds zero s h = unfold encrypt_rounds in refl
  decrypt_rounds-encrypt_rounds (suc n) s h =
      ap (λ t. decrypt_rounds n key (decrypt_round key t)) (encrypt_rounds_last n s)
      ∙ (ap (decrypt_rounds n key) (
            decrypt_round-encrypt_round key (encrypt_rounds n key s)
              (encrypt_rounds-IsHalves n s h))
          ∙ decrypt_rounds-encrypt_rounds n s h)

  encrypt_rounds-decrypt_rounds :
      (n : ℕ) (s : Halves) → IsHalves s → encrypt_rounds n key (decrypt_rounds n key s) ≡ s
  unfolding encrypt_rounds
  encrypt_rounds-decrypt_rounds zero s h = unfold decrypt_rounds in refl
  encrypt_rounds-decrypt_rounds (suc n) s h =
      ap (λ t. encrypt_rounds n key (encrypt_round key t)) (decrypt_rounds_last n s)
      ∙ (ap (encrypt_rounds n key) (
            encrypt_round-decrypt_round key (decrypt_rounds n key s)
              (decrypt_rounds-IsHalves n s h))
          ∙ encrypt_rounds-decrypt_rounds n s h)

  encrypt_rounds_sum :
      (n : ℕ) (s : Halves)
      → s.sum < 2 ^ 32
      → (encrypt_rounds n key s).sum ≡ (s.sum + n * delta) % 2 ^ 32
  unfolding encrypt_rounds encrypt_round wrapping_add
  encrypt_rounds_sum zero s h = omega arith
  encrypt_rounds_sum (suc n) s h =
      omega (arith, encrypt_rounds_sum n (encrypt_round key s) (omega arith))

  decrypt_rounds_sum :
      (n : ℕ) (s : Halves)
      → s.sum < 2 ^ 32
      → ((decrypt_rounds n key s).sum + n * delta) % 2 ^ 32 ≡ s.sum
  unfolding decrypt_rounds decrypt_round wrapping_sub
  decrypt_rounds_sum zero s h = omega arith
  decrypt_rounds_sum (suc n) s h =
      omega (arith, decrypt_rounds_sum n (decrypt_round key s) (omega arith))

  -- Decryption inverts encryption, on every 64-bit block and under every key.
  pub decrypt-encrypt : (v : ℕ) → v < 2 ^ 64 → decrypt (encrypt v key) key ≡ v
  unfolding encrypt decrypt wrapping_mul
  decrypt-encrypt v h =
      let s = start v 0 in
      let hs : IsHalves s = start-IsHalves v 0 h (omega arith) in
      let e = encrypt_rounds rounds key s in
      let he : IsHalves e = encrypt_rounds-IsHalves rounds s hs in
      let last : e.sum ≡ wrapping_mul delta rounds =
        omega (arith, encrypt_rounds_sum rounds s hs.2) in
      ap (λ t. join (decrypt_rounds rounds key t)) (start-join e _ he last)
      ∙ (ap join (decrypt_rounds-encrypt_rounds rounds s hs) ∙ join-start v 0 h (omega arith))

  -- Encryption inverts decryption, on every 64-bit block and under every key.
  pub encrypt-decrypt : (v : ℕ) → v < 2 ^ 64 → encrypt (decrypt v key) key ≡ v
  unfolding encrypt decrypt wrapping_mul
  encrypt-decrypt v h =
      let s = start v (wrapping_mul delta rounds) in
      let hs : IsHalves s = start-IsHalves v (wrapping_mul delta rounds) h (omega arith) in
      let d = decrypt_rounds rounds key s in
      let hd : IsHalves d = decrypt_rounds-IsHalves rounds s hs in
      let last : d.sum ≡ 0 = omega (arith, decrypt_rounds_sum rounds s hs.2, hd) in
      ap (λ t. join (encrypt_rounds rounds key t)) (start-join d _ hd last)
      ∙ (ap join (encrypt_rounds-decrypt_rounds rounds s hs)
          ∙ join-start v (wrapping_mul delta rounds) h (omega arith))

  pub encrypt-lt : (v : ℕ) → v < 2 ^ 64 → encrypt v key < 2 ^ 64
  unfolding encrypt
  encrypt-lt v h =
      join-lt _ (encrypt_rounds-IsHalves rounds (start v 0) (start-IsHalves v 0 h (omega arith)))
