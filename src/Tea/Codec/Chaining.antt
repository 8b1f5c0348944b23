-- ===== src/Tea/Codec/Chaining.antt =====
-- The chaining mode: decrypting the blocks gives the padded message back.
use lirvena.Base.{
  ℕ, zero, suc, ◌*◌, ◌/◌, ◌^◌, ◌<◌, ◌≡◌, refl, ap, subst, ◌∙◌, List, [], ◌∷◌, ◌++◌, arith, length,
  take, drop, All, All-take, All-drop, length-take, length-drop, length-append, take-append_left,
  drop-append_left, take-append-drop,
}
use lirvena.Base.Bits.{bit_xor, bit_xor-lt, bit_xor_cancel, bit_xor_cancel_left}
use lirvena.Base.Bytes.{
  IsByte, to_be, from_be, from_be-to_be, to_be-from_be, from_be-lt, length-to_be,
}
use lirvena.Tea.Block.{KeyWords, encrypt}
use lirvena.Tea.Block.Permutation.{decrypt-encrypt, encrypt-lt}
use lirvena.Tea.Codec.{encrypt_loop, decrypt_loop, encrypt_blocks, decrypt_blocks}

length_of_block : (n : ℕ) (bytes : List ℕ) → length bytes ≡ 8 * suc n → length (take 8 bytes) ≡ 8
length_of_block n bytes h = omega (arith, length-take 8 bytes)

first_block-lt :
    (n : ℕ) (bytes : List ℕ)
    → length bytes ≡ 8 * suc n
    → All IsByte bytes
    → from_be (take 8 bytes) < 2 ^ 64
first_block-lt n bytes h a =
    subst (λ (k : ℕ). from_be (take 8 bytes) < 256 ^ k) (length_of_block n bytes h)
      (from_be-lt (take 8 bytes) (All-take IsByte 8 bytes a))

rewrite_block :
    (n : ℕ) (bytes : List ℕ)
    → length bytes ≡ 8 * suc n
    → All IsByte bytes
    → to_be 8 (from_be (take 8 bytes)) ≡ take 8 bytes
rewrite_block n bytes h a =
    subst (λ (k : ℕ). to_be k (from_be (take 8 bytes)) ≡ take 8 bytes) (length_of_block n bytes h)
      (to_be-from_be (take 8 bytes) (All-take IsByte 8 bytes a))

take_word : (v : ℕ) (rest : List ℕ) → take 8 (to_be 8 v ++ rest) ≡ to_be 8 v
take_word v rest =
    subst (λ (k : ℕ). take k (to_be 8 v ++ rest) ≡ to_be 8 v) (length-to_be 8 v)
      (take-append_left (to_be 8 v) rest)

drop_word : (v : ℕ) (rest : List ℕ) → drop 8 (to_be 8 v ++ rest) ≡ rest
drop_word v rest =
    subst (λ (k : ℕ). drop k (to_be 8 v ++ rest) ≡ rest) (length-to_be 8 v)
      (drop-append_left (to_be 8 v) rest)

module _ (key : KeyWords) where
  length-encrypt_loop :
      (n pe pm : ℕ) (bytes : List ℕ)
      → length bytes ≡ 8 * n
      → length (encrypt_loop n key pe pm bytes) ≡ 8 * n
  unfolding encrypt_loop
  length-encrypt_loop zero pe pm bytes h = h
  length-encrypt_loop (suc n) pe pm bytes h =
      let mixed = bit_xor (from_be (take 8 bytes)) pe in
      let encrypted = bit_xor (encrypt mixed key) pm in
      let rest = encrypt_loop n key encrypted mixed (drop 8 bytes) in
      omega (
        arith,
        length-append (to_be 8 encrypted) rest,
        length-to_be 8 encrypted,
        length-drop 8 bytes,
        length-encrypt_loop n encrypted mixed (drop 8 bytes) (omega (arith, length-drop 8 bytes)),
      )

  -- Decryption carries the mixed block and the ciphertext block where encryption carried them.
  decrypt_loop-encrypt_loop :
      (n pe pm : ℕ) (bytes : List ℕ)
      → pe < 2 ^ 64
      → pm < 2 ^ 64
      → length bytes ≡ 8 * n
      → All IsByte bytes
      → decrypt_loop n key pm pe (encrypt_loop n key pe pm bytes) ≡ bytes
  unfolding encrypt_loop decrypt_loop
  decrypt_loop-encrypt_loop zero pe pm [] p q h a = refl
  decrypt_loop-encrypt_loop zero pe pm (x ∷ bytes) p q h a = absurd (omega arith)
  decrypt_loop-encrypt_loop (suc n) pe pm bytes p q h a =
      let plain = from_be (take 8 bytes) in
      let mixed = bit_xor plain pe in
      let encrypted = bit_xor (encrypt mixed key) pm in
      let rest = encrypt_loop n key encrypted mixed (drop 8 bytes) in
      let plain-lt : plain < 2 ^ 64 = first_block-lt n bytes h a in
      let mixed-lt : mixed < 2 ^ 64 = bit_xor-lt 64 plain pe plain-lt p in
      let cipher-lt : encrypt mixed key < 2 ^ 64 = encrypt-lt key mixed mixed-lt in
      let encrypted-lt : encrypted < 2 ^ 64 = bit_xor-lt 64 (encrypt mixed key) pm cipher-lt q in
      let read : from_be (take 8 (to_be 8 encrypted ++ rest)) ≡ encrypted =
        ap from_be (take_word encrypted rest) ∙ from_be-to_be 8 encrypted encrypted-lt in
      rw
        (
          read,
          drop_word encrypted rest,
          bit_xor_cancel_left 64 pm (encrypt mixed key) q cipher-lt,
          decrypt-encrypt key mixed mixed-lt,
          bit_xor_cancel 64 plain pe plain-lt p,
          decrypt_loop-encrypt_loop n encrypted mixed (drop 8 bytes) encrypted-lt mixed-lt
              (omega (arith, length-drop 8 bytes)) (All-drop IsByte 8 bytes a),
          rewrite_block n bytes h a,
        )
        (take-append-drop 8 bytes)

  pub length-encrypt_blocks :
      (k : ℕ) (bytes : List ℕ) → length bytes ≡ 8 * k → length (encrypt_blocks bytes key) ≡ 8 * k
  unfolding encrypt_blocks
  length-encrypt_blocks k bytes h =
      let count : length bytes / 8 ≡ k = omega arith in rw count (length-encrypt_loop k 0 0 bytes h)

  -- Decrypting the encrypted blocks gives back any sequence of whole blocks of bytes.
  pub decrypt_blocks-encrypt_blocks :
      (k : ℕ) (bytes : List ℕ)
      → length bytes ≡ 8 * k
      → All IsByte bytes
      → decrypt_blocks (encrypt_blocks bytes key) key ≡ bytes
  unfolding decrypt_blocks
  decrypt_blocks-encrypt_blocks k bytes h a =
      let count : length (encrypt_blocks bytes key) / 8 ≡ k =
        omega (arith, length-encrypt_blocks k bytes h) in
      let count' : length bytes / 8 ≡ k = omega arith in
      rw count (
        unfold encrypt_blocks in
        rw count' (decrypt_loop-encrypt_loop k 0 0 bytes (omega arith) (omega arith) h a))
