-- ===== src/Tea/Codec/RoundTrip.antt =====
-- What is encrypted under a key is decrypted under it, for every admissible padding.
use lirvena.Base.{
  ℕ, zero, suc, ◌+◌, ◌*◌, ◌/◌, ◌%◌, ◌-◌, ◌<◌, ◌≤◌, ◌≡◌, refl, subst, true, false, not, List, [],
  ◌∷◌, ◌++◌, ltb, leb, ◌==◌, arith, length, drop, set, get_or, replicate, All, All-append,
  length-append, take-append_left, drop-append_left, ok,
}
use lirvena.Base.Bits.{bit_and, bit_or, bit_and_mask}
use lirvena.Base.Bytes.{IsByte}
use lirvena.Tea.Codec.{
  words, padding_len, padded, unpad, encrypt_blocks, encrypt_qq_tea_with_padding, decrypt_qq_tea,
  max_plaintext_len, validate_plaintext,
}
use lirvena.Tea.Codec.Chaining.{length-encrypt_blocks, decrypt_blocks-encrypt_blocks}

padding_len_lem : (n : ℕ) → n ≤ max_plaintext_len → padding_len n ≡ 10 - (n + 1) % 8
unfolding padding_len
padding_len_lem n h = omega (arith, bit_and_mask 64 3 (n + 1) (omega arith))

-- The three low bits of the first byte are the padding's length less three.
marker :
    (first : ℕ) → first < 8 → (bit_and (bit_or first 0xf8) 7 ≡ first) × (bit_or first 0xf8 < 256)
marker zero h = (refl, omega arith)
marker (suc zero) h = (refl, omega arith)
marker (suc (suc zero)) h = (refl, omega arith)
marker (suc (suc (suc zero))) h = (refl, omega arith)
marker (suc (suc (suc (suc zero)))) h = (refl, omega arith)
marker (suc (suc (suc (suc (suc zero))))) h = (refl, omega arith)
marker (suc (suc (suc (suc (suc (suc zero)))))) h = (refl, omega arith)
marker (suc (suc (suc (suc (suc (suc (suc zero))))))) h = (refl, omega arith)
marker (suc (suc (suc (suc (suc (suc (suc (suc n)))))))) h = absurd (omega arith)

zeros : List ℕ
zeros = replicate 7 0

length-framed :
    (front plaintext : List ℕ)
    → length (front ++ (plaintext ++ zeros)) ≡ length front + length plaintext + 7
unfolding zeros
length-framed front plaintext =
    omega (arith, length-append front (plaintext ++ zeros), length-append plaintext zeros)

drop_sum {ℓ} :
    {A : Type ℓ} (front back rest : List A)
    → drop (length front + length back) (front ++ (back ++ rest)) ≡ rest
drop_sum [] back rest =
    let e : length back ≡ 0 + length back = omega arith in
    subst (λ (k : ℕ). drop k (back ++ rest) ≡ rest) e (drop-append_left back rest)
drop_sum (x ∷ front) back rest =
    let e : suc (length front + length back) ≡ suc (length front) + length back = omega arith in
    subst (λ (k : ℕ). drop k (x ∷ (front ++ (back ++ rest))) ≡ rest) e (drop_sum front back rest)

-- A frame whose first byte tells the length of its front is opened.
unpad-framed :
    (front plaintext : List ℕ)
    → bit_and (get_or (front ++ (plaintext ++ zeros)) 0 0) 7 + 3 ≡ length front
    → length front ≤ 10
    → length plaintext ≤ max_plaintext_len
    → unpad (front ++ (plaintext ++ zeros)) ≡ ok plaintext
unfolding unpad
unpad-framed front plaintext mark short h =
    let total = length-framed front plaintext in
    let last : length (front ++ (plaintext ++ zeros)) - 7 ≡ length front + length plaintext =
      omega arith in
    let span : length front + length plaintext - length front ≡ length plaintext = omega arith in
    let fits : leb (length front) 18446744073709551615 ≡ true = ground arith in
    let long : leb 7 (length (front ++ (plaintext ++ zeros))) ≡ true = ground arith in
    let inside : ltb (length front + length plaintext) (length front) ≡ false = ground arith in
    rw
      (
        mark,
        fits,
        long,
        last,
        inside,
        drop_sum front plaintext zeros,
        drop-append_left front (plaintext ++ zeros),
        span,
        take-append_left plaintext zeros,
      )
      (unfold zeros in refl)

-- The padding with its first byte replaced.
marked : ℕ → List ℕ → List ℕ
marked first padding = set padding 0 (bit_or first 0xf8)

length-marked : (first : ℕ) (padding : List ℕ) → length (marked first padding) ≡ length padding
unfolding marked
length-marked first [] = refl
length-marked first (x ∷ padding) = refl

padded_lem :
    (first : ℕ) (padding plaintext : List ℕ)
    → 0 < length padding
    → padded first padding plaintext ≡ marked first padding ++ (plaintext ++ zeros)
unfolding padded marked zeros
padded_lem first [] plaintext h = absurd (omega arith)
padded_lem first (x ∷ padding) plaintext h = refl

marked-bytes :
    (first : ℕ) (padding : List ℕ)
    → first < 8
    → All IsByte padding
    → All IsByte (marked first padding)
unfolding marked
marked-bytes first [] h a = a
marked-bytes first (x ∷ padding) h a = ((marker first h).1, a.1)

zeros-bytes : All IsByte zeros
unfolding zeros
zeros-bytes = omega arith

marked-first :
    (first : ℕ) (padding rest : List ℕ)
    → first < 8
    → 0 < length padding
    → bit_and (get_or (marked first padding ++ rest) 0 0) 7 ≡ first
unfolding marked
marked-first first [] rest h p = absurd (omega arith)
marked-first first (x ∷ padding) rest h p = (marker first h).0

module _ (plaintext key padding : List ℕ) (plain : All IsByte plaintext) (pads : All IsByte padding)
    (fits : length plaintext ≤ max_plaintext_len)
    (size : length padding ≡ padding_len (length plaintext)) where
  frame : List ℕ
  frame = marked (length padding - 3) padding ++ (plaintext ++ zeros)

  pad-bounds : (3 ≤ length padding) × (length padding ≤ 10)
  pad-bounds = omega (arith, padding_len_lem (length plaintext) fits)

  length-frame : length frame ≡ length padding + length plaintext + 7
  unfolding frame
  length-frame = omega (
    arith,
    length-framed (marked (length padding - 3) padding) plaintext,
    length-marked (length padding - 3) padding,
  )

  blocks : ℕ
  blocks = length frame / 8

  frame-blocks : length frame ≡ 8 * blocks
  unfolding blocks
  frame-blocks = omega (arith, length-frame, padding_len_lem (length plaintext) fits)

  frame-bytes : All IsByte frame
  unfolding frame
  frame-bytes =
      All-append IsByte (marked (length padding - 3) padding) (plaintext ++ zeros)
        (marked-bytes (length padding - 3) padding (omega (arith, pad-bounds)) pads)
        (All-append IsByte plaintext zeros plain zeros-bytes)

  encrypts :
      encrypt_qq_tea_with_padding plaintext key padding ≡ ok (encrypt_blocks frame (words key))
  unfolding encrypt_qq_tea_with_padding validate_plaintext frame
  encrypts = rw (← size) (
      ground (
        arith,
        pad-bounds,
        padded_lem (length padding - 3) padding plaintext (omega (arith, pad-bounds)),
      ))

  opened : unpad frame ≡ ok plaintext
  unfolding frame
  opened =
      unpad-framed (marked (length padding - 3) padding) plaintext
        (omega (
          arith,
          pad-bounds,
          length-marked (length padding - 3) padding,
          marked-first (length padding - 3) padding (plaintext ++ zeros) (omega (arith, pad-bounds))
              (omega (arith, pad-bounds)),
        ))
        (omega (arith, pad-bounds, length-marked (length padding - 3) padding)) fits

  decrypts : decrypt_qq_tea (encrypt_blocks frame (words key)) key ≡ ok plaintext
  unfolding decrypt_qq_tea
  decrypts =
      let long = length-encrypt_blocks (words key) blocks frame frame-blocks in
      let whole : not (8 * blocks % 8 == 0) ≡ false = ground arith in
      let enough : ltb (8 * blocks) 16 ≡ false =
        ground (
          arith,
          frame-blocks,
          length-frame,
          pad-bounds,
          padding_len_lem (length plaintext) fits,
        ) in
      let within : ltb 2097168 (8 * blocks) ≡ false =
        ground (arith, frame-blocks, length-frame, size, padding_len_lem (length plaintext) fits) in
      rw
        (
          long,
          whole,
          enough,
          within,
          decrypt_blocks-encrypt_blocks (words key) blocks frame frame-blocks frame-bytes,
        )
        opened

-- A plaintext of bytes within the bound is encrypted under any padding of bytes of the required
-- length, and decryption under the same key returns it.
pub encrypt-decrypt_qq_tea :
    (plaintext key padding : List ℕ)
    → All IsByte plaintext
    → All IsByte padding
    → length plaintext ≤ max_plaintext_len
    → length padding ≡ padding_len (length plaintext)
    → (ciphertext : List ℕ) × (encrypt_qq_tea_with_padding plaintext key padding ≡ ok ciphertext)
      × (decrypt_qq_tea ciphertext key ≡ ok plaintext)
encrypt-decrypt_qq_tea plaintext key padding plain pads fits size = (
  encrypt_blocks (frame plaintext key padding plain pads fits size) (words key),
  encrypts plaintext key padding plain pads fits size,
  decrypts plaintext key padding plain pads fits size,
)
