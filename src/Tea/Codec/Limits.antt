-- ===== src/Tea/Codec/Limits.antt =====
-- What the codec refuses, and how long its results are.
use lirvena.Base.{
  ℕ, zero, suc, ◌+◌, ◌*◌, ◌/◌, ◌%◌, ◌-◌, ◌<◌, ◌≤◌, ◌≡◌, ◌⊎◌, inl, inr, List, Option, none, some,
  leb, arith, length, take, drop, All, length-append, length-replicate, length-take, length-drop,
  ok, err, Option-cases, Bool-cases, get_or,
}
use lirvena.Base.Bytes.{IsByte, to_be, length-to_be, from_be}
use lirvena.Base.Bits.{bit_and, bit_xor}
use lirvena.Tea.Block.{KeyWords, decrypt}
use lirvena.Tea.Codec.{
  words, padding_len, unpad, decrypt_blocks, decrypt_loop, encrypt_qq_tea_with_padding,
  encrypt_qq_tea, decrypt_qq_tea, max_plaintext_len, entropy, length_limit, validate_plaintext,
  encrypted_bound,
}
use lirvena.Tea.Codec.RoundTrip.{encrypt-decrypt_qq_tea}

length-decrypt_loop :
    (n pd pc : ℕ) (key : KeyWords) (bytes : List ℕ)
    → 8 * n ≤ length bytes
    → length (decrypt_loop n key pd pc bytes) ≡ length bytes
unfolding decrypt_loop
length-decrypt_loop zero pd pc key bytes h = length-replicate (length bytes) 0
length-decrypt_loop (suc n) pd pc key bytes h =
    let encrypted = from_be (take 8 bytes) in
    let decrypted = decrypt (bit_xor pd encrypted) key in
    let rest = decrypt_loop n key decrypted encrypted (drop 8 bytes) in
    omega (
      arith,
      length-append (to_be 8 (bit_xor decrypted pc)) rest,
      length-to_be 8 (bit_xor decrypted pc),
      length-drop 8 bytes,
      length-decrypt_loop n decrypted encrypted key (drop 8 bytes)
          (omega (arith, length-drop 8 bytes)),
    )

length-decrypt_blocks :
    (bytes : List ℕ) (key : KeyWords) → length (decrypt_blocks bytes key) ≡ length bytes
unfolding decrypt_blocks
length-decrypt_blocks bytes key = length-decrypt_loop (length bytes / 8) 0 0 key bytes (omega arith)

length-unpad :
    (decoded plaintext : List ℕ)
    → unpad decoded ≡ ok plaintext
    → length plaintext + 10 ≤ length decoded
unfolding unpad
length-unpad decoded plaintext h =
    let front = bit_and (get_or decoded 0 0) 7 + 3 in
    let end = length decoded - 7 in
    ground (arith, length-take (end - front) (drop front decoded), length-drop front decoded)

-- A ciphertext that is accepted consists of whole blocks, at least two of them and at most the
-- bound, and its plaintext is at least ten bytes shorter.
pub decrypt_qq_tea_accepts :
    (ciphertext key : List ℕ) {plaintext : List ℕ}
    → decrypt_qq_tea ciphertext key ≡ ok plaintext
    → (length ciphertext % 8 ≡ 0)
      × (16 ≤ length ciphertext)
      × (length ciphertext ≤ encrypted_bound)
      × (length plaintext + 10 ≤ length ciphertext)
unfolding decrypt_qq_tea
decrypt_qq_tea_accepts ciphertext key {plaintext} h = ground (
  arith,
  length-unpad (decrypt_blocks ciphertext (words key)) plaintext,
  length-decrypt_blocks ciphertext (words key),
)

-- Encryption of a plaintext of bytes with fresh padding has one of three outcomes: the plaintext
-- is over the limit, the entropy source failed, or the ciphertext decrypts to the plaintext.
-- The entropy source fills the buffer that it is given with bytes.
pub encrypt_qq_tea_outcome :
    (fill : ℕ → Option (List ℕ)) (plaintext key : List ℕ)
    → ((n : ℕ) (padding : List ℕ)
        → fill n ≡ some padding
        → (length padding ≡ n) × All IsByte padding)
    → All IsByte plaintext
    → ((fill (padding_len (length plaintext)) ≡ none)
        × (encrypt_qq_tea fill plaintext key ≡ err entropy))
      ⊎ ((max_plaintext_len < length plaintext)
          × (encrypt_qq_tea fill plaintext key ≡ err length_limit))
      ⊎ ((ciphertext : List ℕ) × (encrypt_qq_tea fill plaintext key ≡ ok ciphertext)
          × (decrypt_qq_tea ciphertext key ≡ ok plaintext))
unfolding encrypt_qq_tea
encrypt_qq_tea_outcome fill plaintext key fills plain =
    elim (Option-cases (fill (padding_len (length plaintext)))) [
      | inl e ↦ inl (e, rw e)
      | inr (padding, e) ↦ inr (elim (Bool-cases (leb (length plaintext) max_plaintext_len)) [
        | inl fits ↦
            let (c, enc, dec) =
              encrypt-decrypt_qq_tea plaintext key padding plain (fills _ padding e).1
                (ground arith) (fills _ padding e).0 in
            inr (c, rw e enc, dec)
        | inr long ↦
            inl (
              ground arith,
              rw e (unfold encrypt_qq_tea_with_padding validate_plaintext in rw long),
            )
      ])
    ]
