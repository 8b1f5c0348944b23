-- ===== src/Tea/Codec/Tests.antt =====
-- The codec at concrete inputs.
use lirvena.Base.{
  ℕ, ◌<◌, ◌≡◌, ◌⊎◌, refl, subst, List, [], ◌∷◌, Option, none, some, some-injective, arith, length,
  replicate, length-replicate, All, ok, err,
}
use lirvena.Base.Bytes.{IsByte, to_be, from_be}
use lirvena.Base.Words.{wrapping_add, wrapping_sub, wrapping_mul, wrapping_shl, wrapping_shr}
use lirvena.Tea.Block.{KeyWords, decrypt, decrypt_rounds, decrypt_round, mix, split, join}
use lirvena.Tea.Codec.{
  padding_len, encrypt_qq_tea_with_padding, encrypt_qq_tea, decrypt_qq_tea, entropy, length_limit,
  max_plaintext_len, decrypt_blocks, decrypt_loop, unpad, words,
}
use lirvena.Tea.Codec.RoundTrip.{encrypt-decrypt_qq_tea}
use lirvena.Tea.Codec.Limits.{encrypt_qq_tea_outcome}

abbrev hello : List ℕ
hello = 104 ∷ 101 ∷ 108 ∷ 108 ∷ 111 ∷ []

abbrev sample_key : List ℕ
sample_key = 1 ∷ 2 ∷ 3 ∷ 4 ∷ 5 ∷ 6 ∷ 7 ∷ 8 ∷ 9 ∷ 10 ∷ 11 ∷ 12 ∷ 13 ∷ 14 ∷ 15 ∷ 16 ∷ []

abbrev sample_padding : List ℕ
sample_padding = 9 ∷ 8 ∷ 7 ∷ 6 ∷ []

encrypt-decrypt_qq_tea_example :
    (ciphertext : List ℕ) × (encrypt_qq_tea_with_padding hello sample_key sample_padding
      ≡ ok ciphertext)
    × (decrypt_qq_tea ciphertext sample_key ≡ ok hello)
unfolding padding_len
encrypt-decrypt_qq_tea_example =
    encrypt-decrypt_qq_tea hello sample_key sample_padding (omega arith) (omega arith) (omega arith)
      refl

abbrev zero_fill : ℕ → Option (List ℕ)
zero_fill n = some (replicate n 0)

zeros-IsByte : (n : ℕ) → All IsByte (replicate n 0)
zeros-IsByte ℕ.zero = tt
zeros-IsByte (ℕ.suc n) = (omega arith, zeros-IsByte n)

zero_fill-fills :
    (n : ℕ) (padding : List ℕ)
    → zero_fill n ≡ some padding
    → (length padding ≡ n) × All IsByte padding
zero_fill-fills n padding e =
    subst (λ p. (length p ≡ n) × All IsByte p) (some-injective _ _ e)
      (length-replicate n 0, zeros-IsByte n)

encrypt_qq_tea_outcome_example :
    ((zero_fill (padding_len (length hello)) ≡ none)
      × (encrypt_qq_tea zero_fill hello sample_key ≡ err entropy))
    ⊎ ((max_plaintext_len < length hello)
        × (encrypt_qq_tea zero_fill hello sample_key ≡ err length_limit))
    ⊎ ((ciphertext : List ℕ) × (encrypt_qq_tea zero_fill hello sample_key ≡ ok ciphertext)
        × (decrypt_qq_tea ciphertext sample_key ≡ ok hello))
encrypt_qq_tea_outcome_example =
    encrypt_qq_tea_outcome zero_fill hello sample_key zero_fill-fills (omega arith)

abbrev sample_ciphertext : List ℕ
sample_ciphertext =
    156 ∷ 5 ∷ 182 ∷ 34 ∷ 131 ∷ 35 ∷ 22 ∷ 107 ∷ 48 ∷ 170 ∷ 183 ∷ 101 ∷ 163 ∷ 246 ∷ 200 ∷ 43 ∷ []

sample_decrypts : decrypt_qq_tea sample_ciphertext sample_key ≡ ok hello
unfolding decrypt_qq_tea unpad words decrypt_blocks decrypt_loop decrypt decrypt_rounds
    decrypt_round mix split join wrapping_add wrapping_sub wrapping_mul wrapping_shl wrapping_shr
    to_be from_be
sample_decrypts = refl

-- Two blocks.
abbrev sixteen_bytes : List ℕ
sixteen_bytes = replicate 16 7

sixteen-bytes : All IsByte sixteen_bytes
sixteen-bytes = ground arith

abbrev sample_words : KeyWords
sample_words = record { k0 = 1; k1 = 2; k2 = 3; k3 = 4 }
