-- ===== src/Tea/Codec.antt =====
-- crates/qq-envelope/src/tea/codec.rs and key.rs: the padded message, chained block by block.
-- Entropy is a parameter: `fill n` is what `getrandom` puts into a buffer of `n` bytes, if it
-- does not fail.
pub mod Chaining
pub mod RoundTrip
pub mod Limits
mod Tests
use lirvena.Base.{
  ℕ, zero, suc, ◌+◌, ◌-◌, ◌*◌, ◌/◌, ◌%◌, List, [], ◌∷◌, ◌++◌, Bool, not, ◌||◌, Option, none, some,
  ltb, leb, ◌==◌, if◌then◌else◌, length, take, drop, set, get_or, replicate, any, Result, ok, err,
  and_then, ok_or, ensure,
}
use lirvena.Base.Bits.{bit_and, bit_or, bit_xor}
use lirvena.Base.Bytes.{to_be, from_be}
use lirvena.Base.Words.{u8_max, try_from, checked_add, checked_sub}
use lirvena.Tea.Block.{KeyWords, encrypt, decrypt}

pub data QqTeaError : Type 0 where
  length_limit length_overflow entropy padding_length invalid_ciphertext : QqTeaError

abbrev pub block_len : ℕ
block_len = 8

abbrev pub trailing_zero_len : ℕ
trailing_zero_len = 7

abbrev pub max_plaintext_len : ℕ
max_plaintext_len = 2097152

-- The 16 bytes of a `QqTeaKey` as four words.
unfoldable pub words : List ℕ → KeyWords
words bytes = record {
  k0 = from_be (take 4 bytes);
  k1 = from_be (take 4 (drop 4 bytes));
  k2 = from_be (take 4 (drop 8 bytes));
  k3 = from_be (take 4 (drop 12 bytes));
}

-- The loop over `chunks_exact_mut`: `n` blocks left, and the bytes from the current block on.
-- What no chunk covers stays as it was.
unfoldable pub encrypt_loop : ℕ → KeyWords → ℕ → ℕ → List ℕ → List ℕ
encrypt_loop zero key prior_encrypted prior_mixed rest = rest
encrypt_loop (suc n) key prior_encrypted prior_mixed rest =
    let plain = from_be (take block_len rest) in
    let mixed = bit_xor plain prior_encrypted in
    let encrypted = bit_xor (encrypt mixed key) prior_mixed in
    to_be 8 encrypted ++ encrypt_loop n key encrypted mixed (drop block_len rest)

unfoldable pub encrypt_blocks : List ℕ → KeyWords → List ℕ
encrypt_blocks output key = encrypt_loop (length output / block_len) key 0 0 output

-- The output starts as zeros, as long as the ciphertext.
pub decrypt_loop : ℕ → KeyWords → ℕ → ℕ → List ℕ → List ℕ
decrypt_loop zero key prior_decrypted prior_ciphertext rest = replicate (length rest) 0
decrypt_loop (suc n) key prior_decrypted prior_ciphertext rest =
    let encrypted = from_be (take block_len rest) in
    let decrypted = decrypt (bit_xor prior_decrypted encrypted) key in
    to_be 8 (bit_xor decrypted prior_ciphertext)
    ++ decrypt_loop n key decrypted encrypted (drop block_len rest)

pub decrypt_blocks : List ℕ → KeyWords → List ℕ
decrypt_blocks ciphertext key = decrypt_loop (length ciphertext / block_len) key 0 0 ciphertext

unfoldable pub padding_len : ℕ → ℕ
padding_len plaintext_len = 10 - bit_and (plaintext_len + 1) 7

abbrev pub encrypted_bound : ℕ
encrypted_bound = max_plaintext_len + 16

unfoldable pub validate_plaintext : List ℕ → Result (Unit {0}) QqTeaError
validate_plaintext plaintext = ensure (leb (length plaintext) max_plaintext_len) length_limit

-- The message before encryption: padding, whose first byte tells its length, plaintext, zeros.
unfoldable pub padded : ℕ → List ℕ → List ℕ → List ℕ
padded first padding plaintext =
    set (padding ++ (plaintext ++ replicate trailing_zero_len 0)) 0 (bit_or first 0xf8)

unfoldable pub encrypt_qq_tea_with_padding : List ℕ → List ℕ → List ℕ → Result (List ℕ) QqTeaError
encrypt_qq_tea_with_padding plaintext key padding = and_then (validate_plaintext plaintext) λ _.
    let pad = padding_len (length plaintext) in
    and_then (ensure (length padding == pad) padding_length) λ _.
      and_then (ok_or (checked_add pad (length plaintext)) length_overflow) λ front.
        and_then (ok_or (checked_add front trailing_zero_len) length_overflow) λ _.
          and_then (ok_or (try_from u8_max (pad - 3)) length_overflow)
            λ first. ok (encrypt_blocks (padded first padding plaintext) (words key))

unfoldable pub encrypt_qq_tea : (ℕ → Option (List ℕ)) → List ℕ → List ℕ → Result (List ℕ) QqTeaError
encrypt_qq_tea fill plaintext key =
    and_then (ok_or (fill (padding_len (length plaintext))) entropy)
      λ padding. encrypt_qq_tea_with_padding plaintext key padding

-- The bytes of `decoded` from `from` up to `until`.
abbrev pub slice : ℕ → ℕ → List ℕ → List ℕ
slice from until bytes = take (until - from) (drop from bytes)

-- The framing checks on the decrypted bytes.
pub unpad : List ℕ → Result (List ℕ) QqTeaError
unpad decoded =
    and_then (ok_or (checked_add (bit_and (get_or decoded 0 0) 7) 3) length_overflow) λ prefix_len.
      and_then (ok_or (checked_sub (length decoded) trailing_zero_len) invalid_ciphertext)
        λ payload_end.
          if ltb payload_end prefix_len || any (λ byte. not (byte == 0)) (drop payload_end decoded)
          then err invalid_ciphertext
          else ok (slice prefix_len payload_end decoded)

pub decrypt_qq_tea : List ℕ → List ℕ → Result (List ℕ) QqTeaError
decrypt_qq_tea ciphertext key =
    if ltb (length ciphertext) (block_len * 2)
      || not (length ciphertext % block_len == 0)
      || ltb encrypted_bound (length ciphertext)
    then err invalid_ciphertext
    else unpad (decrypt_blocks ciphertext (words key))
