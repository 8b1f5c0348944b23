-- ===== src/Tea/Block.antt =====
-- crates/qq-envelope/src/tea/block.rs: one 64-bit block under a key of four words.
pub mod Permutation
use lirvena.Base.{ℕ, zero, suc, ◌*◌, ◌^◌, ◌<◌, ◌≡◌, List, take, drop}
use lirvena.Base.Bits.{bit_or, bit_xor}
use lirvena.Base.Bytes.{to_be, from_be}
use lirvena.Base.Words.{wrapping_add, wrapping_sub, wrapping_mul, wrapping_shl, wrapping_shr}

abbrev pub delta : ℕ
delta = 0x9e3779b9

abbrev pub rounds : ℕ
rounds = 16

-- `[u32; 4]`
pub record KeyWords : Type 0 where
  pub k0 : ℕ
  pub k1 : ℕ
  pub k2 : ℕ
  pub k3 : ℕ

-- The variables of the two loops.
pub record Halves : Type 0 where
  pub left : ℕ
  pub right : ℕ
  pub sum : ℕ

unfoldable pub split : ℕ → ℕ × ℕ
split value = let bytes = to_be 8 value in (from_be (take 4 bytes), from_be (drop 4 bytes))

-- What a round adds to one half, or takes from it: `x` is the other half.
unfoldable pub mix : ℕ → ℕ → ℕ → ℕ → ℕ
mix x sum ka kb =
    bit_xor (bit_xor (wrapping_add x sum) (wrapping_add (wrapping_shl x 4) ka))
      (wrapping_add (wrapping_shr x 5) kb)

unfoldable pub encrypt_round : KeyWords → Halves → Halves
encrypt_round key s =
    let sum = wrapping_add s.sum delta in
    let left = wrapping_add s.left (mix s.right sum key.k0 key.k1) in
    let right = wrapping_add s.right (mix left sum key.k2 key.k3) in
    record { left = left; right = right; sum = sum }

unfoldable pub encrypt_rounds : ℕ → KeyWords → Halves → Halves
encrypt_rounds zero key s = s
encrypt_rounds (suc n) key s = encrypt_rounds n key (encrypt_round key s)

unfoldable pub decrypt_round : KeyWords → Halves → Halves
decrypt_round key s =
    let right = wrapping_sub s.right (mix s.left s.sum key.k2 key.k3) in
    let left = wrapping_sub s.left (mix right s.sum key.k0 key.k1) in
    record { left = left; right = right; sum = wrapping_sub s.sum delta }

unfoldable pub decrypt_rounds : ℕ → KeyWords → Halves → Halves
decrypt_rounds zero key s = s
decrypt_rounds (suc n) key s = decrypt_rounds n key (decrypt_round key s)

-- `(u64::from(left) << 32) | u64::from(right)`
unfoldable pub join : Halves → ℕ
join s = bit_or (s.left * 2 ^ 32) s.right

unfoldable pub encrypt : ℕ → KeyWords → ℕ
encrypt value key =
    let (left, right) = split value in
    join (encrypt_rounds rounds key (record { left = left; right = right; sum = 0 }))

unfoldable pub decrypt : ℕ → KeyWords → ℕ
decrypt value key =
    let (left, right) = split value in
    join (
      decrypt_rounds rounds key
        (record { left = left; right = right; sum = wrapping_mul delta rounds }))
