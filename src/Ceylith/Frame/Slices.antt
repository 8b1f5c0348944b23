-- ===== src/Ceylith/Frame/Slices.antt =====
-- Slices of a header, and the limits that were validated.
use lirvena.Base.{
  ℕ, zero, suc, ◌+◌, ◌-◌, ◌≤◌, ◌≡◌, refl, subst, sym, ap, ◌∙◌, get_or, All, All-take, All-drop,
  length-take, length-drop, List, [], ◌∷◌, ◌++◌, length, take, drop, take-append_left,
  drop-append_left, arith, ok, take-append-drop,
}
use lirvena.Base.Bytes.{IsByte, to_be, from_be, to_be-from_be}
use lirvena.Ceylith.Frame.{
  WireLimits, new_limits, slice, hard_max_handshake_payload_len, hard_max_ciphertext_len,
  hard_max_outer_frame_len,
}

-- Limits within the compiled bounds.
pub record IsLimits (l : WireLimits) : Type 0 where
  pub handshake_bound : l.handshake_payload ≤ hard_max_handshake_payload_len
  pub ciphertext_bound : l.ciphertext ≤ hard_max_ciphertext_len
  pub inner_bound : l.inner_frame ≤ hard_max_outer_frame_len

-- Limits that the constructor accepts only tighten the compiled bounds, and are the ones asked for.
pub new_limits-IsLimits :
    (h c i : ℕ) (l : WireLimits)
    → new_limits h c i ≡ ok l
    → IsLimits l × (l ≡ record { handshake_payload = h; ciphertext = c; inner_frame = i })
unfolding new_limits
new_limits-IsLimits h c i l e = (
  record {
    handshake_bound = ground arith;
    ciphertext_bound = ground arith;
    inner_bound = ground arith;
  },
  ground arith,
)

pub take_at {ℓ} : {A : Type ℓ} (k : ℕ) (xs ys : List A) → length xs ≡ k → take k (xs ++ ys) ≡ xs
take_at k xs ys h = subst (λ (n : ℕ). take n (xs ++ ys) ≡ xs) h (take-append_left xs ys)

pub drop_at {ℓ} : {A : Type ℓ} (k : ℕ) (xs ys : List A) → length xs ≡ k → drop k (xs ++ ys) ≡ ys
drop_at k xs ys h = subst (λ (n : ℕ). drop n (xs ++ ys) ≡ ys) h (drop-append_left xs ys)

drop_nil {ℓ} : {A : Type ℓ} (k : ℕ) → drop {A = A} k [] ≡ []
drop_nil zero = refl
drop_nil (suc k) = refl

suc_shift : (j k : ℕ) → suc j + k ≡ suc (j + k)
suc_shift j k = omega arith

pub drop-drop {ℓ} : {A : Type ℓ} (j k : ℕ) (xs : List A) → drop (j + k) xs ≡ drop k (drop j xs)
drop-drop zero k xs = ap (λ (n : ℕ). drop n xs) (omega arith)
drop-drop (suc j) k [] = drop_nil (suc j + k) ∙ sym (drop_nil k)
drop-drop (suc j) k (x ∷ xs) = ap (λ (n : ℕ). drop n (x ∷ xs)) (suc_shift j k) ∙ drop-drop j k xs

pub drop_cons :
    (k : ℕ) (xs : List ℕ) → suc k ≤ length xs → drop k xs ≡ get_or xs k 0 ∷ drop (suc k) xs
drop_cons zero [] h = absurd (omega arith)
drop_cons zero (x ∷ xs) h = refl
drop_cons (suc k) [] h = absurd (omega arith)
drop_cons (suc k) (x ∷ xs) h = drop_cons k xs (omega arith)

-- The next `k` bytes and what follows them.
pub drop-slice : (j k : ℕ) (xs : List ℕ) → drop j xs ≡ slice j (j + k) xs ++ drop (j + k) xs
drop-slice j k xs =
    let width : (j + k) - j ≡ k = omega arith in
    rw (width, drop-drop j k xs, take-append-drop k (drop j xs))

pub length-slice : (j k : ℕ) (xs : List ℕ) → j + k ≤ length xs → length (slice j (j + k) xs) ≡ k
length-slice j k xs h = omega (arith, length-take ((j + k) - j) (drop j xs), length-drop j xs)

pub slice-bytes : (j k : ℕ) (xs : List ℕ) → All IsByte xs → All IsByte (slice j (j + k) xs)
slice-bytes j k xs a = All-take IsByte ((j + k) - j) (drop j xs) (All-drop IsByte j xs a)

-- Bytes that are read as a number are the bytes of that number.
pub slice-to_be :
    (j k : ℕ) (xs : List ℕ)
    → j + k ≤ length xs
    → All IsByte xs
    → slice j (j + k) xs ≡ to_be k (from_be (slice j (j + k) xs))
slice-to_be j k xs h a =
    let same = to_be-from_be (slice j (j + k) xs) (slice-bytes j k xs a) in
    sym (
      subst (λ (n : ℕ). to_be n (from_be (slice j (j + k) xs)) ≡ slice j (j + k) xs)
        (length-slice j k xs h) same)

-- A field that stands at position `j`.
pub slice_at :
    (j k : ℕ) (xs field rest : List ℕ)
    → drop j xs ≡ field ++ rest
    → length field ≡ k
    → (slice j (j + k) xs ≡ field) × (drop (j + k) xs ≡ rest)
slice_at j k xs field rest h w =
    let width : (j + k) - j ≡ k = omega arith in
    (rw (width, h) (take_at k field rest w), rw (drop-drop j k xs, h) (drop_at k field rest w))
