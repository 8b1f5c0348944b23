-- ===== src/Base/Bytes.antt =====
-- Big-endian integers: `to_be_bytes` and `from_be_bytes`. A byte string is a list of numbers.
use mathlib.Core.List.{append_assoc, append-nil}
use native.Mathlib.Nat.{pow-suc, add-zero, zero-add}
use lirvena.Base.{
  ℕ, zero, suc, ◌+◌, ◌*◌, ◌/◌, ◌%◌, ◌^◌, ◌<◌, ◌≡◌, refl, ◌∙◌, subst, Bool, true, false, ◌&&◌, List,
  [], ◌∷◌, ◌++◌, arith, ◌==◌, ltb, all, length, length-append, All, All-append,
}

abbrev pub IsByte : ℕ → Type 0
IsByte b = b < 256

-- The last `k` bytes of a number, the highest first.
unfoldable pub to_be : ℕ → ℕ → List ℕ
to_be zero v = []
to_be (suc k) v = to_be k (v / 256) ++ (v % 256 ∷ [])

unfoldable pub from_be_acc : ℕ → List ℕ → ℕ
from_be_acc acc [] = acc
from_be_acc acc (b ∷ bs) = from_be_acc (acc * 256 + b) bs

unfoldable pub from_be : List ℕ → ℕ
unfolding from_be_acc
from_be bs = from_be_acc 0 bs

-- Equality of byte strings.
unfoldable pub same_bytes : List ℕ → List ℕ → Bool
same_bytes [] [] = true
same_bytes [] (y ∷ ys) = false
same_bytes (x ∷ xs) [] = false
same_bytes (x ∷ xs) (y ∷ ys) = x == y && same_bytes xs ys

pub same_bytes_refl : (xs : List ℕ) → same_bytes xs xs ≡ true
unfolding same_bytes
same_bytes_refl [] = refl
same_bytes_refl (x ∷ xs) = ground (arith, same_bytes_refl xs)

pub same_bytes_sound : (xs ys : List ℕ) → same_bytes xs ys ≡ true → xs ≡ ys
unfolding same_bytes
same_bytes_sound [] [] h = refl
same_bytes_sound [] (y ∷ ys) h = ground arith
same_bytes_sound (x ∷ xs) [] h = ground arith
same_bytes_sound (x ∷ xs) (y ∷ ys) h = ground (arith, same_bytes_sound xs ys)

pub length-to_be : (k v : ℕ) → length (to_be k v) ≡ k
unfolding to_be
length-to_be zero v = refl
length-to_be (suc k) v =
    omega (arith, length-append (to_be k (v / 256)) (v % 256 ∷ []), length-to_be k (v / 256))

pub to_be-bytes : (k v : ℕ) → All IsByte (to_be k v)
unfolding to_be
to_be-bytes zero v = tt
to_be-bytes (suc k) v =
    All-append IsByte (to_be k (v / 256)) (v % 256 ∷ []) (to_be-bytes k (v / 256)) (omega arith, tt)

from_be_acc-snoc :
    (acc : ℕ) (bs : List ℕ) (b : ℕ)
    → from_be_acc acc (bs ++ (b ∷ [])) ≡ from_be_acc acc bs * 256 + b
unfolding from_be_acc
from_be_acc-snoc acc [] b = refl
from_be_acc-snoc acc (c ∷ bs) b = from_be_acc-snoc (acc * 256 + c) bs b

-- A number that fits `k` bytes is read back.
pub from_be-to_be : (k v : ℕ) → v < 256 ^ k → from_be (to_be k v) ≡ v
unfolding from_be to_be
from_be-to_be zero v h = omega arith
from_be-to_be (suc k) v h = omega (
  arith,
  from_be_acc-snoc 0 (to_be k (v / 256)) (v % 256),
  from_be-to_be k (v / 256) (omega (arith, pow-suc 256 k)),
)

add-suc-left : (k n : ℕ) → suc k + n ≡ k + suc n
add-suc-left k n = omega arith

to_be-push :
    (j acc b : ℕ) (bs : List ℕ)
    → IsByte b
    → to_be (suc j) (acc * 256 + b) ++ bs ≡ to_be j acc ++ (b ∷ bs)
unfolding to_be
to_be-push j acc b bs h =
    let high : (acc * 256 + b) / 256 ≡ acc = omega arith in
    let low : (acc * 256 + b) % 256 ≡ b = omega arith in
    rw (high, low) (append_assoc (to_be j acc) (b ∷ []) bs)

from_be_acc-lt :
    (acc k : ℕ) (bs : List ℕ)
    → acc < 256 ^ k
    → All IsByte bs
    → from_be_acc acc bs < 256 ^ (k + length bs)
unfolding from_be_acc
from_be_acc-lt acc k [] h a = rw add-zero h
from_be_acc-lt acc k (b ∷ bs) h a =
    subst (λ (m : ℕ). from_be_acc (acc * 256 + b) bs < 256 ^ m) (add-suc-left k (length bs))
      (from_be_acc-lt (acc * 256 + b) (suc k) bs (omega (arith, pow-suc 256 k, a.0)) a.1)

pub from_be-lt : (bs : List ℕ) → All IsByte bs → from_be bs < 256 ^ length bs
unfolding from_be
from_be-lt bs a = rw (← zero-add (length bs)) (from_be_acc-lt 0 0 bs (omega arith) a)

to_be-from_be_acc :
    (j acc : ℕ) (bs : List ℕ)
    → All IsByte bs
    → to_be (j + length bs) (from_be_acc acc bs) ≡ to_be j acc ++ bs
unfolding from_be_acc
to_be-from_be_acc j acc [] a = rw (add-zero, append-nil)
to_be-from_be_acc j acc (b ∷ bs) a =
    subst (λ (m : ℕ). to_be m (from_be_acc (acc * 256 + b) bs) ≡ to_be j acc ++ (b ∷ bs))
      (add-suc-left j (length bs)) (to_be-from_be_acc (suc j) (acc * 256 + b) bs a.1 ∙ shifted)
  where
    shifted : to_be (suc j) (acc * 256 + b) ++ bs ≡ to_be j acc ++ (b ∷ bs)
    shifted = to_be-push j acc b bs a.0

-- Bytes that are read as a number are written back.
pub to_be-from_be : (bs : List ℕ) → All IsByte bs → to_be (length bs) (from_be bs) ≡ bs
unfolding from_be to_be
to_be-from_be bs a =
    subst (λ (m : ℕ). to_be m (from_be_acc 0 bs) ≡ bs) (zero-add (length bs))
      (to_be-from_be_acc 0 0 bs a)

-- Bytes by their test.
pub all-IsByte : (xs : List ℕ) → all (λ b. ltb b 256) xs ≡ true → All IsByte xs
all-IsByte [] h = tt
all-IsByte (x ∷ xs) h = (ground arith, all-IsByte xs (ground arith))
