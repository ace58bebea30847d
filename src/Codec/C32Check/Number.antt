-- ===== src/Codec/C32Check/Number.antt =====
-- Big-endian bytes with no leading zero, by the number they make.
use native.Mathlib.Nat.{pow-zero, pow-suc, pow-le-pow_right, zero-add}
use mathlib.Core.Logic.{inl, inr}
use stacks_dex_pool.Prelude.{
  ℕ, ◌+◌, ◌*◌, ◌^◌, ◌≤◌, ◌<◌, ◌≡◌, refl, ap, sym, List, [], ◌∷◌, le-cases, length, All, arith,
}
use stacks_dex_pool.Prelude.Bytes.{IsByte, from_be_bytes, from_be_bytes-lt}

-- The number that the bytes make, and the weight of what stands before them.
abbrev pub number : List ℕ → ℕ
number = from_be_bytes 0

abbrev pub weight : List ℕ → ℕ
weight bs = 256 ^ length bs

pub from_be_bytes-eq : (n : ℕ) (bs : List ℕ) → from_be_bytes n bs ≡ n * weight bs + number bs
unfolding from_be_bytes
from_be_bytes-eq n [] = omega (arith, ap (λ (t : ℕ). n * t) (pow-zero 256))
from_be_bytes-eq n (b ∷ bs) =
    let p = weight bs in
    omega (
      arith,
      from_be_bytes-eq (n * 256 + b) bs,
      from_be_bytes-eq (0 * 256 + b) bs,
      ap (λ (t : ℕ). n * t) (pow-suc 256 (length bs)),
      spread n b p,
      spread 0 b p,
    )
  where
    spread : (n b p : ℕ) → (n * 256 + b) * p ≡ n * (p * 256) + b * p
    spread n b p = grind arith

pub number-cons : (b : ℕ) (bs : List ℕ) → number (b ∷ bs) ≡ b * weight bs + number bs
unfolding from_be_bytes
number-cons b bs = rw (zero-add b) (from_be_bytes-eq b bs)

-- Bytes with no leading zero.
abbrev pub IsCanonical : List ℕ → Type 0
IsCanonical [] = Unit
IsCanonical (b ∷ bs) = (0 < b) × All IsByte (b ∷ bs)

eq_of_from_be_bytes :
    (n m : ℕ) (xs ys : List ℕ)
    → All IsByte xs
    → All IsByte ys
    → length xs ≡ length ys
    → from_be_bytes n xs ≡ from_be_bytes m ys
    → (n ≡ m) × (xs ≡ ys)
unfolding from_be_bytes
eq_of_from_be_bytes n m [] [] h k l e = (e, refl)
eq_of_from_be_bytes n m [] (y ∷ ys) h k l e = absurd (omega arith)
eq_of_from_be_bytes n m (x ∷ xs) [] h k l e = absurd (omega arith)
eq_of_from_be_bytes n m (x ∷ xs) (y ∷ ys) (hx, hxs) (ky, kys) l e =
    let (heads, tails) =
      eq_of_from_be_bytes (n * 256 + x) (m * 256 + y) xs ys hxs kys (omega arith) e in
    let same : x ≡ y = omega arith in (omega arith, cc)

pub number-lt : (bs : List ℕ) → All IsByte bs → number bs < weight bs
number-lt bs h = omega (arith, from_be_bytes-lt 0 bs h)

pub canonical_longer :
    (xs ys : List ℕ)
    → IsCanonical xs
    → All IsByte ys
    → length ys < length xs
    → number ys < number xs
canonical_longer [] ys h k l = absurd (omega arith)
canonical_longer (x ∷ xs) ys (x_pos, hs) k l =
    let wide : weight ys ≤ weight xs = pow-le-pow_right (omega arith) (omega arith) in
    let first : weight xs ≤ x * weight xs = grind arith in
    omega (arith, number-lt ys k, number-cons x xs)

not_longer :
    (xs ys : List ℕ)
    → IsCanonical xs
    → All IsByte ys
    → number xs ≡ number ys
    → length xs ≤ length ys
not_longer xs ys h k e = elim (le-cases (length xs) (length ys)) [
  | inl le ↦ le
  | inr lt ↦ absurd (omega (arith, canonical_longer xs ys h k lt))
]

pub IsCanonical-bytes : (xs : List ℕ) → IsCanonical xs → All IsByte xs
IsCanonical-bytes [] h = tt
IsCanonical-bytes (x ∷ xs) h = h.1

pub canonical_unique :
    (xs ys : List ℕ) → IsCanonical xs → IsCanonical ys → number xs ≡ number ys → xs ≡ ys
canonical_unique xs ys h k e =
    let hb = IsCanonical-bytes xs h in
    let kb = IsCanonical-bytes ys k in
    let same_length : length xs ≡ length ys =
      omega (arith, not_longer xs ys h kb e, not_longer ys xs k hb (sym e)) in
    (eq_of_from_be_bytes 0 0 xs ys hb kb same_length e).1
