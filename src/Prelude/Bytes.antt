-- ===== src/Prelude/Bytes.antt =====
-- Rust's byte arrays: `to_be_bytes` and `from_be_bytes`, slices cut off the front of a buffer, and
-- the check of `std::str::from_utf8`.
use Prim.Native.Nat.{ℕ, zero, suc, ◌+◌, ◌-◌, ◌*◌, ◌/◌, ◌%◌, ◌^◌, ◌≤◌, ◌<◌}
use mathlib.Core.Path.{◌≡◌, refl, ap}
use mathlib.Core.Bool.{Bool, true, false, ◌&&◌}
use mathlib.Core.Option.{Option, none, some}
use mathlib.Core.List.{List, [], ◌∷◌, ◌++◌}
use native.Mathlib.Omega.{arith}
use native.Mathlib.Nat.{pow-zero, pow-suc}
use mathlib.Core.Logic.{inl, inr}
use stacks_dex_pool.Prelude.Tests.{ltb, leb, ◌==◌, if◌then◌else◌, Option-cases}
use stacks_dex_pool.Prelude.Lists.{length, length-append, All}
use stacks_dex_pool.Prelude.Int.{ℤ, pos, negsuc}

abbrev pub IsByte : ℕ → Type 0
IsByte b = b < 256

-- `to_be_bytes` of a word of `width` bytes.
unfoldable pub to_be_bytes : ℕ → ℕ → List ℕ
to_be_bytes zero n = []
to_be_bytes (suc width) n = to_be_bytes width (n / 256) ++ (n % 256) ∷ []

-- `from_be_bytes`, from the value of the bytes before.
unfoldable pub from_be_bytes : ℕ → List ℕ → ℕ
from_be_bytes n [] = n
from_be_bytes n (b ∷ bs) = from_be_bytes (n * 256 + b) bs

from_be_bytes-append :
    (n : ℕ) (bs : List ℕ) (b : ℕ) → from_be_bytes n (bs ++ b ∷ []) ≡ from_be_bytes n bs * 256 + b
unfolding from_be_bytes
from_be_bytes-append n [] b = refl
from_be_bytes-append n (c ∷ bs) b = from_be_bytes-append (n * 256 + c) bs b

pub length-to_be_bytes : (width n : ℕ) → length (to_be_bytes width n) ≡ width
unfolding to_be_bytes
length-to_be_bytes zero n = refl
length-to_be_bytes (suc width) n = omega (
  arith,
  length-append (to_be_bytes width (n / 256)) ((n % 256) ∷ []),
  length-to_be_bytes width (n / 256),
)

pub from_be_bytes-to_be_bytes :
    (width n : ℕ) → n < 256 ^ width → from_be_bytes 0 (to_be_bytes width n) ≡ n
unfolding to_be_bytes from_be_bytes
from_be_bytes-to_be_bytes zero n h = omega (arith, pow-zero 256)
from_be_bytes-to_be_bytes (suc width) n h = omega (
  arith,
  pow-suc 256 width,
  from_be_bytes-append 0 (to_be_bytes width (n / 256)) (n % 256),
  from_be_bytes-to_be_bytes width (n / 256) (omega (arith, pow-suc 256 width)),
)

mul_mono : {a b : ℕ} → a ≤ b → (p : ℕ) → a * p ≤ b * p
mul_mono h p = grind arith

regroup : (a p : ℕ) → a * 256 * p ≡ a * (p * 256)
regroup a p = grind arith

pub from_be_bytes-lt :
    (n : ℕ) (bs : List ℕ) → All IsByte bs → from_be_bytes n bs < (n + 1) * 256 ^ length bs
unfolding from_be_bytes
from_be_bytes-lt n [] h = omega (arith, pow-zero 256)
from_be_bytes-lt n (b ∷ bs) h =
    let p = 256 ^ length bs in
    let step : (n * 256 + b + 1) * p ≤ (n + 1) * 256 * p = mul_mono (omega arith) p in
    omega (
      arith,
      from_be_bytes-lt (n * 256 + b) bs h.1,
      step,
      ap (λ (t : ℕ). (n + 1) * t) (pow-suc 256 (length bs)),
      regroup (n + 1) p,
    )

-- The first `n` bytes and the rest, if there are so many.
unfoldable pub split_at : {A : Type 0} → ℕ → List A → Option (List A × List A)
split_at zero xs = some ([], xs)
split_at (suc n) [] = none
split_at (suc n) (x ∷ xs) = elim (split_at n xs) [
  | none ↦ none
  | some (front, rest) ↦ some (x ∷ front, rest)
]

pub split_at-append :
    {A : Type 0} (n : ℕ) (xs rest : List A)
    → length xs ≡ n
    → split_at n (xs ++ rest) ≡ some (xs, rest)
unfolding split_at
split_at-append zero [] rest e = refl
split_at-append zero (x ∷ xs) rest e = absurd (omega arith)
split_at-append (suc n) [] rest e = absurd (omega arith)
split_at-append (suc n) (x ∷ xs) rest e = rw (split_at-append n xs rest (omega arith))

pub split_at-parts :
    {A : Type 0} (n : ℕ) (xs front rest : List A)
    → split_at n xs ≡ some (front, rest)
    → (length front ≡ n) × (xs ≡ front ++ rest)
unfolding split_at
split_at-parts zero xs front rest e = ground arith
split_at-parts (suc n) [] front rest e = cc
split_at-parts (suc n) (x ∷ xs) front rest e = elim (Option-cases (split_at n xs)) [
  | inl none_left ↦ cc
  | inr ((ys, zs), found) ↦ ground (arith, split_at-parts n xs ys zs found)
]

-- `i128` as its two's complement in 128 bits, and back.
unfoldable pub i128_bits : ℤ → ℕ
i128_bits (pos n) = n
i128_bits (negsuc n) = 2 ^ 128 - 1 - n

unfoldable pub i128_of_bits : ℕ → ℤ
i128_of_bits w = if ltb w (2 ^ 127) then pos w else negsuc (2 ^ 128 - 1 - w)

abbrev pub IsI128 : ℤ → Type 0
IsI128 (pos n) = n < 2 ^ 127
IsI128 (negsuc n) = n < 2 ^ 127

pub i128_bits-lt : (n : ℤ) → IsI128 n → i128_bits n < 2 ^ 128
unfolding i128_bits
i128_bits-lt (pos n) h = omega arith
i128_bits-lt (negsuc n) h = omega arith

pub i128_of_bits-i128_bits : (n : ℤ) → IsI128 n → i128_of_bits (i128_bits n) ≡ n
unfolding i128_bits i128_of_bits
i128_of_bits-i128_bits (pos n) h = ground arith
i128_of_bits-i128_bits (negsuc n) h = ground arith

pub i128_of_bits-IsI128 : (w : ℕ) → w < 2 ^ 128 → IsI128 (i128_of_bits w)
unfolding i128_of_bits
i128_of_bits-IsI128 w h = ground arith

-- The automaton of well-formed UTF-8: how many bytes of a character are still to come, or what its
-- first byte asks of the second.
pub data Utf8State : Type 0 where
  between more1 more2 more3 after_e0 after_ed after_f0 after_f4 : Utf8State

abbrev within : ℕ → ℕ → ℕ → Bool
within lo hi b = leb lo b && leb b hi

abbrev utf8_lead : ℕ → Option Utf8State
utf8_lead b =
    if leb b 0x7f
    then some between
    else if within 0xc2 0xdf b
    then some more1
    else if b == 0xe0
    then some after_e0
    else if b == 0xed
    then some after_ed
    else if within 0xe1 0xef b
    then some more2
    else if b == 0xf0
    then some after_f0
    else if within 0xf1 0xf3 b
    then some more3
    else if b == 0xf4
    then some after_f4
    else none

abbrev when : Bool → Utf8State → Option Utf8State
when b s = if b then some s else none

abbrev utf8_step : Utf8State → ℕ → Option Utf8State
utf8_step between b = utf8_lead b
utf8_step more1 b = when (within 0x80 0xbf b) between
utf8_step more2 b = when (within 0x80 0xbf b) more1
utf8_step more3 b = when (within 0x80 0xbf b) more2
utf8_step after_e0 b = when (within 0xa0 0xbf b) more1
utf8_step after_ed b = when (within 0x80 0x9f b) more1
utf8_step after_f0 b = when (within 0x90 0xbf b) more2
utf8_step after_f4 b = when (within 0x80 0x8f b) more2

unfoldable pub utf8_from : Utf8State → List ℕ → Bool
utf8_from between [] = true
utf8_from _ [] = false
utf8_from s (b ∷ bs) = elim (utf8_step s b) [ none ↦ false | some t ↦ utf8_from t bs ]

-- Whether `std::str::from_utf8` accepts the bytes.
abbrev pub is_utf8 : List ℕ → Bool
is_utf8 = utf8_from between
