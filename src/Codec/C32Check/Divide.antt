-- ===== src/Codec/C32Check/Divide.antt =====
-- The division of the encoder, by the number that the bytes make.
use stacks_dex_pool.Prelude.{
  ℕ, ◌+◌, ◌*◌, ◌/◌, ◌%◌, ◌^◌, ◌<◌, ◌≡◌, refl, ap, true, false, List, [], ◌∷◌, ◌==◌, ==_iff,
  Bool-cases, inl, inr, length, All, arith,
}
use native.Mathlib.Nat.{pow-suc, pow-zero}
use stacks_dex_pool.Prelude.Bytes.{IsByte, from_be_bytes}
use stacks_dex_pool.Codec.C32Check.{divide, strip, goes_on}
use stacks_dex_pool.Codec.C32Check.Number.{number, weight, number-cons, IsCanonical}

pub record Divided (rem : ℕ) (bs out : List ℕ) (last : ℕ) : Type 0 where
  pub bytes : All IsByte out
  pub same : length out ≡ length bs
  pub small : last < 32
  pub sum : number out * 32 + last ≡ rem * weight bs + number bs

distribute : (q r w : ℕ) → (q * 32 + r) * w ≡ q * w * 32 + r * w
distribute q r w = grind arith

pub divide-Divided :
    (rem : ℕ) (bs : List ℕ)
    → All IsByte bs
    → rem < 32
    → Divided rem bs (divide rem bs).0 (divide rem bs).1
unfolding divide
divide-Divided rem [] h l = record {
  bytes = tt;
  same = refl;
  small = l;
  sum = unfold from_be_bytes in omega (arith, ap (λ (t : ℕ). rem * t) (pow-zero 256));
}
divide-Divided rem (b ∷ bs) (hb, hbs) l =
    let cur = rem * 256 + b in
    let ih = divide-Divided (cur % 32) bs hbs (omega arith) in
    let (out, last) = divide (cur % 32) bs in
    let w = weight bs in
    let whole : cur / 32 * 32 + cur % 32 ≡ cur = omega arith in
    let same_weight : cur / 32 * weight out ≡ cur / 32 * w =
      ap (λ (t : ℕ). cur / 32 * 256 ^ t) ih.same in
    record {
      bytes = (omega arith, ih.bytes);
      same = omega (arith, ih.same);
      small = ih.small;
      sum = omega (
        arith,
        ih.sum,
        number-cons (cur / 32) out,
        number-cons b bs,
        same_weight,
        distribute (cur / 32) (cur % 32) w,
        ap (λ (t : ℕ). t * w) whole,
        ap (λ (t : ℕ). rem * t) (pow-suc 256 (length bs)),
        spread rem b w,
      );
    }
  where
    spread : (n b p : ℕ) → (n * 256 + b) * p ≡ n * (p * 256) + b * p
    spread n b p = grind arith

-- What the loop holds: bytes with no leading zero, or one zero.
abbrev pub IsDividend : List ℕ → Type 0
IsDividend [] = Unit
IsDividend (b ∷ []) = IsByte b
IsDividend (b ∷ c ∷ bs) = (0 < b) × All IsByte (b ∷ c ∷ bs)

pub strip-IsDividend :
    (bs : List ℕ) → All IsByte bs → IsDividend (strip bs) × (number (strip bs) ≡ number bs)
unfolding strip
strip-IsDividend [] h = (tt, refl)
strip-IsDividend (b ∷ []) h = (h.0, refl)
strip-IsDividend (b ∷ c ∷ bs) h = elim (Bool-cases (b == 0)) [
  | inl nil ↦
      let (d, e) = strip-IsDividend (c ∷ bs) h.1 in
      let gone : b * weight (c ∷ bs) ≡ 0 * weight (c ∷ bs) =
        ap (λ (t : ℕ). t * weight (c ∷ bs)) ((==_iff b 0).0 nil) in
      rw nil (d, omega (arith, e, number-cons b (c ∷ bs), gone))
  | inr some ↦ rw some ((ground arith, h), refl)
]

pub goes_on-IsCanonical : (n : List ℕ) → IsDividend n → goes_on n ≡ true → IsCanonical n
unfolding goes_on
goes_on-IsCanonical [] h e = tt
goes_on-IsCanonical (b ∷ []) h e = (ground arith, (h, tt))
goes_on-IsCanonical (b ∷ c ∷ bs) h e = h

pub goes_on-false : (n : List ℕ) → IsDividend n → goes_on n ≡ false → number n ≡ 0
unfolding goes_on from_be_bytes
goes_on-false [] h e = refl
goes_on-false (b ∷ []) h e = ground arith
goes_on-false (b ∷ c ∷ bs) h e = absurd (ground arith)

pub IsCanonical-IsDividend : (n : List ℕ) → IsCanonical n → IsDividend n
IsCanonical-IsDividend [] h = tt
IsCanonical-IsDividend (b ∷ []) h = h.1.0
IsCanonical-IsDividend (b ∷ c ∷ bs) h = h

pub goes_on_canonical : (b : ℕ) (bs : List ℕ) → IsCanonical (b ∷ bs) → goes_on (b ∷ bs) ≡ true
unfolding goes_on
goes_on_canonical b bs h = ground arith
