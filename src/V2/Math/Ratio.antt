-- ===== src/V2/Math/Ratio.antt =====
-- The quote with a fee of src/v2/math.rs: what it pays, and what the pool keeps.
use stacks_dex_pool.Prelude.{
  ℕ, ◌+◌, ◌-◌, ◌*◌, ◌/◌, ◌≤◌, ◌<◌, ◌≡◌, ◌⊎◌, inl, inr, refl, true, arith, Bool-cases, ltb, le→leb,
  ◌==◌, ◌||◌,
}
use stacks_dex_pool.Prelude.Word.{u128_max, saturating_mul, saturating_mul-le, saturating_add-eq}
use native.Mathlib.Nat.{le_trans, mul-le-mul, mul-le-mul_left, div-le_of_le-mul}
use stacks_dex_pool.Prelude.Division.{div_mono}
use stacks_dex_pool.V2.Math.{quote_amount_out_with_fee_ratio, invariant_non_decreasing}
use stacks_dex_pool.V2.Math.Swap.{exchange, IsFair, IsFair-KeepsProduct, IsFair-back, exchange_mono}

net-le : (dx fee_num fee_den : ℕ) → fee_num ≤ fee_den → saturating_mul dx fee_num / fee_den ≤ dx
net-le dx fee_num fee_den h =
    div-le_of_le-mul fee_den
      (le_trans (saturating_mul-le dx fee_num) (omega (arith, mul-le-mul_left dx h)))

saturating_mul_le : (a b c d : ℕ) → a * b ≤ c * d → saturating_mul a b ≤ saturating_mul c d
unfolding saturating_mul
saturating_mul_le a b c d h = omega arith

pub quote_ratio-IsFair :
    (dx reserve_in reserve_out fee_num fee_den : ℕ)
    → IsFair reserve_in reserve_out dx
        (quote_amount_out_with_fee_ratio dx reserve_in reserve_out fee_num fee_den)
unfolding quote_amount_out_with_fee_ratio exchange
quote_ratio-IsFair dx reserve_in reserve_out fee_num fee_den =
    elim (Bool-cases (
      (dx == 0)
      || ((reserve_in == 0) || ((reserve_out == 0) || ((fee_den == 0) || ltb fee_den fee_num))))) [
        | inl degenerate ↦ rw degenerate (inl refl)
        | inr ok ↦ elim (Bool-cases (saturating_mul dx fee_num / fee_den == 0)) [
          | inl no_net ↦ rw (ok, no_net) (inl refl)
          | inr some_net ↦
              rw (ok, some_net)
                (inr record {
                  net = saturating_mul dx fee_num / fee_den;
                  within = net-le dx fee_num fee_den (ground arith);
                  live = ground arith;
                  paid = ground arith;
                  value = refl;
                })
        ]
      ]

-- The pool never pays its whole output side, and the product of the reserves does not shrink: the
-- code's own check of the trade holds, for any fee, if the input side fits a `u128` afterwards.
pub quote_ratio_invariant :
    (dx reserve_in reserve_out fee_num fee_den : ℕ)
    → reserve_in + dx ≤ u128_max
    → let dy = quote_amount_out_with_fee_ratio dx reserve_in reserve_out fee_num fee_den in
      (invariant_non_decreasing reserve_in reserve_out dx dy ≡ true)
      × (0 < reserve_out → dy < reserve_out)
unfolding invariant_non_decreasing
quote_ratio_invariant dx reserve_in reserve_out fee_num fee_den fits =
    let dy = quote_amount_out_with_fee_ratio dx reserve_in reserve_out fee_num fee_den in
    let (_, below, product) =
      IsFair-KeepsProduct reserve_in reserve_out dx dy fits
        (quote_ratio-IsFair dx reserve_in reserve_out fee_num fee_den) in
    (
      rw (saturating_add-eq reserve_in dx fits) (
          le→leb (saturating_mul reserve_in reserve_out)
            (saturating_mul (reserve_in + dx) (reserve_out - dy))
            (saturating_mul_le reserve_in reserve_out (reserve_in + dx) (reserve_out - dy)
              product)),
      below,
    )

-- Trading there and back at the reserves that the first trade leaves returns at most the input,
-- for any two fees.
pub quote_ratio_round_trip :
    (dx reserve_in reserve_out fee_num fee_den fee_num' fee_den' : ℕ)
    → reserve_in + dx ≤ u128_max
    → reserve_out ≤ u128_max
    → let dy = quote_amount_out_with_fee_ratio dx reserve_in reserve_out fee_num fee_den in
      quote_amount_out_with_fee_ratio dy (reserve_out - dy) (reserve_in + dx) fee_num' fee_den' ≤ dx
quote_ratio_round_trip dx reserve_in reserve_out fee_num fee_den fee_num' fee_den' fits word =
    let dy = quote_amount_out_with_fee_ratio dx reserve_in reserve_out fee_num fee_den in
    IsFair-back reserve_in reserve_out dx dy
      (quote_amount_out_with_fee_ratio dy (reserve_out - dy) (reserve_in + dx) fee_num' fee_den')
      fits word (quote_ratio-IsFair dx reserve_in reserve_out fee_num fee_den)
      (quote_ratio-IsFair dy (reserve_out - dy) (reserve_in + dx) fee_num' fee_den')

-- A live quote is the exchange of the input less the fee.
pub quote_ratio-eq :
    (dx reserve_in reserve_out fee_num fee_den : ℕ)
    → 0 < reserve_in
    → 0 < reserve_out
    → 0 < fee_den
    → fee_num ≤ fee_den
    → 0 < saturating_mul dx fee_num / fee_den
    → quote_amount_out_with_fee_ratio dx reserve_in reserve_out fee_num fee_den
      ≡ exchange reserve_in reserve_out (saturating_mul dx fee_num / fee_den)
unfolding quote_amount_out_with_fee_ratio exchange
quote_ratio-eq dx reserve_in reserve_out fee_num fee_den live paid den num net =
    ground (arith, net-le dx fee_num fee_den num)

quote_ratio-cases :
    (dx reserve_in reserve_out fee_num fee_den : ℕ)
    → (quote_amount_out_with_fee_ratio dx reserve_in reserve_out fee_num fee_den ≡ 0)
      ⊎ ((0 < reserve_in)
          × (0 < reserve_out)
          × (0 < fee_den)
          × (0 < saturating_mul dx fee_num / fee_den))
unfolding quote_amount_out_with_fee_ratio
quote_ratio-cases dx reserve_in reserve_out fee_num fee_den = ground arith

-- More input at no higher a fee pays no less, as long as the product of the output side and the
-- input fits a `u128`.
pub quote_ratio_mono :
    (dx more reserve_in reserve_out fee_num fee_num' fee_den : ℕ)
    → dx ≤ more
    → fee_num ≤ fee_num'
    → fee_num' ≤ fee_den
    → reserve_in + more ≤ u128_max
    → reserve_out * more ≤ u128_max
    → quote_amount_out_with_fee_ratio dx reserve_in reserve_out fee_num fee_den
      ≤ quote_amount_out_with_fee_ratio more reserve_in reserve_out fee_num' fee_den
quote_ratio_mono dx more reserve_in reserve_out fee_num fee_num' fee_den le num num' fits product =
    elim (quote_ratio-cases dx reserve_in reserve_out fee_num fee_den) [
      | inl nothing ↦ rw nothing (omega arith)
      | inr (live, paid, den, net) ↦
          let less : saturating_mul dx fee_num / fee_den ≤ saturating_mul more fee_num' / fee_den =
            div_mono (saturating_mul dx fee_num) (saturating_mul more fee_num') fee_den den
              (saturating_mul_le dx fee_num more fee_num' (mul-le-mul le num)) in
          let capped = net-le more fee_num' fee_den num' in
          rw
            (
              quote_ratio-eq dx reserve_in reserve_out fee_num fee_den live paid den (omega arith)
                  net,
              quote_ratio-eq more reserve_in reserve_out fee_num' fee_den live paid den num'
                  (omega arith),
            )
            (exchange_mono reserve_in reserve_out (saturating_mul dx fee_num / fee_den)
              (saturating_mul more fee_num' / fee_den) live (omega arith)
              (le_trans (mul-le-mul_left reserve_out capped) product) less)
    ]
