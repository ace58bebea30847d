-- ===== src/Stableswap/Bounds.antt =====
-- The quotes of the stable pools return, and pay at most the output balance.
use stacks_dex_pool.Prelude.{
  ℕ, ◌+◌, ◌-◌, ◌/◌, ◌≤◌, ◌<◌, ◌≡◌, refl, arith, inl, inr, Bool-cases, ◌==◌, ◌||◌,
}
use stacks_dex_pool.Prelude.Word.{u128_max, u128_size, saturating_mul, saturating_mul-le_max}
use stacks_dex_pool.Prelude.Outcome.{Outcome, returned, Profile, add_word-eq, div_word-eq}
use stacks_dex_pool.Stableswap.Curve.{scale_up, scale_down}
use stacks_dex_pool.Stableswap.Curve.Returns.{get_y-Returns}
use stacks_dex_pool.Stableswap.BitflowV1.{MathVariant, x_for_y, get_dy}
use stacks_dex_pool.Stableswap.BitflowV2.{quote_amount_out}

pub fees_fit : (a b c : ℕ) → saturating_mul a b / 10000 + saturating_mul a c / 10000 < u128_size
unfolding u128_max
fees_fit a b c = omega (arith, saturating_mul-le_max a b, saturating_mul-le_max a c)

-- A quote returns and pays at most the balance.
abbrev pub PaysWithin : ℕ → Outcome ℕ → Type 0
PaysWithin balance result = (dy : ℕ) × (result ≡ returned dy) × (dy ≤ balance)

-- For all balances, decimals, fees, midpoints, amplifications and thresholds, and in both build
-- profiles, the quote of the second generation returns and pays at most the output balance.
pub quote_amount_out-PaysWithin :
    (p : Profile)
    (dx x_balance y_balance x_decimals y_decimals protocol_fee_bps provider_fee_bps : ℕ)
    (midpoint_num midpoint_den amp threshold : ℕ)
    → PaysWithin y_balance (
        quote_amount_out p dx x_balance y_balance x_decimals y_decimals protocol_fee_bps
          provider_fee_bps midpoint_num midpoint_den amp threshold)
unfolding quote_amount_out
quote_amount_out-PaysWithin p dx x_balance y_balance x_decimals y_decimals protocol_fee_bps
      provider_fee_bps midpoint_num midpoint_den amp threshold =
    elim (Bool-cases
      ((dx == 0) || ((x_balance == 0) || ((y_balance == 0) || (midpoint_den == 0))))) [
        | inl degenerate ↦ rw degenerate (0, refl, omega arith)
        | inr live ↦
            let (bx_s, by_s) = scale_up x_balance y_balance x_decimals y_decimals in
            let dx_s = (scale_up dx 0 x_decimals y_decimals).0 in
            let fee =
              saturating_mul dx_s protocol_fee_bps / 10000
              + saturating_mul dx_s provider_fee_bps / 10000 in
            let den : 0 < midpoint_den = ground arith in
            let dx_mid = saturating_mul (dx_s - fee) midpoint_num / midpoint_den in
            let bx_mid = saturating_mul bx_s midpoint_num / midpoint_den in
            let (new_y_s, solved) = get_y-Returns p dx_mid bx_mid by_s amp threshold in
            rw
              (
                live,
                add_word-eq p u128_size (saturating_mul dx_s protocol_fee_bps / 10000)
                    (saturating_mul dx_s provider_fee_bps / 10000)
                    (fees_fit dx_s protocol_fee_bps provider_fee_bps),
                div_word-eq (saturating_mul (dx_s - fee) midpoint_num) midpoint_den den,
                div_word-eq (saturating_mul bx_s midpoint_num) midpoint_den den,
                solved,
              )
              (y_balance - (scale_down 0 new_y_s x_decimals y_decimals).1, refl, omega arith)
      ]

-- The same of the first generation, in both of its variants.
get_dy-PaysWithin :
    (p : Profile)
    (x_amount x_balance y_balance x_decimals y_decimals fee_total_bps amp threshold : ℕ)
    (variant : MathVariant)
    → PaysWithin y_balance (
        get_dy p x_amount x_balance y_balance x_decimals y_decimals fee_total_bps amp threshold
          variant)
unfolding get_dy
get_dy-PaysWithin p x_amount x_balance y_balance x_decimals y_decimals fee_total_bps amp threshold
      variant =
    elim (Bool-cases ((x_amount == 0) || ((x_balance == 0) || (y_balance == 0)))) [
      | inl degenerate ↦ rw degenerate (0, refl, omega arith)
      | inr live ↦
          let (bx_s, by_s) = scale_up x_balance y_balance x_decimals y_decimals in
          let net =
            (scale_up x_amount 0 x_decimals y_decimals).0
            - saturating_mul x_amount fee_total_bps / 10000 in
          let (new_y, solved) = get_y-Returns p net (x_for_y variant bx_s net) by_s amp threshold in
          rw (live, solved)
            (y_balance - (scale_down 0 new_y x_decimals y_decimals).1, refl, omega arith)
    ]
