-- ===== src/Dlmm/Math/Closed.antt =====
-- The single-bin swap without its panics: with fees below the scale every operation on words stays
-- in range, and the result is a plain expression. Both directions share the fee arithmetic.
use stacks_dex_pool.Prelude.{
  refl, false, ℕ, ◌+◌, ◌-◌, ◌/◌, ◌≤◌, ◌<◌, min, ◌≡◌, inl, inr, arith, ltb, ◌==◌, if◌then◌else◌,
  Bool-cases,
}
use native.Mathlib.Nat.{le_trans, le_of_lt, mul-le-mul_left}
use stacks_dex_pool.Prelude.Division.{div_ceil}
use stacks_dex_pool.Prelude.Word.{saturating_mul, saturating_mul-le, u32_size, u128_size}
use stacks_dex_pool.Prelude.Outcome.{returned, Profile, add_word-eq, sub_word-eq, div_word-eq}
use stacks_dex_pool.Dlmm.Constants.{price_scale_bps, fee_scale_bps}
use stacks_dex_pool.Dlmm.Math.{
  SingleBinSwap, no_swap, max_with_fee, single_bin_swap_x_for_y, single_bin_swap_y_for_x,
}

unfoldable pub fee_of : ℕ → ℕ → ℕ
fee_of used total_fee = saturating_mul used total_fee / fee_scale_bps

unfoldable pub gross : ℕ → ℕ → ℕ
gross max_no_fee total_fee =
    if ltb 0 total_fee
    then saturating_mul max_no_fee fee_scale_bps / (fee_scale_bps - total_fee)
    else max_no_fee

pub fee_of-le : (used total_fee : ℕ) → total_fee < fee_scale_bps → fee_of used total_fee ≤ used
unfolding fee_of
fee_of-le used total_fee h =
    omega (arith, le_trans (saturating_mul-le used total_fee) (mul-le-mul_left used (le_of_lt h)))

max_with_fee-eq :
    (p : Profile) (m total_fee : ℕ)
    → total_fee < fee_scale_bps
    → max_with_fee p m total_fee ≡ returned (gross m total_fee)
unfolding max_with_fee gross
max_with_fee-eq p m total_fee h = elim (Bool-cases (ltb 0 total_fee)) [
  | inl e ↦ rw (
    e,
    sub_word-eq p u32_size fee_scale_bps total_fee (omega arith),
    div_word-eq (saturating_mul m fee_scale_bps) (fee_scale_bps - total_fee) (omega arith),
  )
  | inr e ↦ rw e
]

-- What is returned for a limit on the net input and a rule for the output.
abbrev pub swap_result : (amount limit total_fee : ℕ) → (ℕ → ℕ) → SingleBinSwap
swap_result amount limit total_fee output =
    let used = min amount (gross limit total_fee) in
    let net = used - fee_of used total_fee in
    record { dx_after_fee = net; dy = output net; used = used }

pub not_zero : (price : ℕ) → 0 < price → (price == 0) ≡ false
not_zero price h = ground arith

module _ (p : Profile) (amount x_balance y_balance price protocol_fee provider_fee variable_fee : ℕ)
    (priced : 0 < price) (fees : protocol_fee + provider_fee + variable_fee < fee_scale_bps) where
  pub single_bin_swap_x_for_y-eq :
      single_bin_swap_x_for_y p amount x_balance y_balance price protocol_fee provider_fee
        variable_fee
      ≡ returned (
          swap_result amount
            (div_ceil (saturating_mul y_balance price_scale_bps) price)
            (protocol_fee + provider_fee + variable_fee)
            (λ net. min (saturating_mul net price / price_scale_bps) y_balance))
  unfolding single_bin_swap_x_for_y fee_of
  single_bin_swap_x_for_y-eq =
      let total_fee = protocol_fee + provider_fee + variable_fee in
      let limit = div_ceil (saturating_mul y_balance price_scale_bps) price in
      let used = min amount (gross limit total_fee) in
      rw (
        not_zero price priced,
        add_word-eq p u32_size protocol_fee provider_fee (omega arith),
        add_word-eq p u32_size (protocol_fee + provider_fee) variable_fee (omega arith),
        max_with_fee-eq p limit total_fee fees,
        sub_word-eq p u128_size used (fee_of used total_fee) (fee_of-le used total_fee fees),
      )

  pub single_bin_swap_y_for_x-eq :
      single_bin_swap_y_for_x p amount x_balance y_balance price protocol_fee provider_fee
        variable_fee
      ≡ returned (
          swap_result amount
            (div_ceil (saturating_mul x_balance price) price_scale_bps)
            (protocol_fee + provider_fee + variable_fee)
            (λ net. min (saturating_mul net price_scale_bps / price) x_balance))
  unfolding single_bin_swap_y_for_x fee_of
  single_bin_swap_y_for_x-eq =
      let total_fee = protocol_fee + provider_fee + variable_fee in
      let limit = div_ceil (saturating_mul x_balance price) price_scale_bps in
      let used = min amount (gross limit total_fee) in
      rw (
        not_zero price priced,
        add_word-eq p u32_size protocol_fee provider_fee (omega arith),
        add_word-eq p u32_size (protocol_fee + provider_fee) variable_fee (omega arith),
        max_with_fee-eq p limit total_fee fees,
        sub_word-eq p u128_size used (fee_of used total_fee) (fee_of-le used total_fee fees),
      )

module _ (p : Profile) (amount x_balance y_balance protocol_fee provider_fee variable_fee : ℕ) where
  pub single_bin_swap_x_for_y-zero :
      single_bin_swap_x_for_y p amount x_balance y_balance 0 protocol_fee provider_fee variable_fee
      ≡ returned no_swap
  unfolding single_bin_swap_x_for_y
  single_bin_swap_x_for_y-zero = refl

  pub single_bin_swap_y_for_x-zero :
      single_bin_swap_y_for_x p amount x_balance y_balance 0 protocol_fee provider_fee variable_fee
      ≡ returned no_swap
  unfolding single_bin_swap_y_for_x
  single_bin_swap_y_for_x-zero = refl
