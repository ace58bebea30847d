-- ===== src/Dlmm/Math/Bounds.antt =====
-- What a single-bin swap never exceeds: the input, the inventory, and the value of the input at the
-- bin's price.
use stacks_dex_pool.Prelude.{ℕ, zero, suc, ◌+◌, ◌-◌, ◌*◌, ◌/◌, ◌≤◌, ◌<◌, min, ◌≡◌, arith}
use native.Mathlib.Nat.{le_trans, div-mul-le_self, mul-le-mul_right}
use stacks_dex_pool.Prelude.Word.{saturating_mul, saturating_mul-le}
use stacks_dex_pool.Prelude.Outcome.{returned, Profile}
use stacks_dex_pool.Dlmm.Constants.{price_scale_bps, fee_scale_bps}
use stacks_dex_pool.Dlmm.Math.{
  SingleBinSwap, no_swap, single_bin_swap_x_for_y, single_bin_swap_y_for_x,
}
use stacks_dex_pool.Dlmm.Math.Closed.{
  swap_result, fee_of, gross, single_bin_swap_x_for_y-eq, single_bin_swap_y_for_x-eq,
  single_bin_swap_x_for_y-zero, single_bin_swap_y_for_x-zero,
}

-- A swap of `amount` against `inventory` at the rate `num / den`.
pub record IsBounded (amount inventory num den : ℕ) (r : SingleBinSwap) : Type 0 where
  pub used_bound : r.used ≤ amount
  pub net_bound : r.dx_after_fee ≤ r.used
  pub inventory_bound : r.dy ≤ inventory
  pub value_bound : r.dy * den ≤ r.dx_after_fee * num

no_swap-IsBounded : (amount inventory num den : ℕ) → IsBounded amount inventory num den no_swap
no_swap-IsBounded amount inventory num den = record {
  used_bound = omega arith;
  net_bound = omega arith;
  inventory_bound = omega arith;
  value_bound = omega arith;
}

capped_value :
    (net inventory num den : ℕ) → min (saturating_mul net num / den) inventory * den ≤ net * num
capped_value net inventory num den =
    le_trans (mul-le-mul_right den (omega arith))
      (le_trans (div-mul-le_self (saturating_mul net num) den) (saturating_mul-le net num))

swap_result-IsBounded :
    (amount limit total_fee inventory num den : ℕ)
    → IsBounded amount inventory num den
        (swap_result amount limit total_fee (λ net. min (saturating_mul net num / den) inventory))
swap_result-IsBounded amount limit total_fee inventory num den =
    let used = min amount (gross limit total_fee) in
    let net = used - fee_of used total_fee in
    record {
      used_bound = omega arith;
      net_bound = omega arith;
      inventory_bound = omega arith;
      value_bound = capped_value net inventory num den;
    }

-- With fees below 10000 bps the x-to-y swap of a bin returns, in either build profile and at any
-- price; it uses at most the input, pays at most the y inventory, and pays at most the net input's
-- value at the bin price.
pub single_bin_swap_x_for_y_bounds :
    (p : Profile) (amount x_balance y_balance price protocol_fee provider_fee variable_fee : ℕ)
    → protocol_fee + provider_fee + variable_fee < fee_scale_bps
    → (r : SingleBinSwap) × (single_bin_swap_x_for_y p amount x_balance y_balance price protocol_fee
          provider_fee variable_fee
        ≡ returned r)
      × IsBounded amount y_balance price price_scale_bps r
single_bin_swap_x_for_y_bounds p amount x y zero f g h fees = (
  no_swap,
  single_bin_swap_x_for_y-zero p amount x y f g h,
  no_swap-IsBounded amount y 0 price_scale_bps,
)
single_bin_swap_x_for_y_bounds p amount x y (suc price) f g h fees = (
  _,
  single_bin_swap_x_for_y-eq p amount x y (suc price) f g h (omega arith) fees,
  swap_result-IsBounded amount _ (f + g + h) y (suc price) price_scale_bps,
)

-- With fees below 10000 bps the y-to-x swap of a bin returns, in either build profile and at any
-- price; it uses at most the input, pays at most the x inventory, and what it pays is worth at most
-- the net input at the bin price.
pub single_bin_swap_y_for_x_bounds :
    (p : Profile) (amount x_balance y_balance price protocol_fee provider_fee variable_fee : ℕ)
    → protocol_fee + provider_fee + variable_fee < fee_scale_bps
    → (r : SingleBinSwap) × (single_bin_swap_y_for_x p amount x_balance y_balance price protocol_fee
          provider_fee variable_fee
        ≡ returned r)
      × IsBounded amount x_balance price_scale_bps price r
single_bin_swap_y_for_x_bounds p amount x y zero f g h fees = (
  no_swap,
  single_bin_swap_y_for_x-zero p amount x y f g h,
  no_swap-IsBounded amount x price_scale_bps 0,
)
single_bin_swap_y_for_x_bounds p amount x y (suc price) f g h fees = (
  _,
  single_bin_swap_y_for_x-eq p amount x y (suc price) f g h (omega arith) fees,
  swap_result-IsBounded amount _ (f + g + h) x price_scale_bps (suc price),
)
