-- ===== src/V2/Velar.antt =====
-- src/v2/velar.rs: the pairs of the singleton `univ2-core`, with a fee of their own each.
use stacks_dex_pool.Prelude.{
  ℕ, ◌-◌, ◌/◌, ◌%◌, Bool, Option, List, [], ◌∷◌, leb, ◌==◌, ◌||◌, if◌then◌else◌,
}
use stacks_dex_pool.Prelude.Division.{div_ceil}
use stacks_dex_pool.Prelude.Word.{saturating_mul, u32_size}
use stacks_dex_pool.Prelude.Text.{Text, bytes}
use stacks_dex_pool.Prelude.Outcome.{Result}
use stacks_dex_pool.Pool.Principal.{Principal}
use stacks_dex_pool.Pool.Event.{StacksTopic}
use stacks_dex_pool.Pool.Base.{PoolError, by_token}
use stacks_dex_pool.V2.Math.{quote_amount_out_with_fee_ratio}

-- `flipped` is true if the contract lists `y_token` before `x_token`.
pub record VelarPool : Type 0 where
  pub pool_contract : Principal
  pub core_contract : Principal
  pub lp_token : Principal
  pub x_token : Principal
  pub y_token : Principal
  pub x_decimals : ℕ
  pub y_decimals : ℕ
  pub reserve_x : ℕ
  pub reserve_y : ℕ
  pub flipped : Bool
  pub fee_num : ℕ
  pub fee_den : ℕ
  pub last_tx_id : Option Text

unfoldable pub quote_x_for_y : VelarPool → ℕ → ℕ
quote_x_for_y pool dx =
    quote_amount_out_with_fee_ratio dx pool.reserve_x pool.reserve_y pool.fee_num pool.fee_den

unfoldable pub quote_y_for_x : VelarPool → ℕ → ℕ
quote_y_for_x pool dy =
    quote_amount_out_with_fee_ratio dy pool.reserve_y pool.reserve_x pool.fee_num pool.fee_den

unfoldable pub fee_bps_effective : VelarPool → ℕ
fee_bps_effective pool =
    let bps_x_2 = saturating_mul (pool.fee_den - pool.fee_num) 20000 / pool.fee_den in
    if (pool.fee_den == 0) || leb pool.fee_den pool.fee_num
    then 10000
    else div_ceil bps_x_2 2 % u32_size

unfoldable pub topics : VelarPool → List StacksTopic
topics pool = record { contract = pool.core_contract; action = bytes "swap" } ∷ []

unfoldable pub calculate_output : VelarPool → Principal → ℕ → Result PoolError ℕ
calculate_output pool token_in amount_in =
    by_token pool.x_token pool.y_token token_in (quote_x_for_y pool amount_in)
      (quote_y_for_x pool amount_in)
