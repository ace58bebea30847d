-- ===== src/Stableswap/BitflowV2.antt =====
-- src/stableswap/bitflow_v2.rs: stable pools with a midpoint, one contract for each.
use stacks_dex_pool.Prelude.{ℕ, ◌/◌, Bool, Option, List, [], ◌∷◌, ◌==◌, ◌||◌, if◌then◌else◌}
use stacks_dex_pool.Prelude.Word.{saturating_mul, saturating_sub, u32_size, u128_size}
use stacks_dex_pool.Prelude.Text.{Text, bytes}
use stacks_dex_pool.Prelude.Outcome.{Outcome, returned, ◌>>=◌, Profile, add_word, div_word, Result}
use stacks_dex_pool.Pool.Principal.{Principal}
use stacks_dex_pool.Pool.Event.{StacksTopic}
use stacks_dex_pool.Pool.Base.{PoolError, by_token}
use stacks_dex_pool.Stableswap.Curve.{scale_up, scale_down, get_y}

abbrev bps : ℕ
bps = 10000

pub record BitflowStableSwapV2Pool : Type 0 where
  pub pool_contract : Principal
  pub core_contract : Principal
  pub x_token : Principal
  pub y_token : Principal
  pub x_decimals : ℕ
  pub y_decimals : ℕ
  pub x_balance : ℕ
  pub y_balance : ℕ
  pub x_protocol_fee_bps : ℕ
  pub x_provider_fee_bps : ℕ
  pub y_protocol_fee_bps : ℕ
  pub y_provider_fee_bps : ℕ
  pub amp : ℕ
  pub threshold : ℕ
  pub midpoint_num : ℕ
  pub midpoint_den : ℕ
  pub pool_status : Bool
  pub last_tx_id : Option Text

unfoldable pub quote_amount_out :
    Profile
    → (dx x_balance y_balance x_decimals y_decimals protocol_fee_bps provider_fee_bps : ℕ)
    → (midpoint_num midpoint_den amp threshold : ℕ) → Outcome ℕ
quote_amount_out p dx x_balance y_balance x_decimals y_decimals protocol_fee_bps provider_fee_bps
      midpoint_num midpoint_den amp threshold =
    let (bx_s, by_s) = scale_up x_balance y_balance x_decimals y_decimals in
    let dx_s = (scale_up dx 0 x_decimals y_decimals).0 in
    let quoted = do
      fee ←
          add_word p u128_size (saturating_mul dx_s protocol_fee_bps / bps)
            (saturating_mul dx_s provider_fee_bps / bps)
      let dx_after_fees = saturating_sub dx_s fee
      dx_mid ← div_word (saturating_mul dx_after_fees midpoint_num) midpoint_den
      bx_mid ← div_word (saturating_mul bx_s midpoint_num) midpoint_den
      new_y_s ← get_y p dx_mid bx_mid by_s amp threshold
      let new_y = (scale_down 0 new_y_s x_decimals y_decimals).1
      returned (saturating_sub y_balance new_y)
    in if (dx == 0) || ((x_balance == 0) || ((y_balance == 0) || (midpoint_den == 0)))
      then returned 0
      else quoted

unfoldable pub quote_x_for_y : Profile → BitflowStableSwapV2Pool → ℕ → Outcome ℕ
quote_x_for_y p pool dx =
    if pool.pool_status
    then quote_amount_out p dx pool.x_balance pool.y_balance pool.x_decimals pool.y_decimals
        pool.x_protocol_fee_bps pool.x_provider_fee_bps pool.midpoint_num pool.midpoint_den pool.amp
        pool.threshold
    else returned 0

-- The midpoint is inverted.
unfoldable pub quote_y_for_x : Profile → BitflowStableSwapV2Pool → ℕ → Outcome ℕ
quote_y_for_x p pool dy =
    if pool.pool_status
    then quote_amount_out p dy pool.y_balance pool.x_balance pool.y_decimals pool.x_decimals
        pool.y_protocol_fee_bps pool.y_provider_fee_bps pool.midpoint_den pool.midpoint_num pool.amp
        pool.threshold
    else returned 0

unfoldable pub x_fee_bps : Profile → BitflowStableSwapV2Pool → Outcome ℕ
x_fee_bps p pool = add_word p u32_size pool.x_protocol_fee_bps pool.x_provider_fee_bps

unfoldable pub y_fee_bps : Profile → BitflowStableSwapV2Pool → Outcome ℕ
y_fee_bps p pool = add_word p u32_size pool.y_protocol_fee_bps pool.y_provider_fee_bps

unfoldable pub topics : BitflowStableSwapV2Pool → List StacksTopic
topics pool =
    record { contract = pool.pool_contract; action = bytes "update-pool-balances" }
    ∷ record { contract = pool.core_contract; action = bytes "set-midpoint" }
    ∷ []

unfoldable pub calculate_output :
    Profile → BitflowStableSwapV2Pool → Principal → ℕ → Result PoolError (Outcome ℕ)
calculate_output p pool token_in amount_in =
    by_token pool.x_token pool.y_token token_in (quote_x_for_y p pool amount_in)
      (quote_y_for_x p pool amount_in)
