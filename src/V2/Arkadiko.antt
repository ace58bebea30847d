-- ===== src/V2/Arkadiko.antt =====
-- src/v2/arkadiko.rs: the pairs of one singleton contract, at a fixed fee of 30 bps.
use stacks_dex_pool.Prelude.{ℕ, Bool, Option, List, [], ◌∷◌, if◌then◌else◌}
use stacks_dex_pool.Prelude.Text.{Text, bytes}
use stacks_dex_pool.Prelude.Outcome.{Result}
use stacks_dex_pool.Pool.Principal.{Principal}
use stacks_dex_pool.Pool.Event.{StacksTopic}
use stacks_dex_pool.Pool.Base.{PoolError, by_token}
use stacks_dex_pool.V2.Math.{quote_amount_out_with_fee_ratio}

abbrev pub arkadiko_fee_num : ℕ
arkadiko_fee_num = 997

abbrev pub arkadiko_fee_den : ℕ
arkadiko_fee_den = 1000

abbrev pub arkadiko_fee_bps : ℕ
arkadiko_fee_bps = 30

pub record ArkadikoPool : Type 0 where
  pub pool_contract : Principal
  pub swap_token : Principal
  pub x_token : Principal
  pub y_token : Principal
  pub x_decimals : ℕ
  pub y_decimals : ℕ
  pub balance_x : ℕ
  pub balance_y : ℕ
  pub enabled : Bool
  pub last_tx_id : Option Text

unfoldable pub quote_x_for_y : ArkadikoPool → ℕ → ℕ
quote_x_for_y pool dx =
    if pool.enabled
    then quote_amount_out_with_fee_ratio dx pool.balance_x pool.balance_y arkadiko_fee_num
        arkadiko_fee_den
    else 0

unfoldable pub quote_y_for_x : ArkadikoPool → ℕ → ℕ
quote_y_for_x pool dy =
    if pool.enabled
    then quote_amount_out_with_fee_ratio dy pool.balance_y pool.balance_x arkadiko_fee_num
        arkadiko_fee_den
    else 0

unfoldable pub topics : ArkadikoPool → List StacksTopic
topics pool =
    record { contract = pool.pool_contract; action = bytes "swap-x-for-y" }
    ∷ record { contract = pool.pool_contract; action = bytes "swap-y-for-x" }
    ∷ []

unfoldable pub calculate_output : ArkadikoPool → Principal → ℕ → Result PoolError ℕ
calculate_output pool token_in amount_in =
    by_token pool.x_token pool.y_token token_in (quote_x_for_y pool amount_in)
      (quote_y_for_x pool amount_in)
