-- ===== src/V2/Alex.antt =====
-- src/v2/alex.rs: the pools of the singleton `amm-pool-v2-01`, in fixed point with 8 decimals.
use stacks_dex_pool.Prelude.{
  ℕ, ◌+◌, ◌-◌, ◌/◌, ◌%◌, Option, List, [], ◌∷◌, leb, ◌==◌, ◌||◌, if◌then◌else◌,
}
use stacks_dex_pool.Prelude.Word.{saturating_mul, saturating_add, u32_size}
use stacks_dex_pool.Prelude.Text.{Text, bytes}
use stacks_dex_pool.Prelude.Outcome.{Result, ok, err}
use stacks_dex_pool.Pool.Principal.{Principal}
use stacks_dex_pool.Pool.Event.{StacksTopic}
use stacks_dex_pool.Pool.Base.{PoolError, unsupported_factor, by_token}

abbrev pub one_e8 : ℕ
one_e8 = 100000000

abbrev pub constant_product_factor : ℕ
constant_product_factor = one_e8

pub record AlexPool : Type 0 where
  pub pool_contract : Principal
  pub pool_id : ℕ
  pub x_token : Principal
  pub y_token : Principal
  pub x_decimals : ℕ
  pub y_decimals : ℕ
  pub balance_x : ℕ
  pub balance_y : ℕ
  pub factor : ℕ
  pub fee_rate_x : ℕ
  pub fee_rate_y : ℕ
  pub last_tx_id : Option Text

unfoldable pub mul_up : ℕ → ℕ → ℕ
mul_up a b =
    let product = saturating_mul a b in if product == 0 then 0 else 1 + (product - 1) / one_e8

unfoldable pub gmmm_dy : (x y factor dx : ℕ) → Result PoolError ℕ
gmmm_dy x y factor dx =
    if factor == constant_product_factor
    then if (dx == 0) || ((x == 0) || (y == 0))
      then ok 0
      else ok (saturating_mul dx y / saturating_add x dx)
    else err (unsupported_factor factor)

unfoldable pub quote_with_fee : (x y factor dx fee_rate : ℕ) → Result PoolError ℕ
quote_with_fee x y factor dx fee_rate =
    let fee = mul_up dx fee_rate in if leb dx fee then ok 0 else gmmm_dy x y factor (dx - fee)

-- `Result::unwrap_or(0)`.
abbrev pub unwrap_or_zero : Result PoolError ℕ → ℕ
unwrap_or_zero (ok n) = n
unwrap_or_zero (err _) = 0

unfoldable pub quote_x_for_y : AlexPool → ℕ → ℕ
quote_x_for_y pool dx =
    unwrap_or_zero (quote_with_fee pool.balance_x pool.balance_y pool.factor dx pool.fee_rate_x)

unfoldable pub quote_y_for_x : AlexPool → ℕ → ℕ
quote_y_for_x pool dy =
    unwrap_or_zero (quote_with_fee pool.balance_y pool.balance_x pool.factor dy pool.fee_rate_y)

unfoldable pub fee_bps_effective_x : AlexPool → ℕ
fee_bps_effective_x pool = saturating_mul pool.fee_rate_x 10000 / one_e8 % u32_size

unfoldable pub topics : AlexPool → List StacksTopic
topics pool =
    record { contract = pool.pool_contract; action = bytes "swap-x-for-y" }
    ∷ record { contract = pool.pool_contract; action = bytes "swap-y-for-x" }
    ∷ []

unfoldable pub calculate_output : AlexPool → Principal → ℕ → Result PoolError ℕ
calculate_output pool token_in amount_in =
    by_token pool.x_token pool.y_token token_in (quote_x_for_y pool amount_in)
      (quote_y_for_x pool amount_in)
