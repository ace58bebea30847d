-- ===== src/V2/BitflowXyk.antt =====
-- src/v2/bitflow_xyk.rs: one contract for each pool, with fees for each direction.
use stacks_dex_pool.Prelude.{ℕ, ◌/◌, Bool, Option, List, [], ◌∷◌, ◌==◌, ◌||◌, if◌then◌else◌}
use stacks_dex_pool.Prelude.Word.{saturating_mul, saturating_sub, u32_size, u128_size}
use stacks_dex_pool.Prelude.Text.{Text, bytes}
use stacks_dex_pool.Prelude.Outcome.{Outcome, returned, ◌>>=◌, Profile, add_word, div_word, Result}
use stacks_dex_pool.Pool.Principal.{Principal}
use stacks_dex_pool.Pool.Event.{StacksTopic}
use stacks_dex_pool.Pool.Base.{PoolError, by_token}

abbrev pub bps : ℕ
bps = 10000

pub record BitflowXykPool : Type 0 where
  pub pool_contract : Principal
  pub core_contract : Principal
  pub x_token : Principal
  pub y_token : Principal
  pub x_decimals : ℕ
  pub y_decimals : ℕ
  pub x_balance : ℕ
  pub y_balance : ℕ
  pub x_protocol_fee_bps : ℕ
  pub x_provider_fee_bps : ℕ
  pub y_protocol_fee_bps : ℕ
  pub y_provider_fee_bps : ℕ
  pub pool_status : Bool
  pub last_tx_id : Option Text

-- The sums of the fees and of the balance are plain additions of words.
unfoldable pub quote_amount_out :
    Profile → (dx x_balance y_balance protocol_fee provider_fee : ℕ) → Outcome ℕ
quote_amount_out p dx x_balance y_balance protocol_fee provider_fee =
    let fee_protocol = saturating_mul dx protocol_fee / bps in
    let fee_provider = saturating_mul dx provider_fee / bps in
    let swapped = do
      fee ← add_word p u128_size fee_protocol fee_provider
      let dx_net = saturating_sub dx fee
      let paid = do
        denom ← add_word p u128_size x_balance dx_net
        div_word (saturating_mul y_balance dx_net) denom
      if dx_net == 0 then returned 0 else paid
    in if (dx == 0) || ((x_balance == 0) || (y_balance == 0)) then returned 0 else swapped

unfoldable pub quote_x_for_y : Profile → BitflowXykPool → ℕ → Outcome ℕ
quote_x_for_y p pool dx =
    if pool.pool_status
    then quote_amount_out p dx pool.x_balance pool.y_balance pool.x_protocol_fee_bps
        pool.x_provider_fee_bps
    else returned 0

unfoldable pub quote_y_for_x : Profile → BitflowXykPool → ℕ → Outcome ℕ
quote_y_for_x p pool dy =
    if pool.pool_status
    then quote_amount_out p dy pool.y_balance pool.x_balance pool.y_protocol_fee_bps
        pool.y_provider_fee_bps
    else returned 0

unfoldable pub x_fee_bps : Profile → BitflowXykPool → Outcome ℕ
x_fee_bps p pool = add_word p u32_size pool.x_protocol_fee_bps pool.x_provider_fee_bps

unfoldable pub y_fee_bps : Profile → BitflowXykPool → Outcome ℕ
y_fee_bps p pool = add_word p u32_size pool.y_protocol_fee_bps pool.y_provider_fee_bps

unfoldable pub topics : BitflowXykPool → List StacksTopic
topics pool = record { contract = pool.pool_contract; action = bytes "update-pool-balances" } ∷ []

-- The direction is chosen first, so that only its quote runs.
unfoldable pub calculate_output :
    Profile → BitflowXykPool → Principal → ℕ → Result PoolError (Outcome ℕ)
calculate_output p pool token_in amount_in =
    by_token pool.x_token pool.y_token token_in (quote_x_for_y p pool amount_in)
      (quote_y_for_x p pool amount_in)
