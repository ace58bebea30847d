-- ===== src/Stableswap/BitflowV1.antt =====
-- src/stableswap/bitflow_v1.rs: the first generation of stable pools, in its two variants.
use stacks_dex_pool.Prelude.{ℕ, ◌/◌, Bool, Option, List, [], ◌∷◌, ◌==◌, ◌||◌, if◌then◌else◌}
use stacks_dex_pool.Prelude.Word.{saturating_mul, saturating_add, saturating_sub}
use stacks_dex_pool.Prelude.Text.{Text, bytes, text_eq}
use stacks_dex_pool.Prelude.Outcome.{Outcome, returned, ◌>>=◌, Profile, Result, ok, err}
use stacks_dex_pool.Pool.Principal.{Principal}
use stacks_dex_pool.Pool.Event.{StacksTopic}
use stacks_dex_pool.Pool.Base.{PoolError, by_token}
use stacks_dex_pool.Stableswap.Curve.{scale_up, scale_down, get_y}

abbrev bps : ℕ
bps = 10000

pub data Sig : Type 0 where
  stx_anchored token_pair : Sig

pub data MathVariant : Type 0 where
  bal_bug fixed : MathVariant

-- The unknown name.
pub data VariantError : Type 0 where
  unknown_variant : Text → VariantError

unfoldable pub parse : Text → Result VariantError MathVariant
parse s =
    if text_eq s (bytes "v1-bal-bug") || (text_eq s (bytes "bug") || text_eq s (bytes "buggy"))
    then ok bal_bug
    else if text_eq s (bytes "v1-fixed") || text_eq s (bytes "fixed")
    then ok fixed
    else err (unknown_variant s)

pub record BitflowStableSwapV1Pool : Type 0 where
  pub pool_contract : Principal
  pub lp_token : Principal
  pub x_token : Principal
  pub y_token : Principal
  pub x_decimals : ℕ
  pub y_decimals : ℕ
  pub x_balance : ℕ
  pub y_balance : ℕ
  pub amp : ℕ
  pub threshold : ℕ
  pub buy_fee_bps : ℕ
  pub sell_fee_bps : ℕ
  pub sig : Sig
  pub variant : MathVariant
  pub approval : Bool
  pub last_tx_id : Option Text

-- The balance that a variant hands to `get_y`.
abbrev pub x_for_y : MathVariant → (bx_s dx_net_scaled : ℕ) → ℕ
x_for_y bal_bug bx_s dx_net_scaled = saturating_add bx_s dx_net_scaled
x_for_y fixed bx_s dx_net_scaled = bx_s

-- The fee is taken from the unscaled amount, as the contract does.
unfoldable pub get_dy :
    Profile
    → (x_amount x_balance y_balance x_decimals y_decimals fee_total_bps amp threshold : ℕ)
    → MathVariant
    → Outcome ℕ
get_dy p x_amount x_balance y_balance x_decimals y_decimals fee_total_bps amp threshold variant =
    let (bx_s, by_s) = scale_up x_balance y_balance x_decimals y_decimals in
    let dx_s = (scale_up x_amount 0 x_decimals y_decimals).0 in
    let fee_total = saturating_mul x_amount fee_total_bps / bps in
    let dx_net_scaled = saturating_sub dx_s fee_total in
    let quoted = do
      new_y_scaled ← get_y p dx_net_scaled (x_for_y variant bx_s dx_net_scaled) by_s amp threshold
      let new_y = (scale_down 0 new_y_scaled x_decimals y_decimals).1
      returned (saturating_sub y_balance new_y)
    in if (x_amount == 0) || ((x_balance == 0) || (y_balance == 0)) then returned 0 else quoted

unfoldable pub quote_x_for_y : Profile → BitflowStableSwapV1Pool → ℕ → Outcome ℕ
quote_x_for_y p pool dx =
    if pool.approval
    then get_dy p dx pool.x_balance pool.y_balance pool.x_decimals pool.y_decimals pool.buy_fee_bps
        pool.amp pool.threshold pool.variant
    else returned 0

unfoldable pub quote_y_for_x : Profile → BitflowStableSwapV1Pool → ℕ → Outcome ℕ
quote_y_for_x p pool dy =
    if pool.approval
    then get_dy p dy pool.y_balance pool.x_balance pool.y_decimals pool.x_decimals pool.sell_fee_bps
        pool.amp pool.threshold pool.variant
    else returned 0

unfoldable pub topics : BitflowStableSwapV1Pool → List StacksTopic
topics pool = record { contract = pool.pool_contract; action = bytes "update-pool-balances" } ∷ []

unfoldable pub calculate_output :
    Profile → BitflowStableSwapV1Pool → Principal → ℕ → Result PoolError (Outcome ℕ)
calculate_output p pool token_in amount_in =
    by_token pool.x_token pool.y_token token_in (quote_x_for_y p pool amount_in)
      (quote_y_for_x p pool amount_in)
