-- ===== src/V2/Math.antt =====
-- src/v2/math.rs: the constant-product quote with a fee. Every operation here is saturating or
-- guarded, so nothing overflows.
pub mod Swap
pub mod Ratio
use stacks_dex_pool.Prelude.{ℕ, ◌-◌, ◌/◌, Bool, ltb, leb, ◌==◌, ◌||◌, if◌then◌else◌}
use stacks_dex_pool.Prelude.Word.{saturating_mul, saturating_add, saturating_sub}

unfoldable pub quote_amount_out_with_fee_ratio : (dx reserve_in reserve_out fee_num fee_den : ℕ) → ℕ
quote_amount_out_with_fee_ratio dx reserve_in reserve_out fee_num fee_den =
    let dx_after_fee = saturating_mul dx fee_num / fee_den in
    if (dx == 0)
      || ((reserve_in == 0) || ((reserve_out == 0) || ((fee_den == 0) || ltb fee_den fee_num)))
    then 0
    else if dx_after_fee == 0
    then 0
    else saturating_mul reserve_out dx_after_fee / saturating_add reserve_in dx_after_fee

unfoldable pub quote_amount_out_with_fee_bps : (dx reserve_in reserve_out fee_bps : ℕ) → ℕ
quote_amount_out_with_fee_bps dx reserve_in reserve_out fee_bps =
    if leb 10000 fee_bps
    then 0
    else quote_amount_out_with_fee_ratio dx reserve_in reserve_out (10000 - fee_bps) 10000

unfoldable pub invariant_non_decreasing : (reserve_in reserve_out dx dy : ℕ) → Bool
invariant_non_decreasing reserve_in reserve_out dx dy =
    leb (saturating_mul reserve_in reserve_out)
      (saturating_mul (saturating_add reserve_in dx) (saturating_sub reserve_out dy))
