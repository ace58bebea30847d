-- ===== src/Dlmm/Math.antt =====
-- src/dlmm/math.rs: the price of a bin and the swap of a single bin, in both directions.
pub mod Closed
pub mod Bounds
pub mod Drain
pub mod Monotone
use stacks_dex_pool.Prelude.{
  ℕ, ◌/◌, min, Option, none, some, List, get_elem?, ltb, ◌==◌, if◌then◌else◌,
}
use stacks_dex_pool.Prelude.Int.{ℤ, pos, negsuc, ◌+ℤ◌, leb_ℤ}
use stacks_dex_pool.Prelude.Division.{div_ceil}
use stacks_dex_pool.Prelude.Word.{saturating_mul, checked_mul, u32_size, u128_size, i32_max}
use stacks_dex_pool.Prelude.Outcome.{
  Outcome, returned, ◌>>=◌, Profile, add_word, sub_word, div_word, Result, ok, err,
}
use stacks_dex_pool.Dlmm.Constants.{center_bin_id, price_scale_bps, fee_scale_bps}

-- The three messages of `bin_price`.
pub data PriceError : Type 0 where
  bin_id_overflow : PriceError
  out_of_factor_range : ℤ → PriceError
  price_overflow : PriceError

-- `factors[unsigned as usize]`, or nothing for a negative index or one past the end.
abbrev factor_at : List ℕ → ℤ → Option ℕ
factor_at factors (pos n) = get_elem? factors n
factor_at factors (negsuc _) = none

abbrev scaled_price : Option ℕ → Result PriceError ℕ
scaled_price none = err price_overflow
scaled_price (some product) = ok (product / price_scale_bps)

abbrev price_of_factor : ℕ → ℤ → Option ℕ → Result PriceError ℕ
price_of_factor initial_price signed_bin_id none = err (out_of_factor_range signed_bin_id)
price_of_factor initial_price signed_bin_id (some factor) =
    scaled_price (checked_mul initial_price factor)

unfoldable pub bin_price : ℕ → List ℕ → ℤ → Result PriceError ℕ
bin_price initial_price factors signed_bin_id =
    let unsigned = signed_bin_id +ℤ center_bin_id in
    if leb_ℤ unsigned i32_max
    then price_of_factor initial_price signed_bin_id (factor_at factors unsigned)
    else err bin_id_overflow

pub record SingleBinSwap : Type 0 where
  pub dx_after_fee : ℕ
  pub dy : ℕ
  pub used : ℕ

abbrev pub no_swap : SingleBinSwap
no_swap = record { dx_after_fee = 0; dy = 0; used = 0 }

-- The gross input whose net part is `max_no_fee`. The fee is a `u32`: at 10000 the division panics,
-- above it the subtraction overflows.
max_with_fee : Profile → ℕ → ℕ → Outcome ℕ
max_with_fee p max_no_fee total_fee =
    let grossed = do
      denom ← sub_word p u32_size fee_scale_bps total_fee
      div_word (saturating_mul max_no_fee fee_scale_bps) denom
    in if ltb 0 total_fee then grossed else returned max_no_fee

unfoldable pub single_bin_swap_x_for_y :
    Profile
    → (x_amount x_balance y_balance price : ℕ) (protocol_fee provider_fee variable_fee : ℕ)
    → Outcome SingleBinSwap
unfolding max_with_fee
single_bin_swap_x_for_y p x_amount x_balance y_balance price protocol_fee provider_fee
      variable_fee =
    let swapped = do
      fixed_fee ← add_word p u32_size protocol_fee provider_fee
      total_fee ← add_word p u32_size fixed_fee variable_fee
      max_x ← max_with_fee p (div_ceil (saturating_mul y_balance price_scale_bps) price) total_fee
      let used = min x_amount max_x
      dx ← sub_word p u128_size used (saturating_mul used total_fee / fee_scale_bps)
      let dy_uncapped = saturating_mul dx price / price_scale_bps
      returned (record { dx_after_fee = dx; dy = min dy_uncapped y_balance; used = used })
    in if price == 0 then returned no_swap else swapped

-- `dy` is the output side here too: it holds the x received.
unfoldable pub single_bin_swap_y_for_x :
    Profile
    → (y_amount x_balance y_balance price : ℕ) (protocol_fee provider_fee variable_fee : ℕ)
    → Outcome SingleBinSwap
unfolding max_with_fee
single_bin_swap_y_for_x p y_amount x_balance y_balance price protocol_fee provider_fee
      variable_fee =
    let swapped = do
      fixed_fee ← add_word p u32_size protocol_fee provider_fee
      total_fee ← add_word p u32_size fixed_fee variable_fee
      max_y ← max_with_fee p (div_ceil (saturating_mul x_balance price) price_scale_bps) total_fee
      let used = min y_amount max_y
      dy_after ← sub_word p u128_size used (saturating_mul used total_fee / fee_scale_bps)
      let dx_uncapped = saturating_mul dy_after price_scale_bps / price
      returned (record { dx_after_fee = dy_after; dy = min dx_uncapped x_balance; used = used })
    in if price == 0 then returned no_swap else swapped
