-- ===== src/Dlmm/Tests.antt =====
-- The swap arithmetic and the quotes of a pool, and the theorems at it.
use stacks_dex_pool.Prelude.{◌≤◌, ◌≡◌, refl, none, some, true, false, arith}
use stacks_dex_pool.Prelude.Int.{pos, negsuc, ◌+ℤ◌, ◌-ℤ◌}
use stacks_dex_pool.Prelude.Word.{saturating_mul, saturating_add, checked_mul, u128_max}
use stacks_dex_pool.Prelude.Division.{div_ceil}
use stacks_dex_pool.Prelude.Outcome.{returned, checked, wrapping, add_word, sub_word, div_word}
use stacks_dex_pool.BTreeMap.{get}
use stacks_dex_pool.Dlmm.Constants.{price_scale_bps}
use stacks_dex_pool.Dlmm.Math.{
  bin_price, SingleBinSwap, single_bin_swap_x_for_y, single_bin_swap_y_for_x,
}
use stacks_dex_pool.Dlmm.Math.Drain.{IsExact, IsWordSized, single_bin_swap_x_for_y-IsExact}
use stacks_dex_pool.Dlmm.Pool.{DlmmPool}
use stacks_dex_pool.Dlmm.Quote.{quote_x_for_y, quote_y_for_x, down, up}
use stacks_dex_pool.Dlmm.Quote.Sweep.{sweep, descending, ascending}
use stacks_dex_pool.Dlmm.Quote.Down.{quote_x_for_y-eq-sweep}
use stacks_dex_pool.Dlmm.Quote.Up.{quote_y_for_x-eq-sweep}
use stacks_dex_pool.Dlmm.Quote.Bounds.{PaysUpTo, inventory, side_x, side_y, quote_x_for_y_bounds}
use stacks_dex_pool.Dlmm.Quote.Exact.{PaysAllIfExhausted}
use stacks_dex_pool.Dlmm.Quote.Exhausted.{
  AllTradable, IsTradable, rate_down, rate_up, quote_x_for_y_exact, quote_y_for_x_exact,
}
use stacks_dex_pool.Dlmm.Quote.Stall.{quote_x_for_y_stalls}
use stacks_dex_pool.Dlmm.Samples.{bin, pool_at, sample_bins, sample, sorted}

quotes_down :
    (quote_x_for_y checked sample 1000
      ≡ returned (record { total = 997; last_bin = some (pos 0); window_exhausted = false }))
    × (quote_x_for_y checked sample 1_500_000
        ≡ returned
            (record { total = 1_495_501; last_bin = some (negsuc 1); window_exhausted = false }))
    × (quote_x_for_y checked sample 9_000_000
        ≡ returned
            (record { total = 3_000_000; last_bin = some (negsuc 2); window_exhausted = true }))
unfolding quote_x_for_y quote_y_for_x get bin_price checked_mul single_bin_swap_x_for_y
    single_bin_swap_y_for_x saturating_mul saturating_add u128_max div_ceil add_word sub_word
    div_word ◌+ℤ◌ ◌-ℤ◌
quotes_down = (refl, refl, refl)

quotes_up :
    quote_y_for_x wrapping sample 9_000_000
    ≡ returned (record { total = 2_000_000; last_bin = some (pos 3); window_exhausted = true })
unfolding quote_x_for_y quote_y_for_x get bin_price checked_mul single_bin_swap_x_for_y
    single_bin_swap_y_for_x saturating_mul saturating_add u128_max div_ceil add_word sub_word
    div_word ◌+ℤ◌ ◌-ℤ◌
quotes_up = refl

sized : IsWordSized 100 100_000_000 100_000_000
unfolding u128_max div_ceil
sized = omega arith

single_bin_swap_x_for_y-IsExact_example :
    (r : SingleBinSwap) × (single_bin_swap_x_for_y checked 1_000_000 0 100 100_000_000 15 15 0
      ≡ returned r)
    × IsExact 1_000_000 100 100_000_000 price_scale_bps r
single_bin_swap_x_for_y-IsExact_example =
    single_bin_swap_x_for_y-IsExact checked 1_000_000 0 100 100_000_000 15 15 0 (omega arith)
      (omega arith) sized

quote_x_for_y-eq-sweep_example :
    quote_x_for_y checked sample 1_500_000
    ≡ sweep sample (down checked sample) (descending (pos 0) sample.bins) 1_500_000 0 none
quote_x_for_y-eq-sweep_example = quote_x_for_y-eq-sweep checked sample 1_500_000 sorted

quote_y_for_x-eq-sweep_example :
    quote_y_for_x checked sample 1_500_000
    ≡ sweep sample (up checked sample) (ascending (pos 0) sample.bins) 1_500_000 0 none
quote_y_for_x-eq-sweep_example = quote_y_for_x-eq-sweep checked sample 1_500_000 sorted

quote_x_for_y_bounds_example :
    PaysUpTo
      (inventory side_y (descending (pos 0) sample.bins))
      (quote_x_for_y checked sample 9_000_000)
quote_x_for_y_bounds_example = quote_x_for_y_bounds checked sample 9_000_000 sorted (omega arith)

tradable : IsTradable 1_000_000 100_000_000 100_000_000 100_000_000
unfolding u128_max div_ceil
tradable = omega arith

all_y : AllTradable sample side_y rate_down (descending (pos 0) sample.bins)
unfolding bin_price checked_mul u128_max ◌+ℤ◌ descending
all_y = (
  (λ h. (100_000_000, refl, tradable)),
  ((λ h. (100_000_000, refl, tradable)), ((λ h. (100_000_000, refl, tradable)), tt)),
)

all_x : AllTradable sample side_x rate_up (ascending (pos 0) sample.bins)
unfolding bin_price checked_mul u128_max ◌+ℤ◌ ascending
all_x =
    ((λ h. (100_000_000, refl, tradable)), ((λ h. cc), ((λ h. (100_000_000, refl, tradable)), tt)))

little_y : inventory side_y (descending (pos 0) sample.bins) ≤ u128_max
unfolding descending u128_max
little_y = omega arith

little_x : inventory side_x (ascending (pos 0) sample.bins) ≤ u128_max
unfolding ascending u128_max
little_x = omega arith

quote_x_for_y_exact_example :
    PaysAllIfExhausted
      (inventory side_y (descending (pos 0) sample.bins))
      (quote_x_for_y checked sample 9_000_000)
quote_x_for_y_exact_example =
    quote_x_for_y_exact checked sample 9_000_000 sorted (omega arith) all_y little_y

quote_y_for_x_exact_example :
    PaysAllIfExhausted
      (inventory side_x (ascending (pos 0) sample.bins))
      (quote_y_for_x checked sample 9_000_000)
quote_y_for_x_exact_example =
    quote_y_for_x_exact checked sample 9_000_000 sorted (omega arith) all_x little_x

-- The active bin of `stalled` has no y, and three million y lie below it.
abbrev stalled : DlmmPool
stalled = pool_at (pos 3) sample_bins

stalled_bin : get (pos 3) sample_bins ≡ some (bin 1_000_000 0)
unfolding get
stalled_bin = refl

quote_x_for_y_stalls_example :
    quote_x_for_y checked stalled 1000
    ≡ returned (record { total = 0; last_bin = none; window_exhausted = true })
quote_x_for_y_stalls_example =
    quote_x_for_y_stalls checked stalled (bin 1_000_000 0) (omega arith) refl 1000 (omega arith)
      (omega arith) stalled_bin (omega arith)
