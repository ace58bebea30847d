-- ===== src/Dlmm/Quote/Sweep.antt =====
-- The specification of a quote: one pass over the list of the mirrored bins, in walking order. Gaps,
-- empty bins, the window test and fuel are gone.
use stacks_dex_pool.Prelude.{
  ℕ, ◌-◌, Option, some, [], ◌∷◌, ◌++◌, ltb, leb, ◌==◌, ◌&&◌, if◌then◌else◌,
}
use stacks_dex_pool.Prelude.Int.{ℤ, leb_ℤ}
use stacks_dex_pool.Prelude.Word.{saturating_add}
use stacks_dex_pool.Prelude.Outcome.{Outcome, returned, panicked, out_of_fuel, Result, ok, err}
use stacks_dex_pool.BTreeMap.{BTreeMap}
use stacks_dex_pool.Dlmm.Constants.{min_bin_id, max_bin_id}
use stacks_dex_pool.Dlmm.Math.{PriceError, bin_price, SingleBinSwap}
use stacks_dex_pool.Dlmm.Pool.{BinState, DlmmPool, is_empty}
use stacks_dex_pool.Dlmm.Quote.{Quote, Direction, quote_of}

-- What is left to do after a bin: go on with `rest`, or stop.
abbrev pub sweep_swapped :
    Direction
    → ℤ
    → BinState
    → (ℕ → ℕ → Option ℤ → Outcome Quote)
    → ℕ
    → ℕ
    → Option ℤ
    → Outcome SingleBinSwap
    → Outcome Quote
sweep_swapped d k b rest remaining total last_bin (returned r) =
    let left = remaining - r.used in
    let paid = saturating_add total r.dy in
    if r.used == 0
    then returned (quote_of total last_bin remaining)
    else if leb (d.output_side b) r.dy
    then rest left paid (some k)
    else returned (quote_of paid (some k) left)
sweep_swapped d k b rest remaining total last_bin panicked = panicked
sweep_swapped d k b rest remaining total last_bin out_of_fuel = out_of_fuel

abbrev pub sweep_priced :
    Direction
    → ℤ
    → BinState
    → (ℕ → ℕ → Option ℤ → Outcome Quote)
    → ℕ
    → ℕ
    → Option ℤ
    → Result PriceError ℕ
    → Outcome Quote
sweep_priced d k b rest remaining total last_bin (ok price) =
    sweep_swapped d k b rest remaining total last_bin (d.swap remaining b price)
sweep_priced d k b rest remaining total last_bin (err _) =
    returned (quote_of total last_bin remaining)

unfoldable pub sweep : DlmmPool → Direction → BTreeMap BinState → ℕ → ℕ → Option ℤ → Outcome Quote
sweep pool d [] remaining total last_bin = returned (quote_of total last_bin remaining)
sweep pool d ((k, b) ∷ bins) remaining total last_bin =
    let rest = sweep pool d bins in
    if ltb 0 remaining
    then if is_empty b
      then rest remaining total last_bin
      else sweep_priced d k b rest remaining total last_bin
          (bin_price pool.initial_price pool.factors k)
    else returned (quote_of total last_bin 0)

-- The bins of the range at or below `active`, highest first.
unfoldable pub descending : ℤ → BTreeMap BinState → BTreeMap BinState
descending active [] = []
descending active ((k, b) ∷ bins) =
    descending active bins ++ (if leb_ℤ k active && leb_ℤ min_bin_id k then (k, b) ∷ [] else [])

-- The bins of the range at or above `active`, lowest first.
unfoldable pub ascending : ℤ → BTreeMap BinState → BTreeMap BinState
ascending active [] = []
ascending active ((k, b) ∷ bins) =
    (if leb_ℤ active k && leb_ℤ k max_bin_id then (k, b) ∷ [] else []) ++ ascending active bins
