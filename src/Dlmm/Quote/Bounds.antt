-- ===== src/Dlmm/Quote/Bounds.antt =====
-- Quotes return, and never promise more than the mirrored bins hold.
use stacks_dex_pool.Prelude.{
  ℕ, ◌+◌, ◌-◌, ◌≤◌, ◌<◌, Option, none, some, [], ◌∷◌, leb, ltb, ◌==◌, ◌≡◌, refl, ◌∙◌, arith, inl,
  inr, Bool-cases,
}
use stacks_dex_pool.Prelude.Int.{ℤ}
use stacks_dex_pool.Prelude.Word.{saturating_add, saturating_add-le}
use stacks_dex_pool.Prelude.Outcome.{Outcome, returned, Profile, Result, ok, err}
use stacks_dex_pool.BTreeMap.{BTreeMap}
use stacks_dex_pool.BTreeMap.Laws.{IsSorted}
use stacks_dex_pool.Dlmm.Constants.{fee_scale_bps}
use stacks_dex_pool.Dlmm.Math.{PriceError, bin_price, SingleBinSwap}
use stacks_dex_pool.Dlmm.Math.Bounds.{
  single_bin_swap_x_for_y_bounds, single_bin_swap_y_for_x_bounds,
}
use stacks_dex_pool.Dlmm.Pool.{BinState, DlmmPool, is_empty}
use stacks_dex_pool.Dlmm.Quote.{Quote, Direction, quote_of, down, up, quote_x_for_y, quote_y_for_x}
use stacks_dex_pool.Dlmm.Quote.Sweep.{sweep, sweep_priced, sweep_swapped, descending, ascending}
use stacks_dex_pool.Dlmm.Quote.Down.{quote_x_for_y-eq-sweep}
use stacks_dex_pool.Dlmm.Quote.Up.{quote_y_for_x-eq-sweep}

-- The output side of all the bins of a list.
abbrev pub inventory : (BinState → ℕ) → BTreeMap BinState → ℕ
inventory side [] = 0
inventory side ((_, b) ∷ bins) = side b + inventory side bins

-- A swap of a bin returns, and pays at most the bin's output side.
abbrev pub IsSafe : Direction → Type 0
IsSafe d =
    (amount : ℕ) (b : BinState) (price : ℕ)
    → (r : SingleBinSwap) × (d.swap amount b price ≡ returned r) × (r.dy ≤ d.output_side b)

-- The run returned a quote of at most `limit`.
abbrev pub PaysUpTo : ℕ → Outcome Quote → Type 0
PaysUpTo limit run = (q : Quote) × (run ≡ returned q) × (q.total ≤ limit)

module _ (pool : DlmmPool) (d : Direction) (safe : IsSafe d) where
  swapped_bounds :
      (k : ℤ) (b : BinState) (rest : ℕ → ℕ → Option ℤ → Outcome Quote) (more : ℕ)
      → ((left paid : ℕ) (last : Option ℤ) → PaysUpTo (paid + more) (rest left paid last))
      → (remaining total : ℕ) (last_bin : Option ℤ) (r : SingleBinSwap) → r.dy ≤ d.output_side b
      → PaysUpTo
          (total + (d.output_side b + more))
          (sweep_swapped d k b rest remaining total last_bin (returned r))
  swapped_bounds k b rest more ih remaining total last_bin r h = elim (Bool-cases (r.used == 0)) [
    | inl idle ↦ (quote_of total last_bin remaining, rw idle, omega arith)
    | inr moved ↦ elim (Bool-cases (leb (d.output_side b) r.dy)) [
      | inl drained ↦
          let paid = saturating_add total r.dy in
          let (q, e, le) = ih (remaining - r.used) paid (some k) in
          (q, rw (moved, drained) e, omega (arith, le, saturating_add-le total r.dy))
      | inr partial ↦
          let paid = saturating_add total r.dy in
          (
            quote_of paid (some k) (remaining - r.used),
            rw (moved, partial),
            omega (arith, saturating_add-le total r.dy),
          )
    ]
  ]

  priced_bounds :
      (k : ℤ) (b : BinState) (rest : ℕ → ℕ → Option ℤ → Outcome Quote) (more : ℕ)
      → ((left paid : ℕ) (last : Option ℤ) → PaysUpTo (paid + more) (rest left paid last))
      → (remaining total : ℕ) (last_bin : Option ℤ) (price : Result PriceError ℕ)
      → PaysUpTo
          (total + (d.output_side b + more))
          (sweep_priced d k b rest remaining total last_bin price)
  priced_bounds k b rest more ih remaining total last_bin (err _) =
      (quote_of total last_bin remaining, refl, omega arith)
  priced_bounds k b rest more ih remaining total last_bin (ok price) =
      let (r, e, h) = safe remaining b price in
      rw e (swapped_bounds k b rest more ih remaining total last_bin r h)

  -- A sweep adds at most the inventory that it passes.
  pub sweep_bounds :
      (bins : BTreeMap BinState) (remaining total : ℕ) (last_bin : Option ℤ)
      → PaysUpTo (total + inventory d.output_side bins) (sweep pool d bins remaining total last_bin)
  unfolding sweep
  sweep_bounds [] remaining total last_bin = (quote_of total last_bin remaining, refl, omega arith)
  sweep_bounds ((k, b) ∷ bins) remaining total last_bin = elim (Bool-cases (ltb 0 remaining)) [
    | inr spent ↦ (quote_of total last_bin 0, rw spent, omega arith)
    | inl more ↦ elim (Bool-cases (is_empty b)) [
      | inl hollow ↦
          let (q, e, le) = sweep_bounds bins remaining total last_bin in
          (q, rw (more, hollow) e, omega (arith, le))
      | inr full ↦
          rw (more, full)
            (priced_bounds k b (sweep pool d bins) (inventory d.output_side bins)
              (sweep_bounds bins) remaining total last_bin
              (bin_price pool.initial_price pool.factors k))
    ]
  ]

down-IsSafe :
    (p : Profile) (pool : DlmmPool)
    → pool.x_protocol_fee + pool.x_provider_fee + pool.x_variable_fee < fee_scale_bps
    → IsSafe (down p pool)
unfolding down
down-IsSafe p pool fees amount b price =
    let (r, e, bounds) =
      single_bin_swap_x_for_y_bounds p amount b.x b.y price pool.x_protocol_fee pool.x_provider_fee
        pool.x_variable_fee fees in
    (r, e, bounds.inventory_bound)

up-IsSafe :
    (p : Profile) (pool : DlmmPool)
    → pool.y_protocol_fee + pool.y_provider_fee + pool.y_variable_fee < fee_scale_bps
    → IsSafe (up p pool)
unfolding up
up-IsSafe p pool fees amount b price =
    let (r, e, bounds) =
      single_bin_swap_y_for_x_bounds p amount b.x b.y price pool.y_protocol_fee pool.y_provider_fee
        pool.y_variable_fee fees in
    (r, e, bounds.inventory_bound)

abbrev pub side_y : BinState → ℕ
side_y b = b.y

abbrev pub side_x : BinState → ℕ
side_x b = b.x

-- If the bins are sorted and the x fees add up to less than 10000 bps, `quote_x_for_y` returns for
-- every amount, in either build profile, and its total is at most the y that the bins at or below
-- the active one hold.
pub quote_x_for_y_bounds :
    (p : Profile) (pool : DlmmPool) (x_amount : ℕ)
    → IsSorted pool.bins
    → pool.x_protocol_fee + pool.x_provider_fee + pool.x_variable_fee < fee_scale_bps
    → PaysUpTo
        (inventory side_y (descending pool.active_bin_id pool.bins))
        (quote_x_for_y p pool x_amount)
unfolding down
quote_x_for_y_bounds p pool x_amount s fees =
    let (q, e, le) =
      sweep_bounds pool (down p pool) (down-IsSafe p pool fees)
        (descending pool.active_bin_id pool.bins) x_amount 0 none in
    (q, quote_x_for_y-eq-sweep p pool x_amount s ∙ e, omega (arith, le))

-- If the bins are sorted and the y fees add up to less than 10000 bps, `quote_y_for_x` returns for
-- every amount, in either build profile, and its total is at most the x that the bins at or above
-- the active one hold.
pub quote_y_for_x_bounds :
    (p : Profile) (pool : DlmmPool) (y_amount : ℕ)
    → IsSorted pool.bins
    → pool.y_protocol_fee + pool.y_provider_fee + pool.y_variable_fee < fee_scale_bps
    → PaysUpTo
        (inventory side_x (ascending pool.active_bin_id pool.bins))
        (quote_y_for_x p pool y_amount)
unfolding up
quote_y_for_x_bounds p pool y_amount s fees =
    let (q, e, le) =
      sweep_bounds pool (up p pool) (up-IsSafe p pool fees) (ascending pool.active_bin_id pool.bins)
        y_amount 0 none in
    (q, quote_y_for_x-eq-sweep p pool y_amount s ∙ e, omega (arith, le))
