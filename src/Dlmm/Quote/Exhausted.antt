-- ===== src/Dlmm/Quote/Exhausted.antt =====
-- The exhausted quotes of the two directions, in terms of the bins and the fees of the pool.
use stacks_dex_pool.Prelude.{
  ℕ, ◌+◌, ◌*◌, ◌≤◌, ◌<◌, none, true, false, [], ◌∷◌, ◌≡◌, subst, ◌∙◌, arith, inl, inr,
}
use stacks_dex_pool.Prelude.Word.{u128_max}
use stacks_dex_pool.Prelude.Outcome.{returned, Profile, ok}
use stacks_dex_pool.BTreeMap.{BTreeMap}
use stacks_dex_pool.BTreeMap.Laws.{IsSorted}
use stacks_dex_pool.Dlmm.Constants.{fee_scale_bps, price_scale_bps}
use stacks_dex_pool.Dlmm.Math.{bin_price, SingleBinSwap}
use stacks_dex_pool.Dlmm.Math.Drain.{
  IsWordSized, IsExact, single_bin_swap_x_for_y-IsExact, single_bin_swap_y_for_x-IsExact,
}
use stacks_dex_pool.Dlmm.Math.Bounds.{
  IsBounded, single_bin_swap_x_for_y_bounds, single_bin_swap_y_for_x_bounds,
}
use stacks_dex_pool.Prelude.Division.{div_ceil-pos}
use native.Mathlib.Nat.{one-le-mul}
use stacks_dex_pool.Dlmm.Pool.{BinState, DlmmPool, is_empty}
use stacks_dex_pool.Dlmm.Quote.{Direction, down, up, quote_x_for_y, quote_y_for_x}
use stacks_dex_pool.Dlmm.Quote.Sweep.{descending, ascending}
use stacks_dex_pool.Dlmm.Quote.Bounds.{inventory, side_x, side_y}
use stacks_dex_pool.Dlmm.Quote.Exact.{Drains, AllLiquid, PaysAllIfExhausted, sweep_exact}
use stacks_dex_pool.Dlmm.Quote.Down.{quote_x_for_y-eq-sweep}
use stacks_dex_pool.Dlmm.Quote.Up.{quote_y_for_x-eq-sweep}

-- What makes a bin of price `price` pay out: an output side, and products that fit a `u128`.
pub record IsTradable (out num den price : ℕ) : Type 0 where
  pub has_price : 0 < price
  pub has_output : 0 < out
  pub word_sized : IsWordSized out num den

-- Every bin of the list that is not empty has a price at which it is tradable; `rate` gives the
-- numerator and the denominator of the price.
abbrev pub AllTradable : DlmmPool → (BinState → ℕ) → (ℕ → ℕ × ℕ) → BTreeMap BinState → Type 0
AllTradable pool side rate [] = Unit
AllTradable pool side rate ((k, b) ∷ bins) =
    (is_empty b ≡ false
      → (price : ℕ) × (bin_price pool.initial_price pool.factors k ≡ ok price)
        × IsTradable (side b) (rate price).0 (rate price).1 price)
    × AllTradable pool side rate bins

drains :
    (d : Direction) (b : BinState) (amount num den price : ℕ) (r : SingleBinSwap)
    → d.swap amount b price ≡ returned r
    → 0 < amount
    → 0 < num
    → 0 < den
    → 0 < d.output_side b
    → IsBounded amount (d.output_side b) num den r
    → IsExact amount (d.output_side b) num den r
    → Drains d b amount price
drains d b amount num den price r e pa pn pd po bounds exact = record {
  result = r;
  returns = e;
  moves = elim exact [
    | inl all ↦ omega (arith, all)
    | inr whole ↦ omega (
      arith,
      whole.1,
      bounds.net_bound,
      div_ceil-pos (d.output_side b * den) num (one-le-mul po pd) pn,
    )
  ];
  within = bounds.used_bound;
  exact = elim exact [ inl all ↦ inl all | inr whole ↦ inr whole.0 ];
  capped = bounds.inventory_bound;
}

abbrev pub rate_down : ℕ → ℕ × ℕ
rate_down price = (price, price_scale_bps)

abbrev pub rate_up : ℕ → ℕ × ℕ
rate_up price = (price_scale_bps, price)

module _ (p : Profile) (pool : DlmmPool) where
  down-Drains :
      (b : BinState) (amount price : ℕ)
      → pool.x_protocol_fee + pool.x_provider_fee + pool.x_variable_fee < fee_scale_bps
      → 0 < amount
      → IsTradable b.y price price_scale_bps price
      → Drains (down p pool) b amount price
  unfolding down
  down-Drains b amount price fees pa t =
      let (r, e, exact) =
        single_bin_swap_x_for_y-IsExact p amount b.x b.y price pool.x_protocol_fee
          pool.x_provider_fee pool.x_variable_fee fees t.has_price t.word_sized in
      let (r', e', bounds) =
        single_bin_swap_x_for_y_bounds p amount b.x b.y price pool.x_protocol_fee
          pool.x_provider_fee pool.x_variable_fee fees in
      let same : r' ≡ r = cc (e, e') in
      drains (down p pool) b amount price price_scale_bps price r e pa t.has_price (omega arith)
        t.has_output (subst (IsBounded amount b.y price price_scale_bps) same bounds) exact

  down-AllLiquid :
      (bins : BTreeMap BinState)
      → pool.x_protocol_fee + pool.x_provider_fee + pool.x_variable_fee < fee_scale_bps
      → AllTradable pool side_y rate_down bins
      → AllLiquid pool (down p pool) bins
  down-AllLiquid [] fees t = tt
  down-AllLiquid ((k, b) ∷ bins) fees t = (
    λ full.
        let (price, e, tradable) = t.0 full in
        (price, e, λ amount pa. down-Drains b amount price fees pa tradable),
    down-AllLiquid bins fees t.1,
  )

  hollow_y : (b : BinState) → is_empty b ≡ true → (down p pool).output_side b ≡ 0
  unfolding down
  hollow_y b h = ground arith

  -- Let the bins be sorted, the x fees add up to less than 10000 bps, every bin at or below the
  -- active one that is not empty be tradable, and their y add up to a `u128`. Then `quote_x_for_y`
  -- returns, and if it reports `window_exhausted`, its total is all the y of those bins.
  pub quote_x_for_y_exact :
      (x_amount : ℕ)
      → IsSorted pool.bins
      → pool.x_protocol_fee + pool.x_provider_fee + pool.x_variable_fee < fee_scale_bps
      → AllTradable pool side_y rate_down (descending pool.active_bin_id pool.bins)
      → inventory side_y (descending pool.active_bin_id pool.bins) ≤ u128_max
      → PaysAllIfExhausted
          (inventory side_y (descending pool.active_bin_id pool.bins))
          (quote_x_for_y p pool x_amount)
  unfolding down
  quote_x_for_y_exact x_amount s fees tradable fits =
      let bins = descending pool.active_bin_id pool.bins in
      let (q, e, all) =
        sweep_exact pool (down p pool) hollow_y bins x_amount 0 none
          (down-AllLiquid bins fees tradable) (omega arith) in
      (q, quote_x_for_y-eq-sweep p pool x_amount s ∙ e, λ h. omega (arith, all h))

  up-Drains :
      (b : BinState) (amount price : ℕ)
      → pool.y_protocol_fee + pool.y_provider_fee + pool.y_variable_fee < fee_scale_bps
      → 0 < amount
      → IsTradable b.x price_scale_bps price price
      → Drains (up p pool) b amount price
  unfolding up
  up-Drains b amount price fees pa t =
      let (r, e, exact) =
        single_bin_swap_y_for_x-IsExact p amount b.x b.y price pool.y_protocol_fee
          pool.y_provider_fee pool.y_variable_fee fees t.has_price t.word_sized in
      let (r', e', bounds) =
        single_bin_swap_y_for_x_bounds p amount b.x b.y price pool.y_protocol_fee
          pool.y_provider_fee pool.y_variable_fee fees in
      let same : r' ≡ r = cc (e, e') in
      drains (up p pool) b amount price_scale_bps price price r e pa (omega arith) t.has_price
        t.has_output (subst (IsBounded amount b.x price_scale_bps price) same bounds) exact

  up-AllLiquid :
      (bins : BTreeMap BinState)
      → pool.y_protocol_fee + pool.y_provider_fee + pool.y_variable_fee < fee_scale_bps
      → AllTradable pool side_x rate_up bins
      → AllLiquid pool (up p pool) bins
  up-AllLiquid [] fees t = tt
  up-AllLiquid ((k, b) ∷ bins) fees t = (
    λ full.
        let (price, e, tradable) = t.0 full in
        (price, e, λ amount pa. up-Drains b amount price fees pa tradable),
    up-AllLiquid bins fees t.1,
  )

  hollow_x : (b : BinState) → is_empty b ≡ true → (up p pool).output_side b ≡ 0
  unfolding up
  hollow_x b h = ground arith

  -- Let the bins be sorted, the y fees add up to less than 10000 bps, every bin at or above the
  -- active one that is not empty be tradable, and their x add up to a `u128`. Then `quote_y_for_x`
  -- returns, and if it reports `window_exhausted`, its total is all the x of those bins.
  pub quote_y_for_x_exact :
      (y_amount : ℕ)
      → IsSorted pool.bins
      → pool.y_protocol_fee + pool.y_provider_fee + pool.y_variable_fee < fee_scale_bps
      → AllTradable pool side_x rate_up (ascending pool.active_bin_id pool.bins)
      → inventory side_x (ascending pool.active_bin_id pool.bins) ≤ u128_max
      → PaysAllIfExhausted
          (inventory side_x (ascending pool.active_bin_id pool.bins))
          (quote_y_for_x p pool y_amount)
  unfolding up
  quote_y_for_x_exact y_amount s fees tradable fits =
      let bins = ascending pool.active_bin_id pool.bins in
      let (q, e, all) =
        sweep_exact pool (up p pool) hollow_x bins y_amount 0 none (up-AllLiquid bins fees tradable)
          (omega arith) in
      (q, quote_y_for_x-eq-sweep p pool y_amount s ∙ e, λ h. omega (arith, all h))
