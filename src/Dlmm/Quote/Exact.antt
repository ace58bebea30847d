-- ===== src/Dlmm/Quote/Exact.antt =====
-- What `window_exhausted` means: every bin that the walk could reach has been paid out.
use stacks_dex_pool.Prelude.{
  ℕ, zero, suc, ◌+◌, ◌-◌, ◌≤◌, ◌<◌, Option, some, true, false, [], ◌∷◌, leb, ◌≡◌, ◌⊎◌, refl, ap,
  subst, ◌∙◌, arith, inl, inr, Bool-cases, lt→ltb, le→leb,
}
use stacks_dex_pool.Prelude.Int.{ℤ}
use stacks_dex_pool.Prelude.Word.{saturating_add, saturating_add-eq, u128_max}
use stacks_dex_pool.Prelude.Outcome.{Outcome, returned, ok}
use stacks_dex_pool.BTreeMap.{BTreeMap}
use stacks_dex_pool.Dlmm.Math.{bin_price, SingleBinSwap}
use stacks_dex_pool.Dlmm.Math.Closed.{not_zero}
use stacks_dex_pool.Dlmm.Pool.{BinState, DlmmPool, is_empty}
use stacks_dex_pool.Dlmm.Quote.{Quote, Direction, quote_of}
use stacks_dex_pool.Dlmm.Quote.Sweep.{sweep, sweep_swapped}
use stacks_dex_pool.Dlmm.Quote.Bounds.{inventory}

-- A swap of the bin moves something, and uses up the input or empties the bin's output side.
pub record Drains (d : Direction) (b : BinState) (amount price : ℕ) : Type 0 where
  pub result : SingleBinSwap
  pub returns : d.swap amount b price ≡ returned result
  pub moves : 0 < result.used
  pub within : result.used ≤ amount
  pub exact : (result.used ≡ amount) ⊎ (result.dy ≡ d.output_side b)
  pub capped : result.dy ≤ d.output_side b

-- A bin that holds something has a price, and swaps at it drain.
abbrev pub IsLiquid : DlmmPool → Direction → ℤ → BinState → Type 0
IsLiquid pool d k b =
    (price : ℕ) × (bin_price pool.initial_price pool.factors k ≡ ok price)
    × ((amount : ℕ) → 0 < amount → Drains d b amount price)

-- The bins of a list that are not skipped.
abbrev pub AllLiquid : DlmmPool → Direction → BTreeMap BinState → Type 0
AllLiquid pool d [] = Unit
AllLiquid pool d ((k, b) ∷ bins) =
    (is_empty b ≡ false → IsLiquid pool d k b) × AllLiquid pool d bins

-- The run returned a quote; if input was left over, the quote pays all of `total`.
abbrev pub PaysAllIfExhausted : ℕ → Outcome Quote → Type 0
PaysAllIfExhausted total run =
    (q : Quote) × (run ≡ returned q) × (q.window_exhausted ≡ true → q.total ≡ total)

module _ (pool : DlmmPool) (d : Direction)
    (hollow_side : (b : BinState) → is_empty b ≡ true → d.output_side b ≡ 0) where
  spent :
      (bins : BTreeMap BinState) (total full : ℕ) (last_bin : Option ℤ)
      → PaysAllIfExhausted full (sweep pool d bins 0 total last_bin)
  unfolding sweep
  spent [] total full last_bin = (quote_of total last_bin 0, refl, λ h. cc)
  spent (e ∷ bins) total full last_bin = (quote_of total last_bin 0, refl, λ h. cc)

  drained_exact :
      (k : ℤ) (b : BinState) (bins : BTreeMap BinState) (more : ℕ)
      → ((left paid : ℕ) (last : Option ℤ)
          → paid + more ≤ u128_max
          → PaysAllIfExhausted (paid + more) (sweep pool d bins left paid last))
      → (remaining total price : ℕ) (last_bin : Option ℤ)
      → total + (d.output_side b + more) ≤ u128_max
      → Drains d b remaining price
      → PaysAllIfExhausted (total + (d.output_side b + more)) (
          sweep_swapped d k b
            (sweep pool d bins)
            remaining
            total
            last_bin
            (d.swap remaining b price))
  drained_exact k b bins more ih remaining total price last_bin fits w =
      let r = w.result in
      let left = remaining - r.used in
      let paid = saturating_add total r.dy in
      let busy = not_zero r.used w.moves in
      elim w.exact [
        | inl all ↦
            let e : left ≡ 0 = omega (arith, all) in
            elim (Bool-cases (leb (d.output_side b) r.dy)) [
              | inl drained ↦
                  rw (w.returns, busy, drained, e)
                    (spent bins paid (total + (d.output_side b + more)) (some k))
              | inr partial ↦
                  rw (w.returns, busy, partial, e) (quote_of paid (some k) 0, refl, λ h. cc)
            ]
        | inr whole ↦
            let sum : paid ≡ total + d.output_side b =
              saturating_add-eq total r.dy (omega (arith, whole))
              ∙ ap (λ (t : ℕ). total + t) whole in
            rw (w.returns, busy, le→leb (d.output_side b) r.dy (omega (arith, whole)))
              (subst (λ full. PaysAllIfExhausted full (sweep pool d bins left paid (some k)))
                (omega (arith, sum)) (ih left paid (some k) (omega (arith, sum))))
      ]

  -- If every bin on the way is liquid, a sweep that leaves input over has paid everything.
  pub sweep_exact :
      (bins : BTreeMap BinState) (remaining total : ℕ) (last_bin : Option ℤ)
      → AllLiquid pool d bins
      → total + inventory d.output_side bins ≤ u128_max
      → PaysAllIfExhausted
          (total + inventory d.output_side bins)
          (sweep pool d bins remaining total last_bin)
  unfolding sweep
  sweep_exact [] remaining total last_bin liquid fits =
      (quote_of total last_bin remaining, refl, λ h. omega arith)
  sweep_exact ((k, b) ∷ bins) zero total last_bin liquid fits =
      spent ((k, b) ∷ bins) total (total + (d.output_side b + inventory d.output_side bins))
        last_bin
  sweep_exact ((k, b) ∷ bins) (suc r) total last_bin liquid fits = elim (Bool-cases (is_empty b)) [
    | inl hollow ↦
        let none_here = hollow_side b hollow in
        let (q, e, all) = sweep_exact bins (suc r) total last_bin liquid.1 (omega arith) in
        (q, rw (lt→ltb 0 (suc r) (omega arith), hollow) e, λ h. omega (arith, all h))
    | inr full ↦
        let (price, e, drains) = liquid.0 full in
        rw (lt→ltb 0 (suc r) (omega arith), full, e)
          (drained_exact k b bins (inventory d.output_side bins)
            (λ left paid last more_fits. sweep_exact bins left paid last liquid.1 more_fits) (suc r)
            total price last_bin fits (drains (suc r) (omega arith)))
  ]
