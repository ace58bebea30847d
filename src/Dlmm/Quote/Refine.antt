-- ===== src/Dlmm/Quote/Refine.antt =====
-- The loop over bin ids, gaps included, does what the pass over the list does.
use stacks_dex_pool.Prelude.{
  ℕ, zero, suc, ◌-◌, ◌<◌, Option, some, true, [], ◌∷◌, leb, ◌==◌, ◌≡◌, refl, sym, subst, arith, inl,
  inr, if◌then◌else◌, Bool-cases, Option-cases, lt→ltb,
}
use stacks_dex_pool.Prelude.Int.{ℤ}
use stacks_dex_pool.Prelude.Word.{saturating_add}
use stacks_dex_pool.Prelude.Outcome.{Outcome, returned, panicked, out_of_fuel, Result, ok, err}
use stacks_dex_pool.BTreeMap.{BTreeMap, get}
use stacks_dex_pool.Dlmm.Math.{PriceError, bin_price, SingleBinSwap}
use stacks_dex_pool.Dlmm.Pool.{BinState, DlmmPool, is_empty}
use stacks_dex_pool.Dlmm.Quote.{
  Quote, Direction, WalkState, Round, leave, again, quote_of, walk, visit, priced, swapped, skip,
}
use stacks_dex_pool.Dlmm.Quote.Sweep.{sweep, sweep_priced, sweep_swapped}
use stacks_dex_pool.Dlmm.Quote.Ranks.{IsRanked, IsOrdered, Agrees, get_head, gap, hit}

module _ (pool : DlmmPool) (d : Direction) (room : ℤ → ℕ) where
  -- Without input left, and without bins left, a sweep ends.
  sweep_done :
      (bins : BTreeMap BinState) (total : ℕ) (last_bin : Option ℤ)
      → sweep pool d bins 0 total last_bin ≡ returned (quote_of total last_bin 0)
  unfolding sweep
  sweep_done [] total last_bin = refl
  sweep_done (e ∷ bins) total last_bin = refl

  sweep_beyond :
      (bins : BTreeMap BinState) (remaining total : ℕ) (last_bin : Option ℤ)
      → IsOrdered pool d room bins 0
      → sweep pool d bins remaining total last_bin ≡ returned (quote_of total last_bin remaining)
  unfolding sweep
  sweep_beyond [] remaining total last_bin o = refl
  sweep_beyond (e ∷ bins) remaining total last_bin o = absurd (omega arith)

  sweep_step :
      (b : ℤ) (v : BinState) (rest : BTreeMap BinState) (r total : ℕ) (last_bin : Option ℤ)
      → sweep pool d ((b, v) ∷ rest) (suc r) total last_bin ≡ (
          if is_empty v
          then sweep pool d rest (suc r) total last_bin
          else sweep_priced d b v
              (sweep pool d rest)
              (suc r)
              total
              last_bin
              (bin_price pool.initial_price pool.factors b))
  unfolding sweep
  sweep_step b v rest r total last_bin = rw (lt→ltb 0 (suc r) (omega arith))

  abbrev state : ℕ → ℤ → ℕ → Option ℤ → WalkState
  state remaining bin_id total last_bin = record {
    remaining = remaining;
    bin_id = bin_id;
    total = total;
    last_bin = last_bin;
  }

  abbrev proceed : ℕ → Round → Outcome Quote
  proceed fuel round = elim round [ leave result ↦ result | again s ↦ walk pool d fuel s ]

module _ (pool : DlmmPool) (d : Direction) (room : ℤ → ℕ) (ranked : IsRanked pool d room) where
  -- Below a bin outside the window there is nothing in the list.
  sweep_outside :
      (rest : BTreeMap BinState) (c : ℤ) (remaining total : ℕ) (last_bin : Option ℤ)
      → d.outside_window c ≡ true
      → IsOrdered pool d room rest (room c)
      → Agrees pool d room rest (room c)
      → sweep pool d rest remaining total last_bin ≡ returned (quote_of total last_bin remaining)
  unfolding sweep
  sweep_outside [] c remaining total last_bin out o a = refl
  sweep_outside ((k, v) ∷ rest) c remaining total last_bin out o a =
      cc (get_head pool d room (room c) k v rest o a, ranked.window c k out o.0 o.1)

  -- What the loop does after a missing or empty bin.
  skip-sweep :
      (fuel : ℕ) (rest : BTreeMap BinState) (remaining : ℕ) (b : ℤ) (total : ℕ)
      (last_bin : Option ℤ)
      → IsOrdered pool d room rest (room (d.next b))
      → Agrees pool d room rest (room (d.next b))
      → walk pool d fuel (state pool d room remaining (d.next b) total last_bin)
        ≡ sweep pool d rest remaining total last_bin
      → proceed pool d room fuel (skip d (state pool d room remaining b total last_bin))
        ≡ sweep pool d rest remaining total last_bin
  skip-sweep fuel rest remaining b total last_bin o a ih =
      elim (Bool-cases (d.outside_window (d.next b))) [
        | inl out ↦ rw out (sym (sweep_outside rest (d.next b) remaining total last_bin out o a))
        | inr inside ↦ rw inside ih
      ]

  module _ (fuel : ℕ) (rest : BTreeMap BinState) (b : ℤ) (v : BinState)
      (ih : (remaining total : ℕ) (last_bin : Option ℤ)
        → walk pool d fuel (state pool d room remaining (d.next b) total last_bin)
          ≡ sweep pool d rest remaining total last_bin) where
    swapped-sweep :
        (remaining total : ℕ) (last_bin : Option ℤ) (outcome : Outcome SingleBinSwap)
        → proceed pool d room fuel
            (swapped d v (state pool d room remaining b total last_bin) outcome)
          ≡ sweep_swapped d b v (sweep pool d rest) remaining total last_bin outcome
    swapped-sweep remaining total last_bin panicked = refl
    swapped-sweep remaining total last_bin out_of_fuel = refl
    swapped-sweep remaining total last_bin (returned r) = elim (Bool-cases (r.used == 0)) [
      | inl idle ↦ rw idle
      | inr moved ↦ elim (Bool-cases (leb (d.output_side v) r.dy)) [
        | inl drained ↦
            rw (moved, drained) (ih (remaining - r.used) (saturating_add total r.dy) (some b))
        | inr partial ↦ rw (moved, partial)
      ]
    ]

    priced-sweep :
        (remaining total : ℕ) (last_bin : Option ℤ) (price : Result PriceError ℕ)
        → proceed pool d room fuel (priced d v (state pool d room remaining b total last_bin) price)
          ≡ sweep_priced d b v (sweep pool d rest) remaining total last_bin price
    priced-sweep remaining total last_bin (err _) = refl
    priced-sweep remaining total last_bin (ok price) =
        swapped-sweep remaining total last_bin (d.swap remaining v price)

  -- One visit, given that the loop refines the sweep from the next bin on.
  visit-sweep :
      (fuel : ℕ) (bins : BTreeMap BinState) (remaining : ℕ) (b : ℤ) (total : ℕ)
      (last_bin : Option ℤ)
      → room b ≡ suc (room (d.next b))
      → IsOrdered pool d room bins (suc (room (d.next b)))
      → Agrees pool d room bins (suc (room (d.next b)))
      → ((rest : BTreeMap BinState) (left paid : ℕ) (last : Option ℤ)
          → IsOrdered pool d room rest (room (d.next b))
          → Agrees pool d room rest (room (d.next b))
          → walk pool d fuel (state pool d room left (d.next b) paid last)
            ≡ sweep pool d rest left paid last)
      → proceed pool d room fuel
          (visit pool d (state pool d room (suc remaining) b total last_bin) (get b pool.bins))
        ≡ sweep pool d bins (suc remaining) total last_bin
  visit-sweep fuel bins r b total last_bin e o a ih = elim (Option-cases (get b pool.bins)) [
    | inl miss ↦
        let o' = gap pool d room ranked bins b (room (d.next b)) e miss o a in
        let a' : Agrees pool d room bins (room (d.next b)) = λ i p h. a i p (omega arith) in
        rw miss (
          skip-sweep fuel bins (suc r) b total last_bin o' a'
            (ih bins (suc r) total last_bin o' a'))
    | inr (v, found) ↦
        let (rest, split, o', a') = hit pool d room ranked bins b v (room (d.next b)) e found o a in
        rw (found, split, sweep_step pool d room b v rest r total last_bin)
          (elim (Bool-cases (is_empty v)) [
            | inl hollow ↦ rw hollow (
                skip-sweep fuel rest (suc r) b total last_bin o' a'
                  (ih rest (suc r) total last_bin o' a'))
            | inr full ↦ rw full (
                priced-sweep fuel rest b v (λ left paid last. ih rest left paid last o' a') (suc r)
                  total last_bin (bin_price pool.initial_price pool.factors b))
          ])
  ]

  -- With more fuel than rounds left, the loop ends and gives what the sweep gives.
  pub walk_refines :
      (fuel : ℕ) (bins : BTreeMap BinState) (remaining : ℕ) (b : ℤ) (total : ℕ)
      (last_bin : Option ℤ)
      → room b < fuel
      → IsOrdered pool d room bins (room b)
      → Agrees pool d room bins (room b)
      → walk pool d fuel (state pool d room remaining b total last_bin)
        ≡ sweep pool d bins remaining total last_bin
  unfolding walk
  walk_refines zero bins remaining b total last_bin h o a = absurd (omega arith)
  walk_refines (suc fuel) bins zero b total last_bin h o a =
      sym (sweep_done pool d room bins total last_bin)
  walk_refines (suc fuel) bins (suc r) b total last_bin h o a = elim (Bool-cases (d.in_range b)) [
    | inr out ↦
        let ended =
          sweep_beyond pool d room bins (suc r) total last_bin (rw (ranked.stop b out) at o) in
        rw (ended, out, walk, lt→ltb 0 (suc r) (omega arith))
    | inl inside ↦
        let e = ranked.step b inside in
        rw (inside, lt→ltb 0 (suc r) (omega arith), walk)
          (visit-sweep fuel bins r b total last_bin e (rw e at o)
            (subst (λ n. Agrees pool d room bins n) e a)
            (λ rest left paid last. walk_refines fuel rest left (d.next b) paid last (omega arith)))
  ]
