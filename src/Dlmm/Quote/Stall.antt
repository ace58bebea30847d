-- ===== src/Dlmm/Quote/Stall.antt =====
-- A walk does not pass a bin that holds only the input token.
use stacks_dex_pool.Prelude.{
  ℕ, zero, suc, ◌+◌, ◌<◌, none, some, true, false, ◌≡◌, refl, arith, inl, inr, Bool-cases, ltb,
  lt→ltb,
}
use native.Mathlib.Nat.{zero-div}
use stacks_dex_pool.Prelude.Int.{◌≤ℤ◌, le→leb_ℤ}
use stacks_dex_pool.Prelude.Word.{saturating_mul}
use stacks_dex_pool.Prelude.Division.{div_ceil, div_ceil-le}
use stacks_dex_pool.Prelude.Outcome.{returned, Profile, Result, ok, err}
use stacks_dex_pool.BTreeMap.{get}
use stacks_dex_pool.Dlmm.Constants.{fee_scale_bps, price_scale_bps, min_bin_id}
use stacks_dex_pool.Dlmm.Math.{
  PriceError, bin_price, SingleBinSwap, single_bin_swap_x_for_y, no_swap,
}
use stacks_dex_pool.Dlmm.Math.Closed.{
  gross, single_bin_swap_x_for_y-eq, single_bin_swap_x_for_y-zero,
}
use stacks_dex_pool.Dlmm.Pool.{BinState, DlmmPool, is_empty}
use stacks_dex_pool.Dlmm.Quote.{WalkState, finish, priced, walk, down, quote_x_for_y}

zero-saturating_mul : (a : ℕ) → saturating_mul 0 a ≡ 0
unfolding saturating_mul
zero-saturating_mul a = omega arith

gross_zero : (f : ℕ) → gross 0 f ≡ 0
unfolding gross
gross_zero f = elim (Bool-cases (ltb 0 f)) [
  | inl e ↦ rw (e, zero-saturating_mul, zero-div)
  | inr e ↦ rw e
]

no_limit : (price : ℕ) → 0 < price → div_ceil (saturating_mul 0 price_scale_bps) price ≡ 0
no_limit price h = rw zero-saturating_mul (omega (arith, div_ceil-le 0 price 0 h (omega arith)))

-- With no y to sell, a swap of a bin uses nothing.
idle :
    (p : Profile) (amount x price f g h : ℕ)
    → f + g + h < fee_scale_bps
    → (r : SingleBinSwap) × (single_bin_swap_x_for_y p amount x 0 price f g h ≡ returned r)
      × (r.used ≡ 0)
idle p amount x zero f g h fees = (no_swap, single_bin_swap_x_for_y-zero p amount x 0 f g h, refl)
idle p amount x (suc price) f g h fees = (
  _,
  single_bin_swap_x_for_y-eq p amount x 0 (suc price) f g h (omega arith) fees,
  rw (no_limit (suc price) (omega arith), gross_zero) (omega arith),
)

module _ (p : Profile) (pool : DlmmPool) (b : BinState)
    (fees : pool.x_protocol_fee + pool.x_provider_fee + pool.x_variable_fee < fee_scale_bps)
    (no_y : b.y ≡ 0) where
  stall_priced :
      (s : WalkState) (price : Result PriceError ℕ) → priced (down p pool) b s price ≡ finish s
  unfolding down
  stall_priced s (err _) = refl
  stall_priced s (ok price) =
      let (r, e, unused) =
        idle p s.remaining b.x price pool.x_protocol_fee pool.x_provider_fee pool.x_variable_fee
          fees in
      rw (no_y, e, unused)

  -- If the active bin is in range and holds x but no y, and the x fees add up to less than 10000
  -- bps, `quote_x_for_y` gives 0 for every positive amount and reports `window_exhausted`, whatever
  -- the bins below hold.
  pub quote_x_for_y_stalls :
      (x_amount : ℕ)
      → 0 < x_amount
      → min_bin_id ≤ℤ pool.active_bin_id
      → get pool.active_bin_id pool.bins ≡ some b
      → 0 < b.x
      → quote_x_for_y p pool x_amount
        ≡ returned (record { total = 0; last_bin = none; window_exhausted = true })
  unfolding quote_x_for_y walk
  quote_x_for_y_stalls amount pa inside found has_x =
      let positive = lt→ltb 0 amount pa in
      let full : is_empty b ≡ false = ground arith in
      let s : WalkState = record {
        remaining = amount;
        bin_id = pool.active_bin_id;
        total = 0;
        last_bin = none;
      } in
      rw (
        walk,
        positive,
        le→leb_ℤ min_bin_id pool.active_bin_id inside,
        found,
        full,
        stall_priced s (bin_price pool.initial_price pool.factors pool.active_bin_id),
        positive,
      )
