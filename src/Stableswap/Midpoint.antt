-- ===== src/Stableswap/Midpoint.antt =====
-- A midpoint of zero: the event handler takes it over. The quote of y then empties the pool, and that
-- of x gives nothing.
use stacks_dex_pool.Prelude.{
  ℕ, ◌+◌, ◌-◌, ◌/◌, ◌<◌, ◌≡◌, refl, true, false, some, arith, ap, ◌∙◌, ◌==◌, ◌||◌,
}
use native.Mathlib.Nat.{zero-div}
use stacks_dex_pool.Prelude.Text.{bytes, text_eq}
use stacks_dex_pool.Prelude.Word.{u128_size, saturating_mul, saturating_mul-le}
use stacks_dex_pool.Prelude.Outcome.{returned, Profile, add_word-eq, div_word, div_word-eq}
use stacks_dex_pool.Pool.Event.{StacksEvent, data_uint, data_principal}
use stacks_dex_pool.Pool.Principal.{Principal, principal_eq_refl}
use stacks_dex_pool.Stableswap.Curve.{scale_up, scale_down, get_y}
use stacks_dex_pool.Stableswap.Bounds.{fees_fit}
use stacks_dex_pool.Stableswap.BitflowV2.{
  BitflowStableSwapV2Pool, quote_amount_out, quote_x_for_y, quote_y_for_x,
}
use stacks_dex_pool.Stableswap.Events.{new_midpoint, apply_bitflow_v2_stable_event}

get_y_none : (p : Profile) (a b amp threshold : ℕ) → get_y p a 0 b amp threshold ≡ returned 0
unfolding get_y
get_y_none p a b amp threshold = refl

none_scaled : (x_dp y_dp : ℕ) → (scale_down 0 0 x_dp y_dp).1 ≡ 0
unfolding scale_down
none_scaled x_dp y_dp = ground arith

none_left : (a den : ℕ) → 0 < den → div_word (saturating_mul a 0) den ≡ returned 0
none_left a den h =
    let none : saturating_mul a 0 ≡ 0 = omega (arith, saturating_mul-le a 0) in
    rw none (div_word-eq 0 den h ∙ ap returned (zero-div den))

set_midpoint_named :
    (text_eq (bytes "set-midpoint") (bytes "update-pool-balances") ≡ false)
    × (text_eq (bytes "set-midpoint") (bytes "set-midpoint") ≡ true)
unfolding bytes text_eq
set_midpoint_named = (refl, refl)

module _ (p : Profile)
    (dx x_balance y_balance x_decimals y_decimals protocol_fee provider_fee den amp
      threshold : ℕ) where
  zero_midpoint :
      0 < dx
      → 0 < x_balance
      → 0 < y_balance
      → 0 < den
      → quote_amount_out p dx x_balance y_balance x_decimals y_decimals protocol_fee provider_fee 0
          den amp threshold
        ≡ returned y_balance
  unfolding quote_amount_out
  zero_midpoint hdx hx hy hden =
      let (bx_s, by_s) = scale_up x_balance y_balance x_decimals y_decimals in
      let dx_s = (scale_up dx 0 x_decimals y_decimals).0 in
      let fee =
        saturating_mul dx_s protocol_fee / 10000 + saturating_mul dx_s provider_fee / 10000 in
      let live : ((dx == 0) || ((x_balance == 0) || ((y_balance == 0) || (den == 0)))) ≡ false =
        ground arith in
      rw
        (
          live,
          add_word-eq p u128_size (saturating_mul dx_s protocol_fee / 10000)
              (saturating_mul dx_s provider_fee / 10000) (fees_fit dx_s protocol_fee provider_fee),
          none_left (dx_s - fee) den hden,
          none_left bx_s den hden,
          get_y_none p 0 by_s amp threshold,
          none_scaled x_decimals y_decimals,
        )
        (ap returned (omega arith))

new_midpoint_zero :
    (own : Principal) (event : StacksEvent) (den : ℕ)
    → data_principal event (bytes "pool-contract") ≡ some own
    → data_uint event (bytes "midpoint-numerator") ≡ some 0
    → data_uint event (bytes "midpoint-denominator") ≡ some den
    → 0 < den
    → new_midpoint own event ≡ some (0, den)
unfolding new_midpoint
new_midpoint_zero own event den target num denominator h =
    let positive : (den == 0) ≡ false = ground arith in
    rw (target, principal_eq_refl own, num, denominator, positive) refl

no_denominator :
    (p : Profile)
    (dx x_balance y_balance x_decimals y_decimals protocol_fee provider_fee num amp threshold : ℕ)
    → quote_amount_out p dx x_balance y_balance x_decimals y_decimals protocol_fee provider_fee num
        0 amp threshold
      ≡ returned 0
unfolding quote_amount_out
no_denominator p dx x_balance y_balance x_dp y_dp protocol provider num amp threshold =
    let guarded : ((dx == 0) || ((x_balance == 0) || ((y_balance == 0) || true))) ≡ true =
      ground arith in
    rw guarded refl

-- Let an active pool with positive balances receive a `set-midpoint` event that names this pool and
-- carries numerator 0 and a positive denominator. The event is applied, and then every positive
-- input of x quotes the whole y balance and every input of y quotes 0.
pub set_midpoint_zero :
    (p : Profile) (pool : BitflowStableSwapV2Pool) (event : StacksEvent) (den dx dy : ℕ)
    → pool.pool_status ≡ true
    → 0 < pool.x_balance
    → 0 < pool.y_balance
    → event.action ≡ bytes "set-midpoint"
    → data_principal event (bytes "pool-contract") ≡ some pool.pool_contract
    → data_uint event (bytes "midpoint-numerator") ≡ some 0
    → data_uint event (bytes "midpoint-denominator") ≡ some den
    → 0 < den
    → 0 < dx
    → let (after, applied) = apply_bitflow_v2_stable_event pool event in
      (applied ≡ true)
      × (quote_x_for_y p after dx ≡ returned pool.y_balance)
      × (quote_y_for_x p after dy ≡ returned 0)
unfolding apply_bitflow_v2_stable_event quote_x_for_y quote_y_for_x
set_midpoint_zero p pool event den dx dy active hx hy named target num denominator hden hdx =
    let update = new_midpoint_zero pool.pool_contract event den target num denominator hden in
    let other : text_eq event.action (bytes "update-pool-balances") ≡ false =
      rw named set_midpoint_named.0 in
    let this : text_eq event.action (bytes "set-midpoint") ≡ true = rw named set_midpoint_named.1 in
    rw (other, this, update, active)
      (
        refl,
        zero_midpoint p dx pool.x_balance pool.y_balance pool.x_decimals pool.y_decimals
            pool.x_protocol_fee_bps pool.x_provider_fee_bps den pool.amp pool.threshold hdx hx hy
            hden,
        no_denominator p dy pool.y_balance pool.x_balance pool.y_decimals pool.x_decimals
            pool.y_protocol_fee_bps pool.y_provider_fee_bps den pool.amp pool.threshold,
      )
