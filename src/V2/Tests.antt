-- ===== src/V2/Tests.antt =====
-- Runs of the constant-product pools at the numbers of the tests in src/v2/, and the theorems there.
use stacks_dex_pool.Prelude.{
  ℕ, ◌+◌, ◌-◌, ◌*◌, ◌≤◌, ◌<◌, ◌≡◌, refl, none, true, false, [], ◌∷◌, arith,
}
use stacks_dex_pool.Prelude.Word.{saturating_mul, saturating_add, u128_max}
use stacks_dex_pool.Prelude.Outcome.{returned, checked}
use stacks_dex_pool.Pool.Principal.{Principal, contract}
use stacks_dex_pool.V2.Math.{quote_amount_out_with_fee_ratio, invariant_non_decreasing}
use stacks_dex_pool.V2.Math.Swap.{KeepsProduct}
use stacks_dex_pool.V2.Math.Ratio.{quote_ratio_invariant, quote_ratio_round_trip}
use stacks_dex_pool.V2.Velar.{VelarPool, fee_bps_effective}
use stacks_dex_pool.V2.Velar as Velar
use stacks_dex_pool.V2.Alex.{AlexPool}
use stacks_dex_pool.V2.BitflowXyk.{quote_amount_out}
use stacks_dex_pool.V2.Fairness.{xyk_quote-KeepsProduct}

arkadiko_fixture :
    quote_amount_out_with_fee_ratio 3024475304 604895060900 160672499568 997 1000 ≡ 796979467
unfolding quote_amount_out_with_fee_ratio saturating_mul saturating_add u128_max
arkadiko_fixture = refl

fits : (a b : ℕ) → a + b ≤ 10000000000 → a + b ≤ u128_max
unfolding u128_max
fits a b h = omega arith

quote_ratio_invariant_example :
    let dy = quote_amount_out_with_fee_ratio 1000000 1000000000 2000000000 9970 10000 in
    (invariant_non_decreasing 1000000000 2000000000 1000000 dy ≡ true)
    × (0 < 2000000000 → dy < 2000000000)
quote_ratio_invariant_example =
    quote_ratio_invariant 1000000 1000000000 2000000000 9970 10000
      (fits 1000000000 1000000 (omega arith))

quote_ratio_round_trip_example :
    let dy = quote_amount_out_with_fee_ratio 1000000 1000000000 2000000000 997 1000 in
    quote_amount_out_with_fee_ratio dy (2000000000 - dy) (1000000000 + 1000000) 9970 10000 ≤ 1000000
quote_ratio_round_trip_example =
    quote_ratio_round_trip 1000000 1000000000 2000000000 997 1000 9970 10000
      (fits 1000000000 1000000 (omega arith)) (fits 2000000000 0 (omega arith))

product_fits : 2000000 * 3000 ≤ u128_max
unfolding u128_max
product_fits = omega arith

abbrev token : ℕ → Principal
token n = contract 22 (1 ∷ []) (n ∷ [])

abbrev velar_pool : (lp fee_num reserve_x reserve_y : ℕ) → VelarPool
velar_pool lp fee_num reserve_x reserve_y = record {
  pool_contract = token 1;
  core_contract = token 1;
  lp_token = token lp;
  x_token = token 3;
  y_token = token 4;
  x_decimals = 6;
  y_decimals = 6;
  reserve_x = reserve_x;
  reserve_y = reserve_y;
  flipped = false;
  fee_num = fee_num;
  fee_den = 1000;
  last_tx_id = none;
}

velar_fixture : Velar.quote_x_for_y (velar_pool 2 997 30558825120 8092994292) 152794125 ≡ 40143461
unfolding Velar.quote_x_for_y quote_amount_out_with_fee_ratio saturating_mul saturating_add u128_max
velar_fixture = refl

small_cut : (1000 - 997) * 20000 ≤ u128_max
unfolding u128_max
small_cut = omega arith

free_fits : 500 * 1000 ≤ u128_max
unfolding u128_max
free_fits = omega arith

abbrev alex_pool : ℕ → AlexPool
alex_pool pool_id = record {
  pool_contract = token 1;
  pool_id = pool_id;
  x_token = token 3;
  y_token = token 4;
  x_decimals = 8;
  y_decimals = 8;
  balance_x = 1000000000;
  balance_y = 2000000000;
  factor = 100000000;
  fee_rate_x = 300000;
  fee_rate_y = 300000;
  last_tx_id = none;
}

xyk_quote-KeepsProduct_example :
    (dy : ℕ) × (quote_amount_out checked 1000000 1000000000 1000000000 10 40 ≡ returned dy)
    × KeepsProduct 1000000000 1000000000 1000000 dy
xyk_quote-KeepsProduct_example =
    xyk_quote-KeepsProduct checked 1000000 1000000000 1000000000 10 40
      (fits 1000000000 1000000 (omega arith))
