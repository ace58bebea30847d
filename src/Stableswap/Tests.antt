-- ===== src/Stableswap/Tests.antt =====
-- Runs of the solvers, and the theorems at them.
use stacks_dex_pool.Prelude.{ℕ, some, none, true, [], ◌∷◌, ◌+◌, ◌-◌, ◌*◌, ◌≤◌, ◌≡◌, refl, arith}
use stacks_dex_pool.Prelude.Word.{u128_max, saturating_mul, saturating_add}
use stacks_dex_pool.Prelude.Outcome.{returned, checked, sub_word, div_word}
use stacks_dex_pool.Stableswap.Curve.{saturating_pow_ten, d_rounds, get_d, y_rounds, get_y}
use stacks_dex_pool.Stableswap.Bounds.{PaysWithin, quote_amount_out-PaysWithin}
use stacks_dex_pool.Stableswap.Midpoint.{set_midpoint_zero}
use stacks_dex_pool.Stableswap.BitflowV2.{
  BitflowStableSwapV2Pool, quote_amount_out, quote_x_for_y, quote_y_for_x,
}
use stacks_dex_pool.Stableswap.Events.{apply_bitflow_v2_stable_event}
use stacks_dex_pool.Codec.Clarity.{no_fields, field, lookup, uint, principal}
use stacks_dex_pool.Pool.Principal.{Principal, contract}
use stacks_dex_pool.Pool.Event.{StacksEvent, data_uint, data_principal}
use stacks_dex_pool.Prelude.Text.{bytes, text_eq}

scaled :
    (1000000 * saturating_pow_ten (4 - 6) ≤ u128_max)
    × (100 * saturating_pow_ten (6 - 4) ≤ u128_max)
unfolding saturating_pow_ten u128_max
scaled = (omega arith, omega arith)

products_fit : (2 * 100 + 2) * (2 * 1000000000000) * (2 * 1000000000000) ≤ u128_max
unfolding u128_max
products_fit = omega arith

uneven : get_y checked 1000000000 1000000000000 1000000000000 100 2 ≡ returned 999000009900
unfolding get_y get_d y_rounds d_rounds saturating_mul saturating_add u128_max sub_word div_word
uneven = refl

quote_amount_out-PaysWithin_example :
    PaysWithin 2000000 (quote_amount_out checked 1000 1000000 2000000 6 8 4 6 1000000 1172209 100 2)
quote_amount_out-PaysWithin_example =
    quote_amount_out-PaysWithin checked 1000 1000000 2000000 6 8 4 6 1000000 1172209 100 2

abbrev token : ℕ → Principal
token n = contract 22 (1 ∷ []) (n ∷ [])

abbrev stable_pool : BitflowStableSwapV2Pool
stable_pool = record {
  pool_contract = token 1;
  core_contract = token 2;
  x_token = token 3;
  y_token = token 4;
  x_decimals = 6;
  y_decimals = 6;
  x_balance = 1000000000;
  y_balance = 1000000000;
  x_protocol_fee_bps = 4;
  x_provider_fee_bps = 6;
  y_protocol_fee_bps = 4;
  y_provider_fee_bps = 6;
  amp = 100;
  threshold = 2;
  midpoint_num = 1000000;
  midpoint_den = 1172209;
  pool_status = true;
  last_tx_id = none;
}

abbrev zero_midpoint : StacksEvent
zero_midpoint = record {
  emitter = token 2;
  tx_id = 1 ∷ [];
  event_index = 0;
  action = bytes "set-midpoint";
  fields = field (bytes "pool-contract") (principal (token 1)) (
      field (bytes "midpoint-numerator") (uint 0)
        (field (bytes "midpoint-denominator") (uint 5) no_fields));
}

carries :
    (data_principal zero_midpoint (bytes "pool-contract") ≡ some (token 1))
    × (data_uint zero_midpoint (bytes "midpoint-numerator") ≡ some 0)
    × (data_uint zero_midpoint (bytes "midpoint-denominator") ≡ some 5)
unfolding data_principal data_uint lookup bytes text_eq
carries = (refl, refl, refl)

set_midpoint_zero_example :
    let (after, applied) = apply_bitflow_v2_stable_event stable_pool zero_midpoint in
    (applied ≡ true)
    × (quote_x_for_y checked after 7 ≡ returned 1000000000)
    × (quote_y_for_x checked after 8 ≡ returned 0)
set_midpoint_zero_example =
    set_midpoint_zero checked stable_pool zero_midpoint 5 7 8 refl (omega arith) (omega arith) refl
      carries.0 carries.1 carries.2 (omega arith) (omega arith)
