-- ===== src/V2/EventTests.antt =====
-- Events of the constant-product pools, and the theorems at them.
use stacks_dex_pool.Prelude.{ℕ, String, ◌≡◌, ◌≢◌, refl, none, true, false, [], ◌∷◌, arith}
use stacks_dex_pool.Prelude.Text.{bytes, text_eq}
use stacks_dex_pool.Codec.Clarity.{Fields, no_fields, field, lookup, uint, principal, tuple}
use stacks_dex_pool.Pool.Principal.{Principal, contract, principal_eq}
use stacks_dex_pool.Pool.Event.{StacksEvent, data_uint, data_principal}
use stacks_dex_pool.V2.Arkadiko.{ArkadikoPool}
use stacks_dex_pool.V2.Arkadiko as Arkadiko
use stacks_dex_pool.V2.Velar.{VelarPool, quote_x_for_y, quote_y_for_x}
use stacks_dex_pool.V2.Events.{
  apply_arkadiko_event, apply_velar_event, arkadiko_indexed_actions, velar_indexed_actions,
  arkadiko_update, velar_update,
}
use stacks_dex_pool.V2.Events.Routing.{arkadiko_disabled}
use stacks_dex_pool.V2.Events.Orientation.{mirrored, velar_orientation}

abbrev token : ℕ → Principal
token n = contract 22 (1 ∷ []) (n ∷ [])

abbrev event_of : String → Fields → StacksEvent
event_of action fields = record {
  emitter = token 1;
  tx_id = 1 ∷ [];
  event_index = 0;
  action = bytes action;
  fields = fields;
}

abbrev balances : ℕ → Fields
balances n = field (bytes "balance-x") (uint n) (field (bytes "balance-y") (uint 6) no_fields)

abbrev arkadiko_swap : StacksEvent
arkadiko_swap =
    event_of "swap-x-for-y" (field (bytes "swap-token") (principal (token 2)) (balances 5))

abbrev arkadiko_pool : ℕ → ArkadikoPool
arkadiko_pool lp = record {
  pool_contract = token 1;
  swap_token = token lp;
  x_token = token 3;
  y_token = token 4;
  x_decimals = 6;
  y_decimals = 6;
  balance_x = 1000000;
  balance_y = 1000000;
  enabled = false;
  last_tx_id = none;
}

arkadiko_applied : (apply_arkadiko_event (arkadiko_pool 2) arkadiko_swap).1 ≡ true
unfolding apply_arkadiko_event arkadiko_update arkadiko_indexed_actions data_principal data_uint
    lookup bytes text_eq principal_eq
arkadiko_applied = refl

token_ne : token 2 ≢ token 9
token_ne = ground arith

arkadiko_disabled_example :
    ((amount : ℕ)
      → (Arkadiko.quote_x_for_y (arkadiko_pool 2) amount ≡ 0)
        × (Arkadiko.quote_y_for_x (arkadiko_pool 2) amount ≡ 0))
    × (let off = apply_arkadiko_event (arkadiko_pool 2) arkadiko_swap in
        let on = apply_arkadiko_event (record (arkadiko_pool 2) { enabled = true }) arkadiko_swap in
        (off.1 ≡ on.1) × (off.0.balance_x ≡ on.0.balance_x) × (off.0.balance_y ≡ on.0.balance_y))
arkadiko_disabled_example = arkadiko_disabled (arkadiko_pool 2) arkadiko_swap refl

abbrev velar_pool : ℕ → VelarPool
velar_pool lp = record {
  pool_contract = token 1;
  core_contract = token 1;
  lp_token = token lp;
  x_token = token 3;
  y_token = token 4;
  x_decimals = 6;
  y_decimals = 6;
  reserve_x = 30558825120;
  reserve_y = 8092994292;
  flipped = true;
  fee_num = 997;
  fee_den = 1000;
  last_tx_id = none;
}

abbrev velar_swap : ℕ → StacksEvent
velar_swap n = event_of "swap" (
    field (bytes "pool")
      (tuple (
        field (bytes "lp-token") (principal (token 2))
          (field (bytes "reserve0") (uint n) (field (bytes "reserve1") (uint 6) no_fields))))
      no_fields)

velar_applied : (apply_velar_event (velar_pool 2) (velar_swap 5)).1 ≡ true
unfolding apply_velar_event velar_update velar_indexed_actions lookup bytes text_eq principal_eq
velar_applied = refl

velar_orientation_example :
    let pool = velar_pool 2 in
    ((amount : ℕ) → quote_x_for_y (mirrored pool) amount ≡ quote_y_for_x pool amount)
    × ((apply_velar_event (mirrored pool) (velar_swap 5)).0
        ≡ mirrored (apply_velar_event pool (velar_swap 5)).0)
    × ((apply_velar_event (mirrored pool) (velar_swap 5)).1
        ≡ (apply_velar_event pool (velar_swap 5)).1)
velar_orientation_example = velar_orientation (velar_pool 2) (velar_swap 5)
