-- ===== src/V2/Events.antt =====
-- src/v2/events.rs: how an event changes each kind of constant-product pool. A handler returns the
-- pool and whether the event was applied, as `true` or `false` in the source.
pub mod Routing
pub mod Orientation
use stacks_dex_pool.Prelude.{
  ℕ, Bool, true, false, not, Option, none, some, List, [], ◌∷◌, any, ◌==◌, if◌then◌else◌,
}
use stacks_dex_pool.Prelude.Partial.{◌>>=◌, guard}
use stacks_dex_pool.Prelude.Text.{Text, bytes, text_eq}
use stacks_dex_pool.Codec.Clarity.{ClarityValue, Fields, lookup, uint, bool, principal, tuple}
use stacks_dex_pool.Pool.Principal.{Principal, principal_eq}
use stacks_dex_pool.Pool.Event.{StacksEvent, data_uint, data_principal}
use stacks_dex_pool.V2.Arkadiko.{ArkadikoPool}
use stacks_dex_pool.V2.Velar.{VelarPool}
use stacks_dex_pool.V2.Alex.{AlexPool}
use stacks_dex_pool.V2.BitflowXyk.{BitflowXykPool}

unfoldable pub arkadiko_indexed_actions : List Text
arkadiko_indexed_actions = bytes "swap-x-for-y" ∷ bytes "swap-y-for-x" ∷ []

unfoldable pub velar_indexed_actions : List Text
velar_indexed_actions = bytes "swap" ∷ []

unfoldable pub alex_indexed_actions : List Text
alex_indexed_actions = bytes "swap-x-for-y" ∷ bytes "swap-y-for-x" ∷ []

unfoldable pub bitflow_xyk_indexed_actions : List Text
bitflow_xyk_indexed_actions = bytes "update-pool-balances" ∷ []

abbrev as_tuple : ClarityValue → Option Fields
as_tuple (tuple fields) = some fields
as_tuple _ = none

abbrev as_principal : ClarityValue → Option Principal
as_principal (principal p) = some p
as_principal _ = none

abbrev as_uint : ClarityValue → Option ℕ
as_uint (uint n) = some n
as_uint _ = none

abbrev pub handled : {A : Type 0} → A → Option A → A × Bool
handled pool none = (pool, false)
handled pool (some changed) = (changed, true)

-- `event.data.get("enabled")`, if it is a Boolean.
abbrev enabled_after : Bool → Option ClarityValue → Bool
enabled_after old (some (bool b)) = b
enabled_after old _ = old

unfoldable pub arkadiko_update : Principal → StacksEvent → Option (ℕ × ℕ)
arkadiko_update swap_token event = do
  _ ← guard (any (text_eq event.action) arkadiko_indexed_actions)
  target ← data_principal event (bytes "swap-token")
  _ ← guard (principal_eq target swap_token)
  bx ← data_uint event (bytes "balance-x")
  by ← data_uint event (bytes "balance-y")
  some (bx, by)

abbrev arkadiko_after : ArkadikoPool → StacksEvent → Option (ℕ × ℕ) → Option ArkadikoPool
arkadiko_after pool event none = none
arkadiko_after pool event (some (bx, by)) = some (record pool {
  balance_x = bx;
  balance_y = by;
  enabled = enabled_after pool.enabled (lookup (bytes "enabled") event.fields);
  last_tx_id = some event.tx_id;
})

unfoldable pub apply_arkadiko_event : ArkadikoPool → StacksEvent → ArkadikoPool × Bool
apply_arkadiko_event pool event =
    handled pool (arkadiko_after pool event (arkadiko_update pool.swap_token event))

-- The reserves in the contract's order.
unfoldable pub velar_update : Principal → StacksEvent → Option (ℕ × ℕ)
velar_update lp_token event = do
  _ ← guard (any (text_eq event.action) velar_indexed_actions)
  pool_value ← lookup (bytes "pool") event.fields
  inner ← as_tuple pool_value
  lp_value ← lookup (bytes "lp-token") inner
  lp ← as_principal lp_value
  _ ← guard (principal_eq lp lp_token)
  value0 ← lookup (bytes "reserve0") inner
  r0 ← as_uint value0
  value1 ← lookup (bytes "reserve1") inner
  r1 ← as_uint value1
  some (r0, r1)

abbrev pub velar_after : VelarPool → StacksEvent → Option (ℕ × ℕ) → Option VelarPool
velar_after pool event none = none
velar_after pool event (some (r0, r1)) = some (record pool {
  reserve_x = if pool.flipped then r1 else r0;
  reserve_y = if pool.flipped then r0 else r1;
  last_tx_id = some event.tx_id;
})

unfoldable pub apply_velar_event : VelarPool → StacksEvent → VelarPool × Bool
apply_velar_event pool event =
    handled pool (velar_after pool event (velar_update pool.lp_token event))

unfoldable pub alex_update : ℕ → StacksEvent → Option (ℕ × ℕ)
alex_update pool_id event = do
  _ ← guard (any (text_eq event.action) alex_indexed_actions)
  target ← data_uint event (bytes "pool-id")
  _ ← guard (target == pool_id)
  bx ← data_uint event (bytes "balance-x")
  by ← data_uint event (bytes "balance-y")
  some (bx, by)

abbrev alex_after : AlexPool → StacksEvent → Option (ℕ × ℕ) → Option AlexPool
alex_after pool event none = none
alex_after pool event (some (bx, by)) =
    some (record pool { balance_x = bx; balance_y = by; last_tx_id = some event.tx_id })

unfoldable pub apply_alex_event : AlexPool → StacksEvent → AlexPool × Bool
apply_alex_event pool event = handled pool (alex_after pool event (alex_update pool.pool_id event))

unfoldable pub bitflow_xyk_update : StacksEvent → Option (ℕ × ℕ)
bitflow_xyk_update event = do
  _ ← guard (any (text_eq event.action) bitflow_xyk_indexed_actions)
  bx ← data_uint event (bytes "x-balance")
  by ← data_uint event (bytes "y-balance")
  some (bx, by)

abbrev bitflow_xyk_after : BitflowXykPool → StacksEvent → Option (ℕ × ℕ) → Option BitflowXykPool
bitflow_xyk_after pool event none = none
bitflow_xyk_after pool event (some (bx, by)) =
    some (record pool { x_balance = bx; y_balance = by; last_tx_id = some event.tx_id })

unfoldable pub apply_bitflow_xyk_event : BitflowXykPool → StacksEvent → BitflowXykPool × Bool
apply_bitflow_xyk_event pool event =
    handled pool (bitflow_xyk_after pool event (bitflow_xyk_update event))
