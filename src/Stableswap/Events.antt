-- ===== src/Stableswap/Events.antt =====
-- src/stableswap/events.rs: how an event changes a stable pool, with whether it was applied.
use stacks_dex_pool.Prelude.{ℕ, Bool, true, false, not, Option, none, some, ◌==◌, if◌then◌else◌}
use stacks_dex_pool.Prelude.Partial.{◌>>=◌, guard}
use stacks_dex_pool.Prelude.Text.{bytes, text_eq}
use stacks_dex_pool.Pool.Principal.{Principal, principal_eq}
use stacks_dex_pool.Pool.Event.{StacksEvent, data_uint, data_principal}
use stacks_dex_pool.Stableswap.BitflowV1.{BitflowStableSwapV1Pool}
use stacks_dex_pool.Stableswap.BitflowV2.{BitflowStableSwapV2Pool}

-- The new balances, of an `update-pool-balances` event.
unfoldable pub new_balances : StacksEvent → Option (ℕ × ℕ)
new_balances event = do
  bx ← data_uint event (bytes "x-balance")
  by ← data_uint event (bytes "y-balance")
  some (bx, by)

-- The new midpoint, of a `set-midpoint` event for this pool; a zero denominator is refused.
unfoldable pub new_midpoint : Principal → StacksEvent → Option (ℕ × ℕ)
new_midpoint own event = do
  target ← data_principal event (bytes "pool-contract")
  _ ← guard (principal_eq target own)
  num ← data_uint event (bytes "midpoint-numerator")
  den ← data_uint event (bytes "midpoint-denominator")
  _ ← guard (not (den == 0))
  some (num, den)

abbrev pub with_balances :
    BitflowStableSwapV2Pool → StacksEvent → Option (ℕ × ℕ) → BitflowStableSwapV2Pool × Bool
with_balances pool event none = (pool, false)
with_balances pool event (some (bx, by)) =
    (record pool { x_balance = bx; y_balance = by; last_tx_id = some event.tx_id }, true)

abbrev pub with_midpoint :
    BitflowStableSwapV2Pool → StacksEvent → Option (ℕ × ℕ) → BitflowStableSwapV2Pool × Bool
with_midpoint pool event none = (pool, false)
with_midpoint pool event (some (num, den)) =
    (record pool { midpoint_num = num; midpoint_den = den; last_tx_id = some event.tx_id }, true)

unfoldable pub apply_bitflow_v2_stable_event :
    BitflowStableSwapV2Pool → StacksEvent → BitflowStableSwapV2Pool × Bool
apply_bitflow_v2_stable_event pool event =
    if text_eq event.action (bytes "update-pool-balances")
    then with_balances pool event (new_balances event)
    else if text_eq event.action (bytes "set-midpoint")
    then with_midpoint pool event (new_midpoint pool.pool_contract event)
    else (pool, false)

-- A no-op in the source.
unfoldable pub apply_bitflow_v1_stable_event :
    BitflowStableSwapV1Pool → StacksEvent → BitflowStableSwapV1Pool × Bool
apply_bitflow_v1_stable_event pool event = (pool, false)
