-- ===== src/Dlmm/Events.antt =====
-- src/dlmm/events.rs: how an event changes the mirrored pool. `apply_event` returns `Ok(())` on
-- every path, so the model returns the pool; the time of the system clock is an argument.
pub mod Filter
pub mod Replay
use stacks_dex_pool.Prelude.{
  ℕ, ◌+◌, ◌-◌, ◌%◌, ◌^◌, Option, none, some, Bool, true, false, not, List, [], ◌∷◌, leb, ◌||◌, ◌&&◌,
  if◌then◌else◌, any,
}
use stacks_dex_pool.Prelude.Int.{ℤ, pos, negsuc, ◌-ℤ◌, leb_ℤ}
use stacks_dex_pool.Prelude.Word.{u32_size}
use stacks_dex_pool.Prelude.Partial.{◌>>=◌, is_some}
use stacks_dex_pool.Prelude.Text.{Text, bytes, text_eq}
use stacks_dex_pool.BTreeMap.{insert}
use stacks_dex_pool.Pool.Principal.{Principal, principal_eq}
use stacks_dex_pool.Pool.Event.{StacksEvent, data_uint, data_int, data_principal}
use stacks_dex_pool.Dlmm.Constants.{center_bin_id}
use stacks_dex_pool.Dlmm.Pool.{BinState, DlmmPool}

-- `INDEXED_ACTIONS` and `KNOWN_INFORMATIONAL`.
unfoldable pub indexed_actions : List Text
indexed_actions =
    bytes "update-bin-balances"
    ∷ bytes "update-bin-balances-on-withdraw"
    ∷ bytes "swap-x-for-y"
    ∷ bytes "swap-y-for-x"
    ∷ bytes "set-x-fees"
    ∷ bytes "set-y-fees"
    ∷ bytes "set-variable-fees"
    ∷ bytes "reset-variable-fees"
    ∷ bytes "set-pool-status"
    ∷ []

unfoldable pub known_informational : List Text
known_informational =
    bytes "add-liquidity"
    ∷ bytes "withdraw-liquidity"
    ∷ bytes "pool-transfer"
    ∷ bytes "pool-burn"
    ∷ bytes "pool-mint"
    ∷ []

-- The arms of the `match` on the action.
pub data Arm : Type 0 where
  update_bins swap set_x_fees set_y_fees set_variable_fees reset_variable_fees set_pool_status
        other :
      Arm

unfoldable pub arm : Text → Arm
arm action =
    if text_eq action (bytes "update-bin-balances")
      || text_eq action (bytes "update-bin-balances-on-withdraw")
    then update_bins
    else if text_eq action (bytes "swap-x-for-y") || text_eq action (bytes "swap-y-for-x")
    then swap
    else if text_eq action (bytes "set-x-fees")
    then set_x_fees
    else if text_eq action (bytes "set-y-fees")
    then set_y_fees
    else if text_eq action (bytes "set-variable-fees")
    then set_variable_fees
    else if text_eq action (bytes "reset-variable-fees")
    then reset_variable_fees
    else if text_eq action (bytes "set-pool-status")
    then set_pool_status
    else other

-- `i32::try_from`, of a `u128` and of an `i128`.
unfoldable pub i32_of_uint : ℕ → Option ℤ
i32_of_uint n = if leb n (2 ^ 31 - 1) then some (pos n) else none

unfoldable pub i32_of_int : ℤ → Option ℤ
i32_of_int n = if leb_ℤ (negsuc (2 ^ 31 - 1)) n && leb_ℤ n (pos (2 ^ 31 - 1)) then some n else none

-- `apply_update_bin_balances`: the bin and its new balances, if the event has them all.
unfoldable pub bin_update : StacksEvent → Option (ℤ × BinState)
bin_update event = do
  raw ← data_uint event (bytes "bin-id")
  unsigned ← i32_of_uint raw
  x ← data_uint event (bytes "x-balance")
  y ← data_uint event (bytes "y-balance")
  some (unsigned -ℤ center_bin_id, record { x = x; y = y })

abbrev or_else : {A : Type 0} → Option A → Option A → Option A
or_else none b = b
or_else (some a) _ = some a

-- `apply_swap`: the new active bin.
unfoldable pub new_active_bin : StacksEvent → Option ℤ
new_active_bin event = do
  raw ←
      or_else (data_int event (bytes "updated-active-bin-id"))
        (data_int event (bytes "active-bin-id"))
  i32_of_int raw

-- `if let Some(p) = … { field = p as u32; changed = true; }`: the field's value afterwards.
abbrev pub written : Option ℕ → ℕ → ℕ
written none old = old
written (some n) old = n % u32_size

abbrev pub apply_bins : DlmmPool → Option (ℤ × BinState) → DlmmPool × Bool
apply_bins pool none = (pool, false)
apply_bins pool (some (bin_id, b)) = (record pool { bins = insert bin_id b pool.bins }, true)

abbrev pub apply_swap : DlmmPool → Option ℤ → DlmmPool × Bool
apply_swap pool none = (pool, false)
apply_swap pool (some active) = (record pool { active_bin_id = active }, true)

-- One arm, with whether it `applied`.
unfoldable pub apply_arm : Arm → DlmmPool → StacksEvent → DlmmPool × Bool
apply_arm update_bins pool event = apply_bins pool (bin_update event)
apply_arm swap pool event = apply_swap pool (new_active_bin event)
apply_arm set_x_fees pool event =
    let protocol_fee = data_uint event (bytes "protocol-fee") in
    let provider_fee = data_uint event (bytes "provider-fee") in
    (
      record pool {
        x_protocol_fee = written protocol_fee pool.x_protocol_fee;
        x_provider_fee = written provider_fee pool.x_provider_fee;
      },
      is_some protocol_fee || is_some provider_fee,
    )
apply_arm set_y_fees pool event =
    let protocol_fee = data_uint event (bytes "protocol-fee") in
    let provider_fee = data_uint event (bytes "provider-fee") in
    (
      record pool {
        y_protocol_fee = written protocol_fee pool.y_protocol_fee;
        y_provider_fee = written provider_fee pool.y_provider_fee;
      },
      is_some protocol_fee || is_some provider_fee,
    )
apply_arm set_variable_fees pool event =
    let x_fee = data_uint event (bytes "x-fee") in
    let y_fee = data_uint event (bytes "y-fee") in
    (
      record pool {
        x_variable_fee = written x_fee pool.x_variable_fee;
        y_variable_fee = written y_fee pool.y_variable_fee;
      },
      is_some x_fee || is_some y_fee,
    )
apply_arm reset_variable_fees pool event =
    (record pool { x_variable_fee = 0; y_variable_fee = 0 }, true)
apply_arm set_pool_status pool event = (pool, true)
apply_arm other pool event = (pool, false)

abbrev pub stamp : ℕ → StacksEvent → DlmmPool × Bool → DlmmPool
stamp now event (pool, true) = record pool {
  last_tx_id = some event.tx_id;
  last_event_at = some now;
}
stamp now event (pool, false) = pool

-- The cross-pool filter: an event that names another pool is dropped.
abbrev pub is_foreign : Principal → Option Principal → Bool
is_foreign own none = false
is_foreign own (some target) = not (principal_eq target own)

unfoldable pub apply_event : ℕ → DlmmPool → StacksEvent → DlmmPool
apply_event now pool event =
    if is_foreign pool.pool_contract (data_principal event (bytes "pool-contract"))
    then pool
    else stamp now event (apply_arm (arm event.action) pool event)
