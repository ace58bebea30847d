-- ===== src/Dlmm/Events/Filter.antt =====
-- Which events leave a pool alone, and what no event touches.
use stacks_dex_pool.Prelude.{
  ℕ, Option, none, some, false, ◌≡◌, ◌≢◌, ◌⊎◌, inl, inr, refl, arith, any, Bool-cases,
}
use stacks_dex_pool.Prelude.Int.{ℤ}
use stacks_dex_pool.Prelude.Text.{Text, bytes, text_eq}
use stacks_dex_pool.BTreeMap.Laws.{IsSorted, insert-IsSorted}
use stacks_dex_pool.Pool.Principal.{Principal, eq_of_principal_eq}
use stacks_dex_pool.Pool.Event.{StacksEvent, data_principal}
use stacks_dex_pool.Dlmm.Pool.{BinState, DlmmPool}
use stacks_dex_pool.Dlmm.Events.{
  Arm, update_bins, swap, reset_variable_fees, set_pool_status, other, arm, indexed_actions,
  bin_update, new_active_bin, apply_arm, stamp, is_foreign, apply_event, apply_bins, apply_swap,
}

-- An event that names another pool's contract changes nothing.
apply_event_foreign :
    (now : ℕ) (pool : DlmmPool) (event : StacksEvent) (target : Principal)
    → data_principal event (bytes "pool-contract") ≡ some target
    → target ≢ pool.pool_contract
    → apply_event now pool event ≡ pool
unfolding apply_event
apply_event_foreign now pool event target named ne =
    ground (arith, eq_of_principal_eq target pool.pool_contract)

arm-other : (action : Text) → any (text_eq action) indexed_actions ≡ false → arm action ≡ other
unfolding arm indexed_actions
arm-other action h = ground arith

-- An event whose action is not one of `INDEXED_ACTIONS` changes nothing.
apply_event_unindexed :
    (now : ℕ) (pool : DlmmPool) (event : StacksEvent)
    → any (text_eq event.action) indexed_actions ≡ false
    → apply_event now pool event ≡ pool
unfolding apply_event apply_arm
apply_event_unindexed now pool event h =
    elim (Bool-cases
      (is_foreign pool.pool_contract (data_principal event (bytes "pool-contract")))) [
        | inl foreign ↦ rw foreign
        | inr ours ↦ rw (ours, arm-other event.action h)
      ]

-- What identifies a pool and what its prices rest on.
pub record IsSamePool (before after : DlmmPool) : Type 0 where
  pub pool_contract : after.pool_contract ≡ before.pool_contract
  pub core_contract : after.core_contract ≡ before.core_contract
  pub x_token : after.x_token ≡ before.x_token
  pub y_token : after.y_token ≡ before.y_token
  pub x_decimals : after.x_decimals ≡ before.x_decimals
  pub y_decimals : after.y_decimals ≡ before.y_decimals
  pub bin_step : after.bin_step ≡ before.bin_step
  pub initial_price : after.initial_price ≡ before.initial_price
  pub factors : after.factors ≡ before.factors

IsSamePool-refl : (pool : DlmmPool) → IsSamePool pool pool
IsSamePool-refl pool = record {
  pool_contract = refl;
  core_contract = refl;
  x_token = refl;
  y_token = refl;
  x_decimals = refl;
  y_decimals = refl;
  bin_step = refl;
  initial_price = refl;
  factors = refl;
}

-- An event left a pool as it was, or changed it and stamped it as fresh.
abbrev pub IsStamped : ℕ → StacksEvent → DlmmPool → DlmmPool → Type 0
IsStamped now event before after =
    (after ≡ before)
    ⊎ (IsSamePool before after
        × (after.last_tx_id ≡ some event.tx_id)
        × (after.last_event_at ≡ some now))

arm-IsStamped :
    (now : ℕ) (pool : DlmmPool) (event : StacksEvent) (a : Arm)
    → IsStamped now event pool (stamp now event (apply_arm a pool event))
unfolding apply_arm
arm-IsStamped now pool event update_bins = ground arith
arm-IsStamped now pool event _ = ground arith

-- Whatever the event, the pool stays as it is, or its identity, price and factors stay while
-- `last_tx_id` and `last_event_at` become those of the event.
pub apply_event-IsStamped :
    (now : ℕ) (pool : DlmmPool) (event : StacksEvent)
    → IsStamped now event pool (apply_event now pool event)
unfolding apply_event
apply_event-IsStamped now pool event =
    elim (Bool-cases
      (is_foreign pool.pool_contract (data_principal event (bytes "pool-contract")))) [
        | inl foreign ↦ rw foreign (inl refl)
        | inr ours ↦ rw ours (arm-IsStamped now pool event (arm event.action))
      ]

arm-IsSorted :
    (now : ℕ) (pool : DlmmPool) (event : StacksEvent) (a : Arm)
    → IsSorted pool.bins
    → IsSorted (stamp now event (apply_arm a pool event)).bins
unfolding apply_arm
arm-IsSorted now pool event update_bins s = go (bin_update event)
  where
    go : (u : Option (ℤ × BinState)) → IsSorted (stamp now event (apply_bins pool u)).bins
    go none = s
    go (some (bin_id, b)) = insert-IsSorted bin_id b pool.bins s
arm-IsSorted now pool event swap s = go (new_active_bin event)
  where
    go : (u : Option ℤ) → IsSorted (stamp now event (apply_swap pool u)).bins
    go none = s
    go (some active) = s
arm-IsSorted now pool event reset_variable_fees s = s
arm-IsSorted now pool event set_pool_status s = s
arm-IsSorted now pool event other s = s
arm-IsSorted now pool event _ s = ground arith

-- Every event keeps the bins sorted.
pub apply_event-IsSorted :
    (now : ℕ) (pool : DlmmPool) (event : StacksEvent)
    → IsSorted pool.bins
    → IsSorted (apply_event now pool event).bins
unfolding apply_event
apply_event-IsSorted now pool event s =
    elim (Bool-cases
      (is_foreign pool.pool_contract (data_principal event (bytes "pool-contract")))) [
        | inl foreign ↦ rw foreign s
        | inr ours ↦ rw ours (arm-IsSorted now pool event (arm event.action) s)
      ]
