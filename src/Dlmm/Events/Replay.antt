-- ===== src/Dlmm/Events/Replay.antt =====
-- Delivering an event again. The collector's queue may do so: it forgets old events.
use stacks_dex_pool.Prelude.{
  ℕ, ◌-◌, ◌^◌, ◌<◌, Option, none, some, true, false, ◌≡◌, ◌≢◌, ◌⊎◌, inl, inr, refl, ap, arith, leb,
  Bool-cases,
}
use stacks_dex_pool.Prelude.Int.{ℤ, pos, ◌-ℤ◌}
use stacks_dex_pool.Prelude.Text.{Text, bytes, text_eq}
use stacks_dex_pool.BTreeMap.{get, insert}
use stacks_dex_pool.BTreeMap.Laws.{IsSorted, insert-insert, get-insert_self, get-insert_ne}
use stacks_dex_pool.Pool.Event.{StacksEvent, data_uint, data_principal}
use stacks_dex_pool.Dlmm.Pool.{BinState, DlmmPool}
use stacks_dex_pool.Dlmm.Events.{
  Arm, update_bins, swap, arm, bin_update, new_active_bin, apply_arm, stamp, is_foreign,
  apply_event, apply_bins, i32_of_uint,
}

module _ (before now : ℕ) (pool : DlmmPool) (event : StacksEvent) where
  abbrev once : Arm → DlmmPool
  once a = stamp before event (apply_arm a pool event)

  twice_bins :
      (u : Option (ℤ × BinState))
      → stamp now event (apply_bins (stamp before event (apply_bins pool u)) u)
        ≡ stamp now event (apply_bins pool u)
  twice_bins none = refl
  twice_bins (some (bin_id, b)) = rw insert-insert

  twice_arm :
      (a : Arm)
      → stamp now event (apply_arm a (once a) event) ≡ stamp now event (apply_arm a pool event)
  unfolding apply_arm
  twice_arm update_bins = twice_bins (bin_update event)
  twice_arm _ = ground arith

  same_contract : (a : Arm) → (once a).pool_contract ≡ pool.pool_contract
  unfolding apply_arm
  same_contract update_bins = ground arith
  same_contract _ = ground arith

  -- An event that is applied twice in a row leaves what it leaves when applied once, at the time of
  -- the second call.
  pub apply_event_twice :
      apply_event now (apply_event before pool event) event ≡ apply_event now pool event
  unfolding apply_event
  apply_event_twice =
      elim (Bool-cases
        (is_foreign pool.pool_contract (data_principal event (bytes "pool-contract")))) [
          | inl foreign ↦ rw (foreign, foreign)
          | inr ours ↦
              rw (ours, same_contract (arm event.action), ours) (twice_arm (arm event.action))
        ]

-- The event is about this pool.
abbrev pub IsOwn : DlmmPool → StacksEvent → Type 0
IsOwn pool event =
    is_foreign pool.pool_contract (data_principal event (bytes "pool-contract")) ≡ false

apply_event_update :
    (now : ℕ) (pool : DlmmPool) (event : StacksEvent) (bin_id : ℤ) (b : BinState)
    → IsOwn pool event
    → arm event.action ≡ update_bins
    → bin_update event ≡ some (bin_id, b)
    → (apply_event now pool event).bins ≡ insert bin_id b pool.bins
unfolding apply_event apply_arm
apply_event_update now pool event bin_id b own action update = rw (own, action, update) refl

abbrev IsUpdate : Text → Type 0
IsUpdate action =
    (action ≡ bytes "update-bin-balances") ⊎ (action ≡ bytes "update-bin-balances-on-withdraw")

arm-IsUpdate : (action : Text) → IsUpdate action → arm action ≡ update_bins
unfolding arm bytes text_eq
arm-IsUpdate action (inl e) = ap arm e
arm-IsUpdate action (inr e) = ap arm e

bin_update_lem :
    (event : StacksEvent) (u x y : ℕ)
    → data_uint event (bytes "bin-id") ≡ some u
    → u < 2 ^ 31
    → data_uint event (bytes "x-balance") ≡ some x
    → data_uint event (bytes "y-balance") ≡ some y
    → bin_update event ≡ some (pos u -ℤ pos 500, record { x = x; y = y })
unfolding bin_update i32_of_uint
bin_update_lem event u x y id small hx hy =
    let fits : leb u (2 ^ 31 - 1) ≡ true = ground arith in rw (id, fits, hx, hy) refl

-- Let the bins be sorted and the event be an `update-bin-balances` or an
-- `update-bin-balances-on-withdraw` of this pool that carries a bin id below 2 ^ 31 and both
-- balances. Then the bin 500 below the carried id holds the carried x and y afterwards, and every
-- other bin reads as before.
pub apply_event_updates_bin :
    (now : ℕ) (pool : DlmmPool) (event : StacksEvent) (u x y : ℕ)
    → IsSorted pool.bins
    → IsOwn pool event
    → IsUpdate event.action
    → data_uint event (bytes "bin-id") ≡ some u
    → u < 2 ^ 31
    → data_uint event (bytes "x-balance") ≡ some x
    → data_uint event (bytes "y-balance") ≡ some y
    → let after = (apply_event now pool event).bins in
      (get (pos u -ℤ pos 500) after ≡ some (record { x = x; y = y }))
      × ((i : ℤ) → i ≢ pos u -ℤ pos 500 → get i after ≡ get i pool.bins)
apply_event_updates_bin now pool event u x y s own action id small hx hy =
    let b : BinState = record { x = x; y = y } in
    let at : ℤ = pos u -ℤ pos 500 in
    let inserted =
      apply_event_update now pool event at b own (arm-IsUpdate event.action action)
        (bin_update_lem event u x y id small hx hy) in
    rw inserted (get-insert_self at b pool.bins, λ i h. get-insert_ne i at b pool.bins s h)

apply_event_swap :
    (now : ℕ) (pool : DlmmPool) (event : StacksEvent) (active : ℤ)
    → IsOwn pool event
    → arm event.action ≡ swap
    → new_active_bin event ≡ some active
    → apply_event now pool event ≡ stamp now event (record pool { active_bin_id = active }, true)
unfolding apply_event apply_arm
apply_event_swap now pool event active own action update = rw (own, action, update)

-- Of two swap events of this pool that move to different active bins, delivering the first once
-- more after the second changes the pool: it moves the active bin back to that of the first.
pub apply_event_stale :
    (t t' t'' : ℕ) (pool : DlmmPool) (first second : StacksEvent) (a b : ℤ)
    → IsOwn pool first
    → IsOwn pool second
    → arm first.action ≡ swap
    → arm second.action ≡ swap
    → new_active_bin first ≡ some a
    → new_active_bin second ≡ some b
    → a ≢ b
    → let current = apply_event t' (apply_event t pool first) second in
      ((apply_event t'' current first).active_bin_id ≡ a)
      × (apply_event t'' current first ≢ current)
apply_event_stale t t' t'' pool first second a b own own' act act' to to' ne =
    let e = apply_event_swap t pool first a own act to in
    let moved = stamp t first (record pool { active_bin_id = a }, true) in
    let e' = apply_event_swap t' moved second b own' act' to' in
    let current = stamp t' second (record moved { active_bin_id = b }, true) in
    let e'' = apply_event_swap t'' current first a own act to in
    rw (e, e', e'') (refl, λ same. ne (ap (λ (q : DlmmPool). q.active_bin_id) same))
