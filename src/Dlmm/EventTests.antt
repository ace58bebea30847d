-- ===== src/Dlmm/EventTests.antt =====
-- Events of a pool, and the theorems at them.
use stacks_dex_pool.Prelude.{String, ◌≡◌, ◌≢◌, refl, inl, arith, none, some, [], ◌∷◌}
use stacks_dex_pool.Prelude.Int.{ℤ, pos, ◌-ℤ◌}
use stacks_dex_pool.Prelude.Text.{bytes, text_eq}
use stacks_dex_pool.BTreeMap.{get}
use stacks_dex_pool.Codec.Clarity.{Fields, no_fields, field, lookup, uint, int}
use stacks_dex_pool.Pool.Event.{StacksEvent, data_uint, data_int, data_principal}
use stacks_dex_pool.Dlmm.Events.{arm, swap, new_active_bin, apply_event, i32_of_int}
use stacks_dex_pool.Dlmm.Events.Filter.{IsStamped, apply_event-IsStamped}
use stacks_dex_pool.Dlmm.Events.Replay.{
  IsOwn, apply_event_twice, apply_event_updates_bin, apply_event_stale,
}
use stacks_dex_pool.Dlmm.Samples.{own_contract, bin, sample, sorted}

abbrev event_of : String → Fields → StacksEvent
event_of action fields = record {
  emitter = own_contract;
  tx_id = 1 ∷ [];
  event_index = 0;
  action = bytes action;
  fields = fields;
}

-- Swaps that move the active bin to `active`, and an update of the bin with the unsigned id 498.
abbrev swap_to : ℤ → StacksEvent
swap_to active =
    event_of "swap-x-for-y" (field (bytes "updated-active-bin-id") (int active) no_fields)

abbrev balances : StacksEvent
balances = event_of "update-bin-balances" (
    field (bytes "bin-id") (uint 498)
      (field (bytes "x-balance") (uint 5) (field (bytes "y-balance") (uint 6) no_fields)))

apply_event-IsStamped_example : IsStamped 7 balances sample (apply_event 7 sample balances)
apply_event-IsStamped_example = apply_event-IsStamped 7 sample balances

apply_event_twice_example :
    apply_event 8 (apply_event 7 sample balances) balances ≡ apply_event 8 sample balances
apply_event_twice_example = apply_event_twice 7 8 sample balances

own :
    (event : StacksEvent) → lookup (bytes "pool-contract") event.fields ≡ none → IsOwn sample event
unfolding data_principal
own event h = rw h

carries :
    (data_uint balances (bytes "bin-id") ≡ some 498)
    × (data_uint balances (bytes "x-balance") ≡ some 5)
    × (data_uint balances (bytes "y-balance") ≡ some 6)
unfolding data_uint lookup bytes text_eq
carries = (refl, refl, refl)

moves :
    (active : ℤ)
    → i32_of_int active ≡ some active
    → (arm (swap_to active).action ≡ swap) × (new_active_bin (swap_to active) ≡ some active)
unfolding arm new_active_bin data_int lookup bytes text_eq
moves active h = (refl, h)

no_contract :
    (active : ℤ)
    → (lookup (bytes "pool-contract") (swap_to active).fields ≡ none)
      × (lookup (bytes "pool-contract") balances.fields ≡ none)
unfolding lookup bytes text_eq
no_contract active = (refl, refl)

apply_event_updates_bin_example :
    let after = (apply_event 7 sample balances).bins in
    (get (pos 498 -ℤ pos 500) after ≡ some (bin 5 6))
    × ((i : ℤ) → i ≢ pos 498 -ℤ pos 500 → get i after ≡ get i sample.bins)
apply_event_updates_bin_example =
    apply_event_updates_bin 7 sample balances 498 5 6 sorted (own balances (no_contract (pos 0)).1)
      (inl refl) carries.0 (omega arith) carries.1 carries.2

in_word : (i32_of_int (pos 3) ≡ some (pos 3)) × (i32_of_int (pos 5) ≡ some (pos 5))
unfolding i32_of_int
in_word = (refl, refl)

apply_event_stale_example :
    let current = apply_event 8 (apply_event 7 sample (swap_to (pos 3))) (swap_to (pos 5)) in
    ((apply_event 9 current (swap_to (pos 3))).active_bin_id ≡ pos 3)
    × (apply_event 9 current (swap_to (pos 3)) ≢ current)
apply_event_stale_example =
    apply_event_stale 7 8 9 sample (swap_to (pos 3)) (swap_to (pos 5)) (pos 3) (pos 5)
      (own (swap_to (pos 3)) (no_contract (pos 3)).0)
      (own (swap_to (pos 5)) (no_contract (pos 5)).0) (moves (pos 3) in_word.0).0
      (moves (pos 5) in_word.1).0 (moves (pos 3) in_word.0).1 (moves (pos 5) in_word.1).1
      (λ e. cc e)
