-- ===== src/Collector/Handle.antt =====
-- src/collector/handle.rs, with the start of the collector (src/collector/bootstrap.rs) and the
-- pollers that src/collector/per_contract_source.rs spawns. A task is the contract that it polls; the
-- source is taken to read the registry before the first change by the handle.
pub mod Pollers
use stacks_dex_pool.Prelude.{
  ℕ, Bool, true, false, List, [], ◌∷◌, map, any, filter, not, if◌then◌else◌,
}
use stacks_dex_pool.Prelude.Text.{Text}
use stacks_dex_pool.Pool.Principal.{Principal, principal_eq}
use stacks_dex_pool.Pool.Event.{StacksTopic}
use stacks_dex_pool.Registry.{PoolInterface, PoolRegistry, insert, remove, len, polled_contracts}

-- `HashSet::contains` and `HashSet::insert`.
abbrev pub contains : Principal → List Principal → Bool
contains c cs = any (λ d. principal_eq d c) cs

abbrev pub insert_contract : Principal → List Principal → List Principal
insert_contract c cs = if contains c cs then cs else c ∷ cs

pub record CollectorHandle (P : Type 0) : Type 0 where
  pub registry : PoolRegistry P
  pub polled : List Principal
  pub pollers : List Principal
  pub spawn_per_contract_on_add : Bool

module _ {P : Type 0} where
  -- With the source that spawns a poller for each contract.
  unfoldable pub start_collector : PoolRegistry P → CollectorHandle P
  start_collector registry = record {
    registry = registry;
    polled = polled_contracts registry;
    pollers = polled_contracts registry;
    spawn_per_contract_on_add = true;
  }

  -- With a source of the caller's.
  unfoldable pub start_collector_with_source : PoolRegistry P → CollectorHandle P
  start_collector_with_source registry = record {
    registry = registry;
    polled = polled_contracts registry;
    pollers = [];
    spawn_per_contract_on_add = false;
  }

  unfoldable pub pool_count : CollectorHandle P → ℕ
  pool_count handle = len handle.registry

  unfoldable pub spawn_poller : Principal → CollectorHandle P → CollectorHandle P
  spawn_poller c handle = record handle {
    polled = insert_contract c handle.polled;
    pollers = c ∷ handle.pollers;
  }

  unfoldable pub spawn_pollers : List Principal → CollectorHandle P → CollectorHandle P
  spawn_pollers [] handle = handle
  spawn_pollers (c ∷ cs) handle = spawn_pollers cs (spawn_poller c handle)

  -- The contracts are noted without a poller.
  unfoldable pub track : List Principal → CollectorHandle P → CollectorHandle P
  track [] handle = handle
  track (c ∷ cs) handle = track cs (record handle { polled = insert_contract c handle.polled })

  unfoldable pub remove_pool : Text → CollectorHandle P → CollectorHandle P × Bool
  remove_pool id handle =
      let (registry, found) = remove id handle.registry in
      (record handle { registry = registry }, found)

-- The contracts of the pool's topics, one for each topic, that are not polled yet.
unfoldable pub new_contracts : List StacksTopic → List Principal → List Principal
new_contracts topics polled = filter (λ c. not (contains c polled)) (map (λ t. t.contract) topics)

module _ {P : Type 0} (I : PoolInterface P) where
  unfoldable pub add_pool : P → CollectorHandle P → CollectorHandle P
  add_pool pool handle =
      let added = new_contracts (I.topics pool) handle.polled in
      let inserted = record handle { registry = insert I pool handle.registry } in
      if handle.spawn_per_contract_on_add
      then spawn_pollers added inserted
      else track added inserted
