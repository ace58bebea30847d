-- ===== src/Collector/Handle/Pollers.antt =====
-- Which contracts have a poller, and how many.
use stacks_dex_pool.Prelude.{
  ℕ, suc, ◌+◌, ◌≡◌, refl, ap, sym, subst, ◌∙◌, inl, inr, Bool, true, false, Bool-cases, ◌||◌, List,
  [], ◌∷◌, map, if◌then◌else◌, arith,
}
use stacks_dex_pool.Prelude.Text.{Text}
use stacks_dex_pool.Pool.Principal.{Principal, principal_eq, eq_of_principal_eq}
use stacks_dex_pool.Pool.Event.{StacksTopic}
use stacks_dex_pool.Registry.{
  PoolInterface, PoolRegistry, subscribes, insert, remove, distinct_contracts, polled_contracts,
  add_topics,
}
use stacks_dex_pool.Registry.Map.{polled_iff, subscribes-add_topics}
use stacks_dex_pool.Collector.Handle.{
  CollectorHandle, contains, insert_contract, start_collector, spawn_poller, spawn_pollers,
  remove_pool, track, new_contracts, add_pool,
}

-- How many of the contracts are `c`.
abbrev pub count_of : Principal → List Principal → ℕ
count_of c [] = 0
count_of c (d ∷ ds) = let rest = count_of c ds in if principal_eq d c then suc rest else rest

module _ {P : Type 0} where
  spawn_pollers-count :
      (c : Principal) (cs : List Principal) (handle : CollectorHandle P)
      → count_of c (spawn_pollers cs handle).pollers ≡ count_of c cs + count_of c handle.pollers
  unfolding spawn_pollers spawn_poller
  spawn_pollers-count c [] handle = omega arith
  spawn_pollers-count c (d ∷ ds) handle =
      ground (arith, spawn_pollers-count c ds (spawn_poller d handle))

new_contracts-count :
    (c : Principal) (topics : List StacksTopic) (polled : List Principal)
    → contains c polled ≡ false
    → count_of c (new_contracts topics polled) ≡ count_of c (map (λ t. t.contract) topics)
unfolding new_contracts
new_contracts-count c [] polled fresh = refl
new_contracts-count c (t ∷ ts) polled fresh =
    let ih = new_contracts-count c ts polled fresh in
    elim (Bool-cases (principal_eq t.contract c)) [
      | inl same ↦
          let e = eq_of_principal_eq t.contract c same in
          let unpolled : contains t.contract polled ≡ false = rw e fresh in
          rw (unpolled, same, ih) refl
      | inr other ↦ elim (Bool-cases (contains t.contract polled)) [
        | inl old ↦ rw (old, other) ih
        | inr new ↦ rw (new, other) ih
      ]
    ]

module _ {P : Type 0} (I : PoolInterface P) where
  add_pool-spawns :
      (pool : P) (handle : CollectorHandle P)
      → handle.spawn_per_contract_on_add ≡ true
      → add_pool I pool handle
        ≡ spawn_pollers
            (new_contracts (I.topics pool) handle.polled)
            (record handle { registry = insert I pool handle.registry })
  unfolding add_pool
  add_pool-spawns pool handle spawns =
      let added = new_contracts (I.topics pool) handle.polled in
      let inserted = record handle { registry = insert I pool handle.registry } in
      ap (λ (b : Bool). if b then spawn_pollers added inserted else track added inserted) spawns

module _ {P : Type 0} (I : PoolInterface P) where
  -- With the per-contract source, a pool that is added starts a poller for each of its topics about a
  -- contract that is not polled yet: as many pollers of the same contract as it has topics about it.
  pub add_pool_pollers :
      (pool : P) (handle : CollectorHandle P) (c : Principal)
      → handle.spawn_per_contract_on_add ≡ true
      → contains c handle.polled ≡ false
      → count_of c (add_pool I pool handle).pollers
        ≡ count_of c (map (λ t. t.contract) (I.topics pool)) + count_of c handle.pollers
  add_pool_pollers pool handle c spawns fresh =
      let added = new_contracts (I.topics pool) handle.polled in
      let inserted = record handle { registry = insert I pool handle.registry } in
      ap (λ h. count_of c h.pollers) (add_pool-spawns I pool handle spawns)
      ∙ spawn_pollers-count c added inserted
      ∙ rw (new_contracts-count c (I.topics pool) handle.polled fresh) refl

contains-insert_contract :
    (c d : Principal) (cs : List Principal)
    → contains c (insert_contract d cs) ≡ (principal_eq d c || contains c cs)
contains-insert_contract c d cs = elim (Bool-cases (principal_eq d c)) [
  | inl same ↦
      let e = eq_of_principal_eq d c same in
      rw (same) (elim (Bool-cases (contains d cs)) [
        | inl old ↦ rw (old) (rw e at old)
        | inr new ↦ rw (new, same) refl
      ])
  | inr other ↦ ground arith
]

-- The contracts that some topic is about.
new_contracts-contains :
    (c : Principal) (topics : List StacksTopic) (polled : List Principal)
    → subscribes topics c ≡ true
    → contains c polled ≡ false
    → contains c (new_contracts topics polled) ≡ true
unfolding new_contracts subscribes
new_contracts-contains c [] polled heard fresh = cc
new_contracts-contains c (t ∷ ts) polled heard fresh =
    elim (Bool-cases (principal_eq t.contract c)) [
      | inl same ↦
          let e = eq_of_principal_eq t.contract c same in
          let unpolled : contains t.contract polled ≡ false = rw e fresh in rw (unpolled, same) refl
      | inr other ↦
          let ih = new_contracts-contains c ts polled (rw other at heard) fresh in
          elim (Bool-cases (contains t.contract polled)) [
            | inl old ↦ rw old ih
            | inr new ↦ rw (new, other) ih
          ]
    ]

module _ {P : Type 0} where
  -- Every contract that the registry polls has a poller, and the pollers are those that are noted.
  pub record IsCovered (handle : CollectorHandle P) : Type 0 where
    pub spawns : handle.spawn_per_contract_on_add ≡ true
    pub noted : (c : Principal) → contains c handle.polled ≡ contains c handle.pollers
    pub covered :
        (c : Principal)
        → contains c (polled_contracts handle.registry) ≡ true
        → contains c handle.pollers ≡ true

  spawn_pollers-contains :
      (c : Principal) (cs : List Principal) (handle : CollectorHandle P)
      → (contains c (spawn_pollers cs handle).pollers
          ≡ (contains c cs || contains c handle.pollers))
        × (contains c (spawn_pollers cs handle).polled
            ≡ (contains c cs || contains c handle.polled))
  unfolding spawn_pollers spawn_poller
  spawn_pollers-contains c [] handle = (refl, refl)
  spawn_pollers-contains c (d ∷ ds) handle =
      let (tasks, noted) = spawn_pollers-contains c ds (spawn_poller d handle) in
      let one = contains-insert_contract c d handle.polled in (ground arith, ground arith)

  spawn_pollers-rest :
      (cs : List Principal) (handle : CollectorHandle P)
      → ((spawn_pollers cs handle).registry ≡ handle.registry)
        × ((spawn_pollers cs handle).spawn_per_contract_on_add ≡ handle.spawn_per_contract_on_add)
  unfolding spawn_pollers spawn_poller
  spawn_pollers-rest [] handle = (refl, refl)
  spawn_pollers-rest (d ∷ ds) handle = spawn_pollers-rest ds (spawn_poller d handle)

module _ {P : Type 0} (I : PoolInterface P) where
  -- A change by the handle's owner, or one by the collector, which leaves the topics as they are.
  pub data Step : CollectorHandle P → CollectorHandle P → Type 0 where
    added : {h : CollectorHandle P} (pool : P) → Step h (add_pool I pool h)
    removed : {h : CollectorHandle P} (id : Text) → Step h (remove_pool id h).0
    collected :
        {h : CollectorHandle P} (r : PoolRegistry P)
        → r.topics ≡ h.registry.topics
        → Step h (record h { registry = r })

  pub data Reachable (r : PoolRegistry P) : CollectorHandle P → Type 0 where
    started : Reachable r (start_collector r)
    step : {h k : CollectorHandle P} → Reachable r h → Step h k → Reachable r k

  start-IsCovered : (r : PoolRegistry P) → IsCovered (start_collector r)
  unfolding start_collector
  start-IsCovered r = record { spawns = refl; noted = λ c. refl; covered = λ c h. h }

  spawned-covered :
      (pool : P) (h : CollectorHandle P) (c : Principal)
      → IsCovered h
      → contains c (polled_contracts (insert I pool h.registry)) ≡ true
      → (contains c (new_contracts (I.topics pool) h.polled) || contains c h.pollers) ≡ true
  unfolding insert polled_contracts
  spawned-covered pool h c ok heard =
      let topics = polled_iff (add_topics (I.topics pool) h.registry.topics) c in
      let more = subscribes-add_topics (I.topics pool) h.registry.topics c in
      let before = polled_iff h.registry.topics c in
      let sum : (subscribes (I.topics pool) c || subscribes h.registry.topics c) ≡ true =
        sym more ∙ sym topics ∙ heard in
      elim (Bool-cases (contains c h.pollers)) [
        | inl polled ↦ ground arith
        | inr idle ↦ elim (Bool-cases (subscribes h.registry.topics c)) [
          | inl old ↦ cc (ok.covered c (before ∙ old), idle)
          | inr new ↦
              let subscribed : subscribes (I.topics pool) c ≡ true = ground arith in
              let found =
                new_contracts-contains c (I.topics pool) h.polled subscribed (ok.noted c ∙ idle) in
              rw found refl
        ]
      ]

  add_pool-IsCovered :
      (pool : P) (h : CollectorHandle P) → IsCovered h → IsCovered (add_pool I pool h)
  add_pool-IsCovered pool h ok =
      let new = new_contracts (I.topics pool) h.polled in
      let inserted = record h { registry = insert I pool h.registry } in
      let (same, spawns) = spawn_pollers-rest new inserted in
      subst IsCovered (sym (add_pool-spawns I pool h ok.spawns)) (record {
        spawns = spawns ∙ ok.spawns;
        noted = λ c.
            let (tasks, noted) = spawn_pollers-contains c new inserted in
            noted ∙ ap (λ b. contains c new || b) (ok.noted c) ∙ sym tasks;
        covered = λ c heard.
            let (tasks, noted) = spawn_pollers-contains c new inserted in
            tasks
            ∙ spawned-covered pool h c ok
                (subst (λ r. contains c (polled_contracts r) ≡ true) same heard);
      })

  Step-IsCovered : {h k : CollectorHandle P} → Step h k → IsCovered h → IsCovered k
  unfolding remove_pool remove polled_contracts
  Step-IsCovered (added {h} pool) ok = add_pool-IsCovered pool h ok
  Step-IsCovered (removed id) ok = record {
    spawns = ok.spawns;
    noted = ok.noted;
    covered = ok.covered;
  }
  Step-IsCovered (collected r same) ok = record {
    spawns = ok.spawns;
    noted = ok.noted;
    covered = λ c heard.
        ok.covered c (subst (λ ts. contains c (distinct_contracts ts) ≡ true) same heard);
  }

  -- From the start with the per-contract source on, whatever pools are added and removed and whatever
  -- the collector does to the registry without a change of its topics, every contract that the
  -- registry polls has a poller, and a contract has one exactly if it is noted as polled.
  pub reachable-IsCovered :
      (r : PoolRegistry P) (h : CollectorHandle P) → Reachable r h → IsCovered h
  reachable-IsCovered r _ started = start-IsCovered r
  reachable-IsCovered r _ (step before change) =
      Step-IsCovered change (reachable-IsCovered r _ before)
