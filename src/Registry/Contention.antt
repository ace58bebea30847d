-- ===== src/Registry/Contention.antt =====
-- Bitflow XYK pools in the registry: they leave the routing to the dispatcher, which takes pools
-- along that it finds locked.
use stacks_dex_pool.Prelude.{
  ℕ, Bool, true, false, some, List, [], ◌∷◌, ◌≡◌, ◌≢◌, refl, arith, inl, inr, Bool-cases,
}
use stacks_dex_pool.Prelude.Text.{Text, text_eq, eq_of_text_eq}
use stacks_dex_pool.AssocList.{assoc_get}
use stacks_dex_pool.Pool.Principal.{Principal, eq_of_principal_eq}
use stacks_dex_pool.Pool.Event.{StacksEvent}
use stacks_dex_pool.V2.BitflowXyk.{BitflowXykPool, topics}
use stacks_dex_pool.V2.Events.{bitflow_xyk_update, apply_bitflow_xyk_event}
use stacks_dex_pool.Registry.{PoolInterface, PoolRegistry, subscribes, get, dispatch}
use stacks_dex_pool.Registry.Dispatch.{IsDistinct, delivered, received, dispatch-eq-delivered}

-- `id` is the pool's contract as `Principal`'s `Display` writes it.
abbrev pub xyk_interface : (Principal → Text) → PoolInterface BitflowXykPool
xyk_interface display = record {
  id = λ pool. display pool.pool_contract;
  topics = topics;
  apply_event = apply_bitflow_xyk_event;
}

get-delivered :
    {P : Type 0} (I : PoolInterface P) (contended : Text → Bool) (event : StacksEvent) (id : Text)
    (pool : P) (m : List (Text × P))
    → assoc_get text_eq id m ≡ some pool
    → assoc_get text_eq id (delivered I contended event m)
      ≡ some (received I contended event id pool)
get-delivered I contended event id pool [] h = cc
get-delivered I contended event id pool ((i, q) ∷ m) h = elim (Bool-cases (text_eq id i)) [
  | inl same ↦
      let same_id = eq_of_text_eq id i same in
      let same_pool : some q ≡ some pool = ground arith in cc
  | inr other ↦ rw other (get-delivered I contended event id pool m (ground arith))
]

not_listening :
    (pool : BitflowXykPool) (emitter : Principal)
    → emitter ≢ pool.pool_contract
    → subscribes (topics pool) emitter ≡ false
unfolding subscribes topics
not_listening pool emitter ne = ground (arith, eq_of_principal_eq pool.pool_contract emitter)

taken_over :
    (pool : BitflowXykPool) (event : StacksEvent) (bx by : ℕ)
    → bitflow_xyk_update event ≡ some (bx, by)
    → (apply_bitflow_xyk_event pool event).0
      ≡ record pool { x_balance = bx; y_balance = by; last_tx_id = some event.tx_id }
unfolding apply_bitflow_xyk_event
taken_over pool event bx by update = rw update refl

module _ (display : Principal → Text) (contended : Text → Bool)
    (registry : PoolRegistry BitflowXykPool) (id : Text) (pool : BitflowXykPool)
    (event : StacksEvent) (bx by : ℕ) where
  -- Let an event with new balances come from another contract than a registered pool's. If the
  -- pool's lock is free, the dispatch leaves the pool as it is; if it is not, the pool takes over
  -- the balances of the other pool.
  pub dispatch_contended :
      IsDistinct registry.by_id
      → get id registry ≡ some pool
      → event.emitter ≢ pool.pool_contract
      → bitflow_xyk_update event ≡ some (bx, by)
      → (contended id ≡ false
          → get id (dispatch (xyk_interface display) contended event registry) ≡ some pool)
        × (contended id ≡ true
            → get id (dispatch (xyk_interface display) contended event registry)
              ≡ some
                  (record pool { x_balance = bx; y_balance = by; last_tx_id = some event.tx_id }))
  unfolding get
  dispatch_contended distinct found foreign update =
      rw
        (
          dispatch-eq-delivered (xyk_interface display) contended event registry distinct,
          get-delivered (xyk_interface display) contended event id pool registry.by_id found,
        )
        (
          λ free. rw (free, not_listening pool event.emitter foreign) refl,
          λ locked. rw (locked, taken_over pool event bx by update) refl,
        )
