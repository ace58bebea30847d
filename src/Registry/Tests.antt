-- ===== src/Registry/Tests.antt =====
-- A registry of two Bitflow XYK pools, and the theorems at it.
use stacks_dex_pool.Prelude.{ℕ, true, false, none, some, [], ◌∷◌, any, ◌≡◌, refl, arith}
use stacks_dex_pool.Prelude.Text.{Text, bytes, text_eq}
use stacks_dex_pool.Codec.Clarity.{no_fields, field, lookup, uint}
use stacks_dex_pool.Pool.Principal.{Principal, contract, standard, principal_eq}
use stacks_dex_pool.Pool.Event.{StacksEvent, data_uint}
use stacks_dex_pool.V2.BitflowXyk.{BitflowXykPool, topics}
use stacks_dex_pool.V2.Events.{
  bitflow_xyk_update, bitflow_xyk_indexed_actions, apply_bitflow_xyk_event,
}
use stacks_dex_pool.Registry.{
  PoolRegistry, new, get, insert, dispatch, polled_contracts, subscribes,
}
use stacks_dex_pool.Registry.Dispatch.{IsDistinct, delivered, dispatch-eq-delivered}
use stacks_dex_pool.Registry.Reachable.{start, step, inserted, reachable-polls}
use stacks_dex_pool.Registry.Contention.{xyk_interface, dispatch_contended}

abbrev token : ℕ → Principal
token n = contract 22 (1 ∷ []) (n ∷ [])

abbrev display : Principal → Text
display (standard version hash160) = hash160
display (contract version hash160 name) = name

abbrev xyk : ℕ → BitflowXykPool
xyk n = record {
  pool_contract = token n;
  core_contract = token 1;
  x_token = token 3;
  y_token = token 4;
  x_decimals = 6;
  y_decimals = 6;
  x_balance = 1000;
  y_balance = 1000;
  x_protocol_fee_bps = 10;
  x_provider_fee_bps = 40;
  y_protocol_fee_bps = 10;
  y_provider_fee_bps = 40;
  pool_status = true;
  last_tx_id = none;
}

abbrev two_pools : PoolRegistry BitflowXykPool
two_pools = insert (xyk_interface display) (xyk 8) (insert (xyk_interface display) (xyk 7) new)

abbrev of_pool_7 : StacksEvent
of_pool_7 = record {
  emitter = token 7;
  tx_id = 1 ∷ [];
  event_index = 0;
  action = bytes "update-pool-balances";
  fields = field (bytes "x-balance") (uint 5) (field (bytes "y-balance") (uint 6) no_fields);
}

IsDistinct-ids : IsDistinct two_pools.by_id
unfolding insert new text_eq
IsDistinct-ids = (refl, (refl, tt))

pool_8_found : get (8 ∷ []) two_pools ≡ some (xyk 8)
unfolding get insert new text_eq
pool_8_found = refl

dispatch-eq-delivered_example :
    dispatch (xyk_interface display) (λ id. false) of_pool_7 two_pools ≡ record two_pools {
      by_id = delivered (xyk_interface display) (λ id. false) of_pool_7 two_pools.by_id;
    }
dispatch-eq-delivered_example =
    dispatch-eq-delivered (xyk_interface display) (λ id. false) of_pool_7 two_pools IsDistinct-ids

keeps_topics :
    (pool : BitflowXykPool) (event : StacksEvent)
    → topics (apply_bitflow_xyk_event pool event).0 ≡ topics pool
unfolding topics apply_bitflow_xyk_event
keeps_topics pool event = ground arith

reachable-polls_example :
    IsDistinct two_pools.by_id
    × ((id : Text) (pool : BitflowXykPool) (c : Principal)
        → get id two_pools ≡ some pool
        → subscribes (topics pool) c ≡ true
        → any (λ q. principal_eq q c) (polled_contracts two_pools) ≡ true)
reachable-polls_example =
    reachable-polls (xyk_interface display) keeps_topics two_pools
      (step (step start (inserted (xyk 7))) (inserted (xyk 8)))

update_of_pool_7 : bitflow_xyk_update of_pool_7 ≡ some (5, 6)
unfolding bitflow_xyk_update bitflow_xyk_indexed_actions data_uint lookup bytes text_eq
update_of_pool_7 = refl

dispatch_contended_example :
    let after = dispatch (xyk_interface display) (λ id. true) of_pool_7 two_pools in
    (true ≡ false → get (8 ∷ []) after ≡ some (xyk 8))
    × (true ≡ true
        → get (8 ∷ []) after
          ≡ some (record (xyk 8) { x_balance = 5; y_balance = 6; last_tx_id = some (1 ∷ []) }))
dispatch_contended_example =
    dispatch_contended display (λ id. true) two_pools (8 ∷ []) (xyk 8) of_pool_7 5 6 IsDistinct-ids
      pool_8_found (ground arith) update_of_pool_7
