-- ===== src/Collector/HandleTests.antt =====
-- An Arkadiko pair that is added to a running collector.
use stacks_dex_pool.Prelude.{◌≡◌, refl, false, none, [], ◌∷◌}
use stacks_dex_pool.Prelude.Text.{bytes, text_eq}
use stacks_dex_pool.Pool.Principal.{Principal, standard, principal_eq}
use stacks_dex_pool.Registry.{PoolInterface, new, polled_contracts, distinct_contracts}
use stacks_dex_pool.V2.Arkadiko.{ArkadikoPool, topics}
use stacks_dex_pool.V2.Events.{apply_arkadiko_event}
use stacks_dex_pool.Collector.Handle.{CollectorHandle, start_collector, add_pool}
use stacks_dex_pool.Collector.Handle.Pollers.{
  count_of, add_pool_pollers, IsCovered, started, step, added, reachable-IsCovered,
}

abbrev swap_contract : Principal
swap_contract = standard 22 (1 ∷ [])

abbrev pair : ArkadikoPool
pair = record {
  pool_contract = swap_contract;
  swap_token = standard 22 (2 ∷ []);
  x_token = standard 22 (3 ∷ []);
  y_token = standard 22 (4 ∷ []);
  x_decimals = 6;
  y_decimals = 6;
  balance_x = 1000;
  balance_y = 1000;
  enabled = false;
  last_tx_id = none;
}

abbrev interface : PoolInterface ArkadikoPool
interface = record {
  id = λ pool. bytes "pair";
  topics = topics;
  apply_event = apply_arkadiko_event;
}

abbrev empty : CollectorHandle ArkadikoPool
empty = start_collector new

-- Two pollers of the one contract.
add_pool_pollers_example : count_of swap_contract (add_pool interface pair empty).pollers ≡ 2
unfolding start_collector polled_contracts distinct_contracts new topics principal_eq text_eq
add_pool_pollers_example = add_pool_pollers interface pair empty swap_contract refl refl

reachable-IsCovered_example : IsCovered (add_pool interface pair empty)
reachable-IsCovered_example =
    reachable-IsCovered interface new (add_pool interface pair empty) (step started (added pair))
