-- ===== src/Registry.antt =====
-- src/registry.rs: the mirrored pools, the topics to poll, the watermarks and the block cursor. A
-- handle to a pool, an `Arc` of a lock, is its key here: who holds it reads and writes the entry.
pub mod Map
pub mod Dispatch
pub mod Reachable
pub mod Contention
mod Tests
use stacks_dex_pool.Prelude.{
  ℕ, Bool, true, false, ◌||◌, ◌&&◌, Option, none, some, List, [], ◌∷◌, any, length, ◌==◌,
  if◌then◌else◌,
}
use stacks_dex_pool.Prelude.Partial.{is_some}
use stacks_dex_pool.Prelude.Text.{Text, text_eq}
use stacks_dex_pool.AssocList.{assoc_get, assoc_insert, assoc_remove}
use stacks_dex_pool.Pool.Principal.{Principal, principal_eq}
use stacks_dex_pool.Pool.Event.{StacksEvent, StacksTopic}

-- What the registry and the collector use of `PoolInterface`. `apply_event` gives the pool
-- afterwards and whether it returned `Ok`.
pub record PoolInterface (P : Type 0) : Type 0 where
  pub id : P → Text
  pub topics : P → List StacksTopic
  pub apply_event : P → StacksEvent → P × Bool

pub record PoolRegistry (P : Type 0) : Type 0 where
  pub by_id : List (Text × P)
  pub watermarks : List (Principal × Text)
  pub topics : List StacksTopic
  pub last_processed_block : ℕ

unfoldable pub topic_eq : StacksTopic → StacksTopic → Bool
topic_eq s t = principal_eq s.contract t.contract && text_eq s.action t.action

-- `DashMap::insert` into a set of topics, and the loop over a pool's topics.
unfoldable pub add_topic : StacksTopic → List StacksTopic → List StacksTopic
add_topic t ts = if any (topic_eq t) ts then ts else t ∷ ts

unfoldable pub add_topics : List StacksTopic → List StacksTopic → List StacksTopic
add_topics [] ts = ts
add_topics (t ∷ more) ts = add_topics more (add_topic t ts)

-- The distinct contracts of some topics.
unfoldable pub distinct_contracts : List StacksTopic → List Principal
distinct_contracts [] = []
distinct_contracts (t ∷ ts) =
    let rest = distinct_contracts ts in
    if any (principal_eq t.contract) rest then rest else t.contract ∷ rest

-- Some topic is about the contract.
unfoldable pub subscribes : List StacksTopic → Principal → Bool
subscribes ts emitter = any (λ t. principal_eq t.contract emitter) ts

module _ {P : Type 0} where
  unfoldable pub new : PoolRegistry P
  new = record { by_id = []; watermarks = []; topics = []; last_processed_block = 0 }

  unfoldable pub get : Text → PoolRegistry P → Option P
  get id registry = assoc_get text_eq id registry.by_id

  -- With whether there was such a pool.
  unfoldable pub remove : Text → PoolRegistry P → PoolRegistry P × Bool
  remove id registry = (
    record registry { by_id = assoc_remove text_eq id registry.by_id },
    is_some (assoc_get text_eq id registry.by_id),
  )

  unfoldable pub len : PoolRegistry P → ℕ
  len registry = length registry.by_id

  unfoldable pub watermark : Principal → PoolRegistry P → Option Text
  watermark emitter registry = assoc_get principal_eq emitter registry.watermarks

  unfoldable pub set_watermark : Principal → Text → PoolRegistry P → PoolRegistry P
  set_watermark emitter tx_id registry = record registry {
    watermarks = assoc_insert principal_eq emitter tx_id registry.watermarks;
  }

  unfoldable pub set_last_processed_block : ℕ → PoolRegistry P → PoolRegistry P
  set_last_processed_block height registry = record registry { last_processed_block = height }

  unfoldable pub polled_contracts : PoolRegistry P → List Principal
  polled_contracts registry = distinct_contracts registry.topics

module _ {P : Type 0} (I : PoolInterface P) where
  unfoldable pub insert : P → PoolRegistry P → PoolRegistry P
  insert pool registry = record registry {
    topics = add_topics (I.topics pool) registry.topics;
    by_id = assoc_insert text_eq (I.id pool) pool registry.by_id;
  }

  -- The pools that `try_read` finds locked are taken along without a look at their topics.
  unfoldable pub subscribed_in : (contended : Text → Bool) → Principal → List (Text × P) → List Text
  subscribed_in contended emitter [] = []
  subscribed_in contended emitter ((id, pool) ∷ m) =
      let rest = subscribed_in contended emitter m in
      if contended id || subscribes (I.topics pool) emitter then id ∷ rest else rest

  unfoldable pub pools_subscribed_to :
      (contended : Text → Bool) → Principal → PoolRegistry P → List Text
  pools_subscribed_to contended emitter registry = subscribed_in contended emitter registry.by_id

  -- One turn of the loop of `dispatch` (src/collector/event_processor.rs): the pool behind a handle
  -- takes the event.
  unfoldable pub write_through : StacksEvent → Text → List (Text × P) → List (Text × P)
  write_through event handle [] = []
  write_through event handle ((id, pool) ∷ m) =
      let rest = write_through event handle m in
      if text_eq handle id then (id, (I.apply_event pool event).0) ∷ m else (id, pool) ∷ rest

  unfoldable pub write_all : StacksEvent → List Text → List (Text × P) → List (Text × P)
  write_all event [] m = m
  write_all event (handle ∷ handles) m = write_all event handles (write_through event handle m)

  unfoldable pub dispatch :
      (contended : Text → Bool) → StacksEvent → PoolRegistry P → PoolRegistry P
  dispatch contended event registry = record registry {
    by_id = write_all event (pools_subscribed_to contended event.emitter registry) registry.by_id;
  }
