-- ===== src/Collector/BlockWalk.antt =====
-- src/collector/block_walking_source.rs: one tick of the block walker. The chain tip, the
-- transactions of a block and the events of a transaction are requests, and arguments here. The
-- counts of the statistics are natural numbers.
pub mod CatchUp
use stacks_dex_pool.Prelude.{
  ℕ, zero, suc, ◌+◌, ◌-◌, ◌^◌, min, Bool, true, false, not, Option, none, some, List, [], ◌∷◌, ◌++◌,
  any, filter, length, ltb, leb, ◌==◌, ◌||◌, ◌&&◌, if◌then◌else◌,
}
use stacks_dex_pool.Prelude.Text.{Text}
use stacks_dex_pool.Prelude.Outcome.{Outcome, returned, ◌>>=◌, Profile, add_word, Result, ok, err}
use stacks_dex_pool.Pool.Principal.{Principal, principal_eq}
use stacks_dex_pool.Pool.Event.{StacksEvent}
pub use stacks_dex_pool.Rpc.BlockWalker.{BlockTransaction}
use stacks_dex_pool.Collector.Queue.{Key, EventSender, send_all}

abbrev pub u64_size : ℕ
u64_size = 2 ^ 64

pub record TickStats : Type 0 where
  pub blocks_walked : ℕ
  pub txs_seen : ℕ
  pub txs_relevant : ℕ
  pub events_relevant : ℕ
  pub events_enqueued : ℕ

-- A request failed.
pub data RequestError : Type 0 where
  request_failed : RequestError

-- What a tick leaves: events of earlier blocks stay sent when a later request fails.
pub record Ticked : Type 0 where
  pub sender : EventSender
  pub cursor : ℕ
  pub result : Result RequestError TickStats

abbrev pub no_stats : TickStats
no_stats = record {
  blocks_walked = 0;
  txs_seen = 0;
  txs_relevant = 0;
  events_relevant = 0;
  events_enqueued = 0;
}

abbrev is_registered : List Principal → Option Principal → Bool
is_registered registered none = false
is_registered registered (some c) = any (principal_eq c) registered

abbrev or_kept : List StacksEvent → Result RequestError (List StacksEvent) → List StacksEvent
or_kept kept (ok events) = events
or_kept kept (err e) = kept

abbrev pub is_nil : {A : Type 0} → List A → Bool
is_nil [] = true
is_nil (x ∷ xs) = false

module _ (registered : List Principal)
    (fetch_tx_events : Text → Result RequestError (List StacksEvent)) where
  -- The events of a candidate, fetched if the block's listing has none inline.
  unfoldable pub populated : BlockTransaction → List StacksEvent
  populated tx =
      if not (is_nil tx.events) || (tx.event_count == 0)
      then tx.events
      else or_kept tx.events (fetch_tx_events tx.tx_id)

  -- The events of a transaction that are sent; a transaction without events that calls no
  -- registered contract is no candidate.
  unfoldable pub relevant_events : BlockTransaction → List StacksEvent
  relevant_events tx =
      let touches_registered = is_registered registered tx.contract_call_target in
      if (tx.event_count == 0) && not touches_registered
      then []
      else filter (λ event. touches_registered || any (principal_eq event.emitter) registered)
          (populated tx)

module _ (order : List Key → List Key) (registered : List Principal)
    (fetch_tx_events : Text → Result RequestError (List StacksEvent)) where
  unfoldable pub ingest_block_txs :
      EventSender → TickStats → List BlockTransaction → EventSender × TickStats
  ingest_block_txs sender stats [] = (sender, stats)
  ingest_block_txs sender stats (tx ∷ txs) =
      let events = relevant_events registered fetch_tx_events tx in
      let (after, enqueued) = send_all order sender events in
      ingest_block_txs after
        (record stats {
          txs_relevant = if is_nil events then stats.txs_relevant else suc stats.txs_relevant;
          events_relevant = stats.events_relevant + length events;
          events_enqueued = stats.events_enqueued + enqueued;
        })
        txs

  abbrev ingest_block : EventSender → TickStats → List BlockTransaction → EventSender × TickStats
  ingest_block sender stats [] = (sender, stats)
  ingest_block sender stats (tx ∷ txs) =
      ingest_block_txs sender
        (record stats {
          blocks_walked = suc stats.blocks_walked;
          txs_seen = stats.txs_seen + length (tx ∷ txs);
        })
        (tx ∷ txs)

  module _ (fetch_block : ℕ → Result RequestError (List BlockTransaction)) where
    -- The loop over the heights, for the blocks that are left.
    unfoldable pub walk_blocks :
        (blocks_left height : ℕ)
        → EventSender
        → TickStats
        → EventSender × Result RequestError TickStats
    walk_blocks zero height sender stats = (sender, ok stats)
    walk_blocks (suc blocks_left) height sender stats = elim (fetch_block height) [
      | err e ↦ (sender, err e)
      | ok txs ↦
          let (after, counted) = ingest_block sender stats txs in
          walk_blocks blocks_left (suc height) after counted
    ]

    abbrev pub ticked : (cursor end : ℕ) → EventSender × Result RequestError TickStats → Ticked
    ticked cursor end (sender, ok stats) = record {
      sender = sender;
      cursor = end;
      result = ok stats;
    }
    ticked cursor end (sender, err e) = record { sender = sender; cursor = cursor; result = err e }

    -- Nothing was walked.
    abbrev pub idle : EventSender → ℕ → Ticked
    idle sender height = record { sender = sender; cursor = height; result = ok no_stats }

    -- A tick after the tip is known.
    unfoldable pub tick_at :
        Profile → (max_blocks_per_tick tip : ℕ) → EventSender → (cursor : ℕ) → Outcome Ticked
    tick_at p max_blocks_per_tick tip sender cursor =
        let walked = do
          limit ← add_word p u64_size cursor max_blocks_per_tick
          let end = min limit tip
          returned (ticked cursor end (walk_blocks (end - cursor) (suc cursor) sender no_stats))
        in if cursor == 0
          then returned (idle sender tip)
          else if leb tip cursor
          then returned (idle sender cursor)
          else if is_nil registered
          then returned (idle sender tip)
          else walked

    unfoldable pub tick :
        Profile
        → (max_blocks_per_tick : ℕ) → Result RequestError ℕ
        → EventSender
        → (cursor : ℕ) → Outcome Ticked
    tick p max_blocks_per_tick (err e) sender cursor =
        returned (record { sender = sender; cursor = cursor; result = err e })
    tick p max_blocks_per_tick (ok tip) sender cursor =
        tick_at p max_blocks_per_tick tip sender cursor
