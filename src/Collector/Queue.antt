-- ===== src/Collector/Queue.antt =====
-- src/collector/event_queue.rs: the queue that drops events it has seen. The channel is the list of
-- the events sent, oldest first; a full channel makes the sender wait, so it loses nothing. `order`
-- lists the set of seen keys as the standard library iterates over it.
pub mod Dedup
pub mod Eviction
use stacks_dex_pool.Prelude.{
  ℕ, ◌+◌, ◌*◌, ◌/◌, max, Bool, true, false, List, [], ◌∷◌, ◌++◌, any, length, drop, leb, ◌==◌, ◌&&◌,
  if◌then◌else◌,
}
use stacks_dex_pool.Prelude.Text.{Text, text_eq}
use stacks_dex_pool.Pool.Event.{StacksEvent}

-- The pair of transaction id and event index.
abbrev pub Key : Type 0
Key = Text × ℕ

abbrev pub key_of : StacksEvent → Key
key_of event = (event.tx_id, event.event_index)

unfoldable pub key_eq : Key → Key → Bool
key_eq j k = text_eq j.0 k.0 && (j.1 == k.1)

pub record EventSender : Type 0 where
  pub sent : List StacksEvent
  pub is_open : Bool
  pub seen : List Key
  pub seen_cap : ℕ

unfoldable pub build_queue : ℕ → EventSender
build_queue capacity = record {
  sent = [];
  is_open = true;
  seen = [];
  seen_cap = max capacity 64 * 4;
}

module _ (order : List Key → List Key) where
  -- At the cap, half of it is dropped, in the order of the set.
  unfoldable pub make_room : ℕ → List Key → List Key
  make_room seen_cap seen =
      if leb seen_cap (length seen) then drop (seen_cap / 2) (order seen) else seen

  -- `true` if the event was new and could be sent.
  unfoldable pub send_dedup : EventSender → StacksEvent → EventSender × Bool
  send_dedup sender event =
      let remembered = key_of event ∷ make_room sender.seen_cap sender.seen in
      let queued = if sender.is_open then sender.sent ++ (event ∷ []) else sender.sent in
      if any (key_eq (key_of event)) sender.seen
      then (sender, false)
      else (record sender { seen = remembered; sent = queued }, sender.is_open)

  -- A run of sends, as a poll cycle makes them, with the count of those that were enqueued.
  unfoldable pub send_all : EventSender → List StacksEvent → EventSender × ℕ
  send_all sender [] = (sender, 0)
  send_all sender (event ∷ events) =
      let (after, new) = send_dedup sender event in
      let (last, count) = send_all after events in (last, if new then 1 + count else count)
