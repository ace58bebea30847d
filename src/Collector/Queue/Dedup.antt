-- ===== src/Collector/Queue/Dedup.antt =====
-- While the set of seen keys stays below its cap, the queue is exact: it passes on the first event
-- of each key that it has not seen, and nothing else.
use stacks_dex_pool.Prelude.{List, [], ◌∷◌, ◌++◌, any, if◌then◌else◌}
use stacks_dex_pool.Pool.Event.{StacksEvent}
use stacks_dex_pool.Collector.Queue.{Key, key_of, key_eq, EventSender}

-- The events that are the first of their key, given the keys seen before.
unfoldable pub fresh : List Key → List StacksEvent → List StacksEvent
fresh seen [] = []
fresh seen (event ∷ events) =
    let skip = fresh seen events in
    let take_it = event ∷ fresh (key_of event ∷ seen) events in
    if any (key_eq (key_of event)) seen then skip else take_it

module _ (order : List Key → List Key) where
  -- The sender after an event that was new, below the cap.
  abbrev remember : EventSender → StacksEvent → EventSender
  remember sender event = record sender {
    seen = key_of event ∷ sender.seen;
    sent = sender.sent ++ (event ∷ []);
  }
