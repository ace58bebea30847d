-- ===== src/Collector/Tests.antt =====
-- A short history and a small queue, and the theorems of the collector at them.
use stacks_dex_pool.Prelude.{
  ℕ, ◌*◌, true, false, none, some, List, [], ◌∷◌, take, reverse, any, ◌≡◌, refl, arith,
}
use stacks_dex_pool.Prelude.Text.{text_eq}
use stacks_dex_pool.Prelude.Division.{div_ceil}
use stacks_dex_pool.Prelude.Outcome.{returned, checked, ok}
use stacks_dex_pool.Codec.Clarity.{no_fields}
use stacks_dex_pool.Pool.Principal.{Principal, standard}
use stacks_dex_pool.Pool.Event.{StacksEvent}
use stacks_dex_pool.Collector.Queue.{Key, key_eq, key_of, EventSender, build_queue, send_all}
use stacks_dex_pool.Collector.Queue.Dedup.{fresh}
use stacks_dex_pool.Collector.Poller.{EventEnvelope, CollectorConfig, Polled, decoded_of, poll_once}
use stacks_dex_pool.Collector.Poller.Newer.{newer, reaches}
use stacks_dex_pool.Collector.Poller.Cycle.{newest_or, poll_once-eq}
use stacks_dex_pool.Collector.BlockWalk.{BlockTransaction, Ticked}
use stacks_dex_pool.Collector.BlockWalk.CatchUp.{span, ticks, ticks-catch_up}
use stacks_dex_pool.Collector.Poller.Gap.{serve, capacity_of, poll_once_gap}

abbrev event : ℕ → StacksEvent
event n = record {
  emitter = standard 22 [];
  tx_id = n ∷ [];
  event_index = 0;
  action = [];
  fields = no_fields;
}

abbrev env : ℕ → EventEnvelope
env n = record { tx_id = n ∷ []; event_index = 0; raw_payload = none; decoded = some (event n) }

-- The library's order of a set is not known: here the oldest key comes last, or first.
abbrev as_kept : List Key → List Key
as_kept keys = keys

abbrev queue : EventSender
queue = record { sent = []; is_open = true; seen = []; seen_cap = 256 }

two_pass : fresh [] (event 1 ∷ event 2 ∷ event 1 ∷ []) ≡ event 1 ∷ event 2 ∷ []
unfolding fresh key_eq text_eq
two_pass = refl

cap_of_16 : 256 ≡ (build_queue 16).seen_cap
unfolding build_queue
cap_of_16 = refl

-- A queue with a cap of two keys, both taken.
abbrev full_queue : EventSender
full_queue = record {
  sent = [];
  is_open = true;
  seen = key_of (event 1) ∷ key_of (event 2) ∷ [];
  seen_cap = 2;
}

keys_differ :
    (any (key_eq (key_of (event 1))) (key_of (event 2) ∷ []) ≡ false)
    × (any (key_eq (key_of (event 3))) full_queue.seen ≡ false)
    × (key_eq (key_of (event 1)) (key_of (event 3)) ≡ false)
unfolding key_eq text_eq
keys_differ = (refl, refl, refl)

-- Pages of two events, and at most two events for each cycle.
abbrev small : CollectorConfig
small = record { page_size = 2; max_events_per_cycle = 2; cold_start_pages = 1 }

poll_once-eq_example :
    let history = env 3 ∷ env 2 ∷ env 1 ∷ [] in
    let seen = take (div_ceil 2 2 * 2) history in
    let (sender', enqueued) =
      send_all as_kept queue (decoded_of (reverse (newer (some (1 ∷ [])) seen))) in
    poll_once checked as_kept (serve 2 history) small queue (some (1 ∷ []))
    ≡ returned (
        ok (record {
          sender = sender';
          watermark = newest_or (some (1 ∷ [])) seen;
          enqueued = enqueued;
        }))
poll_once-eq_example =
    poll_once-eq checked (serve 2 (env 3 ∷ env 2 ∷ env 1 ∷ [])) small (some (1 ∷ []))
      (env 3 ∷ env 2 ∷ env 1 ∷ []) (λ offset. refl) (omega arith) as_kept queue (1 ∷ []) refl
      (omega arith)

two_seen : capacity_of small ≡ 2
unfolding div_ceil
two_seen = refl

not_among : reaches (some (4 ∷ [])) (env 5 ∷ []) ≡ false
unfolding reaches text_eq
not_among = refl

-- Of the events 4, 3 and 2 the first cycle sends 4 and 3, and 2 is never sent.
poll_once_gap_example :
    let history = env 4 ∷ env 3 ∷ env 2 ∷ env 1 ∷ [] in
    (middle : Polled) × (last : Polled) × (poll_once checked as_kept
        (serve 2 history)
        small
        queue
        (some (1 ∷ []))
      ≡ returned (ok middle))
    × (poll_once checked as_kept (serve 2 (env 5 ∷ history)) small middle.sender middle.watermark
        ≡ returned (ok last))
    × (middle.sender
        ≡ (send_all as_kept queue
            (decoded_of (reverse (newer (some (1 ∷ [])) (take (capacity_of small) history))))).0)
    × (last.sender ≡ (send_all as_kept middle.sender (decoded_of (reverse (env 5 ∷ [])))).0)
poll_once_gap_example =
    poll_once_gap checked as_kept small queue (1 ∷ []) (env 4) (env 3 ∷ env 2 ∷ env 1 ∷ [])
      (env 5 ∷ []) (omega arith) (omega arith) (omega arith) (omega (arith, two_seen)) not_among

-- Every block has one transaction with one event of the only registered contract.
abbrev content : ℕ → List BlockTransaction
content height =
    record {
      tx_id = height ∷ [];
      contract_call_target = none;
      event_count = 1;
      events = event height ∷ [];
    }
    ∷ []

abbrev registered : List Principal
registered = standard 22 [] ∷ []

ticks-catch_up_example :
    (last : Ticked) × (ticks as_kept registered
        (λ tx_id. ok [])
        content
        checked
        2
        10
        refl
        (omega arith)
        2
        queue
        7
      ≡ returned last)
    × (last.cursor ≡ 10)
    × (last.sender
        ≡ (send_all as_kept queue (span as_kept registered (λ tx_id. ok []) content 3 8)).0)
ticks-catch_up_example =
    ticks-catch_up as_kept registered (λ tx_id. ok []) content checked 2 10 refl (omega arith) 2
      queue 7 (omega arith) (omega arith) (omega arith) (omega arith)
