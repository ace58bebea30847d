-- ===== src/Collector/Poller.antt =====
-- src/collector/event_poller.rs: one poll cycle of one contract. `fetch` stands for the request of a
-- page at an offset, newest event first.
pub mod Newer
pub mod Turn
pub mod Cycle
pub mod Gap
use stacks_dex_pool.Prelude.{
  ℕ, zero, suc, ◌+◌, ◌-◌, ◌*◌, ◌/◌, Bool, true, false, Option, none, some, List, [], ◌∷◌, ◌++◌,
  reverse, length, ltb, leb, ◌||◌, if◌then◌else◌,
}
use stacks_dex_pool.Prelude.Text.{Text, text_eq}
use stacks_dex_pool.Prelude.Outcome.{
  Outcome, returned, ◌>>=◌, Profile, mul_word, Result, ok, err, div_ceil_word,
}
use stacks_dex_pool.Prelude.Word.{u32_size}
use stacks_dex_pool.Codec.Clarity.{ClarityValue}
use stacks_dex_pool.Pool.Event.{StacksEvent}
pub use stacks_dex_pool.Rpc.Events.{EventEnvelope}
use stacks_dex_pool.Collector.Queue.{Key, EventSender, send_all}

-- The fields of `CollectorConfig` that a cycle reads.
pub record CollectorConfig : Type 0 where
  pub page_size : ℕ
  pub max_events_per_cycle : ℕ
  pub cold_start_pages : ℕ

-- The request failed.
pub data PollError : Type 0 where
  fetch_failed : PollError

-- What the loop over the pages carries.
pub record Collected : Type 0 where
  pub to_apply : List EventEnvelope
  pub newest_seen : Option Text
  pub reached_watermark : Bool

-- The loop over one page: it ends at the watermark.
unfoldable pub scan_page : Option Text → List EventEnvelope → List EventEnvelope × Bool
scan_page watermark [] = ([], false)
scan_page none (env ∷ page) = let (rest, reached) = scan_page none page in (env ∷ rest, reached)
scan_page (some w) (env ∷ page) =
    let (rest, reached) = scan_page (some w) page in
    if text_eq env.tx_id w then ([], true) else (env ∷ rest, reached)

abbrev newest_of : Option Text → Text → Option Text
newest_of none tx_id = some tx_id
newest_of (some seen) tx_id = some seen

abbrev after_page : Option Text → Collected → EventEnvelope → List EventEnvelope → Collected
after_page watermark st env page =
    let (taken, reached) = scan_page watermark (env ∷ page) in
    record {
      to_apply = st.to_apply ++ taken;
      newest_seen = newest_of st.newest_seen env.tx_id;
      reached_watermark = reached;
    }

-- One turn of the loop: what was fetched, and how the loop goes on from a state.
abbrev pub turn :
    CollectorConfig
    → Option Text
    → Collected
    → Result PollError (List EventEnvelope)
    → (Collected → Outcome (Result PollError Collected))
    → Outcome (Result PollError Collected)
turn config watermark st (err e) go_on = returned (err e)
turn config watermark st (ok []) go_on = returned (ok st)
turn config watermark st (ok (env ∷ page)) go_on =
    let next = after_page watermark st env page in
    let rest = go_on next in
    if next.reached_watermark
      || (ltb (length (env ∷ page)) config.page_size
          || leb config.max_events_per_cycle (length next.to_apply))
    then returned (ok next)
    else rest

module _ (p : Profile) (fetch : ℕ → Result PollError (List EventEnvelope))
    (config : CollectorConfig) (watermark : Option Text) where
  -- The loop over the page indices, for the pages that are left.
  unfoldable pub walk_pages :
      (pages_left page_idx : ℕ) → Collected → Outcome (Result PollError Collected)
  walk_pages zero page_idx st = returned (ok st)
  walk_pages (suc pages_left) page_idx st = do
    offset ← mul_word p u32_size page_idx config.page_size
    turn config watermark st (fetch offset) (walk_pages pages_left (suc page_idx))

abbrev pub decoded_of : List EventEnvelope → List StacksEvent
decoded_of [] = []
decoded_of (env ∷ envs) =
    let rest = decoded_of envs in elim env.decoded [ none ↦ rest | some event ↦ event ∷ rest ]

abbrev pub empty : Collected
empty = record { to_apply = []; newest_seen = none; reached_watermark = false }

-- What a cycle writes: the queue and the contract's watermark, with the count of events enqueued.
pub record Polled : Type 0 where
  pub sender : EventSender
  pub watermark : Option Text
  pub enqueued : ℕ

-- Oldest first, since the pages were collected newest first.
unfoldable pub enqueue : (List Key → List Key) → EventSender → Option Text → Collected → Polled
enqueue order sender watermark st =
    let (sender', enqueued) = send_all order sender (decoded_of (reverse st.to_apply)) in
    record {
      sender = sender';
      watermark = elim st.newest_seen [ none ↦ watermark | some w ↦ some w ];
      enqueued = enqueued;
    }

abbrev enqueue_result :
    (List Key → List Key)
    → EventSender
    → Option Text
    → Result PollError Collected
    → Result PollError Polled
enqueue_result order sender watermark (err e) = err e
enqueue_result order sender watermark (ok st) = ok (enqueue order sender watermark st)

-- The pages of a cycle: few on a cold start, else as many as the cap on events allows.
unfoldable pub max_pages : CollectorConfig → Option Text → Outcome ℕ
max_pages config none = returned config.cold_start_pages
max_pages config (some w) = div_ceil_word config.max_events_per_cycle config.page_size

unfoldable pub poll_once :
    Profile
    → (List Key → List Key)
    → (ℕ → Result PollError (List EventEnvelope))
    → CollectorConfig
    → EventSender
    → Option Text
    → Outcome (Result PollError Polled)
poll_once p order fetch config sender watermark = do
  pages ← max_pages config watermark
  collected ← walk_pages p fetch config watermark pages 0 empty
  returned (enqueue_result order sender watermark collected)
