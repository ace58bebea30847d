-- ===== src/Collector/Poller/Cycle.antt =====
-- A poll cycle against a server that lists the history of a contract, newest event first.
use stacks_dex_pool.Prelude.{
  ℕ, zero, suc, ◌+◌, ◌*◌, ◌≤◌, ◌<◌, Option, none, some, List, [], ◌∷◌, length, take, drop, reverse,
  ◌≡◌, refl, sym, ap, ◌∙◌, arith,
}
use mathlib.Core.List.{append-nil}
use stacks_dex_pool.Prelude.Text.{Text}
use stacks_dex_pool.Prelude.Word.{u32_size}
use stacks_dex_pool.Prelude.Division.{div_ceil, div_ceil-mul_lt}
use stacks_dex_pool.Prelude.Outcome.{returned, Profile, mul_word-eq, Result, ok, div_ceil_word-eq}
use stacks_dex_pool.Collector.Queue.{Key, EventSender, send_all}
use stacks_dex_pool.Collector.Poller.{
  EventEnvelope, CollectorConfig, PollError, Collected, walk_pages, decoded_of, empty, enqueue,
  max_pages, poll_once,
}
use stacks_dex_pool.Collector.Poller.Newer.{newer, page_at, window, window-short, window-eq-take}
use stacks_dex_pool.Collector.Poller.Turn.{newest_from, IsCollected, turn-IsCollected}

-- The watermark after a cycle that saw some events.
abbrev pub newest_or : Option Text → List EventEnvelope → Option Text
newest_or watermark [] = watermark
newest_or watermark (env ∷ envs) = some env.tx_id

enqueue-eq :
    (order : List Key → List Key) (sender : EventSender) (watermark : Option Text)
    (last : Collected) (seen : List EventEnvelope)
    → last.to_apply ≡ newer watermark seen
    → last.newest_seen ≡ newest_from none seen
    → enqueue order sender watermark last ≡ (
        let (sender', enqueued) =
          send_all order sender (decoded_of (reverse (newer watermark seen))) in
        record { sender = sender'; watermark = newest_or watermark seen; enqueued = enqueued })
unfolding enqueue
enqueue-eq order sender watermark last [] applied newest = rw (applied, newest) refl
enqueue-eq order sender watermark last (env ∷ envs) applied newest = rw (applied, newest) refl

length-take_le : {A : Type 0} (n : ℕ) (xs : List A) → length (take n xs) ≤ n
length-take_le zero xs = omega arith
length-take_le (suc n) [] = omega arith
length-take_le (suc n) (x ∷ xs) = omega (arith, length-take_le n xs)

max_pages-warm :
    (config : CollectorConfig) (watermark : Option Text) (w : Text)
    → watermark ≡ some w
    → 0 < config.page_size
    → max_pages config watermark ≡ returned (div_ceil config.max_events_per_cycle config.page_size)
unfolding max_pages
max_pages-warm config watermark w warm paged =
    rw warm (div_ceil_word-eq config.max_events_per_cycle config.page_size paged)

module _ (p : Profile) (fetch : ℕ → Result PollError (List EventEnvelope))
    (config : CollectorConfig) (watermark : Option Text) (history : List EventEnvelope)
    (serves : (offset : ℕ) → fetch offset ≡ ok (take config.page_size (drop offset history)))
    (paged : 0 < config.page_size) where
  no_pages :
      (n page_idx len : ℕ)
      → (page_idx + suc n) * config.page_size < config.max_events_per_cycle + config.page_size
      → config.max_events_per_cycle ≤ page_idx * config.page_size + len
      → len ≤ config.page_size
      → window config.page_size history n (suc page_idx) ≡ []
  unfolding window
  no_pages zero page_idx len most met small = refl
  no_pages (suc n) page_idx len most met small = absurd (omega arith)

  walk_pages-IsCollected :
      (n page_idx : ℕ) (st : Collected)
      → (page_idx + n) * config.page_size < u32_size
      → (page_idx + n) * config.page_size < config.max_events_per_cycle + config.page_size
      → length st.to_apply ≡ page_idx * config.page_size
      → IsCollected watermark st
          (window config.page_size history n page_idx)
          (walk_pages p fetch config watermark n page_idx st)
  unfolding walk_pages window newer
  walk_pages-IsCollected zero page_idx st word most full =
      (st, refl, sym (append-nil st.to_apply), refl)
  walk_pages-IsCollected (suc n) page_idx st word most full =
      let size = config.page_size in
      let fits : page_idx * size < u32_size = omega arith in
      rw (mul_word-eq p u32_size page_idx size fits, serves (page_idx * size))
        (turn-IsCollected config watermark st (walk_pages p fetch config watermark n (suc page_idx))
          (window size history n (suc page_idx)) paged (page_at size history page_idx)
          (window-short size history n page_idx)
          (λ whole met.
            no_pages n page_idx (length (page_at size history page_idx)) most (omega arith)
              (length-take_le size (drop (page_idx * size) history)))
          (λ next whole len.
            walk_pages-IsCollected n (suc page_idx) next (omega arith) (omega arith)
              (omega (arith, length-take_le size (drop (page_idx * size) history)))))

  -- Let the server list the history of a contract, newest event first, and let a watermark be set.
  -- Then a cycle returns, sends the queue the decoded events that are newer than the watermark among
  -- the first `pages * page_size` ones, oldest first, and moves the watermark to the newest
  -- transaction; `pages` is `max_events_per_cycle / page_size`, rounded up.
  pub poll_once-eq :
      (order : List Key → List Key) (sender : EventSender) (w : Text)
      → watermark ≡ some w
      → config.max_events_per_cycle + config.page_size < u32_size
      → let seen =
          take (div_ceil config.max_events_per_cycle config.page_size * config.page_size) history in
        let (sender', enqueued) =
          send_all order sender (decoded_of (reverse (newer watermark seen))) in
        poll_once p order fetch config sender watermark
        ≡ returned (
            ok (record {
              sender = sender';
              watermark = newest_or watermark seen;
              enqueued = enqueued;
            }))
  unfolding poll_once
  poll_once-eq order sender w warm word =
      let n = div_ceil config.max_events_per_cycle config.page_size in
      let seen = take (n * config.page_size) history in
      let most = div_ceil-mul_lt config.max_events_per_cycle config.page_size paged in
      let (last, runs, applied, newest) =
        walk_pages-IsCollected n 0 empty (omega arith) (omega arith) (omega arith) in
      let stretch = window-eq-take config.page_size history n in
      let all =
        enqueue-eq order sender watermark last seen (applied ∙ ap (newer watermark) stretch)
          (newest ∙ ap (newest_from none) stretch) in
      rw (max_pages-warm config watermark w warm paged, runs, all) refl
