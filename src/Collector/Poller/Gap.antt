-- ===== src/Collector/Poller/Gap.antt =====
-- Two cycles in a row. The second starts from the newest event of the first, so what the first
-- could not reach is not looked at again.
use stacks_dex_pool.Prelude.{
  ℕ, zero, suc, ◌+◌, ◌*◌, ◌<◌, false, Option, some, List, [], ◌∷◌, ◌++◌, length, take, drop,
  reverse, ◌≡◌, refl, ap, ◌∙◌, arith,
}
use stacks_dex_pool.Prelude.Text.{Text, text_eq_refl}
use stacks_dex_pool.Prelude.Word.{u32_size}
use stacks_dex_pool.Prelude.Division.{div_ceil, div_ceil-mul_ge}
use stacks_dex_pool.Prelude.Outcome.{returned, Profile, Result, ok}
use stacks_dex_pool.Collector.Queue.{Key, EventSender, send_all}
use stacks_dex_pool.Collector.Poller.{
  EventEnvelope, CollectorConfig, PollError, decoded_of, Polled, poll_once,
}
use stacks_dex_pool.Collector.Poller.Newer.{newer, reaches}
use stacks_dex_pool.Collector.Poller.Cycle.{newest_or, poll_once-eq}

newer_arrived :
    (n : ℕ) (env : EventEnvelope) (arrived rest : List EventEnvelope)
    → length arrived < n
    → reaches (some env.tx_id) arrived ≡ false
    → newer (some env.tx_id) (take n (arrived ++ (env ∷ rest))) ≡ arrived
unfolding newer reaches
newer_arrived zero env arrived rest h k = absurd (omega arith)
newer_arrived (suc n) env [] rest h k = rw (text_eq_refl env.tx_id) refl
newer_arrived (suc n) env (a ∷ arrived) rest h k = ground (arith, newer_arrived n env arrived rest)

newest_of_window :
    (n : ℕ) (watermark : Option Text) (env : EventEnvelope) (rest : List EventEnvelope)
    → 0 < n
    → newest_or watermark (take n (env ∷ rest)) ≡ some env.tx_id
newest_of_window zero watermark env rest h = absurd (omega arith)
newest_of_window (suc n) watermark env rest h = refl

-- What a server answers for a history.
abbrev pub serve : ℕ → List EventEnvelope → ℕ → Result PollError (List EventEnvelope)
serve page_size history offset = ok (take page_size (drop offset history))

-- The events that a cycle can see.
abbrev pub capacity_of : CollectorConfig → ℕ
capacity_of config = div_ceil config.max_events_per_cycle config.page_size * config.page_size

-- Let a cycle run over a history from a watermark, and then, after fewer new events than a cycle can
-- see, another cycle. The first sends the events newer than the watermark among those that a cycle
-- can see; the second sends exactly the new events. So an event that is newer than the first
-- watermark but lies beyond what a cycle can see is sent by neither.
pub poll_once_gap :
    (p : Profile) (order : List Key → List Key) (config : CollectorConfig) (sender : EventSender)
    (w : Text) (env : EventEnvelope) (rest arrived : List EventEnvelope)
    → 0 < config.page_size
    → 0 < config.max_events_per_cycle
    → config.max_events_per_cycle + config.page_size < u32_size
    → length arrived < capacity_of config
    → reaches (some env.tx_id) arrived ≡ false
    → let history = env ∷ rest in
      (middle : Polled) × (last : Polled) × (poll_once p order
          (serve config.page_size history)
          config
          sender
          (some w)
        ≡ returned (ok middle))
      × (poll_once p order
            (serve config.page_size (arrived ++ history))
            config
            middle.sender
            middle.watermark
          ≡ returned (ok last))
      × (middle.sender
          ≡ (send_all order sender
              (decoded_of (reverse (newer (some w) (take (capacity_of config) history))))).0)
      × (last.sender ≡ (send_all order middle.sender (decoded_of (reverse arrived))).0)
poll_once_gap p order config sender w env rest arrived paged busy word few unseen =
    let n = capacity_of config in
    let room : 0 < n =
      omega (arith, div_ceil-mul_ge config.max_events_per_cycle config.page_size paged) in
    let history = env ∷ rest in
    let first =
      poll_once-eq p (serve config.page_size history) config (some w) history (λ _. refl) paged
        order sender w refl word in
    let newest = newest_of_window n (some w) env rest room in
    let (sent, count) =
      send_all order sender (decoded_of (reverse (newer (some w) (take n history)))) in
    let middle : Polled = record {
      sender = sent;
      watermark = newest_or (some w) (take n history);
      enqueued = count;
    } in
    let later = arrived ++ history in
    let second =
      poll_once-eq p (serve config.page_size later) config middle.watermark later (λ _. refl) paged
        order sent env.tx_id newest word in
    let (sent', count') =
      send_all order sent (decoded_of (reverse (newer middle.watermark (take n later)))) in
    let last : Polled = record {
      sender = sent';
      watermark = newest_or middle.watermark (take n later);
      enqueued = count';
    } in
    let only_new : newer middle.watermark (take n later) ≡ arrived =
      ap (λ m. newer m (take n later)) newest ∙ newer_arrived n env arrived rest few unseen in
    (
      middle,
      last,
      first,
      second,
      refl,
      ap (λ envs. (send_all order sent (decoded_of (reverse envs))).0) only_new,
    )
