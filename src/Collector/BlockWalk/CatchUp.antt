-- ===== src/Collector/BlockWalk/CatchUp.antt =====
-- Ticks against a server that answers every request: they walk all blocks up to the tip, each once
-- and in order.
use stacks_dex_pool.Prelude.{
  ℕ, zero, suc, ◌+◌, ◌-◌, ◌*◌, ◌≤◌, ◌<◌, min, false, List, [], ◌∷◌, ◌++◌, ◌≡◌, refl, sym, ap, ◌∙◌,
  arith, inl, inr, le-cases, leb, ◌==◌, le→leb,
}
use mathlib.Core.List.{append_assoc}
use stacks_dex_pool.Prelude.Text.{Text}
use stacks_dex_pool.Prelude.Outcome.{Outcome, returned, ◌>>=◌, Profile, add_word-eq, Result, ok}
use stacks_dex_pool.Pool.Principal.{Principal}
use stacks_dex_pool.Pool.Event.{StacksEvent}
use stacks_dex_pool.Collector.Queue.{Key, EventSender, send_dedup, send_all}
use stacks_dex_pool.Collector.BlockWalk.{
  u64_size, BlockTransaction, TickStats, RequestError, Ticked, no_stats, is_nil, relevant_events,
  ingest_block_txs, ingest_block, walk_blocks, idle, tick_at, tick,
}

module _ (order : List Key → List Key) (registered : List Principal)
    (fetch_tx_events : Text → Result RequestError (List StacksEvent)) where
  send_all-append :
      (sender : EventSender) (xs ys : List StacksEvent)
      → (send_all order sender (xs ++ ys)).0 ≡ (send_all order (send_all order sender xs).0 ys).0
  unfolding send_all
  send_all-append sender [] ys = refl
  send_all-append sender (x ∷ xs) ys = send_all-append (send_dedup order sender x).0 xs ys

  -- The events that the transactions of a block are expected to yield.
  abbrev pub events_of : List BlockTransaction → List StacksEvent
  events_of [] = []
  events_of (tx ∷ txs) = relevant_events registered fetch_tx_events tx ++ events_of txs

  ingest-sender :
      (sender : EventSender) (stats : TickStats) (txs : List BlockTransaction)
      → (ingest_block_txs order registered fetch_tx_events sender stats txs).0
        ≡ (send_all order sender (events_of txs)).0
  unfolding ingest_block_txs send_all
  ingest-sender sender stats [] = refl
  ingest-sender sender stats (tx ∷ txs) =
      let events = relevant_events registered fetch_tx_events tx in
      ingest-sender (send_all order sender events).0 _ txs
      ∙ sym (send_all-append sender events (events_of txs))

  ingest_block-sender :
      (sender : EventSender) (stats : TickStats) (txs : List BlockTransaction)
      → (ingest_block order registered fetch_tx_events sender stats txs).0
        ≡ (send_all order sender (events_of txs)).0
  unfolding send_all
  ingest_block-sender sender stats [] = refl
  ingest_block-sender sender stats (tx ∷ txs) = ingest-sender sender _ (tx ∷ txs)

  module _ (content : ℕ → List BlockTransaction) where
    -- The events of some blocks in a row, from a height on.
    abbrev pub span : (blocks height : ℕ) → List StacksEvent
    span zero height = []
    span (suc n) height = events_of (content height) ++ span n (suc height)

    span-add : (m n height : ℕ) → span (m + n) height ≡ span m height ++ span n (height + m)
    span-add zero n height =
        let e : 0 + n ≡ n = omega arith in
        let e' : height ≡ height + 0 = omega arith in ap (λ k. span k height) e ∙ ap (span n) e'
    span-add (suc m) n height =
        let e : suc m + n ≡ suc (m + n) = omega arith in
        let e' : suc height + m ≡ height + suc m = omega arith in
        let here = events_of (content height) in
        ap (λ k. span k height) e
        ∙ ap (λ ys. here ++ ys)
            (span-add m n (suc height) ∙ ap (λ k. span m (suc height) ++ span n k) e')
        ∙ sym (append_assoc here (span m (suc height)) (span n (height + suc m)))

    -- The server that has these blocks.
    abbrev pub blocks : ℕ → Result RequestError (List BlockTransaction)
    blocks height = ok (content height)

    walk_blocks-sender :
        (n height : ℕ) (sender : EventSender) (stats : TickStats)
        → (counted : TickStats) × (walk_blocks order registered fetch_tx_events blocks n height
              sender stats
            ≡ ((send_all order sender (span n height)).0, ok counted))
    unfolding walk_blocks send_all
    walk_blocks-sender zero height sender stats = (stats, refl)
    walk_blocks-sender (suc n) height sender stats =
        let (after, stats') =
          ingest_block order registered fetch_tx_events sender stats (content height) in
        let (counted, runs) = walk_blocks-sender n (suc height) after stats' in
        let sent = ingest_block-sender sender stats (content height) in
        let all =
          ap (λ s. (send_all order s (span n (suc height))).0) sent
          ∙ sym (send_all-append sender (events_of (content height)) (span n (suc height))) in
        (counted, runs ∙ ap (λ s. (s, ok counted)) all)

    module _ (p : Profile) (max_blocks tip : ℕ) (some_registered : is_nil registered ≡ false)
        (fits : tip + max_blocks < u64_size) where
      -- A number of ticks in a row while the tip stays.
      unfoldable pub ticks : ℕ → EventSender → ℕ → Outcome Ticked
      ticks zero sender cursor =
          returned (idle order registered fetch_tx_events blocks sender cursor)
      ticks (suc k) sender cursor = do
        t ← tick order registered fetch_tx_events blocks p max_blocks (ok tip) sender cursor
        ticks k t.sender t.cursor

      tick-walks :
          (sender : EventSender) (cursor : ℕ)
          → 0 < cursor
          → cursor < tip
          → (counted : TickStats) × (tick order registered fetch_tx_events blocks p max_blocks
                (ok tip)
                sender
                cursor
              ≡ returned (record {
                sender =
                    (send_all order sender
                      (span (min (cursor + max_blocks) tip - cursor) (suc cursor))).0;
                cursor = min (cursor + max_blocks) tip;
                result = ok counted;
              }))
      unfolding tick tick_at
      tick-walks sender cursor warm behind =
          let end = min (cursor + max_blocks) tip in
          let (counted, runs) = walk_blocks-sender (end - cursor) (suc cursor) sender no_stats in
          let set : (cursor == 0) ≡ false = ground arith in
          let short : leb tip cursor ≡ false = ground arith in
          rw
            (
              set,
              short,
              some_registered,
              add_word-eq p u64_size cursor max_blocks (omega arith),
              runs,
            )
            (counted, refl)

      tick-idle :
          (sender : EventSender) (cursor : ℕ)
          → 0 < cursor
          → tip ≤ cursor
          → tick order registered fetch_tx_events blocks p max_blocks (ok tip) sender cursor
            ≡ returned (idle order registered fetch_tx_events blocks sender cursor)
      unfolding tick tick_at
      tick-idle sender cursor warm at_tip =
          let set : (cursor == 0) ≡ false = ground arith in rw (set, le→leb tip cursor at_tip) refl

      -- Two stretches of blocks make one.
      joined :
          (sender : EventSender) (cursor end : ℕ)
          → cursor ≤ end
          → end ≤ tip
          → (send_all order
              (send_all order sender (span (end - cursor) (suc cursor))).0
              (span (tip - end) (suc end))).0
            ≡ (send_all order sender (span (tip - cursor) (suc cursor))).0
      joined sender cursor end low high =
          let whole : end - cursor + (tip - end) ≡ tip - cursor = omega arith in
          let next : suc cursor + (end - cursor) ≡ suc end = omega arith in
          let spans : span (end - cursor) (suc cursor) ++ span (tip - end) (suc end)
              ≡ span (tip - cursor) (suc cursor) =
            ap (λ h. span (end - cursor) (suc cursor) ++ span (tip - end) h) (sym next)
            ∙ sym (span-add (end - cursor) (tip - end) (suc cursor))
            ∙ ap (λ n. span n (suc cursor)) whole in
          sym
            (send_all-append sender (span (end - cursor) (suc cursor)) (span (tip - end) (suc end)))
          ∙ ap (λ events. (send_all order sender events).0) spans

      -- Let ticks start from a cursor that is set and not beyond the tip, with a registered contract
      -- and a positive number of blocks for each tick. Then enough ticks end at the tip, and they
      -- have sent the events of every block after the cursor, in order.
      pub ticks-catch_up :
          (k : ℕ) (sender : EventSender) (cursor : ℕ)
          → 0 < cursor
          → cursor ≤ tip
          → 0 < max_blocks
          → tip ≤ cursor + k * max_blocks
          → (last : Ticked) × (ticks k sender cursor ≡ returned last)
            × (last.cursor ≡ tip)
            × (last.sender ≡ (send_all order sender (span (tip - cursor) (suc cursor))).0)
      unfolding ticks send_all
      ticks-catch_up zero sender cursor warm before moves enough =
          let done : tip - cursor ≡ 0 = omega arith in
          rw done
            (idle order registered fetch_tx_events blocks sender cursor, refl, omega arith, refl)
      ticks-catch_up (suc k) sender cursor warm before moves enough = elim (le-cases tip cursor) [
        | inl at_tip ↦
            rw (tick-idle sender cursor warm at_tip)
              (ticks-catch_up k sender cursor warm before moves (omega arith))
        | inr behind ↦
            let end = min (cursor + max_blocks) tip in
            let (counted, runs) = tick-walks sender cursor warm behind in
            let sent = (send_all order sender (span (end - cursor) (suc cursor))).0 in
            let (last, rest, at_tip, all) =
              ticks-catch_up k sent end (omega arith) (omega arith) moves (omega arith) in
            rw runs (last, rest, at_tip, all ∙ joined sender cursor end (omega arith) (omega arith))
      ]
