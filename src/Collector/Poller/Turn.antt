-- ===== src/Collector/Poller/Turn.antt =====
-- What one page of a poll cycle adds to the events that it collects.
use stacks_dex_pool.Prelude.{
  ◌+◌, ◌≤◌, ◌<◌, true, false, ◌||◌, Option, none, some, List, [], ◌∷◌, ◌++◌, length, ◌≡◌, refl, sym,
  ap, ◌∙◌, arith, inl, inr, Bool-cases, ltb, leb, ltb→lt, ltb→ge, leb→le, length-append,
}
use mathlib.Core.List.{append-nil, append_assoc}
use stacks_dex_pool.Prelude.Text.{Text}
use stacks_dex_pool.Prelude.Outcome.{Outcome, returned, Result, ok}
use stacks_dex_pool.Collector.Poller.{
  EventEnvelope, CollectorConfig, PollError, Collected, turn, newest_of,
}
use stacks_dex_pool.Collector.Poller.Newer.{
  newer, reaches, scan_page-eq, newer-append_reached, newer-append_missed, newer_all,
}

-- The newest transaction, if none was seen before.
abbrev pub newest_from : Option Text → List EventEnvelope → Option Text
newest_from seen [] = seen
newest_from seen (env ∷ envs) = newest_of seen env.tx_id

newest_from-append :
    (seen : Option Text) (xs ys : List EventEnvelope)
    → newest_from (newest_from seen xs) ys ≡ newest_from seen (xs ++ ys)
newest_from-append seen [] ys = refl
newest_from-append none (x ∷ xs) [] = refl
newest_from-append none (x ∷ xs) (y ∷ ys) = refl
newest_from-append (some w) (x ∷ xs) [] = refl
newest_from-append (some w) (x ∷ xs) (y ∷ ys) = refl

-- What a loop ends with, from a state and the events that it can see.
abbrev pub IsCollected :
    Option Text → Collected → List EventEnvelope → Outcome (Result PollError Collected) → Type 0
IsCollected watermark st seen result =
    (last : Collected) × (result ≡ returned (ok last))
    × (last.to_apply ≡ st.to_apply ++ newer watermark seen)
    × (last.newest_seen ≡ newest_from st.newest_seen seen)

module _ (config : CollectorConfig) (watermark : Option Text) (st : Collected)
    (go_on : Collected → Outcome (Result PollError Collected)) (later : List EventEnvelope)
    (paged : 0 < config.page_size) where
  last_page :
      (xs collected : List EventEnvelope)
      → length collected ≡ length st.to_apply + length xs
      → (length xs < config.page_size → later ≡ [])
      → (config.page_size ≤ length xs
          → config.max_events_per_cycle ≤ length st.to_apply + length xs
          → later ≡ [])
      → (ltb (length xs) config.page_size || leb config.max_events_per_cycle (length collected))
        ≡ true
      → later ≡ []
  last_page xs collected len short capped ends =
      elim (Bool-cases (ltb (length xs) config.page_size)) [
        | inl few ↦ short (ltb→lt (length xs) config.page_size few)
        | inr many ↦ capped (ltb→ge (length xs) config.page_size many) (
            omega
              (arith, len, leb→le config.max_events_per_cycle (length collected) (ground arith)))
      ]

  pub turn-IsCollected :
      (xs : List EventEnvelope)
      → (length xs < config.page_size → later ≡ [])
      → (config.page_size ≤ length xs
          → config.max_events_per_cycle ≤ length st.to_apply + length xs
          → later ≡ [])
      → ((next : Collected)
          → config.page_size ≤ length xs
          → length next.to_apply ≡ length st.to_apply + length xs
          → IsCollected watermark next later (go_on next))
      → IsCollected watermark st (xs ++ later) (turn config watermark st (ok xs) go_on)
  unfolding newer
  turn-IsCollected [] short capped continues =
      rw (short paged) (st, refl, sym (append-nil st.to_apply), refl)
  turn-IsCollected (env ∷ envs) short capped continues =
      let xs = env ∷ envs in
      let seen_xs = scan_page-eq watermark xs in
      let collected = st.to_apply ++ newer watermark xs in
      elim (Bool-cases (reaches watermark xs)) [
        | inl reached ↦
            rw (seen_xs, reached)
              (
                record {
                  to_apply = collected;
                  newest_seen = newest_of st.newest_seen env.tx_id;
                  reached_watermark = true;
                },
                refl,
                ap (λ ys. st.to_apply ++ ys)
                    (sym (newer-append_reached watermark xs later reached)),
                refl,
              )
        | inr missed ↦
            let next : Collected = record {
              to_apply = collected;
              newest_seen = newest_of st.newest_seen env.tx_id;
              reached_watermark = false;
            } in
            let len : length collected ≡ length st.to_apply + length xs =
              length-append st.to_apply (newer watermark xs)
              ∙ ap (λ ys. length st.to_apply + length ys) (newer_all watermark xs missed) in
            let all_xs : newer watermark (xs ++ later)
                ≡ newer watermark xs ++ newer watermark later =
              newer-append_missed watermark xs later missed
              ∙ ap (λ ys. ys ++ newer watermark later) (sym (newer_all watermark xs missed)) in
            let whole : collected ++ newer watermark later
                ≡ st.to_apply ++ newer watermark (xs ++ later) =
              append_assoc st.to_apply (newer watermark xs) (newer watermark later)
              ∙ ap (λ ys. st.to_apply ++ ys) (sym all_xs) in
            elim (Bool-cases (
              ltb (length xs) config.page_size
              || leb config.max_events_per_cycle (length collected))) [
                | inl ends ↦
                    let last = last_page xs collected len short capped ends in
                    rw (seen_xs, missed, ends)
                      (
                        next,
                        refl,
                        (sym (append-nil collected)
                              ∙ ap (λ ys. collected ++ newer watermark ys) (sym last))
                            ∙ whole,
                        refl,
                      )
                | inr goes_on ↦
                    let (end, runs, applied, newest) = continues next (ground arith) len in
                    rw (seen_xs, missed, goes_on)
                      (
                        end,
                        runs,
                        applied ∙ whole,
                        newest ∙ newest_from-append st.newest_seen xs later,
                      )
              ]
      ]
