-- ===== src/Collector/Poller/Newer.antt =====
-- The events that are newer than the watermark, and the pages that a cycle can see.
use stacks_dex_pool.Prelude.{
  ℕ, zero, suc, ◌+◌, ◌*◌, ◌<◌, Bool, true, false, Option, none, some, List, [], ◌∷◌, ◌++◌, length,
  take, drop, drop-nil, drop-drop, ◌≡◌, refl, sym, ap, ◌∙◌, arith, if◌then◌else◌, any,
}
use stacks_dex_pool.Prelude.Text.{Text, text_eq}
use stacks_dex_pool.Collector.Poller.{EventEnvelope, scan_page}

abbrev is_at : Option Text → EventEnvelope → Bool
is_at none env = false
is_at (some w) env = text_eq env.tx_id w

-- The events before the first one of the watermark's transaction.
unfoldable pub newer : Option Text → List EventEnvelope → List EventEnvelope
newer watermark [] = []
newer watermark (env ∷ envs) =
    let rest = newer watermark envs in if is_at watermark env then [] else env ∷ rest

unfoldable pub reaches : Option Text → List EventEnvelope → Bool
reaches watermark envs = any (is_at watermark) envs

pub scan_page-eq :
    (watermark : Option Text) (page : List EventEnvelope)
    → scan_page watermark page ≡ (newer watermark page, reaches watermark page)
unfolding scan_page newer reaches
scan_page-eq watermark [] = refl
scan_page-eq none (env ∷ page) = ground (arith, scan_page-eq none page)
scan_page-eq (some w) (env ∷ page) = ground (arith, scan_page-eq (some w) page)

pub newer-append_reached :
    (watermark : Option Text) (xs ys : List EventEnvelope)
    → reaches watermark xs ≡ true
    → newer watermark (xs ++ ys) ≡ newer watermark xs
unfolding newer reaches
newer-append_reached watermark [] ys h = cc
newer-append_reached watermark (x ∷ xs) ys h = ground (arith, newer-append_reached watermark xs ys)

pub newer-append_missed :
    (watermark : Option Text) (xs ys : List EventEnvelope)
    → reaches watermark xs ≡ false
    → newer watermark (xs ++ ys) ≡ xs ++ newer watermark ys
unfolding newer reaches
newer-append_missed watermark [] ys h = refl
newer-append_missed watermark (x ∷ xs) ys h = ground (arith, newer-append_missed watermark xs ys)

pub newer_all :
    (watermark : Option Text) (xs : List EventEnvelope)
    → reaches watermark xs ≡ false
    → newer watermark xs ≡ xs
unfolding newer reaches
newer_all watermark [] h = refl
newer_all watermark (x ∷ xs) h = ground (arith, newer_all watermark xs)

module _ (size : ℕ) (history : List EventEnvelope) where
  -- The page at an index, and the pages from an index on.
  abbrev pub page_at : ℕ → List EventEnvelope
  page_at page_idx = take size (drop (page_idx * size) history)

  unfoldable pub window : (pages_left page_idx : ℕ) → List EventEnvelope
  window zero page_idx = []
  window (suc n) page_idx = page_at page_idx ++ window n (suc page_idx)

take-nil : {A : Type 0} (n : ℕ) → take {A = A} n [] ≡ []
take-nil zero = refl
take-nil (suc n) = refl

take_short : {A : Type 0} (n : ℕ) (xs : List A) → length (take n xs) < n → drop n xs ≡ []
take_short zero xs h = absurd (omega arith)
take_short (suc n) [] h = refl
take_short (suc n) (x ∷ xs) h = take_short n xs (omega arith)

take-add : {A : Type 0} (m n : ℕ) (xs : List A) → take (m + n) xs ≡ take m xs ++ take n (drop m xs)
take-add zero n xs = ap (λ k. take k xs) (omega arith)
take-add (suc m) n [] = take-nil (suc m + n) ∙ sym (take-nil n)
take-add (suc m) n (x ∷ xs) =
    let e : suc m + n ≡ suc (m + n) = omega arith in
    ap (λ k. take k (x ∷ xs)) e ∙ ap (λ ys. x ∷ ys) (take-add m n xs)

module _ (size : ℕ) (history : List EventEnvelope) where
  window_done :
      (n page_idx : ℕ) → drop (page_idx * size) history ≡ [] → window size history n page_idx ≡ []
  unfolding window
  window_done zero page_idx h = refl
  window_done (suc n) page_idx h =
      let e : page_idx * size + size ≡ suc page_idx * size = omega arith in
      let next : drop (suc page_idx * size) history ≡ [] =
        ap (λ k. drop k history) (sym e)
        ∙ sym (drop-drop size (page_idx * size) history)
        ∙ ap (drop size) h
        ∙ drop-nil size in
      rw h (rw (take-nil {A = EventEnvelope} size) (window_done n (suc page_idx) next))

  -- A page that is not full is the last one.
  pub window-short :
      (n page_idx : ℕ)
      → length (page_at size history page_idx) < size
      → window size history n (suc page_idx) ≡ []
  window-short n page_idx h =
      let e : page_idx * size + size ≡ suc page_idx * size = omega arith in
      window_done n (suc page_idx) (
        ap (λ k. drop k history) (sym e)
        ∙ sym (drop-drop size (page_idx * size) history)
        ∙ take_short size (drop (page_idx * size) history) h)

  -- The pages from an index on are a stretch of the history.
  window-eq :
      (n page_idx : ℕ)
      → window size history n page_idx ≡ take (n * size) (drop (page_idx * size) history)
  unfolding window
  window-eq zero page_idx =
      let e : 0 ≡ 0 * size = omega arith in ap (λ k. take k (drop (page_idx * size) history)) e
  window-eq (suc n) page_idx =
      let d = drop (page_idx * size) history in
      let e : page_idx * size + size ≡ suc page_idx * size = omega arith in
      let next : drop (suc page_idx * size) history ≡ drop size d =
        ap (λ k. drop k history) (sym e) ∙ sym (drop-drop size (page_idx * size) history) in
      let count : size + n * size ≡ suc n * size = omega arith in
      ap (λ ys. take size d ++ ys) (window-eq n (suc page_idx) ∙ ap (take (n * size)) next)
      ∙ sym (take-add size (n * size) d)
      ∙ ap (λ k. take k d) count

  zero_first : 0 * size ≡ 0
  zero_first = omega arith

  pub window-eq-take : (n : ℕ) → window size history n 0 ≡ take (n * size) history
  window-eq-take n = window-eq n 0 ∙ ap (λ k. take (n * size) (drop k history)) zero_first
