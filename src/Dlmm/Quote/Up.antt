-- ===== src/Dlmm/Quote/Up.antt =====
-- `quote_y_for_x` is the sweep over the bins at or above the active one, lowest first.
use stacks_dex_pool.Prelude.{
  ℕ, max, suc, ◌+◌, ◌-◌, ◌≤◌, ◌<◌, Option, none, Bool, true, [], ◌∷◌, ◌++◌, ◌&&◌, ◌≡◌, refl, sym,
  ◌∙◌, arith, inl, inr, if◌then◌else◌, Bool-cases, and_parts, and_both, ◌≢◌,
}
use stacks_dex_pool.Prelude.Int.{
  one_part, ℤ, pos, pos_part, neg_part, ◌+ℤ◌, ◌-ℤ◌, ◌≤ℤ◌, ◌<ℤ◌, leb_ℤ, ltb_ℤ, ltb_ℤ→lt, leb_ℤ→le,
  leb_ℤ→gt, le→leb_ℤ, compare-cases, lt_of_compare, eq_of_compare, gt_of_compare, eq_of_parts,
}
use stacks_dex_pool.Prelude.Outcome.{Profile}
use stacks_dex_pool.BTreeMap.{BTreeMap, get, last_key}
use stacks_dex_pool.BTreeMap.Laws.{get_before, get_here, get_after, Above, IsSorted, Above-trans}
use stacks_dex_pool.Dlmm.Constants.{max_bin_id}
use stacks_dex_pool.Dlmm.Pool.{BinState, DlmmPool}
use stacks_dex_pool.Dlmm.Quote.{up, rounds_up, quote_y_for_x, unwrap_or}
use stacks_dex_pool.Dlmm.Quote.Sweep.{sweep, ascending}
use stacks_dex_pool.Dlmm.Quote.Ranks.{
  IsRanked, IsOrdered, find, find-IsOrdered, find_head, find_tail,
}
use stacks_dex_pool.Dlmm.Quote.Refine.{walk_refines}

-- Every key lies below `i`.
abbrev Below : ℤ → BTreeMap BinState → Type 0
Below i [] = Unit
Below i ((k, _) ∷ bins) = (k <ℤ i) × Below i bins

get-Below : (i : ℤ) (bins : BTreeMap BinState) → Below i bins → get i bins ≡ none
unfolding get
get-Below i [] h = refl
get-Below i ((k, b) ∷ bins) h = ground (arith, get-Below i bins h.1)

last_key-Below :
    (active i : ℤ) (bins : BTreeMap BinState)
    → IsSorted bins
    → unwrap_or active (last_key bins) <ℤ i
    → Below i bins
last_key-Below active i [] s h = tt
last_key-Below active i ((k, b) ∷ []) s h = (h, tt)
last_key-Below active i ((k, b) ∷ (j, c) ∷ bins) s h =
    let rest = last_key-Below active i ((j, c) ∷ bins) s.1 h in (omega arith, rest)

rounds_up-eq : (b : ℤ) → rounds_up b + pos_part b ≡ max (501 + neg_part b) (pos_part b)
unfolding ◌-ℤ◌
rounds_up-eq b = ground arith

rounds_up-next : (b : ℤ) → rounds_up (b +ℤ pos 1) ≡ rounds_up b - 1
unfolding ◌+ℤ◌ ◌-ℤ◌
rounds_up-next b = ground arith

rounds_up-le : (i b : ℤ) → 0 < rounds_up i → rounds_up i ≤ rounds_up b → b ≤ℤ i
rounds_up-le i b p h = omega (arith, rounds_up-eq i, rounds_up-eq b)

-- A bin has a rank exactly if it is in the range, and ranks fall as the ids grow.
rounds_up-pos : (b : ℤ) → b ≤ℤ max_bin_id → 0 < rounds_up b
rounds_up-pos b h = omega (arith, rounds_up-eq b)

max_of_pos : (i : ℤ) → 0 < rounds_up i → i ≤ℤ max_bin_id
max_of_pos i h = omega (arith, rounds_up-eq i)

rounds_up-lt : (a b : ℤ) → b ≤ℤ max_bin_id → a <ℤ b → rounds_up b < rounds_up a
rounds_up-lt a b h lt = omega (arith, rounds_up-eq a, rounds_up-eq b, one_part a, one_part b)

rounds_up-anti : (a b : ℤ) → a ≤ℤ b → rounds_up b ≤ rounds_up a
rounds_up-anti a b le = omega (arith, rounds_up-eq a, rounds_up-eq b)

window_up :
    (bins : BTreeMap BinState) (active b i : ℤ)
    → IsSorted bins
    → ltb_ℤ (unwrap_or active (last_key bins)) b ≡ true
    → b ≤ℤ i
    → get i bins ≡ none
window_up bins active b i s out le =
    let beyond = ltb_ℤ→lt (unwrap_or active (last_key bins)) b out in
    get-Below i bins (last_key-Below active i bins s (omega arith))

up-IsRanked :
    (p : Profile) (pool : DlmmPool) → IsSorted pool.bins → IsRanked pool (up p pool) rounds_up
unfolding up
up-IsRanked p pool s = record {
  step = λ b h. omega (arith, rounds_up-next b, rounds_up-pos b (leb_ℤ→le b max_bin_id h));
  stop = λ b h. omega (arith, rounds_up-eq b, one_part b, leb_ℤ→gt b max_bin_id h);
  inj = λ a b pa h. eq_of_parts a b (omega (arith, rounds_up-eq a, rounds_up-eq b));
  window =
      λ b i out pi le. window_up pool.bins pool.active_bin_id b i s out (rounds_up-le i b pi le);
}

module _ (p : Profile) (pool : DlmmPool) where
  abbrev IsUpward : BTreeMap BinState → ℕ → Type 0
  IsUpward = IsOrdered pool (up p pool) rounds_up

  -- The part of `ascending` that one entry adds.
  abbrev keeps : ℤ → ℤ → Bool
  keeps active k = leb_ℤ active k && leb_ℤ k max_bin_id

  ascending-Above :
      (active k : ℤ) (bins : BTreeMap BinState)
      → Above k bins
      → IsSorted bins
      → IsUpward (ascending active bins) (rounds_up k - 1)
  unfolding ascending
  ascending-Above active k [] a s = tt
  ascending-Above active k ((j, b) ∷ bins) a s = elim (Bool-cases (keeps active j)) [
    | inr dropped ↦ rw dropped (ascending-Above active k bins a.1 s.1)
    | inl kept ↦
        let inside =
          leb_ℤ→le j max_bin_id (and_parts (leb_ℤ active j) (leb_ℤ j max_bin_id) kept).1 in
        let lower = rounds_up-lt k j inside a.0 in
        rw kept (rounds_up-pos j inside, omega arith, ascending-Above active j bins s.0 s.1)
  ]

  ascending-IsOrdered :
      (active : ℤ) (bins : BTreeMap BinState)
      → IsSorted bins
      → IsUpward (ascending active bins) (rounds_up active)
  unfolding ascending
  ascending-IsOrdered active [] s = tt
  ascending-IsOrdered active ((k, b) ∷ bins) s = elim (Bool-cases (keeps active k)) [
    | inr dropped ↦ rw dropped (ascending-IsOrdered active bins s.1)
    | inl kept ↦
        let parts = and_parts (leb_ℤ active k) (leb_ℤ k max_bin_id) kept in
        rw kept (
          rounds_up-pos k (leb_ℤ→le k max_bin_id parts.1),
          rounds_up-anti active k (leb_ℤ→le active k parts.0),
          ascending-Above active k bins s.0 s.1,
        )
  ]

  abbrev found : ℤ → BTreeMap BinState → Option BinState
  found i = find pool (up p pool) rounds_up (rounds_up i)

  ascending-Agrees :
      (active i : ℤ) (bins : BTreeMap BinState)
      → IsSorted bins
      → i ≤ℤ max_bin_id
      → active ≤ℤ i
      → get i bins ≡ found i (ascending active bins)
  unfolding ascending get
  ascending-Agrees active i [] s high low = refl
  ascending-Agrees active i ((k, b) ∷ bins) s high low = elim (compare-cases i k) [
    | inl before ↦
        let lt = lt_of_compare i k before in
        let above : Above i ((k, b) ∷ bins) = (lt, Above-trans i k bins (omega arith) s.0) in
        get_before i k b bins before
        ∙ sym (
            find-IsOrdered pool (up p pool) rounds_up (rounds_up i) (rounds_up i - 1)
              (ascending active ((k, b) ∷ bins)) (omega (arith, rounds_up-pos i high))
              (ascending-Above active i ((k, b) ∷ bins) above s))
    | inr (inl here) ↦
        let e = eq_of_compare i k here in
        let kept =
          and_both (leb_ℤ active k) (leb_ℤ k max_bin_id) (le→leb_ℤ active k (rw e at low))
            (le→leb_ℤ k max_bin_id (rw e at high)) in
        rw e (
          rw kept (
            get_here k b bins
            ∙ sym (
                find_head pool (up p pool) rounds_up (rounds_up k) k b (ascending active bins)
                  refl)))
    | inr (inr after) ↦
        let lower = rounds_up-lt k i high (gt_of_compare i k after) in
        get_after i k b bins after
        ∙ ascending-Agrees active i bins s.1 high low
        ∙ sym (passed active i k b bins (omega arith))
  ]
    where
      passed :
          (active i k : ℤ) (b : BinState) (bins : BTreeMap BinState)
          → rounds_up k ≢ rounds_up i
          → found i ((if keeps active k then (k, b) ∷ [] else []) ++ ascending active bins)
            ≡ found i (ascending active bins)
      passed active i k b bins h = elim (Bool-cases (keeps active k)) [
        | inl kept ↦
            rw kept
              (find_tail pool (up p pool) rounds_up (rounds_up i) k b (ascending active bins) h)
        | inr dropped ↦ rw dropped
      ]

-- If the bins are sorted, `quote_y_for_x` ends, and gives what one pass over the mirrored bins from
-- the active one up gives: gaps, empty bins and the window test change nothing.
pub quote_y_for_x-eq-sweep :
    (p : Profile) (pool : DlmmPool) (y_amount : ℕ)
    → IsSorted pool.bins
    → quote_y_for_x p pool y_amount
      ≡ sweep pool (up p pool) (ascending pool.active_bin_id pool.bins) y_amount 0 none
unfolding quote_y_for_x
quote_y_for_x-eq-sweep p pool y_amount s =
    let active = pool.active_bin_id in
    let bins = ascending active pool.bins in
    walk_refines pool (up p pool) rounds_up (up-IsRanked p pool s) (suc (rounds_up active)) bins
      y_amount active 0 none (omega arith) (ascending-IsOrdered p pool active pool.bins s)
      (λ i q le.
        ascending-Agrees p pool active i pool.bins s (max_of_pos i q) (rounds_up-le i active q le))
