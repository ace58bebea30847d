-- ===== src/Dlmm/Quote/Down.antt =====
-- `quote_x_for_y` is the sweep over the bins at or below the active one, highest first.
use stacks_dex_pool.Prelude.{
  ℕ, max, suc, ◌+◌, ◌-◌, ◌≤◌, ◌<◌, Option, none, true, [], ◌∷◌, ◌++◌, ◌&&◌, ◌≡◌, refl, sym, ◌∙◌,
  arith, inl, inr, if◌then◌else◌, Bool-cases, and_parts, and_both, ◌≢◌,
}
use stacks_dex_pool.Prelude.Int.{
  one_part, ℤ, pos, pos_part, neg_part, ◌+ℤ◌, ◌-ℤ◌, ◌≤ℤ◌, ◌<ℤ◌, leb_ℤ, ltb_ℤ, leb_ℤ→le, leb_ℤ→gt,
  le→leb_ℤ, compare-cases, lt_of_compare, eq_of_compare, gt_of_compare, eq_of_parts,
}
use mathlib.Core.List.{append-nil}
use stacks_dex_pool.Prelude.Outcome.{Profile}
use stacks_dex_pool.BTreeMap.{BTreeMap, get, first_key}
use stacks_dex_pool.BTreeMap.Laws.{get_before, get_here, get_after, Above, IsSorted, Above-trans}
use stacks_dex_pool.Dlmm.Constants.{min_bin_id}
use stacks_dex_pool.Dlmm.Pool.{BinState, DlmmPool}
use stacks_dex_pool.Dlmm.Quote.{down, rounds_down, quote_x_for_y, unwrap_or}
use stacks_dex_pool.Dlmm.Quote.Sweep.{sweep, descending}
use stacks_dex_pool.Dlmm.Quote.Ranks.{
  IsRanked, IsOrdered, find, IsOrdered-weaken, find_head, find_tail,
}
use stacks_dex_pool.Dlmm.Quote.Refine.{walk_refines}

window_down :
    (bins : BTreeMap BinState) (active b i : ℤ)
    → IsSorted bins
    → ltb_ℤ b (unwrap_or active (first_key bins)) ≡ true
    → i ≤ℤ b
    → get i bins ≡ none
unfolding get
window_down [] active b i s out le = refl
window_down ((k, v) ∷ bins) active b i s out le = ground (arith)

rounds_down-eq : (b : ℤ) → rounds_down b + neg_part b ≡ max (pos_part b + 501) (neg_part b)
unfolding ◌+ℤ◌
rounds_down-eq b = ground arith

rounds_down-next : (b : ℤ) → rounds_down (b -ℤ pos 1) ≡ rounds_down b - 1
unfolding ◌+ℤ◌ ◌-ℤ◌
rounds_down-next b = ground arith

rounds_down-le : (i b : ℤ) → 0 < rounds_down i → rounds_down i ≤ rounds_down b → i ≤ℤ b
rounds_down-le i b p h = omega (arith, rounds_down-eq i, rounds_down-eq b)

-- A bin has a rank exactly if it is in the range, and ranks follow the order of the ids.
rounds_down-pos : (b : ℤ) → min_bin_id ≤ℤ b → 0 < rounds_down b
rounds_down-pos b h = omega (arith, rounds_down-eq b)

rounds_down-lt : (a b : ℤ) → min_bin_id ≤ℤ b → a <ℤ b → rounds_down a < rounds_down b
rounds_down-lt a b h lt = omega (arith, rounds_down-eq a, rounds_down-eq b, one_part a, one_part b)

min_of_pos : (i : ℤ) → 0 < rounds_down i → min_bin_id ≤ℤ i
min_of_pos i h = omega (arith, rounds_down-eq i)

rounds_down_mono : (a b : ℤ) → a ≤ℤ b → rounds_down a ≤ rounds_down b
rounds_down_mono a b le = omega (arith, rounds_down-eq a, rounds_down-eq b)

down-IsRanked :
    (p : Profile) (pool : DlmmPool) → IsSorted pool.bins → IsRanked pool (down p pool) rounds_down
unfolding down
down-IsRanked p pool s = record {
  step = λ b h. omega (arith, rounds_down-next b, rounds_down-pos b (leb_ℤ→le min_bin_id b h));
  stop = λ b h. omega (arith, rounds_down-eq b, one_part b, leb_ℤ→gt min_bin_id b h);
  inj = λ a b pa h. eq_of_parts a b (omega (arith, rounds_down-eq a, rounds_down-eq b));
  window = λ b i out pi le.
      window_down pool.bins pool.active_bin_id b i s out (rounds_down-le i b pi le);
}

-- Every rank of the list lies above `r`.
abbrev Over : ℕ → BTreeMap BinState → Type 0
Over r [] = Unit
Over r ((k, _) ∷ bins) = (r < rounds_down k) × Over r bins

Over-append : (r : ℕ) (xs ys : BTreeMap BinState) → Over r xs → Over r ys → Over r (xs ++ ys)
Over-append r [] ys h k = k
Over-append r (x ∷ xs) ys (h, hs) k = (h, Over-append r xs ys hs k)

-- The part of `descending` that one entry adds.
abbrev own : ℤ → ℤ → BinState → BTreeMap BinState
own active k b = if leb_ℤ k active && leb_ℤ min_bin_id k then (k, b) ∷ [] else []

own-Over : (r : ℕ) (active j : ℤ) (b : BinState) → r < rounds_down j → Over r (own active j b)
own-Over r active j b h = elim (Bool-cases (leb_ℤ j active && leb_ℤ min_bin_id j)) [
  | inl kept ↦ rw kept (h, tt)
  | inr dropped ↦ rw dropped tt
]

descending-Over :
    (active k : ℤ) (bins : BTreeMap BinState)
    → Above k bins
    → min_bin_id ≤ℤ k
    → Over (rounds_down k) (descending active bins)
unfolding descending
descending-Over active k [] a h = tt
descending-Over active k ((j, b) ∷ bins) a h =
    Over-append (rounds_down k) (descending active bins) (own active j b)
      (descending-Over active k bins a.1 h)
      (own-Over (rounds_down k) active j b (rounds_down-lt k j (omega arith) a.0))

module _ (p : Profile) (pool : DlmmPool) where
  abbrev found : ℤ → BTreeMap BinState → Option BinState
  found i = find pool (down p pool) rounds_down (rounds_down i)

  find-Over :
      (n : ℕ) (bins : BTreeMap BinState)
      → Over n bins
      → find pool (down p pool) rounds_down n bins ≡ none
  find-Over n [] h = refl
  find-Over n ((k, b) ∷ bins) h = ground (arith, find-Over n bins h.1)

  find-append_none :
      (n : ℕ) (xs ys : BTreeMap BinState)
      → find pool (down p pool) rounds_down n ys ≡ none
      → find pool (down p pool) rounds_down n (xs ++ ys) ≡ find pool (down p pool) rounds_down n xs
  find-append_none n [] ys h = h
  find-append_none n ((k, b) ∷ xs) ys h = ground (arith, find-append_none n xs ys h)

  find-append-Over :
      (n : ℕ) (xs ys : BTreeMap BinState)
      → Over n xs
      → find pool (down p pool) rounds_down n (xs ++ ys) ≡ find pool (down p pool) rounds_down n ys
  find-append-Over n [] ys h = refl
  find-append-Over n ((k, b) ∷ xs) ys h = ground (arith, find-append-Over n xs ys h.1)

  IsOrdered-append :
      (n r : ℕ) (xs ys : BTreeMap BinState)
      → IsOrdered pool (down p pool) rounds_down xs n
      → Over r xs
      → r ≤ n
      → IsOrdered pool (down p pool) rounds_down ys r
      → IsOrdered pool (down p pool) rounds_down (xs ++ ys) n
  IsOrdered-append n r [] ys o h le t = IsOrdered-weaken pool (down p pool) rounds_down n r ys le t
  IsOrdered-append n r ((k, b) ∷ xs) ys o h le t =
      (o.0, o.1, IsOrdered-append (rounds_down k - 1) r xs ys o.2 h.1 (omega arith) t)

  descending-IsOrdered :
      (active : ℤ) (bins : BTreeMap BinState)
      → IsSorted bins
      → IsOrdered pool (down p pool) rounds_down (descending active bins) (rounds_down active)
  unfolding descending get
  descending-IsOrdered active [] s = tt
  descending-IsOrdered active ((k, b) ∷ bins) s =
      elim (Bool-cases (leb_ℤ k active && leb_ℤ min_bin_id k)) [
        | inr dropped ↦ rw (dropped, append-nil) (descending-IsOrdered active bins s.1)
        | inl kept ↦
            rw kept
              let (below, inside) = and_parts (leb_ℤ k active) (leb_ℤ min_bin_id k) kept in
                let low = leb_ℤ→le min_bin_id k inside in
                let high = leb_ℤ→le k active below in
                IsOrdered-append (rounds_down active) (rounds_down k) (descending active bins)
                  ((k, b) ∷ []) (descending-IsOrdered active bins s.1)
                  (descending-Over active k bins s.0 low) (rounds_down_mono k active high)
                  (rounds_down-pos k low, omega arith, tt)
      ]

  find-own :
      (n : ℕ) (active k : ℤ) (b : BinState)
      → rounds_down k ≢ n
      → find pool (down p pool) rounds_down n (own active k b) ≡ none
  find-own n active k b h = elim (Bool-cases (leb_ℤ k active && leb_ℤ min_bin_id k)) [
    | inl kept ↦ rw kept (find_tail pool (down p pool) rounds_down n k b [] h)
    | inr dropped ↦ rw dropped
  ]

  descending-Agrees :
      (active i : ℤ) (bins : BTreeMap BinState)
      → IsSorted bins
      → min_bin_id ≤ℤ i
      → i ≤ℤ active
      → get i bins ≡ found i (descending active bins)
  unfolding descending get
  descending-Agrees active i [] s low high = refl
  descending-Agrees active i ((k, b) ∷ bins) s low high = elim (compare-cases i k) [
    | inl before ↦
        let lt = lt_of_compare i k before in
        let none_left = find-Over (rounds_down i) (descending active bins ++ own active k b) (
          Over-append (rounds_down i) (descending active bins) (own active k b)
            (descending-Over active i bins (Above-trans i k bins (omega arith) s.0) low)
            (own-Over (rounds_down i) active k b (rounds_down-lt i k (omega arith) lt))) in
        get_before i k b bins before ∙ sym none_left
    | inr (inl here) ↦
        let e = eq_of_compare i k here in
        let kept =
          and_both (leb_ℤ k active) (leb_ℤ min_bin_id k) (le→leb_ℤ k active (rw e at high))
            (le→leb_ℤ min_bin_id k (rw e at low)) in
        let over = descending-Over active k bins s.0 (rw e at low) in
        rw (kept, e)
          (get_here k b bins
            ∙ sym (
                find-append-Over (rounds_down k) (descending active bins) ((k, b) ∷ []) over
                ∙ find_head pool (down p pool) rounds_down (rounds_down k) k b [] refl))
    | inr (inr after) ↦
        let gt = gt_of_compare i k after in
        let skipped =
          find-append_none (rounds_down i) (descending active bins) (own active k b)
            (find-own (rounds_down i) active k b (omega (arith, rounds_down-lt k i low gt))) in
        get_after i k b bins after ∙ descending-Agrees active i bins s.1 low high ∙ sym skipped
  ]

-- If the bins are sorted, `quote_x_for_y` ends, and gives what one pass over the mirrored bins from
-- the active one down gives: gaps, empty bins and the window test change nothing.
pub quote_x_for_y-eq-sweep :
    (p : Profile) (pool : DlmmPool) (x_amount : ℕ)
    → IsSorted pool.bins
    → quote_x_for_y p pool x_amount
      ≡ sweep pool (down p pool) (descending pool.active_bin_id pool.bins) x_amount 0 none
unfolding quote_x_for_y
quote_x_for_y-eq-sweep p pool x_amount s =
    let active = pool.active_bin_id in
    let bins = descending active pool.bins in
    walk_refines pool (down p pool) rounds_down (down-IsRanked p pool s) (suc (rounds_down active))
      bins x_amount active 0 none (omega arith) (descending-IsOrdered p pool active pool.bins s)
      (λ i q le.
        descending-Agrees p pool active i pool.bins s (min_of_pos i q)
          (rounds_down-le i active q le))
