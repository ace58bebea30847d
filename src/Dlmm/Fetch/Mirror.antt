-- ===== src/Dlmm/Fetch/Mirror.antt =====
-- A mirror made of bins that were read one by one.
use stacks_dex_pool.Prelude.{
  ℕ, zero, suc, ◌≡◌, ◌≢◌, refl, sym, ◌∙◌, ◌⊎◌, inl, inr, Bool, true, false, Bool-cases, ltb, ◌||◌,
  ◌&&◌, if◌then◌else◌, Option, none, some, List, [], ◌∷◌, any, All, arith,
}
use stacks_dex_pool.Prelude.Int.{
  ℤ, pos, pos_part, leb_ℤ, ◌+ℤ◌, ◌-ℤ◌, eq_of_parts, ltb_ℤ, one_part, +ℤ_parts, -ℤ_parts,
}
use stacks_dex_pool.Prelude.Text.{Text}
use stacks_dex_pool.Prelude.Fallible.{success}
use stacks_dex_pool.BTreeMap.{BTreeMap, get}
use stacks_dex_pool.BTreeMap.Laws.{IsSorted, insert-IsSorted, get-insert_self, get-insert_ne}
use stacks_dex_pool.Rpc.Reads.{Client, attempted}
use stacks_dex_pool.Dlmm.Constants.{min_bin_id, max_bin_id}
use stacks_dex_pool.Dlmm.Pool.{BinState}
use stacks_dex_pool.Dlmm.Fetch.{with_bin, with_found, fetch_bin, collect_bins, ids_from, id_range}

abbrev pub same_id : ℤ → ℤ → Bool
same_id a b = leb_ℤ a b && leb_ℤ b a

-- Whether an id is among others.
abbrev pub is_listed : ℤ → List ℤ → Bool
is_listed k ids = any (same_id k) ids

-- What a mirror holds of a bin that was read: nothing of an empty one.
abbrev pub shown : Option BinState → Option BinState
shown none = none
shown (some b) = if ltb 0 b.x || ltb 0 b.y then some b else none

-- The ids of a range.
abbrev pub is_between : (lo hi k : ℤ) → Bool
is_between lo hi k = leb_ℤ lo k && leb_ℤ k hi

-- The ids of a pool.
abbrev pub InRange : ℤ → Type 0
InRange k = is_between min_bin_id max_bin_id k ≡ true

same_id-eq : (a b : ℤ) → same_id a b ≡ true → a ≡ b
same_id-eq a b h = eq_of_parts a b (ground arith)

same_id-ne : (a b : ℤ) → same_id a b ≡ false → a ≢ b
same_id-ne a b h e =
    let same : same_id b b ≡ true = ground arith in
    let apart : true ≡ false = sym same ∙ (rw e at h) in ground arith

-- A bin that was read, put into a mirror.
found-IsSorted :
    (id : ℤ) (found : Option BinState) (bins : BTreeMap BinState)
    → IsSorted bins
    → IsSorted (with_found id found bins)
unfolding with_bin
found-IsSorted id none bins sorted = sorted
found-IsSorted id (some b) bins sorted = ground (arith, insert-IsSorted id b bins sorted)

found-same :
    (id : ℤ) (found : Option BinState) (bins : BTreeMap BinState)
    → (get id bins ≡ none) ⊎ (get id bins ≡ shown found)
    → get id (with_found id found bins) ≡ shown found
unfolding with_bin
found-same id none bins part = elim part [ inl e ↦ e | inr e ↦ e ]
found-same id (some b) bins part = ground (arith, get-insert_self id b bins)

found-other :
    (k id : ℤ) (found : Option BinState) (bins : BTreeMap BinState)
    → IsSorted bins
    → k ≢ id
    → get k (with_found id found bins) ≡ get k bins
unfolding with_bin
found-other k id none bins sorted other = refl
found-other k id (some b) bins sorted other = ground (arith, get-insert_ne k id b bins sorted other)

-- One bin after another, `read` what each of the reads ends in.
module _ (read : ℤ → Option BinState) where
  abbrev pub mirror : List ℤ → BTreeMap BinState → BTreeMap BinState
  mirror [] bins = bins
  mirror (id ∷ ids) bins = mirror ids (with_found id (read id) bins)

  -- The mirror holds of each bin nothing yet, or what was read.
  abbrev IsPart : BTreeMap BinState → Type 0
  IsPart bins = IsSorted bins × ((k : ℤ) → (get k bins ≡ none) ⊎ (get k bins ≡ shown (read k)))

  found-IsPart :
      (id : ℤ) (bins : BTreeMap BinState) → IsPart bins → IsPart (with_found id (read id) bins)
  found-IsPart id bins (sorted, part) = (
    found-IsSorted id (read id) bins sorted,
    λ k. elim (Bool-cases (same_id k id)) [
      | inl e ↦
          let same = same_id-eq k id e in inr (rw same (found-same id (read id) bins (part id)))
      | inr ne ↦
          let other = found-other k id (read id) bins sorted (same_id-ne k id ne) in
          rw other (part k)
    ],
  )

  mirror-get :
      (k : ℤ) (ids : List ℤ) (bins : BTreeMap BinState)
      → IsPart bins
      → get k (mirror ids bins) ≡ (if is_listed k ids then shown (read k) else get k bins)
  mirror-get k [] bins part = refl
  mirror-get k (id ∷ ids) bins part =
      let next = with_found id (read id) bins in
      let ih = mirror-get k ids next (found-IsPart id bins part) in
      elim (Bool-cases (same_id k id)) [
        | inl e ↦
            let same = same_id-eq k id e in
            let here : get k next ≡ shown (read k) =
              rw same (found-same id (read id) bins (part.1 id)) in
            rw (ih, e)
              (elim (Bool-cases (is_listed k ids)) [ inl y ↦ rw y refl | inr n ↦ rw n here ])
        | inr ne ↦
            let other = found-other k id (read id) bins part.0 (same_id-ne k id ne) in
            rw (ih, ne, other) refl
      ]

  pub mirror-get_new :
      (k : ℤ) (ids : List ℤ)
      → get k (mirror ids []) ≡ (if is_listed k ids then shown (read k) else none)
  unfolding get
  mirror-get_new k ids = mirror-get k ids [] (tt, λ j. inl refl)

  module _ (client : Client) (deployer name : Text)
      (reads : (id : ℤ)
        → InRange id
        → attempted (fetch_bin client deployer name id) ≡ success (read id)) where
    pub collect_bins-mirror :
        (ids : List ℤ) (bins : BTreeMap BinState)
        → All InRange ids
        → collect_bins client deployer name ids bins ≡ success (mirror ids bins)
    unfolding collect_bins
    collect_bins-mirror [] bins inside = refl
    collect_bins-mirror (id ∷ ids) bins (here, inside) =
        rw (reads id here) (collect_bins-mirror ids (with_found id (read id) bins) inside)

-- What holds of each listed id.
pub All-listed :
    (P : ℤ → Type 0) (ids : List ℤ) → ((k : ℤ) → is_listed k ids ≡ true → P k) → All P ids
All-listed P [] each = tt
All-listed P (id ∷ ids) each =
    let same : same_id id id ≡ true = ground arith in
    (
      each id (rw same refl),
      All-listed P ids λ k listed.
          each k (elim (Bool-cases (same_id k id)) [
            | inl e ↦ rw e refl
            | inr ne ↦ rw (ne, listed) refl
          ]),
    )

ids_from-listed :
    (k lo : ℤ) (count : ℕ)
    → is_listed k (ids_from lo count) ≡ (leb_ℤ lo k && ltb_ℤ k (lo +ℤ pos count))
unfolding ids_from
ids_from-listed k lo zero = ground (arith, +ℤ_parts lo (pos 0))
ids_from-listed k lo (suc count) = ground (
  arith,
  ids_from-listed k (lo +ℤ pos 1) count,
  +ℤ_parts lo (pos 1),
  +ℤ_parts lo (pos (suc count)),
  +ℤ_parts (lo +ℤ pos 1) (pos count),
)

pub id_range-listed : (lo hi k : ℤ) → is_listed k (id_range (lo, hi)) ≡ is_between lo hi k
unfolding id_range
id_range-listed lo hi k =
    let count = pos_part ((hi -ℤ lo) +ℤ pos 1) in
    ids_from-listed k lo count
    ∙ ground (
      arith,
      -ℤ_parts hi lo,
      +ℤ_parts (hi -ℤ lo) (pos 1),
      one_part ((hi -ℤ lo) +ℤ pos 1),
      +ℤ_parts lo (pos count),
    )
