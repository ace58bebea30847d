-- ===== src/Dlmm/Quote/Ranks.antt =====
-- How far a walk still comes, and how the list of bins goes with the map under the gaps.
use stacks_dex_pool.Prelude.{
  ℕ, suc, ◌-◌, ◌≤◌, ◌<◌, Option, none, some, true, false, [], ◌∷◌, ◌==◌, ◌≡◌, refl, ap, ◌∙◌, ◌≢◌,
  arith, inl, inr, if◌then◌else◌, le-cases,
}
use stacks_dex_pool.Prelude.Int.{ℤ}
use stacks_dex_pool.BTreeMap.{BTreeMap, get}
use stacks_dex_pool.Dlmm.Pool.{BinState, DlmmPool}
use stacks_dex_pool.Dlmm.Quote.{Direction}

-- A position's number of rounds left, and how it goes with the direction.
pub record IsRanked (pool : DlmmPool) (d : Direction) (room : ℤ → ℕ) : Type 0 where
  pub step : (b : ℤ) → d.in_range b ≡ true → room b ≡ suc (room (d.next b))
  pub stop : (b : ℤ) → d.in_range b ≡ false → room b ≡ 0
  pub inj : (a b : ℤ) → 0 < room a → room a ≡ room b → a ≡ b
  pub window :
      (b i : ℤ) → d.outside_window b ≡ true → 0 < room i → room i ≤ room b → get i pool.bins ≡ none

module _ (pool : DlmmPool) (d : Direction) (room : ℤ → ℕ) where
  -- The keys come in walking order, from a position with `n` rounds left.
  abbrev pub IsOrdered : BTreeMap BinState → ℕ → Type 0
  IsOrdered [] n = Unit
  IsOrdered ((k, _) ∷ bins) n = (0 < room k) × (room k ≤ n) × IsOrdered bins (room k - 1)

  -- The entry at a rank.
  abbrev pub find : ℕ → BTreeMap BinState → Option BinState
  find n [] = none
  find n ((k, b) ∷ bins) = let rest = find n bins in if room k == n then some b else rest

  -- The list holds what the map holds, as far as the walk still comes.
  abbrev pub Agrees : BTreeMap BinState → ℕ → Type 0
  Agrees bins n = (i : ℤ) → 0 < room i → room i ≤ n → get i pool.bins ≡ find (room i) bins

  pub find-IsOrdered :
      (n m : ℕ) (bins : BTreeMap BinState) → m < n → IsOrdered bins m → find n bins ≡ none
  find-IsOrdered n m [] h o = refl
  find-IsOrdered n m ((k, b) ∷ bins) h o =
      ground (arith, find-IsOrdered n (room k - 1) bins (omega arith) o.2)

  pub IsOrdered-weaken :
      (n m : ℕ) (bins : BTreeMap BinState) → m ≤ n → IsOrdered bins m → IsOrdered bins n
  IsOrdered-weaken n m [] h o = tt
  IsOrdered-weaken n m ((k, b) ∷ bins) h o = (o.0, omega arith, o.2)

  pub find_head :
      (n : ℕ) (k : ℤ) (b : BinState) (bins : BTreeMap BinState)
      → room k ≡ n
      → find n ((k, b) ∷ bins) ≡ some b
  find_head n k b bins e = ground arith

  pub find_tail :
      (n : ℕ) (k : ℤ) (b : BinState) (bins : BTreeMap BinState)
      → room k ≢ n
      → find n ((k, b) ∷ bins) ≡ find n bins
  find_tail n k b bins e = ground arith

  -- The first of the list is in the map.
  pub get_head :
      (n : ℕ) (k : ℤ) (b : BinState) (bins : BTreeMap BinState)
      → IsOrdered ((k, b) ∷ bins) n
      → Agrees ((k, b) ∷ bins) n
      → get k pool.bins ≡ some b
  get_head n k b bins o a = a k o.0 o.1 ∙ find_head (room k) k b bins refl

  -- The rest of the list agrees with the map past the first.
  pub Agrees-tail :
      (n : ℕ) (k : ℤ) (b : BinState) (bins : BTreeMap BinState)
      → room k ≡ suc n
      → Agrees ((k, b) ∷ bins) (suc n)
      → Agrees bins n
  Agrees-tail n k b bins e a i p h = a i p (omega arith) ∙ find_tail (room i) k b bins (omega arith)

module _ (pool : DlmmPool) (d : Direction) (room : ℤ → ℕ) (ranked : IsRanked pool d room) where
  -- A missing bin is not in the list.
  pub gap :
      (bins : BTreeMap BinState) (b : ℤ) (n : ℕ)
      → room b ≡ suc n
      → get b pool.bins ≡ none
      → IsOrdered pool d room bins (suc n)
      → Agrees pool d room bins (suc n)
      → IsOrdered pool d room bins n
  gap [] b n e miss o a = tt
  gap ((k, v) ∷ bins) b n e miss o a = elim (le-cases (room k) n) [
    | inl le ↦ (o.0, le, o.2)
    | inr lt ↦
        let same : k ≡ b = ranked.inj k b o.0 (omega arith) in
        cc (get_head pool d room (suc n) k v bins o a, ap (λ (t : ℤ). get t pool.bins) same)
  ]

  -- A bin that is present is the head of the list.
  pub hit :
      (bins : BTreeMap BinState) (b : ℤ) (v : BinState) (n : ℕ)
      → room b ≡ suc n
      → get b pool.bins ≡ some v
      → IsOrdered pool d room bins (suc n)
      → Agrees pool d room bins (suc n)
      → (rest : BTreeMap BinState) × (bins ≡ (b, v) ∷ rest)
        × IsOrdered pool d room rest n
        × Agrees pool d room rest n
  hit [] b v n e found o a = cc (a b (omega arith) (omega arith))
  hit ((k, w) ∷ bins) b v n e found o a = elim (le-cases (room k) n) [
    | inr lt ↦
        let same : k ≡ b = ranked.inj k b o.0 (omega arith) in
        let value : w ≡ v =
          cc (get_head pool d room (suc n) k w bins o a, ap (λ (t : ℤ). get t pool.bins) same) in
        (
          bins,
          cc,
          IsOrdered-weaken pool d room n (room k - 1) bins (omega arith) o.2,
          Agrees-tail pool d room n k w bins (omega arith) a,
        )
    | inl le ↦ cc (
      a b (omega arith) (omega arith),
      find-IsOrdered pool d room (room b) n ((k, w) ∷ bins) (omega arith) (o.0, le, o.2),
    )
  ]
