-- ===== src/BTreeMap.antt =====
-- The standard library's ordered map, with `i32` keys: the entries in ascending order of their keys.
pub mod Laws
use Prim.Native.Nat.Ordering.{lt, eq, gt}
use stacks_dex_pool.Prelude.{ℕ, Option, none, some, List, [], ◌∷◌}
use stacks_dex_pool.Prelude.Int.{ℤ, compare_ℤ}

abbrev pub BTreeMap {ℓ} : Type ℓ → Type ℓ
BTreeMap V = List (ℤ × V)

module _ {ℓ} {V : Type ℓ} where
  unfoldable pub get : ℤ → BTreeMap V → Option V
  get k [] = none
  get k ((j, v) ∷ m) = elim (compare_ℤ k j) [ lt ↦ none | eq ↦ some v | gt ↦ get k m ]

  -- A key that is present gets the new value.
  unfoldable pub insert : ℤ → V → BTreeMap V → BTreeMap V
  insert k v [] = (k, v) ∷ []
  insert k v ((j, w) ∷ m) = elim (compare_ℤ k j) [
    | lt ↦ (k, v) ∷ (j, w) ∷ m
    | eq ↦ (k, v) ∷ m
    | gt ↦ (j, w) ∷ insert k v m
  ]

  -- `keys().next()` and `keys().next_back()`.
  abbrev pub first_key : BTreeMap V → Option ℤ
  first_key [] = none
  first_key ((k, _) ∷ _) = some k

  abbrev pub last_key : BTreeMap V → Option ℤ
  last_key [] = none
  last_key ((k, _) ∷ []) = some k
  last_key (_ ∷ e ∷ m) = last_key (e ∷ m)
