-- ===== src/AssocList.antt =====
-- `HashMap` and `DashMap` as association lists. Their order is unspecified, so no result that the
-- model states rests on it.
pub mod Laws
use stacks_dex_pool.Prelude.{Bool, Option, none, some, List, [], ◌∷◌, if◌then◌else◌}

module _ {ℓ κ} {K : Type ℓ} {V : Type κ} (eq : K → K → Bool) where
  abbrev pub assoc_get : K → List (K × V) → Option V
  assoc_get k [] = none
  assoc_get k ((j, v) ∷ m) = let rest = assoc_get k m in if eq k j then some v else rest

  -- An old value is replaced.
  abbrev pub assoc_insert : K → V → List (K × V) → List (K × V)
  assoc_insert k v [] = (k, v) ∷ []
  assoc_insert k v ((j, w) ∷ m) =
      let rest = assoc_insert k v m in if eq k j then (k, v) ∷ m else (j, w) ∷ rest

  abbrev pub assoc_remove : K → List (K × V) → List (K × V)
  assoc_remove k [] = []
  assoc_remove k ((j, w) ∷ m) =
      let rest = assoc_remove k m in if eq k j then rest else (j, w) ∷ rest
