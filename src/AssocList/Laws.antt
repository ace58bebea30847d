-- ===== src/AssocList/Laws.antt =====
-- Reading an association list after a write.
use stacks_dex_pool.Prelude.{Bool, true, none, some, List, [], ◌∷◌, ◌≡◌, ◌≢◌, refl, arith}
use stacks_dex_pool.AssocList.{assoc_get, assoc_insert, assoc_remove}

module _ {K : Type 0} {V : Type 0} (eq : K → K → Bool) (eq_refl : (k : K) → eq k k ≡ true)
    (eq_of : (j k : K) → eq j k ≡ true → j ≡ k) where
  pub get-insert_self :
      (k : K) (v : V) (m : List (K × V)) → assoc_get eq k (assoc_insert eq k v m) ≡ some v
  get-insert_self k v [] = rw (eq_refl k)
  get-insert_self k v ((j, w) ∷ m) = ground (arith, eq_refl k, get-insert_self k v m)

  pub get-insert_ne :
      (i k : K) (v : V) (m : List (K × V))
      → i ≢ k
      → assoc_get eq i (assoc_insert eq k v m) ≡ assoc_get eq i m
  get-insert_ne i k v [] ne = ground (arith, eq_of i k)
  get-insert_ne i k v ((j, w) ∷ m) ne =
      ground (arith, eq_of i k, eq_of k j, get-insert_ne i k v m ne)

  pub get-remove_self : (k : K) (m : List (K × V)) → assoc_get eq k (assoc_remove eq k m) ≡ none
  get-remove_self k [] = refl
  get-remove_self k ((j, w) ∷ m) = ground (arith, get-remove_self k m)

  pub get-remove_ne :
      (i k : K) (m : List (K × V)) → i ≢ k → assoc_get eq i (assoc_remove eq k m) ≡ assoc_get eq i m
  get-remove_ne i k [] ne = refl
  get-remove_ne i k ((j, w) ∷ m) ne = ground (arith, eq_of i j, eq_of k j, get-remove_ne i k m ne)
