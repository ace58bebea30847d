-- ===== src/BTreeMap/Laws.antt =====
-- The order of the entries, and what an insertion changes.
use Prim.Native.Nat.Ordering.{lt, gt}
use stacks_dex_pool.Prelude.{◌≡◌, refl, ◌≢◌, none, some, [], ◌∷◌, arith}
use stacks_dex_pool.Prelude.Int.{ℤ, compare_ℤ, eq_of_parts, ◌<ℤ◌, ◌≤ℤ◌}
use stacks_dex_pool.BTreeMap.{BTreeMap, get, insert}

module _ {V : Type 0} where
  -- Every key lies above `k`.
  abbrev pub Above : ℤ → BTreeMap V → Type 0
  Above k [] = Unit
  Above k ((j, _) ∷ m) = (k <ℤ j) × Above k m

  abbrev pub IsSorted : BTreeMap V → Type 0
  IsSorted [] = Unit
  IsSorted ((k, _) ∷ m) = Above k m × IsSorted m

  pub Above-trans : (i k : ℤ) (m : BTreeMap V) → i ≤ℤ k → Above k m → Above i m
  Above-trans i k [] h a = tt
  Above-trans i k (e ∷ m) h a = (omega (arith, a.0), Above-trans i k m h a.1)

  pub get-Above : (i k : ℤ) (m : BTreeMap V) → i ≤ℤ k → Above k m → get i m ≡ none
  unfolding get
  get-Above i k [] h a = refl
  get-Above i k ((j, v) ∷ m) h a = ground arith

  insert-Above : (i k : ℤ) (v : V) (m : BTreeMap V) → i <ℤ k → Above i m → Above i (insert k v m)
  unfolding insert
  insert-Above i k v [] h a = (h, tt)
  insert-Above i k v ((j, w) ∷ m) h a = ground (arith, insert-Above i k v m h a.1)

  pub insert-IsSorted : (k : ℤ) (v : V) (m : BTreeMap V) → IsSorted m → IsSorted (insert k v m)
  unfolding insert
  insert-IsSorted k v [] s = (tt, tt)
  insert-IsSorted k v ((j, w) ∷ m) s =
      ground
        (arith, insert-IsSorted k v m s.1, insert-Above j k v m, Above-trans k j m, eq_of_parts k j)

  pub get-insert_self : (k : ℤ) (v : V) (m : BTreeMap V) → get k (insert k v m) ≡ some v
  unfolding get insert
  get-insert_self k v [] = ground arith
  get-insert_self k v ((j, w) ∷ m) = ground (arith, get-insert_self k v m)

  pub get-insert_ne :
      (i k : ℤ) (v : V) (m : BTreeMap V) → IsSorted m → i ≢ k → get i (insert k v m) ≡ get i m
  unfolding get insert
  get-insert_ne i k v [] s h = ground (arith, eq_of_parts i k)
  get-insert_ne i k v ((j, w) ∷ m) s h =
      ground (arith, get-insert_ne i k v m s.1 h, eq_of_parts i k, eq_of_parts k j, get-Above i j m)

  -- The last of two insertions at one key counts.
  pub insert-insert : (k : ℤ) (v w : V) (m : BTreeMap V) → insert k w (insert k v m) ≡ insert k w m
  unfolding insert
  insert-insert k v w [] = ground arith
  insert-insert k v w ((j, u) ∷ m) = ground (arith, insert-insert k v w m)

  -- The three cases of a lookup.
  pub get_before :
      (i k : ℤ) (v : V) (m : BTreeMap V) → compare_ℤ i k ≡ lt → get i ((k, v) ∷ m) ≡ none
  unfolding get
  get_before i k v m h = ground arith

  pub get_here : (k : ℤ) (v : V) (m : BTreeMap V) → get k ((k, v) ∷ m) ≡ some v
  unfolding get
  get_here k v m = ground arith

  pub get_after :
      (i k : ℤ) (v : V) (m : BTreeMap V) → compare_ℤ i k ≡ gt → get i ((k, v) ∷ m) ≡ get i m
  unfolding get
  get_after i k v m h = ground arith
