-- ===== src/Prelude/Text.antt =====
-- Rust's `String` and `&str` as the bytes of their UTF-8 form.
use Prim.Native.Nat.{ℕ, compare, Ordering}
use Prim.Native.Nat.Ordering.{lt, eq, gt}
use Prim.Native.Char.{code}
use Prim.Native.String.{String}
use mathlib.Core.Path.{◌≡◌, refl}
use mathlib.Core.Logic.{◌≢◌, ◌⊎◌}
use mathlib.Core.Bool.{Bool, true, false, ◌&&◌}
use mathlib.Core.List.{List, [], ◌∷◌}
use native.Mathlib.Omega.{arith}
use stacks_dex_pool.Prelude.Tests.{◌==◌}

abbrev pub Text : Type 0
Text = List ℕ

-- The bytes of a literal of the source, which is ASCII.
unfoldable pub bytes : String → Text
bytes String.[] = []
bytes (String.◌∷◌ c s) = code c ∷ bytes s

unfoldable pub text_eq : Text → Text → Bool
text_eq [] [] = true
text_eq [] (b ∷ t) = false
text_eq (a ∷ s) [] = false
text_eq (a ∷ s) (b ∷ t) = (a == b) && text_eq s t

pub text_eq_refl : (s : Text) → text_eq s s ≡ true
unfolding text_eq
text_eq_refl [] = refl
text_eq_refl (a ∷ s) = ground (arith, text_eq_refl s)

pub eq_of_text_eq : (s t : Text) → text_eq s t ≡ true → s ≡ t
unfolding text_eq
eq_of_text_eq [] [] h = refl
eq_of_text_eq [] (b ∷ t) h = cc
eq_of_text_eq (a ∷ s) [] h = cc
eq_of_text_eq (a ∷ s) (b ∷ t) h = ground (arith, eq_of_text_eq s t)

-- Two texts of which one has a property that the other lacks.
pub text_eq_of_ne : (s t : Text) → s ≢ t → text_eq s t ≡ false
text_eq_of_ne s t h = ground (arith, eq_of_text_eq s t)

pub text_eq_comm_false : (s t : Text) → text_eq s t ≡ false → text_eq t s ≡ false
text_eq_comm_false s t h = ground (arith, eq_of_text_eq t s, text_eq_refl t)

-- The derived order of `str`: byte by byte, a prefix first.
unfoldable pub text_compare : Text → Text → Ordering
text_compare [] [] = eq
text_compare [] (b ∷ t) = lt
text_compare (a ∷ s) [] = gt
text_compare (a ∷ s) (b ∷ t) = elim (compare a b) [ lt ↦ lt | eq ↦ text_compare s t | gt ↦ gt ]

pub text_compare_trans :
    (s t u : Text) → text_compare t s ≡ gt → text_compare u t ≡ gt → text_compare u s ≡ gt
unfolding text_compare
text_compare_trans [] [] u h k = cc
text_compare_trans (a ∷ s) [] u h k = cc
text_compare_trans s (b ∷ t) [] h k = cc
text_compare_trans [] (b ∷ t) (c ∷ u) h k = refl
text_compare_trans (a ∷ s) (b ∷ t) (c ∷ u) h k = ground (arith, text_compare_trans s t u)

pub text_compare_flip : (s t : Text) → text_compare s t ≡ lt → text_compare t s ≡ gt
unfolding text_compare
text_compare_flip [] [] h = cc
text_compare_flip [] (b ∷ t) h = refl
text_compare_flip (a ∷ s) [] h = cc
text_compare_flip (a ∷ s) (b ∷ t) h = ground (arith, text_compare_flip s t)

pub eq_of_text_compare : (s t : Text) → text_compare s t ≡ eq → s ≡ t
unfolding text_compare
eq_of_text_compare [] [] h = refl
eq_of_text_compare [] (b ∷ t) h = cc
eq_of_text_compare (a ∷ s) [] h = cc
eq_of_text_compare (a ∷ s) (b ∷ t) h = ground (arith, eq_of_text_compare s t)

pub text_compare-cases :
    (s t : Text) → (text_compare s t ≡ lt) ⊎ (text_compare s t ≡ eq) ⊎ (text_compare s t ≡ gt)
text_compare-cases s t = ground arith
