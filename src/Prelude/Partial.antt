-- ===== src/Prelude/Partial.antt =====
-- Chains of `Option` results, and `let … else { return }` on a condition.
use mathlib.Core.Bool.{Bool, true, false}
use mathlib.Core.Option.{Option, none, some}

infixl 5 ◌>>=◌
abbrev pub ◌>>=◌ : {A B : Type 0} → Option A → (A → Option B) → Option B
none >>= f = none
some a >>= f = f a

abbrev pub guard : Bool → Option {0} Unit
guard true = some tt
guard false = none

abbrev pub is_some : {A : Type 0} → Option A → Bool
is_some none = false
is_some (some _) = true
