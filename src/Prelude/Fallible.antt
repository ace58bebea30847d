-- ===== src/Prelude/Fallible.antt =====
-- Runs that end in an `anyhow::Result`, or in a panic.
use mathlib.Core.Path.{◌≡◌, refl}
use mathlib.Core.Bool.{Bool, true, false}
use mathlib.Core.Option.{Option, none, some}
use mathlib.Core.List.{List, [], ◌∷◌}
use stacks_dex_pool.Prelude.Outcome.{Outcome, returned, panicked, out_of_fuel, Result, ok, err}

abbrev pub Fallible : Type 0 → Type 0 → Type 0
Fallible E A = Outcome (Result E A)

abbrev pub success : {E A : Type 0} → A → Fallible E A
success a = returned (ok a)

abbrev pub failure : {E A : Type 0} → E → Fallible E A
failure e = returned (err e)

-- `?`.
infixl 5 ◌>>=◌
abbrev pub ◌>>=◌ : {E A B : Type 0} → Fallible E A → (A → Fallible E B) → Fallible E B
returned (ok a) >>= f = f a
returned (err e) >>= f = returned (err e)
panicked >>= f = panicked
out_of_fuel >>= f = out_of_fuel

-- Inversion of a chain that succeeds.
pub >>=-eq-success :
    {E A B : Type 0} (m : Fallible E A) (f : A → Fallible E B) (b : B)
    → (m >>= f) ≡ success b
    → (a : A) × (m ≡ success a) × (f a ≡ success b)
>>=-eq-success (returned (ok a)) f b h = (a, refl, h)
>>=-eq-success (returned (err e)) f b h = cc
>>=-eq-success panicked f b h = cc
>>=-eq-success out_of_fuel f b h = cc

-- `ok_or_else`, and an early `return Err` unless a test holds.
abbrev pub or_else : {E A : Type 0} → E → Option A → Fallible E A
or_else e none = failure e
or_else e (some a) = success a

abbrev pub ensure : {E : Type 0} → Bool → E → Fallible E (Unit {0})
ensure true e = success tt
ensure false e = failure e

-- `map_err`.
abbrev pub map_err : {E F A : Type 0} → (E → F) → Result E A → Fallible F A
map_err f (ok a) = success a
map_err f (err e) = failure (f e)

-- A loop that collects what each item gives, and ends at the first failure.
unfoldable pub collect : {E A B : Type 0} → (A → Fallible E B) → List A → Fallible E (List B)
collect f [] = success []
collect f (x ∷ xs) = do y ← f x; ys ← collect f xs; success (y ∷ ys)
