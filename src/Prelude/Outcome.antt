-- ===== src/Prelude/Outcome.antt =====
-- What a run of Rust code ends in. Plain `+` and `-` on machine words panic on overflow when the
-- crate is built with overflow checks, and wrap when it is not; division by zero always panics.
use stacks_dex_pool.Prelude.Tests.{ltb, leb, ◌==◌, if◌then◌else◌}
use Prim.Native.Nat.{ℕ, ◌+◌, ◌-◌, ◌*◌, ◌/◌, ◌%◌, ◌≤◌, ◌<◌}
use stacks_dex_pool.Prelude.Division.{div_ceil}
use mathlib.Core.Path.{◌≡◌, refl}
use mathlib.Core.Logic.{◌⊎◌, inl, inr}
use mathlib.Core.Bool.{Bool, true, false}
use native.Mathlib.Omega.{arith}

-- `out_of_fuel` has no counterpart in the program: theorems show that it does not occur.
pub data Outcome {ℓ} (A : Type ℓ) : Type ℓ where
  returned : A → Outcome A
  panicked out_of_fuel : Outcome A

infixl 5 ◌>>=◌
abbrev pub ◌>>=◌ {ℓ κ} : {A : Type ℓ} {B : Type κ} → Outcome A → (A → Outcome B) → Outcome B
returned a >>= f = f a
panicked >>= f = panicked
out_of_fuel >>= f = out_of_fuel

-- Inversion of a run that returns.
pub >>=-eq-returned :
    {A B : Type 0} (m : Outcome A) (f : A → Outcome B) (b : B)
    → (m >>= f) ≡ returned b
    → (a : A) × (m ≡ returned a) × (f a ≡ returned b)
>>=-eq-returned (returned a) f b h = (a, refl, h)
>>=-eq-returned panicked f b h = cc
>>=-eq-returned out_of_fuel f b h = cc

-- Whether the build checks for overflow (the default of `cargo build`, not of `--release`).
pub data Profile : Type 0 where
  checked wrapping : Profile

-- An operation whose exact result is `exact` if `fits`, and `wrapped` modulo the word's size if not.
abbrev pub on_overflow : Profile → Bool → ℕ → ℕ → Outcome ℕ
on_overflow _ true exact wrapped = returned exact
on_overflow checked false exact wrapped = panicked
on_overflow wrapping false exact wrapped = returned wrapped

-- `a + b` and `a - b` on a word of `size` values.
unfoldable pub add_word : Profile → ℕ → ℕ → ℕ → Outcome ℕ
add_word p size a b = on_overflow p (ltb (a + b) size) (a + b) ((a + b) % size)

unfoldable pub sub_word : Profile → ℕ → ℕ → ℕ → Outcome ℕ
sub_word p size a b = on_overflow p (leb b a) (a - b) ((a + size - b) % size)

unfoldable pub mul_word : Profile → ℕ → ℕ → ℕ → Outcome ℕ
mul_word p size a b = on_overflow p (ltb (a * b) size) (a * b) ((a * b) % size)

-- `a / b`.
unfoldable pub div_word : ℕ → ℕ → Outcome ℕ
div_word a b = if b == 0 then panicked else returned (a / b)

pub add_word-eq :
    (p : Profile) (size a b : ℕ) → a + b < size → add_word p size a b ≡ returned (a + b)
unfolding add_word
add_word-eq p size a b h = ground arith

pub sub_word-eq : (p : Profile) (size a b : ℕ) → b ≤ a → sub_word p size a b ≡ returned (a - b)
unfolding sub_word
sub_word-eq p size a b h = ground arith

pub mul_word-eq :
    (p : Profile) (size a b : ℕ) → a * b < size → mul_word p size a b ≡ returned (a * b)
unfolding mul_word
mul_word-eq p size a b h = ground arith

-- `a.div_ceil(b)`.
unfoldable pub div_ceil_word : ℕ → ℕ → Outcome ℕ
div_ceil_word a b = if b == 0 then panicked else returned (div_ceil a b)

pub div_ceil_word-eq : (a b : ℕ) → 0 < b → div_ceil_word a b ≡ returned (div_ceil a b)
unfolding div_ceil_word
div_ceil_word-eq a b h = ground arith

pub div_word-eq : (a b : ℕ) → 0 < b → div_word a b ≡ returned (a / b)
unfolding div_word
div_word-eq a b h = ground arith

-- `anyhow::Result`, over the errors of one component.
pub data Result {ℓ κ} (E : Type ℓ) (A : Type κ) : Type (ℓ ⊔ κ) where
  ok : A → Result E A
  err : E → Result E A

pub Result-cases {ℓ κ} :
    {E : Type ℓ} {A : Type κ} (r : Result E A) → ((a : A) × (r ≡ ok a)) ⊎ ((e : E) × (r ≡ err e))
Result-cases (ok a) = inl (a, refl)
Result-cases (err e) = inr (e, refl)
