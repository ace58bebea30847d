-- ===== src/Prelude/Division.antt =====
-- Floor and ceiling division by a variable.
use Prim.Native.Nat.{ℕ, zero, suc, ◌+◌, ◌*◌, ◌/◌, ◌%◌, ◌≤◌, ◌<◌}
use stacks_dex_pool.Prelude.Tests.{Bool-cases, ltb→lt, ltb→ge, ltb, if◌then◌else◌}
use mathlib.Core.Logic.{inl, inr}
use native.Mathlib.Nat.{
  le_trans, mod-lt, div-mul-le_self, lt-div-mul-add, le-div_iff_mul-le, div-add-mod',
  lt_of_mul-lt-mul_left,
}
use native.Mathlib.Omega.{arith}

-- `u128::div_ceil`.
unfoldable pub div_ceil : ℕ → ℕ → ℕ
div_ceil a b = if ltb 0 (a % b) then a / b + 1 else a / b

pub div_mono : (a b d : ℕ) → 0 < d → a ≤ b → a / d ≤ b / d
div_mono a b d p h = (le-div_iff_mul-le p).1 (le_trans (div-mul-le_self a d) h)

-- The two sides of a floor: `a / b * b ≤ a < (a / b + 1) * b`.
pub lt-div-succ_mul : (a b : ℕ) → 0 < b → a < (a / b + 1) * b
lt-div-succ_mul a b h = omega (arith, lt-div-mul-add {a = a} {b = b} h)

pub div_ceil-mul_ge : (a b : ℕ) → 0 < b → a ≤ div_ceil a b * b
unfolding div_ceil
div_ceil-mul_ge a b h = elim (Bool-cases (ltb 0 (a % b))) [
  | inl e ↦ rw e (omega (arith, div-add-mod' a b, mod-lt a h))
  | inr e ↦ rw e (omega (arith, div-add-mod' a b, ltb→ge 0 (a % b) e))
]

pub div_ceil-mul_lt : (a b : ℕ) → 0 < b → div_ceil a b * b < a + b
unfolding div_ceil
div_ceil-mul_lt a b h = elim (Bool-cases (ltb 0 (a % b))) [
  | inl e ↦ rw e (omega (arith, div-add-mod' a b, ltb→lt 0 (a % b) e))
  | inr e ↦ rw e (omega (arith, div-add-mod' a b))
]

-- The least number whose multiple reaches `a`.
pub div_ceil-le : (a b n : ℕ) → 0 < b → a ≤ n * b → div_ceil a b ≤ n
div_ceil-le a b n p h =
    let below : b * div_ceil a b < b * (n + 1) = omega (arith, div_ceil-mul_lt a b p) in
    omega (arith, lt_of_mul-lt-mul_left b below)

pub div_ceil_mono : (a b d : ℕ) → 0 < d → a ≤ b → div_ceil a d ≤ div_ceil b d
div_ceil_mono a b d p h = div_ceil-le a d (div_ceil b d) p (le_trans h (div_ceil-mul_ge b d p))

pub div_ceil-pos : (a b : ℕ) → 0 < a → 0 < b → 0 < div_ceil a b
div_ceil-pos a b pa pb = go (div_ceil a b) (div_ceil-mul_ge a b pb)
  where
    go : (q : ℕ) → a ≤ q * b → 0 < q
    go zero h = absurd (omega arith)
    go (suc q) h = omega arith
