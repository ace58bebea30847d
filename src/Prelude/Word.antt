-- ===== src/Prelude/Word.antt =====
-- Machine words: Rust's `u8`, `u32`, `u64` and `u128` as native numbers with their ranges, and the
-- saturating and checked operations of the standard library.
use stacks_dex_pool.Prelude.Tests.{leb, if◌then◌else◌}
use stacks_dex_pool.Prelude.Int.{ℤ, pos}
use Prim.Native.Nat.{ℕ, ◌+◌, ◌-◌, ◌*◌, ◌^◌, ◌≤◌, min}
use mathlib.Core.Path.{◌≡◌}
use mathlib.Core.Option.{Option, none, some}
use native.Mathlib.Omega.{arith}

-- `u128::MAX`, which stays shut in proofs.
unfoldable pub u128_max : ℕ
u128_max = 2 ^ 128 - 1

abbrev pub u128_size : ℕ
u128_size = 2 ^ 128

-- `i32::MAX`.
abbrev pub i32_max : ℤ
i32_max = pos (2 ^ 31 - 1)

abbrev pub u32_size : ℕ
u32_size = 2 ^ 32

-- `u128::saturating_mul`, `saturating_add` and `saturating_sub`.
unfoldable pub saturating_mul : ℕ → ℕ → ℕ
saturating_mul a b = min (a * b) u128_max

unfoldable pub saturating_add : ℕ → ℕ → ℕ
saturating_add a b = min (a + b) u128_max

abbrev pub saturating_sub : ℕ → ℕ → ℕ
saturating_sub a b = a - b

-- `u128::checked_mul`.
unfoldable pub checked_mul : ℕ → ℕ → Option ℕ
checked_mul a b = if leb (a * b) u128_max then some (a * b) else none

pub saturating_mul-eq : (a b : ℕ) → a * b ≤ u128_max → saturating_mul a b ≡ a * b
unfolding saturating_mul
saturating_mul-eq a b h = omega arith

pub saturating_mul-le : (a b : ℕ) → saturating_mul a b ≤ a * b
unfolding saturating_mul
saturating_mul-le a b = omega arith

pub saturating_mul-le_max : (a b : ℕ) → saturating_mul a b ≤ u128_max
unfolding saturating_mul
saturating_mul-le_max a b = omega arith

pub saturating_add-eq : (a b : ℕ) → a + b ≤ u128_max → saturating_add a b ≡ a + b
unfolding saturating_add
saturating_add-eq a b h = omega arith

pub saturating_add-le : (a b : ℕ) → saturating_add a b ≤ a + b
unfolding saturating_add
saturating_add-le a b = omega arith

pub saturating_add-le_max : (a b : ℕ) → saturating_add a b ≤ u128_max
unfolding saturating_add
saturating_add-le_max a b = omega arith
