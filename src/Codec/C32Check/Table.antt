-- ===== src/Codec/C32Check/Table.antt =====
-- Tables of tests, which are evaluated.
use native.Mathlib.Nat.{zero-add, add-zero}
use mathlib.Core.Logic.{inl, inr}
use stacks_dex_pool.Prelude.{
  ℕ, zero, suc, ◌+◌, ◌<◌, ◌≡◌, subst, Bool, true, false, if◌then◌else◌, Bool-cases, arith,
}

-- A test at each of `count` numbers from `start` on.
unfoldable pub each_from : (ℕ → Bool) → (start count : ℕ) → Bool
each_from test start zero = true
each_from test start (suc count) =
    let others = each_from test (start + 1) count in if test start then others else false

each_from-passed :
    (test : ℕ → Bool) (count start k : ℕ)
    → each_from test start count ≡ true
    → k < count
    → test (start + k) ≡ true
unfolding each_from
each_from-passed test zero start k all inside = absurd (omega arith)
each_from-passed test (suc count) start zero all inside = elim (Bool-cases (test start)) [
  | inl here ↦ rw (add-zero start, here)
  | inr failed ↦ cc (rw failed at all)
]
each_from-passed test (suc count) start (suc k) all inside = elim (Bool-cases (test start)) [
  | inl here ↦
      let shifted : start + suc k ≡ start + 1 + k = omega arith in
      rw shifted (each_from-passed test count (start + 1) k (rw here at all) (omega arith))
  | inr failed ↦ cc (rw failed at all)
]

-- What a table of tests shows of each number below its size.
pub table_entry :
    (test : ℕ → Bool) (size k : ℕ) → each_from test 0 size ≡ true → k < size → test k ≡ true
table_entry test size k all inside =
    subst (λ n. test n ≡ true) (zero-add k) (each_from-passed test size 0 k all inside)
