-- ===== src/Stableswap/Curve/Scaling.antt =====
-- Scaling up and down again gives the amounts back.
use stacks_dex_pool.Prelude.{
  ℕ, ◌-◌, ◌*◌, ◌^◌, ◌≤◌, ◌<◌, ◌≡◌, refl, arith, inl, inr, Bool-cases, ltb, ◌==◌, zero, suc,
}
use native.Mathlib.Nat.{mul-div_cancel, pow-succ'}
use stacks_dex_pool.Prelude.Word.{u128_max, saturating_mul-eq}
use stacks_dex_pool.Stableswap.Curve.{saturating_pow_ten, scale_up, scale_down}

pow_ten-pos : (n : ℕ) → 0 < 10 ^ n
pow_ten-pos zero = omega arith
pow_ten-pos (suc n) = rw (pow-succ' 10 n) (omega (arith, pow_ten-pos n))

scale-pos : (n : ℕ) → 0 < saturating_pow_ten n
unfolding saturating_pow_ten u128_max
scale-pos n = omega (arith, pow_ten-pos n)

-- If neither scaled amount exceeds a `u128`, `scale_down` undoes `scale_up`, whatever the decimals.
pub scale_down-scale_up :
    (x y x_dp y_dp : ℕ)
    → x * saturating_pow_ten (y_dp - x_dp) ≤ u128_max
    → y * saturating_pow_ten (x_dp - y_dp) ≤ u128_max
    → (let (x', y') = scale_up x y x_dp y_dp in scale_down x' y' x_dp y_dp) ≡ (x, y)
unfolding scale_up scale_down
scale_down-scale_up x y x_dp y_dp fits_x fits_y = elim (Bool-cases (x_dp == y_dp)) [
  | inl same ↦ rw same refl
  | inr other ↦ elim (Bool-cases (ltb y_dp x_dp)) [
    | inl above ↦
        rw
          (
            other,
            above,
            saturating_mul-eq y (saturating_pow_ten (x_dp - y_dp)) fits_y,
            mul-div_cancel y (scale-pos (x_dp - y_dp)),
          )
          refl
    | inr below ↦
        rw
          (
            other,
            below,
            saturating_mul-eq x (saturating_pow_ten (y_dp - x_dp)) fits_x,
            mul-div_cancel x (scale-pos (y_dp - x_dp)),
          )
          refl
  ]
]
