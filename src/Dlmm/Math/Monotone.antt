-- ===== src/Dlmm/Math/Monotone.antt =====
-- A larger input never buys less.
use stacks_dex_pool.Prelude.{ℕ, zero, suc, ◌+◌, ◌-◌, ◌*◌, ◌/◌, ◌≤◌, ◌<◌, min, ◌≡◌, arith}
use native.Mathlib.Nat.{mul-le-mul_left, mul-le-mul_right}
use stacks_dex_pool.Prelude.Division.{div_mono}
use stacks_dex_pool.Prelude.Word.{saturating_mul}
use stacks_dex_pool.Dlmm.Constants.{price_scale_bps, fee_scale_bps}
use stacks_dex_pool.Prelude.Outcome.{returned, Profile}
use stacks_dex_pool.Dlmm.Math.{
  SingleBinSwap, no_swap, single_bin_swap_x_for_y, single_bin_swap_y_for_x,
}
use stacks_dex_pool.Dlmm.Math.Closed.{
  swap_result, fee_of, gross, single_bin_swap_x_for_y-eq, single_bin_swap_y_for_x-eq,
  single_bin_swap_x_for_y-zero, single_bin_swap_y_for_x-zero,
}

saturating_mul_mono : (a b c : ℕ) → a ≤ b → saturating_mul a c ≤ saturating_mul b c
unfolding saturating_mul
saturating_mul_mono a b c h = omega (arith, mul-le-mul_right c h)

-- The fee on `k` more input is at most `k`.
fee_of-add : (u k f : ℕ) → f < fee_scale_bps → fee_of (u + k) f ≤ fee_of u f + k
unfolding fee_of saturating_mul
fee_of-add u k f h =
    let step : k * f ≤ k * fee_scale_bps = mul-le-mul_left k (omega arith) in omega arith

net_mono : (u v f : ℕ) → f < fee_scale_bps → u ≤ v → u - fee_of u f ≤ v - fee_of v f
net_mono u v f h le =
    let e : u + (v - u) ≡ v = omega arith in
    let grown = fee_of-add u (v - u) f h in omega (arith, rw e at grown)

rate_mono :
    (a b num den inventory : ℕ)
    → 0 < den
    → a ≤ b
    → min (saturating_mul a num / den) inventory ≤ min (saturating_mul b num / den) inventory
rate_mono a b num den inventory h le = omega (
  arith,
  div_mono (saturating_mul a num) (saturating_mul b num) den h (saturating_mul_mono a b num le),
)

-- Two swaps at one rate, the second of a larger input.
abbrev pub IsOrdered : SingleBinSwap → SingleBinSwap → Type 0
IsOrdered r s = (r.used ≤ s.used) × (r.dx_after_fee ≤ s.dx_after_fee) × (r.dy ≤ s.dy)

swap_result-IsOrdered :
    (a b limit total_fee inventory num den : ℕ)
    → total_fee < fee_scale_bps
    → 0 < den
    → a ≤ b
    → let output = λ (net : ℕ). min (saturating_mul net num / den) inventory in
      IsOrdered (swap_result a limit total_fee output) (swap_result b limit total_fee output)
swap_result-IsOrdered a b limit total_fee inventory num den fees rate le =
    let u = min a (gross limit total_fee) in
    let v = min b (gross limit total_fee) in
    let used : u ≤ v = omega arith in
    let net = net_mono u v total_fee fees used in
    (
      used,
      net,
      rate_mono (u - fee_of u total_fee) (v - fee_of v total_fee) num den inventory rate net,
    )

-- With fees below 10000 bps, of two x-to-y swaps of one bin the one with the larger input returns
-- at least as much y, and uses at least as much.
pub single_bin_swap_x_for_y_mono :
    (p : Profile) (a b x_balance y_balance price protocol_fee provider_fee variable_fee : ℕ)
    → protocol_fee + provider_fee + variable_fee < fee_scale_bps
    → a ≤ b
    → (r s : SingleBinSwap) × (single_bin_swap_x_for_y p a x_balance y_balance price protocol_fee
          provider_fee variable_fee
        ≡ returned r)
      × (single_bin_swap_x_for_y p b x_balance y_balance price protocol_fee provider_fee
            variable_fee
          ≡ returned s)
      × IsOrdered r s
single_bin_swap_x_for_y_mono p a b x y zero f g h fees le = (
  no_swap,
  no_swap,
  single_bin_swap_x_for_y-zero p a x y f g h,
  single_bin_swap_x_for_y-zero p b x y f g h,
  omega arith,
)
single_bin_swap_x_for_y_mono p a b x y (suc price) f g h fees le = (
  _,
  _,
  single_bin_swap_x_for_y-eq p a x y (suc price) f g h (omega arith) fees,
  single_bin_swap_x_for_y-eq p b x y (suc price) f g h (omega arith) fees,
  swap_result-IsOrdered a b _ (f + g + h) y (suc price) price_scale_bps fees (omega arith) le,
)

-- With fees below 10000 bps, of two y-to-x swaps of one bin the one with the larger input returns
-- at least as much x, and uses at least as much.
single_bin_swap_y_for_x_mono :
    (p : Profile) (a b x_balance y_balance price protocol_fee provider_fee variable_fee : ℕ)
    → protocol_fee + provider_fee + variable_fee < fee_scale_bps
    → a ≤ b
    → (r s : SingleBinSwap) × (single_bin_swap_y_for_x p a x_balance y_balance price protocol_fee
          provider_fee variable_fee
        ≡ returned r)
      × (single_bin_swap_y_for_x p b x_balance y_balance price protocol_fee provider_fee
            variable_fee
          ≡ returned s)
      × IsOrdered r s
single_bin_swap_y_for_x_mono p a b x y zero f g h fees le = (
  no_swap,
  no_swap,
  single_bin_swap_y_for_x-zero p a x y f g h,
  single_bin_swap_y_for_x-zero p b x y f g h,
  omega arith,
)
single_bin_swap_y_for_x_mono p a b x y (suc price) f g h fees le = (
  _,
  _,
  single_bin_swap_y_for_x-eq p a x y (suc price) f g h (omega arith) fees,
  single_bin_swap_y_for_x-eq p b x y (suc price) f g h (omega arith) fees,
  swap_result-IsOrdered a b _ (f + g + h) x price_scale_bps (suc price) fees (omega arith) le,
)
