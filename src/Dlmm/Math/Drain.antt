-- ===== src/Dlmm/Math/Drain.antt =====
-- A swap that leaves input over has emptied its bin: the limit on the input is exact.
use stacks_dex_pool.Prelude.{
  ℕ, zero, suc, ◌+◌, ◌-◌, ◌*◌, ◌/◌, ◌≤◌, ◌<◌, min, ◌≡◌, refl, ap, ◌⊎◌, inl, inr, arith, ltb, ltb→ge,
  Bool-cases, le-cases,
}
use native.Mathlib.Nat.{mul-le-mul_left, le_of_lt, le-div_iff_mul-le, div-mul-le_self, div-le_self}
use stacks_dex_pool.Prelude.Division.{div_ceil, lt-div-succ_mul, div_ceil-mul_ge, div_ceil-mul_lt}
use stacks_dex_pool.Prelude.Word.{u128_max, saturating_mul, saturating_mul-eq}
use stacks_dex_pool.Prelude.Outcome.{returned, Profile}
use stacks_dex_pool.Dlmm.Constants.{price_scale_bps, fee_scale_bps}
use stacks_dex_pool.Dlmm.Math.{SingleBinSwap, single_bin_swap_x_for_y, single_bin_swap_y_for_x}
use stacks_dex_pool.Dlmm.Math.Closed.{
  swap_result, fee_of, gross, single_bin_swap_x_for_y-eq, single_bin_swap_y_for_x-eq,
}

-- The two floors cancel: `u` is the largest gross input whose net part is at most `m`.
floors_cancel :
    (u d f m fee : ℕ)
    → d + f ≡ fee_scale_bps
    → 0 < d
    → u * d ≤ m * fee_scale_bps
    → m * fee_scale_bps < (u + 1) * d
    → fee ≡ u * f / fee_scale_bps
    → u - fee ≡ m
floors_cancel u d f m fee e pos_d lo hi ef =
    let split : u * d + u * f ≡ u * fee_scale_bps = omega (arith, ap (λ (t : ℕ). u * t) e) in
    omega arith

free : (m f : ℕ) → f ≤ 0 → saturating_mul m f / fee_scale_bps ≡ 0
unfolding saturating_mul
free m zero h = omega arith
free m (suc f) h = absurd (omega arith)

net_of_gross :
    (m f : ℕ)
    → f < fee_scale_bps
    → m * price_scale_bps ≤ u128_max
    → gross m f - fee_of (gross m f) f ≡ m
unfolding gross fee_of
net_of_gross m f h fits = elim (Bool-cases (ltb 0 f)) [
  | inr e ↦ rw e (omega (arith, free m f (ltb→ge 0 f e)))
  | inl e ↦
      let d = fee_scale_bps - f in
      let u = m * fee_scale_bps / d in
      let scaled : saturating_mul m fee_scale_bps ≡ m * fee_scale_bps =
        saturating_mul-eq m fee_scale_bps (omega arith) in
      let below : u * f ≤ u128_max =
        omega (arith, mul-le-mul_left u (le_of_lt h), div-le_self (m * fee_scale_bps) d) in
      rw (e, scaled, saturating_mul-eq u f below)
        (floors_cancel u d f m (u * f / fee_scale_bps) (omega arith) (omega arith)
          (div-mul-le_self (m * fee_scale_bps) d)
          (lt-div-succ_mul (m * fee_scale_bps) d (omega arith)) refl)
]

used_or_drained :
    (amount m f : ℕ)
    → f < fee_scale_bps
    → m * price_scale_bps ≤ u128_max
    → let used = min amount (gross m f) in (used ≡ amount) ⊎ (used - fee_of used f ≡ m)
used_or_drained amount m f h fits = elim (le-cases amount (gross m f)) [
  | inl le ↦ inl (omega arith)
  | inr lt ↦
      let e : min amount (gross m f) ≡ gross m f = omega arith in
      rw e (inr (net_of_gross m f h fits))
]

-- The products of a swap fit a `u128`, for an inventory at the rate `num / den`.
pub record IsWordSized (inventory num den : ℕ) : Type 0 where
  pub value_fits : inventory * den + num ≤ u128_max
  pub limit_fits : div_ceil (inventory * den) num * price_scale_bps ≤ u128_max

-- The input was used up, or the bin was emptied for exactly the net input that it is worth.
abbrev pub IsExact : (amount inventory num den : ℕ) → SingleBinSwap → Type 0
IsExact amount inventory num den r =
    (r.used ≡ amount) ⊎ ((r.dy ≡ inventory) × (r.dx_after_fee ≡ div_ceil (inventory * den) num))

-- The net input that empties the bin buys the whole inventory.
limit_buys_all :
    (inventory num den : ℕ)
    → 0 < num
    → 0 < den
    → IsWordSized inventory num den
    → min (saturating_mul (div_ceil (inventory * den) num) num / den) inventory ≡ inventory
limit_buys_all inventory num den pn pd w =
    let limit = div_ceil (inventory * den) num in
    let fits : limit * num ≤ u128_max =
      omega (arith, w.value_fits, div_ceil-mul_lt (inventory * den) num pn) in
    let enough : inventory ≤ limit * num / den =
      (le-div_iff_mul-le pd).1 (div_ceil-mul_ge (inventory * den) num pn) in
    rw (saturating_mul-eq limit num fits) (omega arith)

swap_result-IsExact :
    (amount total_fee inventory num den : ℕ)
    → total_fee < fee_scale_bps
    → 0 < num
    → 0 < den
    → IsWordSized inventory num den
    → IsExact amount inventory num den (
        swap_result amount
          (div_ceil (saturating_mul inventory den) num)
          total_fee
          (λ net. min (saturating_mul net num / den) inventory))
swap_result-IsExact amount f inventory num den fees pn pd w =
    let scaled : saturating_mul inventory den ≡ inventory * den =
      saturating_mul-eq inventory den (omega (arith, w.value_fits)) in
    rw scaled (elim (used_or_drained amount (div_ceil (inventory * den) num) f fees w.limit_fits) [
      | inl all ↦ inl all
      | inr net ↦ inr (rw net (limit_buys_all inventory num den pn pd w), net)
    ])

-- With fees below 10000 bps, a positive price and products that fit a `u128`, the x-to-y swap of a
-- bin either uses the whole input or pays out the whole y inventory, and then the net input is
-- exactly the inventory's value rounded up.
pub single_bin_swap_x_for_y-IsExact :
    (p : Profile) (amount x_balance y_balance price protocol_fee provider_fee variable_fee : ℕ)
    → protocol_fee + provider_fee + variable_fee < fee_scale_bps
    → 0 < price
    → IsWordSized y_balance price price_scale_bps
    → (r : SingleBinSwap) × (single_bin_swap_x_for_y p amount x_balance y_balance price protocol_fee
          provider_fee variable_fee
        ≡ returned r)
      × IsExact amount y_balance price price_scale_bps r
single_bin_swap_x_for_y-IsExact p amount x y price f g h fees priced w = (
  _,
  single_bin_swap_x_for_y-eq p amount x y price f g h priced fees,
  swap_result-IsExact amount (f + g + h) y price price_scale_bps fees priced (omega arith) w,
)

-- With fees below 10000 bps, a positive price and products that fit a `u128`, the y-to-x swap of a
-- bin either uses the whole input or pays out the whole x inventory, and then the net input is
-- exactly the inventory's value rounded up.
pub single_bin_swap_y_for_x-IsExact :
    (p : Profile) (amount x_balance y_balance price protocol_fee provider_fee variable_fee : ℕ)
    → protocol_fee + provider_fee + variable_fee < fee_scale_bps
    → 0 < price
    → IsWordSized x_balance price_scale_bps price
    → (r : SingleBinSwap) × (single_bin_swap_y_for_x p amount x_balance y_balance price protocol_fee
          provider_fee variable_fee
        ≡ returned r)
      × IsExact amount x_balance price_scale_bps price r
single_bin_swap_y_for_x-IsExact p amount x y price f g h fees priced w = (
  _,
  single_bin_swap_y_for_x-eq p amount x y price f g h priced fees,
  swap_result-IsExact amount (f + g + h) x price_scale_bps price fees (omega arith) priced w,
)
