-- ===== src/V2/FeeSummary.antt =====
-- The fee in basis points that a Velar pair reports.
use stacks_dex_pool.Prelude.{
  ℕ, zero, suc, ◌+◌, ◌-◌, ◌*◌, ◌/◌, ◌≤◌, ◌<◌, false, ◌≡◌, arith, leb, ◌==◌, ◌||◌,
}
use native.Mathlib.Nat.{
  mul-div_cancel, mul-le-mul_right, div-le_of_le-mul, div-mul-le_self, lt-div-mul-add, mod-eq_of_lt,
}
use stacks_dex_pool.Prelude.Division.{div_ceil}
use stacks_dex_pool.Prelude.Word.{u128_max, u32_size, saturating_mul, saturating_mul-eq}
use stacks_dex_pool.V2.Math.{quote_amount_out_with_fee_ratio}
use stacks_dex_pool.V2.Math.Ratio.{quote_ratio-eq}
use stacks_dex_pool.V2.Math.Swap.{exchange}
use stacks_dex_pool.V2.Velar.{VelarPool, quote_x_for_y, fee_bps_effective}

half_up : (n : ℕ) → (n ≤ 2 * div_ceil n 2) × (2 * div_ceil n 2 ≤ n + 1)
unfolding div_ceil
half_up n = ground arith

le_trans_lt : {n : ℕ} → n ≤ 10000 → n < u32_size
le_trans_lt h = omega arith

rounded :
    (cut den : ℕ)
    → 0 < den
    → cut ≤ den
    → cut * 20000 ≤ u128_max
    → let bps = div_ceil (saturating_mul cut 20000 / den) 2 in
      (2 * bps * den ≤ 2 * (10000 * cut) + den)
      × (2 * (10000 * cut) < 2 * bps * den + den)
      × (bps ≤ 10000)
rounded cut den live le fits =
    let v = cut * 20000 / den in
    let (low, high) = half_up v in
    let a = mul-le-mul_right den low in
    let b = mul-le-mul_right den high in
    let floor = div-mul-le_self (cut * 20000) den in
    let above = lt-div-mul-add {a = cut * 20000} live in
    let capped : v ≤ 20000 = div-le_of_le-mul den (omega arith) in
    rw (saturating_mul-eq cut 20000 fits) (omega arith, omega arith, omega arith)

-- If a pool charges a fee, the reported fee is the fee of the pool rounded to the nearest basis point, halves up, and at
-- most 10000.
pub fee_bps_effective_rounds :
    (pool : VelarPool)
    → pool.fee_num < pool.fee_den
    → (pool.fee_den - pool.fee_num) * 20000 ≤ u128_max
    → let cut = pool.fee_den - pool.fee_num in
      let bps = fee_bps_effective pool in
      (2 * bps * pool.fee_den ≤ 2 * (10000 * cut) + pool.fee_den)
      × (2 * (10000 * cut) < 2 * bps * pool.fee_den + pool.fee_den)
      × (bps ≤ 10000)
unfolding fee_bps_effective
fee_bps_effective_rounds pool charges fits =
    let bounds =
      rounded (pool.fee_den - pool.fee_num) pool.fee_den (omega arith) (omega arith) fits in
    let guard : ((pool.fee_den == 0) || leb pool.fee_den pool.fee_num) ≡ false = ground arith in
    rw (guard, mod-eq_of_lt {m = u32_size} (le_trans_lt bounds.2)) bounds

free_quote :
    (reserve_in reserve_out num den dx : ℕ)
    → num ≡ den
    → 0 < den
    → 0 < reserve_in
    → 0 < reserve_out
    → dx * den ≤ u128_max
    → quote_amount_out_with_fee_ratio dx reserve_in reserve_out num den
      ≡ exchange reserve_in reserve_out dx
unfolding quote_amount_out_with_fee_ratio exchange saturating_mul
free_quote reserve_in reserve_out num den zero free live live_x live_y fits = ground arith
free_quote reserve_in reserve_out num den (suc n) free live live_x live_y fits =
    let whole : saturating_mul (suc n) num / den ≡ suc n =
      rw (free, saturating_mul-eq (suc n) den fits) (mul-div_cancel (suc n) live) in
    rw (
      quote_ratio-eq (suc n) reserve_in reserve_out num den live_x live_y live (omega arith)
          (rw whole (omega arith)),
      whole,
    )

-- If the kept share is the whole input, the quote takes no fee, and the reported fee is 10000 basis
-- points nonetheless.
pub fee_bps_effective_free :
    (pool : VelarPool) (dx : ℕ)
    → pool.fee_num ≡ pool.fee_den
    → 0 < pool.fee_den
    → 0 < pool.reserve_x
    → 0 < pool.reserve_y
    → dx * pool.fee_den ≤ u128_max
    → (fee_bps_effective pool ≡ 10000)
      × (quote_x_for_y pool dx ≡ exchange pool.reserve_x pool.reserve_y dx)
unfolding fee_bps_effective quote_x_for_y
fee_bps_effective_free pool dx free live live_x live_y fits = (
  ground arith,
  free_quote pool.reserve_x pool.reserve_y pool.fee_num pool.fee_den dx free live live_x live_y
      fits,
)
