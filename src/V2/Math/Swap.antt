-- ===== src/V2/Math/Swap.antt =====
-- The exchange `reserve_out * net / (reserve_in + net)` that all the pools of this family share.
use stacks_dex_pool.Prelude.{ℕ, ◌+◌, ◌-◌, ◌*◌, ◌/◌, ◌≤◌, ◌<◌, ◌⊎◌, inl, inr, ◌≡◌, subst, arith}
use native.Mathlib.Nat.{
  le_trans, le_of_lt, div-mul-le_self, le-div_iff_mul-le, mul-le-mul_left, mul-le-mul_right,
  mul-le-mul, le_of_mul-le-mul_right, lt_of_mul-lt-mul_right, mul-pos,
}
use stacks_dex_pool.Prelude.Word.{
  u128_max, saturating_mul, saturating_add, saturating_mul-le, saturating_mul-eq, saturating_add-eq,
}

-- `saturating_mul reserve_out net / saturating_add reserve_in net`.
unfoldable pub exchange : (reserve_in reserve_out net : ℕ) → ℕ
exchange reserve_in reserve_out net = saturating_mul reserve_out net / saturating_add reserve_in net

module _ (reserve_in reserve_out net : ℕ) (live : 0 < reserve_in)
    (fits : reserve_in + net ≤ u128_max) where
  -- What is paid is worth at most the input, at the reserves after the swap.
  pub exchange-worth : exchange reserve_in reserve_out net * (reserve_in + net) ≤ reserve_out * net
  unfolding exchange
  exchange-worth = rw (saturating_add-eq reserve_in net fits) (
      le_trans (div-mul-le_self (saturating_mul reserve_out net) (reserve_in + net))
        (saturating_mul-le reserve_out net))

  pub exchange-lt : 0 < reserve_out → exchange reserve_in reserve_out net < reserve_out
  exchange-lt h =
      lt_of_mul-lt-mul_right (reserve_in + net) (omega (arith, exchange-worth, mul-pos h live))

-- What is left of the output side, with what was paid, after a swap that is worth its input.
pub product_of_worth :
    (reserve_in net rest dy : ℕ)
    → dy * (reserve_in + net) ≤ (rest + dy) * net
    → reserve_in * (rest + dy) ≤ (reserve_in + net) * rest
product_of_worth reserve_in net rest dy h = omega arith

-- The product of the reserves does not shrink when at least `net` is kept.
pub exchange-product :
    (reserve_in reserve_out net dx : ℕ)
    → 0 < reserve_in
    → 0 < reserve_out
    → reserve_in + net ≤ u128_max
    → net ≤ dx
    → reserve_in * reserve_out
      ≤ (reserve_in + dx) * (reserve_out - exchange reserve_in reserve_out net)
exchange-product reserve_in reserve_out net dx live paid fits more =
    let dy = exchange reserve_in reserve_out net in
    let below = exchange-lt reserve_in reserve_out net live fits paid in
    let rest = reserve_out - dy in
    let whole : rest + dy ≡ reserve_out = omega arith in
    let worth : dy * (reserve_in + net) ≤ (rest + dy) * net =
      rw whole (exchange-worth reserve_in reserve_out net live fits) in
    let kept = product_of_worth reserve_in net rest dy worth in
    let wide : (reserve_in + net) * rest ≤ (reserve_in + dx) * rest =
      mul-le-mul_right rest (omega arith) in
    le_trans (subst (λ n. reserve_in * n ≤ (reserve_in + net) * rest) whole kept) wide

quotient_step :
    (q a b n extra : ℕ) → q * (a + n) ≤ b * n → q ≤ b → q * (a + (n + extra)) ≤ b * (n + extra)
quotient_step q a b n extra h k = omega (arith, mul-le-mul_right extra k)

exchange-eq :
    (reserve_in reserve_out net : ℕ)
    → reserve_in + net ≤ u128_max
    → reserve_out * net ≤ u128_max
    → exchange reserve_in reserve_out net ≡ reserve_out * net / (reserve_in + net)
unfolding exchange
exchange-eq reserve_in reserve_out net fits product =
    rw (saturating_add-eq reserve_in net fits, saturating_mul-eq reserve_out net product)

-- More input pays no less, as long as no product saturates.
pub exchange_mono :
    (reserve_in reserve_out net more : ℕ)
    → 0 < reserve_in
    → reserve_in + more ≤ u128_max
    → reserve_out * more ≤ u128_max
    → net ≤ more
    → exchange reserve_in reserve_out net ≤ exchange reserve_in reserve_out more
exchange_mono reserve_in reserve_out net more live fits product le =
    let q = exchange reserve_in reserve_out net in
    let worth = exchange-worth reserve_in reserve_out net live (omega arith) in
    let capped : q ≤ reserve_out =
      le_of_mul-le-mul_right {k = reserve_in + net} (omega arith) (omega arith) in
    let step = quotient_step q reserve_in reserve_out net (more - net) worth capped in
    let whole : net + (more - net) ≡ more = omega arith in
    let enough : q * (reserve_in + more) ≤ reserve_out * more =
      subst (λ n. q * (reserve_in + n) ≤ reserve_out * n) whole step in
    rw (exchange-eq reserve_in reserve_out more fits product)
      ((le-div_iff_mul-le {k = reserve_in + more} (omega arith)).1 enough)

no_gain :
    (q reserve_in net rest dy dx back : ℕ)
    → dy * (reserve_in + net) ≤ (rest + dy) * net
    → q * (rest + back) ≤ (reserve_in + dx) * back
    → 0 < rest
    → net ≤ dx
    → back ≤ dy
    → q ≤ dx
no_gain q reserve_in net rest dy dx back worth worth' live more less =
    let a : reserve_in * back ≤ reserve_in * dy = mul-le-mul_left reserve_in less in
    let b : rest * net ≤ rest * dx = mul-le-mul_left rest more in
    let below : q * (rest + back) < (dx + 1) * (rest + back) = omega arith in
    omega (arith, lt_of_mul-lt-mul_right (rest + back) below)

-- Paying back what a swap paid returns at most what it took.
pub exchange-exchange :
    (reserve_in reserve_out net dx back : ℕ)
    → 0 < reserve_in
    → 0 < reserve_out
    → reserve_in + net ≤ u128_max
    → reserve_out ≤ u128_max
    → net ≤ dx
    → back ≤ exchange reserve_in reserve_out net
    → exchange (reserve_out - exchange reserve_in reserve_out net) (reserve_in + dx) back ≤ dx
exchange-exchange reserve_in reserve_out net dx back live paid fits word more less =
    let dy = exchange reserve_in reserve_out net in
    let rest = reserve_out - dy in
    let below = exchange-lt reserve_in reserve_out net live fits paid in
    let whole : rest + dy ≡ reserve_out = omega arith in
    let worth : dy * (reserve_in + net) ≤ (rest + dy) * net =
      rw whole (exchange-worth reserve_in reserve_out net live fits) in
    let worth' = exchange-worth rest (reserve_in + dx) back (omega arith) (omega arith) in
    no_gain (exchange rest (reserve_in + dx) back) reserve_in net rest dy dx back worth worth'
      (omega arith) more less

pub exchange-none :
    (reserve_in reserve_out net : ℕ)
    → 0 < reserve_in
    → reserve_in + net ≤ u128_max
    → net ≤ 0
    → exchange reserve_in reserve_out net ≤ 0
exchange-none reserve_in reserve_out net live fits h =
    le_of_mul-le-mul_right {k = reserve_in + net}
      (omega
        (arith, exchange-worth reserve_in reserve_out net live fits, mul-le-mul_left reserve_out h))
      (omega arith)

-- A quote of a constant-product pool: nothing, or the exchange of a part of the input.
pub record IsExchange (reserve_in reserve_out dx dy : ℕ) : Type 0 where
  pub net : ℕ
  pub within : net ≤ dx
  pub live : 0 < reserve_in
  pub paid : 0 < reserve_out
  pub value : dy ≡ exchange reserve_in reserve_out net

abbrev pub IsFair : (reserve_in reserve_out dx dy : ℕ) → Type 0
IsFair reserve_in reserve_out dx dy = (dy ≡ 0) ⊎ IsExchange reserve_in reserve_out dx dy

-- The pool keeps some of the output, and the product of its reserves does not shrink.
abbrev pub KeepsProduct : (reserve_in reserve_out dx dy : ℕ) → Type 0
KeepsProduct reserve_in reserve_out dx dy =
    (dy ≤ reserve_out)
    × (0 < reserve_out → dy < reserve_out)
    × (reserve_in * reserve_out ≤ (reserve_in + dx) * (reserve_out - dy))

pub IsFair-KeepsProduct :
    (reserve_in reserve_out dx dy : ℕ)
    → reserve_in + dx ≤ u128_max
    → IsFair reserve_in reserve_out dx dy
    → KeepsProduct reserve_in reserve_out dx dy
IsFair-KeepsProduct reserve_in reserve_out dx dy fits (inl none_paid) = rw none_paid (
  omega arith,
  λ h. h,
  mul-le-mul {n₁ = reserve_in} {n₂ = reserve_in + dx} (omega arith) (omega arith),
)
IsFair-KeepsProduct reserve_in reserve_out dx dy fits (inr e) =
    let small : reserve_in + e.net ≤ u128_max = omega (arith, e.within) in
    let below = exchange-lt reserve_in reserve_out e.net e.live small e.paid in
    rw e.value (
      le_of_lt below,
      λ _. below,
      exchange-product reserve_in reserve_out e.net dx e.live e.paid small e.within,
    )

-- Swapping the output back right away returns at most what was put in.
pub IsFair-back :
    (reserve_in reserve_out dx dy back : ℕ)
    → reserve_in + dx ≤ u128_max
    → reserve_out ≤ u128_max
    → IsFair reserve_in reserve_out dx dy
    → IsFair (reserve_out - dy) (reserve_in + dx) dy back
    → back ≤ dx
IsFair-back reserve_in reserve_out dx dy back fits word first (inl none_back) = omega arith
IsFair-back reserve_in reserve_out dx dy back fits word (inl none_paid) (inr e) = rw e.value (
    le_trans
      (exchange-none (reserve_out - dy) (reserve_in + dx) e.net e.live (omega (arith, e.within))
        (omega (arith, e.within)))
      (omega arith))
IsFair-back reserve_in reserve_out dx dy back fits word (inr e) (inr e') =
    let within : e'.net ≤ exchange reserve_in reserve_out e.net =
      subst (λ n. e'.net ≤ n) e.value e'.within in
    rw (e'.value, e.value)
      (exchange-exchange reserve_in reserve_out e.net dx e'.net e.live e.paid
        (omega (arith, e.within)) word e.within within)
