-- ===== src/V2/Fairness.antt =====
-- What the quotes of ALEX and of Bitflow XYK pay: like the other constant-product pools, never more
-- than their curve allows.
use stacks_dex_pool.Prelude.{
  ℕ, ◌+◌, ◌-◌, ◌/◌, ◌≤◌, ◌<◌, ◌≡◌, inl, inr, refl, arith, Bool-cases, leb, ◌==◌, ◌||◌,
}
use native.Mathlib.Nat.{mul_comm}
use stacks_dex_pool.Prelude.Division.{div_ceil}
use stacks_dex_pool.Prelude.Word.{
  u128_max, u128_size, saturating_mul, saturating_add-eq, saturating_mul-le_max,
}
use stacks_dex_pool.Prelude.Outcome.{returned, Profile, add_word-eq, div_word-eq}
use stacks_dex_pool.V2.Math.Swap.{exchange, IsFair, KeepsProduct, IsFair-KeepsProduct}
use stacks_dex_pool.V2.Alex.{
  one_e8, AlexPool, mul_up, gmmm_dy, quote_with_fee, unwrap_or_zero, quote_x_for_y, quote_y_for_x,
  constant_product_factor,
}
use stacks_dex_pool.V2.BitflowXyk.{bps, quote_amount_out}

saturating_mul_comm : (a b : ℕ) → saturating_mul a b ≡ saturating_mul b a
unfolding saturating_mul
saturating_mul_comm a b = rw (mul_comm a b)

gmmm-IsFair :
    (x y factor net dx : ℕ) → net ≤ dx → IsFair x y dx (unwrap_or_zero (gmmm_dy x y factor net))
unfolding gmmm_dy exchange
gmmm-IsFair x y factor net dx h = elim (Bool-cases (factor == constant_product_factor)) [
  | inl product ↦ elim (Bool-cases ((net == 0) || ((x == 0) || (y == 0)))) [
    | inl degenerate ↦ rw (product, degenerate) (inl refl)
    | inr live ↦
        rw (product, live)
          (inr record {
            net = net;
            within = h;
            live = ground arith;
            paid = ground arith;
            value = rw (saturating_mul_comm net y);
          })
  ]
  | inr other ↦ rw other (inl refl)
]

alex-IsFair :
    (x y factor dx fee_rate : ℕ)
    → IsFair x y dx (unwrap_or_zero (quote_with_fee x y factor dx fee_rate))
unfolding quote_with_fee
alex-IsFair x y factor dx fee_rate = elim (Bool-cases (leb dx (mul_up dx fee_rate))) [
  | inl all_fee ↦ rw all_fee (inl refl)
  | inr some_net ↦ rw some_net (gmmm-IsFair x y factor (dx - mul_up dx fee_rate) dx (omega arith))
]

-- Whatever the fee rate and the factor, an ALEX pool never quotes its whole output side, and the
-- product of the balances does not shrink, in either direction.
pub alex_quote-KeepsProduct :
    (pool : AlexPool) (amount : ℕ)
    → pool.balance_x + amount ≤ u128_max
    → pool.balance_y + amount ≤ u128_max
    → KeepsProduct pool.balance_x pool.balance_y amount (quote_x_for_y pool amount)
      × KeepsProduct pool.balance_y pool.balance_x amount (quote_y_for_x pool amount)
unfolding quote_x_for_y quote_y_for_x
alex_quote-KeepsProduct pool amount fits_x fits_y = (
  IsFair-KeepsProduct pool.balance_x pool.balance_y amount _ fits_x
      (alex-IsFair pool.balance_x pool.balance_y pool.factor amount pool.fee_rate_x),
  IsFair-KeepsProduct pool.balance_y pool.balance_x amount _ fits_y
      (alex-IsFair pool.balance_y pool.balance_x pool.factor amount pool.fee_rate_y),
)

-- The fee of an ALEX pool is the product over `1e8`, rounded up.
mul_up-eq-div_ceil : (a b : ℕ) → mul_up a b ≡ div_ceil (saturating_mul a b) one_e8
unfolding mul_up div_ceil
mul_up-eq-div_ceil a b = ground arith

xyk_fees-fit :
    (dx protocol_fee provider_fee : ℕ)
    → saturating_mul dx protocol_fee / bps + saturating_mul dx provider_fee / bps < u128_size
unfolding u128_max
xyk_fees-fit dx protocol_fee provider_fee =
    omega (arith, saturating_mul-le_max dx protocol_fee, saturating_mul-le_max dx provider_fee)

below_size : (n : ℕ) → n ≤ u128_max → n < u128_size
unfolding u128_max
below_size n h = omega arith

xyk_returns :
    (p : Profile) (dx x_balance y_balance protocol_fee provider_fee : ℕ)
    → x_balance + dx ≤ u128_max
    → (dy : ℕ) × (quote_amount_out p dx x_balance y_balance protocol_fee provider_fee ≡ returned dy)
      × IsFair x_balance y_balance dx dy
unfolding quote_amount_out exchange
xyk_returns p dx x_balance y_balance protocol_fee provider_fee fits =
    let fee_protocol = saturating_mul dx protocol_fee / bps in
    let fee_provider = saturating_mul dx provider_fee / bps in
    let net = dx - (fee_protocol + fee_provider) in
    let sum =
      add_word-eq p u128_size fee_protocol fee_provider
        (xyk_fees-fit dx protocol_fee provider_fee) in
    elim (Bool-cases ((dx == 0) || ((x_balance == 0) || (y_balance == 0)))) [
      | inl degenerate ↦ rw degenerate (0, refl, inl refl)
      | inr live ↦ elim (Bool-cases (net == 0)) [
        | inl all_fee ↦ rw (live, sum, all_fee) (0, refl, inl refl)
        | inr some_net ↦
            let denom =
              add_word-eq p u128_size x_balance net (below_size (x_balance + net) (omega arith)) in
            let quotient =
              div_word-eq (saturating_mul y_balance net) (x_balance + net) (ground arith) in
            rw (live, sum, some_net, denom, quotient)
              (
                saturating_mul y_balance net / (x_balance + net),
                refl,
                inr record {
                  net = net;
                  within = omega arith;
                  live = ground arith;
                  paid = ground arith;
                  value = rw (saturating_add-eq x_balance net (omega arith));
                },
              )
      ]
    ]

-- If the input side fits a `u128` after the swap, the Bitflow XYK quote returns for all fees and in
-- both build profiles; it never pays the whole output side, and the product of the balances does not
-- shrink.
pub xyk_quote-KeepsProduct :
    (p : Profile) (dx x_balance y_balance protocol_fee provider_fee : ℕ)
    → x_balance + dx ≤ u128_max
    → (dy : ℕ) × (quote_amount_out p dx x_balance y_balance protocol_fee provider_fee ≡ returned dy)
      × KeepsProduct x_balance y_balance dx dy
xyk_quote-KeepsProduct p dx x_balance y_balance protocol_fee provider_fee fits =
    let (dy, runs, fair) = xyk_returns p dx x_balance y_balance protocol_fee provider_fee fits in
    (dy, runs, IsFair-KeepsProduct x_balance y_balance dx dy fits fair)
