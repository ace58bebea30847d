-- ===== src/Stableswap/Curve/Balanced.antt =====
-- On equal balances the invariant is solved at once: `get_d` gives their sum.
use stacks_dex_pool.Prelude.{
  ℕ, suc, ◌+◌, ◌-◌, ◌*◌, ◌/◌, ◌≤◌, ◌<◌, ◌≡◌, refl, ap, ◌∙◌, true, false, arith, leb, ◌==◌, ◌||◌,
  le→leb,
}
use native.Mathlib.Nat.{
  mul-div_cancel, mul-div_cancel_left, le_trans, mul-le-mul_left, mul-le-mul_right,
}
use stacks_dex_pool.Prelude.Word.{
  u128_max, u128_size, saturating_mul, saturating_add, saturating_mul-eq, saturating_add-eq,
}
use stacks_dex_pool.Prelude.Outcome.{returned, Profile, div_word, sub_word-eq, div_word-eq}
use stacks_dex_pool.Stableswap.Curve.{n_tokens, abs_diff, d_rounds, get_d}

le_of_product : (a b m : ℕ) → 0 < b → a * b ≤ m → a ≤ m
le_of_product a b m h le = omega (arith, mul-le-mul_left a h)

module _ (p : Profile) (bal amp threshold : ℕ) (funded : 0 < bal) (amplified : 0 < amp)
    (fits : (2 * amp + 2) * (2 * bal) * (2 * bal) ≤ u128_max) where
  abbrev d : ℕ
  d = 2 * bal

  abbrev k : ℕ
  k = (2 * amp + 2) * (2 * bal)

  k-le : k ≤ u128_max
  k-le = le_of_product k d u128_max (omega arith) fits

  d-le_k : d ≤ k
  d-le_k = omega arith

  square-le : d * d ≤ u128_max
  square-le = le_trans (mul-le-mul_right d d-le_k) fits

  numer-eq :
      saturating_mul (saturating_add (saturating_mul (2 * amp) d) (saturating_mul n_tokens d)) d
      ≡ k * d
  numer-eq =
      rw
        (
          saturating_mul-eq (2 * amp) d (omega (arith, k-le)),
          saturating_mul-eq n_tokens d (omega (arith, k-le)),
          saturating_add-eq (2 * amp * d) (n_tokens * d) (omega (arith, k-le)),
        )
        (saturating_mul-eq (2 * amp * d + n_tokens * d) d (omega (arith, fits)) ∙ omega arith)

  small_three : 3 * d ≤ k
  small_three = omega (arith, mul-le-mul_right bal amplified)

  denom-eq : saturating_add (saturating_mul (2 * amp - 1) d) (saturating_mul 3 d) ≡ k
  denom-eq =
      let one_less : 2 * amp - 1 + 1 ≡ 2 * amp = omega arith in
      let spread : (2 * amp - 1 + 1) * d ≡ 2 * amp * d = ap (λ n. n * d) one_less in
      rw
        (
          saturating_mul-eq (2 * amp - 1) d (omega (arith, k-le, spread)),
          saturating_mul-eq 3 d (omega (arith, k-le, small_three)),
        )
        (saturating_add-eq ((2 * amp - 1) * d) (3 * d) (omega (arith, k-le, spread))
          ∙ omega (arith, spread))

  k-pos : 0 < k
  k-pos = omega (arith, d-le_k)

  last_quotient : k * d / k ≡ d
  last_quotient = mul-div_cancel_left d k-pos

  halve : div_word (saturating_mul d d) (saturating_mul n_tokens bal) ≡ returned d
  halve =
      rw (saturating_mul-eq d d square-le, saturating_mul-eq n_tokens bal (le_trans d-le_k k-le))
        (div_word-eq (d * d) d (omega arith) ∙ ap returned (mul-div_cancel d (omega arith)))

  amp-le : 2 * amp ≤ u128_max
  amp-le = omega (arith, k-le, mul-le-mul_left amp funded)

  round-fixed : (rounds : ℕ) → d_rounds p bal bal threshold (2 * amp) d (suc rounds) d ≡ returned d
  unfolding d_rounds
  round-fixed rounds =
      let live : (k == 0) ≡ false = ground (arith, k-pos) in
      let last : div_word (k * d) k ≡ returned d =
        div_word-eq (k * d) k k-pos ∙ ap returned last_quotient in
      let close : leb (abs_diff d d) threshold ≡ true =
        le→leb (abs_diff d d) threshold (omega arith) in
      rw
        (
          halve,
          halve,
          sub_word-eq p u128_size (2 * amp) 1 (omega arith),
          denom-eq,
          live,
          numer-eq,
          last,
          close,
        )
        refl

  -- On two equal balances, `get_d` gives their sum, if the largest product fits a `u128`.
  pub get_d_balanced : get_d p bal bal amp threshold ≡ returned (2 * bal)
  unfolding get_d
  get_d_balanced =
      let guard : ((bal == 0) || ((bal == 0) || (amp == 0))) ≡ false = ground arith in
      let sum : saturating_add bal bal ≡ d =
        saturating_add-eq bal bal (omega (arith, d-le_k, k-le)) ∙ omega arith in
      let an : saturating_mul amp n_tokens ≡ 2 * amp =
        saturating_mul-eq amp n_tokens (omega (arith, amp-le)) ∙ omega arith in
      rw (guard, sum, an) (round-fixed 383)
