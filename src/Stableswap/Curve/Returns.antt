-- ===== src/Stableswap/Curve/Returns.antt =====
-- The solvers never panic: every divisor is positive, and no subtraction goes below zero.
use stacks_dex_pool.Prelude.{
  ℕ, zero, suc, ◌-◌, ◌/◌, ◌<◌, ◌≡◌, refl, false, arith, inl, inr, Bool-cases, ltb, leb, ◌==◌, ◌||◌,
  ltb→ge,
}
use native.Mathlib.Nat.{mul-pos}
use stacks_dex_pool.Prelude.Word.{u128_max, u128_size, saturating_mul, saturating_add}
use stacks_dex_pool.Prelude.Outcome.{Outcome, returned, Profile, sub_word-eq, div_word-eq}
use stacks_dex_pool.Stableswap.Curve.{
  n_tokens, newton_max_iters, abs_diff, d_rounds, get_d, y_rounds, get_y,
}

abbrev pub Returns : Outcome ℕ → Type 0
Returns result = (n : ℕ) × (result ≡ returned n)

pub saturating_mul-pos : (a b : ℕ) → 0 < a → 0 < b → 0 < saturating_mul a b
unfolding saturating_mul u128_max
saturating_mul-pos a b h k = omega (arith, mul-pos h k)

saturating_add-pos : (a b : ℕ) → 0 < a → 0 < saturating_add a b
unfolding saturating_add u128_max
saturating_add-pos a b h = omega arith

d_rounds-Returns :
    (p : Profile) (x_bal y_bal threshold an s rounds d : ℕ)
    → 0 < x_bal
    → 0 < y_bal
    → 0 < an
    → Returns (d_rounds p x_bal y_bal threshold an s rounds d)
unfolding d_rounds
d_rounds-Returns p x_bal y_bal threshold an s zero d hx hy ha = (d, refl)
d_rounds-Returns p x_bal y_bal threshold an s (suc rounds) d hx hy ha =
    let d_part_x = saturating_mul d d / saturating_mul n_tokens x_bal in
    let d_part = saturating_mul d d_part_x / saturating_mul n_tokens y_bal in
    let numer =
      saturating_mul (saturating_add (saturating_mul an s) (saturating_mul n_tokens d_part)) d in
    let denom = saturating_add (saturating_mul (an - 1) d) (saturating_mul 3 d_part) in
    let first =
      div_word-eq (saturating_mul d d) (saturating_mul n_tokens x_bal)
        (saturating_mul-pos n_tokens x_bal (omega arith) hx) in
    let second =
      div_word-eq (saturating_mul d d_part_x) (saturating_mul n_tokens y_bal)
        (saturating_mul-pos n_tokens y_bal (omega arith) hy) in
    let less = sub_word-eq p u128_size an 1 ha in
    elim (Bool-cases (denom == 0)) [
      | inl stuck ↦ rw (first, second, less, stuck) (d, refl)
      | inr live ↦
          let third = div_word-eq numer denom (ground arith) in
          elim (Bool-cases (leb (abs_diff (numer / denom) d) threshold)) [
            | inl close ↦ rw (first, second, less, live, third, close) (numer / denom, refl)
            | inr far ↦
                rw (first, second, less, live, third, far)
                  (d_rounds-Returns p x_bal y_bal threshold an s rounds (numer / denom) hx hy ha)
          ]
    ]

-- `get_d` returns for all balances, amplifications and thresholds, in both build profiles.
pub get_d-Returns :
    (p : Profile) (x_bal y_bal amp threshold : ℕ) → Returns (get_d p x_bal y_bal amp threshold)
unfolding get_d
get_d-Returns p x_bal y_bal amp threshold =
    elim (Bool-cases ((x_bal == 0) || ((y_bal == 0) || (amp == 0)))) [
      | inl degenerate ↦ rw degenerate (0, refl)
      | inr live ↦ rw live (
          d_rounds-Returns p x_bal y_bal threshold (saturating_mul amp n_tokens)
            (saturating_add x_bal y_bal) newton_max_iters (saturating_add x_bal y_bal)
            (ground arith) (ground arith)
            (saturating_mul-pos amp n_tokens (ground arith) (omega arith)))
    ]

y_rounds-Returns :
    (p : Profile) (threshold b c d rounds y : ℕ) → Returns (y_rounds p threshold b c d rounds y)
unfolding y_rounds
y_rounds-Returns p threshold b c d zero y = (y, refl)
y_rounds-Returns p threshold b c d (suc rounds) y =
    let y_num = saturating_add (saturating_mul y y) c in
    let y_den_pos = saturating_add (saturating_mul n_tokens y) b in
    elim (Bool-cases (ltb y_den_pos d)) [
      | inl under ↦ rw under (y, refl)
      | inr over ↦
          let less = sub_word-eq p u128_size y_den_pos d (ltb→ge y_den_pos d over) in
          elim (Bool-cases (y_den_pos - d == 0)) [
            | inl stuck ↦ rw (over, less, stuck) (y, refl)
            | inr live ↦
                let third = div_word-eq y_num (y_den_pos - d) (ground arith) in
                elim (Bool-cases (leb (abs_diff (y_num / (y_den_pos - d)) y) threshold)) [
                  | inl close ↦ rw (over, less, live, third, close) (y_num / (y_den_pos - d), refl)
                  | inr far ↦
                      rw (over, less, live, third, far)
                        (y_rounds-Returns p threshold b c d rounds (y_num / (y_den_pos - d)))
                ]
          ]
    ]

-- `get_y` returns for all inputs, in both build profiles.
pub get_y-Returns :
    (p : Profile) (x_amount x_bal y_bal amp threshold : ℕ)
    → Returns (get_y p x_amount x_bal y_bal amp threshold)
unfolding get_y
get_y-Returns p x_amount x_bal y_bal amp threshold =
    let an = saturating_mul amp n_tokens in
    let updated_x = saturating_add x_bal x_amount in
    elim (Bool-cases ((x_bal == 0) || ((y_bal == 0) || (amp == 0)))) [
      | inl degenerate ↦ rw degenerate (0, refl)
      | inr live ↦
          let (d, runs) = get_d-Returns p x_bal y_bal amp threshold in
          let pos_an = saturating_mul-pos amp n_tokens (ground arith) (omega arith) in
          let pos_x : 0 < updated_x = saturating_add-pos x_bal x_amount (ground arith) in
          let nonzero : (updated_x == 0) ≡ false = ground arith in
          let c_b = saturating_mul d d / saturating_mul n_tokens updated_x in
          let c = saturating_mul c_b d / saturating_mul an n_tokens in
          rw
            (
              live,
              nonzero,
              runs,
              div_word-eq (saturating_mul d d) (saturating_mul n_tokens updated_x)
                  (saturating_mul-pos n_tokens updated_x (omega arith) pos_x),
              div_word-eq (saturating_mul c_b d) (saturating_mul an n_tokens)
                  (saturating_mul-pos an n_tokens pos_an (omega arith)),
              div_word-eq d an pos_an,
            )
            (y_rounds-Returns p threshold (saturating_add updated_x (d / an)) c d newton_max_iters
              d)
    ]
