-- ===== src/Stableswap/Curve.antt =====
-- src/stableswap/curve.rs: decimal scaling and the two Newton loops. Each loop runs at most
-- `newton_max_iters` times, which is the fuel here; when it is used up, the last iterate is the
-- result, as in the source.
pub mod Scaling
pub mod Returns
pub mod Balanced
use stacks_dex_pool.Prelude.{
  ℕ, zero, suc, ◌+◌, ◌-◌, ◌*◌, ◌/◌, ◌^◌, min, Bool, ltb, leb, ◌==◌, ◌||◌, if◌then◌else◌,
}
use stacks_dex_pool.Prelude.Word.{saturating_mul, saturating_add, u128_max, u128_size}
use stacks_dex_pool.Prelude.Outcome.{Outcome, returned, ◌>>=◌, Profile, sub_word, div_word}

abbrev pub n_tokens : ℕ
n_tokens = 2

abbrev pub newton_max_iters : ℕ
newton_max_iters = 384

-- `10u128.saturating_pow(n)`.
unfoldable pub saturating_pow_ten : ℕ → ℕ
saturating_pow_ten n = min (10 ^ n) u128_max

unfoldable pub scale_up : (x y x_dp y_dp : ℕ) → ℕ × ℕ
scale_up x y x_dp y_dp =
    if x_dp == y_dp
    then (x, y)
    else if ltb y_dp x_dp
    then (x, saturating_mul y (saturating_pow_ten (x_dp - y_dp)))
    else (saturating_mul x (saturating_pow_ten (y_dp - x_dp)), y)

-- The divisor is at least 1.
unfoldable pub scale_down : (x y x_dp y_dp : ℕ) → ℕ × ℕ
scale_down x y x_dp y_dp =
    if x_dp == y_dp
    then (x, y)
    else if ltb y_dp x_dp
    then (x, y / saturating_pow_ten (x_dp - y_dp))
    else (x / saturating_pow_ten (y_dp - x_dp), y)

-- `u128::abs_diff`.
abbrev pub abs_diff : ℕ → ℕ → ℕ
abs_diff a b = (a - b) + (b - a)

-- The rounds of `get_d` that are left, from an iterate; `an` is the amplification times `n`, `s` the
-- sum of the balances.
unfoldable pub d_rounds : Profile → (x_bal y_bal threshold an s : ℕ) → ℕ → ℕ → Outcome ℕ
d_rounds p x_bal y_bal threshold an s zero d = returned d
d_rounds p x_bal y_bal threshold an s (suc rounds) d = do
  d_part_x ← div_word (saturating_mul d d) (saturating_mul n_tokens x_bal)
  d_part ← div_word (saturating_mul d d_part_x) (saturating_mul n_tokens y_bal)
  let numer =
      saturating_mul (saturating_add (saturating_mul an s) (saturating_mul n_tokens d_part)) d
  an_less ← sub_word p u128_size an 1
  let denom = saturating_add (saturating_mul an_less d) (saturating_mul 3 d_part)
  let newer = do
    new_d ← div_word numer denom
    let rest = d_rounds p x_bal y_bal threshold an s rounds new_d
    if leb (abs_diff new_d d) threshold then returned new_d else rest
  if denom == 0 then returned d else newer

unfoldable pub get_d : Profile → (x_bal y_bal amp threshold : ℕ) → Outcome ℕ
get_d p x_bal y_bal amp threshold =
    let s = saturating_add x_bal y_bal in
    let solved =
      d_rounds p x_bal y_bal threshold (saturating_mul amp n_tokens) s newton_max_iters s in
    if (x_bal == 0) || ((y_bal == 0) || (amp == 0)) then returned 0 else solved

-- The rounds of `get_y` that are left, from an iterate.
unfoldable pub y_rounds : Profile → (threshold b c d : ℕ) → ℕ → ℕ → Outcome ℕ
y_rounds p threshold b c d zero y = returned y
y_rounds p threshold b c d (suc rounds) y =
    let y_num = saturating_add (saturating_mul y y) c in
    let y_den_pos = saturating_add (saturating_mul n_tokens y) b in
    let solved = do
      y_den ← sub_word p u128_size y_den_pos d
      let newer = do
        new_y ← div_word y_num y_den
        let rest = y_rounds p threshold b c d rounds new_y
        if leb (abs_diff new_y y) threshold then returned new_y else rest
      if y_den == 0 then returned y else newer
    in if ltb y_den_pos d then returned y else solved

unfoldable pub get_y : Profile → (x_amount x_bal y_bal amp threshold : ℕ) → Outcome ℕ
get_y p x_amount x_bal y_bal amp threshold =
    let an = saturating_mul amp n_tokens in
    let updated_x = saturating_add x_bal x_amount in
    let solved = do
      d ← get_d p x_bal y_bal amp threshold
      c_b ← div_word (saturating_mul d d) (saturating_mul n_tokens updated_x)
      c ← div_word (saturating_mul c_b d) (saturating_mul an n_tokens)
      d_over_an ← div_word d an
      y_rounds p threshold (saturating_add updated_x d_over_an) c d newton_max_iters d
    in if (x_bal == 0) || ((y_bal == 0) || (amp == 0))
      then returned 0
      else if updated_x == 0
      then returned 0
      else solved
