-- ===== src/Dlmm/Quote.antt =====
-- The quote loops of src/dlmm/pool.rs. `quote_x_for_y` walks the bins down from the active one and
-- `quote_y_for_x` walks them up; the two loops have one body, over what a `Direction` holds.
pub mod Sweep
pub mod Ranks
pub mod Refine
pub mod Down
pub mod Up
pub mod Bounds
pub mod Exact
pub mod Exhausted
pub mod Stall
use stacks_dex_pool.Prelude.{
  ℕ, zero, suc, ◌+◌, ◌-◌, Option, none, some, Bool, ◌&&◌, List, ltb, leb, ◌==◌, if◌then◌else◌,
}
use stacks_dex_pool.Prelude.Int.{ℤ, pos, ◌+ℤ◌, ◌-ℤ◌, pos_part, leb_ℤ, ltb_ℤ}
use stacks_dex_pool.Prelude.Word.{saturating_add}
use stacks_dex_pool.Prelude.Outcome.{
  Outcome, returned, panicked, out_of_fuel, Profile, Result, ok, err,
}
use stacks_dex_pool.BTreeMap.{BTreeMap, get, first_key, last_key}
use stacks_dex_pool.Dlmm.Constants.{min_bin_id, max_bin_id}
use stacks_dex_pool.Dlmm.Math.{
  PriceError, bin_price, SingleBinSwap, single_bin_swap_x_for_y, single_bin_swap_y_for_x,
}
use stacks_dex_pool.Dlmm.Pool.{BinState, DlmmPool, is_empty}

-- `(total, last_bin_walked, window_exhausted)`.
pub record Quote : Type 0 where
  pub total : ℕ
  pub last_bin : Option ℤ
  pub window_exhausted : Bool

-- The variables of the loop.
pub record WalkState : Type 0 where
  pub remaining : ℕ
  pub bin_id : ℤ
  pub total : ℕ
  pub last_bin : Option ℤ

pub record Direction : Type 0 where
  pub next : ℤ → ℤ
  pub in_range : ℤ → Bool
  pub outside_window : ℤ → Bool
  pub swap : ℕ → BinState → ℕ → Outcome SingleBinSwap
  pub output_side : BinState → ℕ

-- One round leaves the loop or goes on.
pub data Round : Type 0 where
  leave : Outcome Quote → Round
  again : WalkState → Round

abbrev pub quote_of : ℕ → Option ℤ → ℕ → Quote
quote_of total last_bin remaining = record {
  total = total;
  last_bin = last_bin;
  window_exhausted = ltb 0 remaining;
}

abbrev pub finish : WalkState → Round
finish s = leave (returned (quote_of s.total s.last_bin s.remaining))

-- A missing or empty bin: the next one, if it is mirrored.
abbrev pub skip : Direction → WalkState → Round
skip d s =
    let bin_id = d.next s.bin_id in
    if d.outside_window bin_id then finish s else again (record s { bin_id = bin_id })

abbrev pub after_swap : Direction → BinState → WalkState → SingleBinSwap → Round
after_swap d b s r =
    let paid = record s {
      remaining = s.remaining - r.used;
      total = saturating_add s.total r.dy;
      last_bin = some s.bin_id;
    } in
    if r.used == 0
    then finish s
    else if leb (d.output_side b) r.dy
    then again (record paid { bin_id = d.next s.bin_id })
    else finish paid

abbrev pub swapped : Direction → BinState → WalkState → Outcome SingleBinSwap → Round
swapped d b s (returned r) = after_swap d b s r
swapped d b s panicked = leave panicked
swapped d b s out_of_fuel = leave out_of_fuel

abbrev pub priced : Direction → BinState → WalkState → Result PriceError ℕ → Round
priced d b s (ok price) = swapped d b s (d.swap s.remaining b price)
priced d b s (err _) = finish s

abbrev pub visit : DlmmPool → Direction → WalkState → Option BinState → Round
visit pool d s none = skip d s
visit pool d s (some b) =
    if is_empty b
    then skip d s
    else priced d b s (bin_price pool.initial_price pool.factors s.bin_id)

pub walk_round : DlmmPool → Direction → WalkState → Round
walk_round pool d s =
    if ltb 0 s.remaining && d.in_range s.bin_id
    then visit pool d s (get s.bin_id pool.bins)
    else finish s

pub walk : DlmmPool → Direction → ℕ → WalkState → Outcome Quote
unfolding walk_round
walk pool d zero s = out_of_fuel
walk pool d (suc fuel) s = elim (walk_round pool d s) [
  | leave result ↦ result
  | again s' ↦ walk pool d fuel s'
]

abbrev pub unwrap_or : ℤ → Option ℤ → ℤ
unwrap_or default none = default
unwrap_or default (some k) = k

unfoldable pub down : Profile → DlmmPool → Direction
down p pool =
    let min_in_window = unwrap_or pool.active_bin_id (first_key pool.bins) in
    record {
      next = λ bin_id. bin_id -ℤ pos 1;
      in_range = λ bin_id. leb_ℤ min_bin_id bin_id;
      outside_window = λ bin_id. ltb_ℤ bin_id min_in_window;
      swap = λ remaining b price.
          single_bin_swap_x_for_y p remaining b.x b.y price pool.x_protocol_fee pool.x_provider_fee
            pool.x_variable_fee;
      output_side = λ b. b.y;
    }

unfoldable pub up : Profile → DlmmPool → Direction
up p pool =
    let max_in_window = unwrap_or pool.active_bin_id (last_key pool.bins) in
    record {
      next = λ bin_id. bin_id +ℤ pos 1;
      in_range = λ bin_id. leb_ℤ bin_id max_bin_id;
      outside_window = λ bin_id. ltb_ℤ max_in_window bin_id;
      swap = λ remaining b price.
          single_bin_swap_y_for_x p remaining b.x b.y price pool.y_protocol_fee pool.y_provider_fee
            pool.y_variable_fee;
      output_side = λ b. b.x;
    }

abbrev start : DlmmPool → ℕ → WalkState
start pool amount = record {
  remaining = amount;
  bin_id = pool.active_bin_id;
  total = 0;
  last_bin = none;
}

-- The rounds left at a bin: one for each bin id from it to the end of the range.
abbrev pub rounds_down : ℤ → ℕ
rounds_down bin_id = pos_part (bin_id +ℤ pos 501)

abbrev pub rounds_up : ℤ → ℕ
rounds_up bin_id = pos_part (pos 501 -ℤ bin_id)

unfoldable pub quote_x_for_y : Profile → DlmmPool → ℕ → Outcome Quote
unfolding walk down
quote_x_for_y p pool x_amount =
    walk pool (down p pool) (suc (rounds_down pool.active_bin_id)) (start pool x_amount)

unfoldable pub quote_y_for_x : Profile → DlmmPool → ℕ → Outcome Quote
unfolding walk up
quote_y_for_x p pool y_amount =
    walk pool (up p pool) (suc (rounds_up pool.active_bin_id)) (start pool y_amount)
