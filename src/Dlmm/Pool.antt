-- ===== src/Dlmm/Pool.antt =====
-- src/dlmm/pool.rs: the mirrored state of a pool.
use stacks_dex_pool.Prelude.{ℕ, Option, List, ◌==◌, ◌&&◌, Bool}
use stacks_dex_pool.Prelude.Int.{ℤ}
use stacks_dex_pool.Prelude.Text.{Text}
use stacks_dex_pool.Prelude.Outcome.{Outcome, ◌>>=◌, Profile, add_word}
use stacks_dex_pool.Prelude.Word.{u32_size}
use stacks_dex_pool.BTreeMap.{BTreeMap}
use stacks_dex_pool.Pool.Principal.{Principal}

pub record BinState : Type 0 where
  pub x : ℕ
  pub y : ℕ

-- Keys are signed bin ids; a missing key is an empty bin.
pub record DlmmPool : Type 0 where
  pub pool_contract : Principal
  pub core_contract : Principal
  pub x_token : Principal
  pub y_token : Principal
  pub x_decimals : ℕ
  pub y_decimals : ℕ
  pub bin_step : ℕ
  pub initial_price : ℕ
  pub active_bin_id : ℤ
  pub x_protocol_fee : ℕ
  pub x_provider_fee : ℕ
  pub y_protocol_fee : ℕ
  pub y_provider_fee : ℕ
  pub x_variable_fee : ℕ
  pub y_variable_fee : ℕ
  pub bins : BTreeMap BinState
  pub last_tx_id : Option Text
  pub last_event_at : Option ℕ
  pub factors : List ℕ

pub x_fee_bps : Profile → DlmmPool → Outcome ℕ
x_fee_bps p pool = do
  fixed_fee ← add_word p u32_size pool.x_protocol_fee pool.x_provider_fee
  add_word p u32_size fixed_fee pool.x_variable_fee

pub y_fee_bps : Profile → DlmmPool → Outcome ℕ
y_fee_bps p pool = do
  fixed_fee ← add_word p u32_size pool.y_protocol_fee pool.y_provider_fee
  add_word p u32_size fixed_fee pool.y_variable_fee

-- `b.x == 0 && b.y == 0`.
abbrev pub is_empty : BinState → Bool
is_empty b = b.x == 0 && b.y == 0
