-- ===== src/Pool/Base.antt =====
-- src/pool/base.rs: what every kind of pool answers.
use stacks_dex_pool.Prelude.{ℕ, Bool, ◌||◌, if◌then◌else◌}
use stacks_dex_pool.Prelude.Outcome.{Result, ok, err}
use stacks_dex_pool.Pool.Principal.{Principal, principal_eq}

pub data PoolType : Type 0 where
  bitflow_dlmm stacks_uniswap_v2 bitflow_stable_swap : PoolType

-- The errors of `calculate_output` and of the quotes behind it.
pub data PoolError : Type 0 where
  token_mismatch : Principal → PoolError
  unsupported_factor : ℕ → PoolError

-- `contains_token`, for the two tokens of a pool.
unfoldable pub contains_token : (x_token y_token token : Principal) → Bool
contains_token x_token y_token token = principal_eq token x_token || principal_eq token y_token

-- The two directions of `calculate_output`, which each kind of pool writes out.
unfoldable pub by_token :
    {A : Type 0} → (x_token y_token token_in : Principal) → A → A → Result PoolError A
by_token x_token y_token token_in x_for_y y_for_x =
    if principal_eq token_in x_token
    then ok x_for_y
    else if principal_eq token_in y_token
    then ok y_for_x
    else err (token_mismatch token_in)
