-- ===== src/V2/Fetch.antt =====
-- src/v2/fetcher.rs: the first state of each kind of constant-product pool. SHA-256, the client and
-- the tokens' decimals are parameters.
pub mod Orientation
use stacks_dex_pool.Prelude.{
  ℕ, Bool, true, false, not, Option, none, some, List, [], ◌∷◌, ◌&&◌, if◌then◌else◌,
}
use stacks_dex_pool.Prelude.Text.{Text, bytes}
use stacks_dex_pool.Prelude.Outcome.{returned, panicked, out_of_fuel, ok, err}
use stacks_dex_pool.Prelude.Fallible.{Fallible, success, failure, or_else, ensure, ◌>>=◌}
use stacks_dex_pool.Pool.Principal.{Principal, principal_eq}
use stacks_dex_pool.Codec.Clarity.{ClarityValue, optional_none, optional_some, response_ok, tuple}
use stacks_dex_pool.Codec.Encode.{cv_principal, cv_uint}
use stacks_dex_pool.Rpc.Response.{RpcError}
use stacks_dex_pool.Rpc.Reads.{
  Client, call_ok, field_value, field_uint, field_principal, field_bool, field_bool_or, as_u32,
  principal_parts,
}
use stacks_dex_pool.V2.Arkadiko.{ArkadikoPool}
use stacks_dex_pool.V2.Velar.{VelarPool}
use stacks_dex_pool.V2.Alex.{AlexPool, constant_product_factor}
use stacks_dex_pool.V2.BitflowXyk.{BitflowXykPool}

-- A tuple inside an optional, or one that the interface flattened out.
abbrev pair_details : ClarityValue → Fallible RpcError (Option ClarityValue)
pair_details optional_none = success none
pair_details (optional_some inner) = success (some inner)
pair_details (tuple t) = success (some (tuple t))
pair_details other = failure (RpcError.unexpected other)

unfoldable pub call_pair_details :
    Client
    → (deployer name : Text) → (left right : Principal) → Fallible RpcError (Option ClarityValue)
call_pair_details client deployer name left right = do
  res ←
      call_ok client deployer name (bytes "get-pair-details")
        (cv_principal left ∷ cv_principal right ∷ [])
  pair_details res

-- The second probe, with the tokens exchanged, after a first that found no pair.
abbrev probed :
    Fallible RpcError (Option ClarityValue)
    → Option ClarityValue
    → Fallible RpcError (ClarityValue × Bool)
probed other_order (some t) = success (t, false)
probed other_order none = do
  found ← other_order
  alt ← or_else RpcError.no_pool found
  success (alt, true)

-- The optional of `lookup-pool`, bare or in a response.
abbrev lookup_result : ClarityValue → Fallible RpcError ClarityValue
lookup_result (optional_some inner) = success inner
lookup_result optional_none = failure RpcError.no_pool
lookup_result (response_ok (optional_some inner)) = success inner
lookup_result (response_ok optional_none) = failure RpcError.no_pool
lookup_result (response_ok other) = success other
lookup_result other = failure (RpcError.unexpected other)

abbrev pool_details : ClarityValue → Fallible RpcError ClarityValue
pool_details (optional_some inner) = success inner
pool_details optional_none = failure RpcError.no_pool
pool_details other = success other

-- `as_bool().unwrap_or(false)`.
abbrev pub bool_or_false : ClarityValue → Bool
bool_or_false (ClarityValue.bool b) = b
bool_or_false _ = false

abbrev retried :
    Fallible RpcError ClarityValue
    → Fallible RpcError ClarityValue
    → Fallible RpcError (ClarityValue × Bool)
retried (returned (ok t)) other_order = success (t, false)
retried (returned (err e)) other_order = do alt ← other_order; success (alt, true)
retried panicked other_order = panicked
retried out_of_fuel other_order = out_of_fuel

module _ (sha256 : List ℕ → List ℕ) (client : Client)
    (decimals : Principal → Fallible RpcError ℕ) where
  unfoldable pub fetch_arkadiko_pool :
      (swap_contract expected_x_token expected_y_token : Principal) → Fallible RpcError ArkadikoPool
  fetch_arkadiko_pool swap_contract expected_x_token expected_y_token = do
    (deployer, name) ← principal_parts sha256 swap_contract
    first ← call_pair_details client deployer name expected_x_token expected_y_token
    (raw, swapped) ←
        probed (call_pair_details client deployer name expected_y_token expected_x_token) first
    raw_balance_x ← field_uint raw (bytes "balance-x")
    raw_balance_y ← field_uint raw (bytes "balance-y")
    swap_token ← field_principal raw (bytes "swap-token")
    x_decimals ← decimals expected_x_token
    y_decimals ← decimals expected_y_token
    success (record {
      pool_contract = swap_contract;
      swap_token = swap_token;
      x_token = expected_x_token;
      y_token = expected_y_token;
      x_decimals = x_decimals;
      y_decimals = y_decimals;
      balance_x = if swapped then raw_balance_y else raw_balance_x;
      balance_y = if swapped then raw_balance_x else raw_balance_y;
      enabled = field_bool_or true raw (bytes "enabled");
      last_tx_id = none;
    })

  unfoldable pub fetch_velar_pool :
      (pool_contract core_contract expected_x_token expected_y_token : Principal)
      → Fallible RpcError VelarPool
  fetch_velar_pool pool_contract core_contract expected_x_token expected_y_token = do
    (core_deployer, core_name) ← principal_parts sha256 core_contract
    outer ←
        client.call_read core_deployer core_name (bytes "lookup-pool")
          (cv_principal expected_x_token ∷ cv_principal expected_y_token ∷ [])
    inner ← lookup_result outer
    flipped_value ← field_value inner (bytes "flipped")
    let flipped = bool_or_false flipped_value
    pool ← field_value inner (bytes "pool")
    reserve0 ← field_uint pool (bytes "reserve0")
    reserve1 ← field_uint pool (bytes "reserve1")
    fee ← field_value pool (bytes "swap-fee")
    fee_num ← field_uint fee (bytes "num")
    fee_den ← field_uint fee (bytes "den")
    lp_token ← field_principal pool (bytes "lp-token")
    x_decimals ← decimals expected_x_token
    y_decimals ← decimals expected_y_token
    success (record {
      pool_contract = pool_contract;
      core_contract = core_contract;
      lp_token = lp_token;
      x_token = expected_x_token;
      y_token = expected_y_token;
      x_decimals = x_decimals;
      y_decimals = y_decimals;
      reserve_x = if flipped then reserve1 else reserve0;
      reserve_y = if flipped then reserve0 else reserve1;
      flipped = flipped;
      fee_num = fee_num;
      fee_den = fee_den;
      last_tx_id = none;
    })

  unfoldable pub call_get_pool_details :
      (deployer name : Text) → (left right : Principal) → Fallible RpcError ClarityValue
  call_get_pool_details deployer name left right = do
    res ←
        call_ok client deployer name (bytes "get-pool-details")
          (cv_principal left ∷ cv_principal right ∷ cv_uint constant_product_factor ∷ [])
    pool_details res

  unfoldable pub fetch_alex_pool :
      (amm_contract expected_x_token expected_y_token : Principal) → Fallible RpcError AlexPool
  fetch_alex_pool amm_contract expected_x_token expected_y_token = do
    (deployer, name) ← principal_parts sha256 amm_contract
    (raw, swapped) ←
        retried (call_get_pool_details deployer name expected_x_token expected_y_token)
          (call_get_pool_details deployer name expected_y_token expected_x_token)
    raw_balance_x ← field_uint raw (bytes "balance-x")
    raw_balance_y ← field_uint raw (bytes "balance-y")
    fee_rate_x ← field_uint raw (bytes "fee-rate-x")
    fee_rate_y ← field_uint raw (bytes "fee-rate-y")
    pool_id ← field_uint raw (bytes "pool-id")
    x_decimals ← decimals expected_x_token
    y_decimals ← decimals expected_y_token
    success (record {
      pool_contract = amm_contract;
      pool_id = pool_id;
      x_token = expected_x_token;
      y_token = expected_y_token;
      x_decimals = x_decimals;
      y_decimals = y_decimals;
      balance_x = if swapped then raw_balance_y else raw_balance_x;
      balance_y = if swapped then raw_balance_x else raw_balance_y;
      factor = constant_product_factor;
      fee_rate_x = if swapped then fee_rate_y else fee_rate_x;
      fee_rate_y = if swapped then fee_rate_x else fee_rate_y;
      last_tx_id = none;
    })

  -- The tokens are taken in the contract's order, and must be the expected ones.
  unfoldable pub fetch_bitflow_xyk_pool :
      (pool_contract expected_x_token expected_y_token : Principal)
      → Fallible RpcError BitflowXykPool
  fetch_bitflow_xyk_pool pool_contract expected_x_token expected_y_token = do
    (deployer, name) ← principal_parts sha256 pool_contract
    raw ← call_ok client deployer name (bytes "get-pool") []
    x_balance ← field_uint raw (bytes "x-balance")
    y_balance ← field_uint raw (bytes "y-balance")
    x_protocol_fee ← field_uint raw (bytes "x-protocol-fee")
    x_provider_fee ← field_uint raw (bytes "x-provider-fee")
    y_protocol_fee ← field_uint raw (bytes "y-protocol-fee")
    y_provider_fee ← field_uint raw (bytes "y-provider-fee")
    core_contract ← field_principal raw (bytes "core-address")
    on_chain_x ← field_principal raw (bytes "x-token")
    on_chain_y ← field_principal raw (bytes "y-token")
    _ ←
        ensure
          (principal_eq on_chain_x expected_x_token && principal_eq on_chain_y expected_y_token)
          RpcError.token_mismatch
    x_decimals ← decimals expected_x_token
    y_decimals ← decimals expected_y_token
    success (record {
      pool_contract = pool_contract;
      core_contract = core_contract;
      x_token = expected_x_token;
      y_token = expected_y_token;
      x_decimals = x_decimals;
      y_decimals = y_decimals;
      x_balance = x_balance;
      y_balance = y_balance;
      x_protocol_fee_bps = as_u32 x_protocol_fee;
      x_provider_fee_bps = as_u32 x_provider_fee;
      y_protocol_fee_bps = as_u32 y_protocol_fee;
      y_provider_fee_bps = as_u32 y_provider_fee;
      pool_status = field_bool_or true raw (bytes "pool-status");
      last_tx_id = none;
    })
