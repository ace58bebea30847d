-- ===== src/Stableswap/Fetch.antt =====
-- src/stableswap/fetcher.rs: the first state of the stable pools. SHA-256, the client and the tokens'
-- decimals are parameters.
use stacks_dex_pool.Prelude.{ℕ, ◌-◌, ◌%◌, true, none, List, [], ◌∷◌, ◌&&◌, ltb, leb, if◌then◌else◌}
use stacks_dex_pool.Prelude.Text.{Text, bytes}
use stacks_dex_pool.Prelude.Word.{u32_size, u128_size}
use stacks_dex_pool.Prelude.Outcome.{Outcome, returned, panicked, out_of_fuel, Profile, add_word}
use stacks_dex_pool.Prelude.Fallible.{Fallible, success, failure, ensure, ◌>>=◌}
use stacks_dex_pool.Pool.Principal.{Principal, principal_eq}
use stacks_dex_pool.Codec.Clarity.{ClarityValue, optional_none, optional_some, response_ok, as_uint}
use stacks_dex_pool.Codec.Encode.{cv_principal}
use stacks_dex_pool.Rpc.Response.{RpcError}
use stacks_dex_pool.Rpc.Reads.{
  Client, shaped, lifted, or_default, call_ok, field_uint, field_uint_or, field_principal,
  field_bool_or, as_u32, principal_parts,
}
use stacks_dex_pool.Stableswap.BitflowV1.{
  BitflowStableSwapV1Pool, Sig, stx_anchored, token_pair, MathVariant,
}
use stacks_dex_pool.Stableswap.BitflowV2.{BitflowStableSwapV2Pool}

-- The fees of a tuple, each 0 if it is missing, added as `u128`.
unfoldable pub sum_fields : Profile → ClarityValue → ℕ → List Text → Outcome ℕ
sum_fields p v total [] = returned total
sum_fields p v total (key ∷ keys) = elim (add_word p u128_size total (field_uint_or 0 v key)) [
  | returned sum ↦ sum_fields p v sum keys
  | panicked ↦ panicked
  | out_of_fuel ↦ out_of_fuel
]

abbrev fits_u32 : ℕ → Fallible RpcError ℕ
fits_u32 total = if leb total (u32_size - 1) then success total else failure RpcError.out_of_range

unfoldable pub sum_three_way : Profile → ClarityValue → Fallible RpcError ℕ
sum_three_way p v = do
  total ← lifted (sum_fields p v 0 (bytes "lps" ∷ bytes "stacking-dao" ∷ bytes "bitflow" ∷ []))
  fits_u32 total

unfoldable pub sum_two_way : Profile → ClarityValue → Fallible RpcError ℕ
sum_two_way p v = do
  total ← lifted (sum_fields p v 0 (bytes "lps" ∷ bytes "protocol" ∷ []))
  fits_u32 total

-- The optional of `get-pair-data`, bare or in a response.
abbrev pair_data : ClarityValue → Fallible RpcError ClarityValue
pair_data (optional_some inner) = success inner
pair_data optional_none = failure RpcError.no_pool
pair_data (response_ok (optional_some inner)) = success inner
pair_data (response_ok optional_none) = failure RpcError.no_pool
pair_data (response_ok other) = success other
pair_data other = failure (RpcError.unexpected other)

-- The arguments of `get-pair-data` in the two generations of the contract.
abbrev pair_args : Sig → (x_token y_token lp_token : Principal) → List (List ℕ)
pair_args stx_anchored x_token y_token lp_token = cv_principal y_token ∷ cv_principal lp_token ∷ []
pair_args token_pair x_token y_token lp_token =
    cv_principal x_token ∷ cv_principal y_token ∷ cv_principal lp_token ∷ []

-- `as u8`.
abbrev as_u8 : ℕ → ℕ
as_u8 n = n % 256

module _ (sha256 : List ℕ → List ℕ) (p : Profile) (client : Client)
    (decimals : Principal → Fallible RpcError ℕ) where
  unfoldable pub fetch_bitflow_v2_stable_pool :
      (pool_contract expected_x_token expected_y_token : Principal)
      → Fallible RpcError BitflowStableSwapV2Pool
  fetch_bitflow_v2_stable_pool pool_contract expected_x_token expected_y_token = do
    (deployer, name) ← principal_parts sha256 pool_contract
    raw ← call_ok client deployer name (bytes "get-pool") []
    x_balance ← field_uint raw (bytes "x-balance")
    y_balance ← field_uint raw (bytes "y-balance")
    x_protocol_fee ← field_uint raw (bytes "x-protocol-fee")
    x_provider_fee ← field_uint raw (bytes "x-provider-fee")
    y_protocol_fee ← field_uint raw (bytes "y-protocol-fee")
    y_provider_fee ← field_uint raw (bytes "y-provider-fee")
    amp ← field_uint raw (bytes "amplification-coefficient")
    core_contract ← field_principal raw (bytes "core-address")
    on_chain_x ← field_principal raw (bytes "x-token")
    on_chain_y ← field_principal raw (bytes "y-token")
    _ ←
        ensure
          (principal_eq on_chain_x expected_x_token && principal_eq on_chain_y expected_y_token)
          RpcError.token_mismatch
    x_decimals ← decimals expected_x_token
    y_decimals ← decimals expected_y_token
    success (record {
      pool_contract = pool_contract;
      core_contract = core_contract;
      x_token = expected_x_token;
      y_token = expected_y_token;
      x_decimals = x_decimals;
      y_decimals = y_decimals;
      x_balance = x_balance;
      y_balance = y_balance;
      x_protocol_fee_bps = as_u32 x_protocol_fee;
      x_provider_fee_bps = as_u32 x_provider_fee;
      y_protocol_fee_bps = as_u32 y_protocol_fee;
      y_provider_fee_bps = as_u32 y_provider_fee;
      amp = amp;
      threshold = field_uint_or 2 raw (bytes "convergence-threshold");
      midpoint_num = field_uint_or 1 raw (bytes "midpoint-primary-numerator");
      midpoint_den = field_uint_or 1 raw (bytes "midpoint-primary-denominator");
      pool_status = field_bool_or true raw (bytes "pool-status");
      last_tx_id = none;
    })

  -- The fees of the two directions.
  unfoldable pub fetch_fees : Sig → (deployer name : Text) → Fallible RpcError (ℕ × ℕ)
  fetch_fees stx_anchored deployer name = do
    buy ← client.data_var deployer name (bytes "buy-fees")
    sell ← client.data_var deployer name (bytes "sell-fees")
    buy_fee ← sum_three_way p buy
    sell_fee ← sum_three_way p sell
    success (buy_fee, sell_fee)
  fetch_fees token_pair deployer name = do
    swap ← client.data_var deployer name (bytes "swap-fees")
    total ← sum_two_way p swap
    success (total, total)

  -- The decimals of the contract, or those of the tokens if one of them is 0.
  abbrev decimals_or :
      (x_decimals y_decimals : ℕ) → (x_token y_token : Principal) → Fallible RpcError (ℕ × ℕ)
  decimals_or x_decimals y_decimals x_token y_token =
      let looked_up = do x ← decimals x_token; y ← decimals y_token; success (x, y)
      in if ltb 0 x_decimals && ltb 0 y_decimals
        then success (x_decimals, y_decimals)
        else looked_up

  abbrev threshold_of : Fallible RpcError ClarityValue → ℕ
  threshold_of read = or_default 2 (read >>= λ v. shaped (as_uint v))

  unfoldable pub fetch_bitflow_v1_stable_pool :
      (pool_contract lp_token expected_x_token expected_y_token : Principal)
      → Sig
      → MathVariant
      → Fallible RpcError BitflowStableSwapV1Pool
  fetch_bitflow_v1_stable_pool pool_contract lp_token expected_x_token expected_y_token sig
        variant =
      do
        (deployer, name) ← principal_parts sha256 pool_contract
        outer ←
            client.call_read deployer name (bytes "get-pair-data")
              (pair_args sig expected_x_token expected_y_token lp_token)
        inner ← pair_data outer
        x_balance ← field_uint inner (bytes "balance-x")
        y_balance ← field_uint inner (bytes "balance-y")
        x_reported ← field_uint inner (bytes "x-decimals")
        y_reported ← field_uint inner (bytes "y-decimals")
        amp ← field_uint inner (bytes "amplification-coefficient")
        (buy_fee_bps, sell_fee_bps) ← fetch_fees sig deployer name
        (x_decimals, y_decimals) ←
            decimals_or (as_u8 x_reported) (as_u8 y_reported) expected_x_token expected_y_token
        success (record {
          pool_contract = pool_contract;
          lp_token = lp_token;
          x_token = expected_x_token;
          y_token = expected_y_token;
          x_decimals = x_decimals;
          y_decimals = y_decimals;
          x_balance = x_balance;
          y_balance = y_balance;
          amp = amp;
          threshold = threshold_of (client.data_var deployer name (bytes "convergence-threshold"));
          buy_fee_bps = buy_fee_bps;
          sell_fee_bps = sell_fee_bps;
          sig = sig;
          variant = variant;
          approval = field_bool_or true inner (bytes "approval");
          last_tx_id = none;
        })
