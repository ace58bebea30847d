-- ===== src/Rpc/Reads.antt =====
-- What the bootstraps of the pools read with: the client of src/rpc/client.rs pinned to one tip, the
-- token decimals of src/token_info.rs, and the fields of an answer.
use stacks_dex_pool.Prelude.{ℕ, ◌%◌, Bool, Option, none, some, List, [], ltb, if◌then◌else◌}
use stacks_dex_pool.Prelude.Text.{Text, bytes}
use stacks_dex_pool.Prelude.Word.{u32_size}
use stacks_dex_pool.Prelude.Outcome.{returned, panicked, out_of_fuel, Outcome, Result, ok, err}
use stacks_dex_pool.Prelude.Fallible.{Fallible, success, failure, map_err, ◌>>=◌}
use stacks_dex_pool.Pool.Principal.{Principal, standard, contract}
use stacks_dex_pool.Codec.C32Check.{c32_encode_address}
use stacks_dex_pool.Codec.Clarity.{
  ClarityValue, uint, unwrap_ok, get_field, as_uint, as_bool, as_principal, ShapeError,
}
use stacks_dex_pool.Rpc.Response.{RpcError}

-- The requests: a call of a contract's function with encoded arguments, and a data-var.
pub record Client : Type 0 where
  pub call_read :
      (deployer contract_name function : Text) → List (List ℕ) → Fallible RpcError ClarityValue
  pub data_var : (deployer contract_name var : Text) → Fallible RpcError ClarityValue

abbrev pub shaped : {A : Type 0} → Result ShapeError A → Fallible RpcError A
shaped = map_err RpcError.bad_shape

-- `call_read(…).await?.unwrap_ok()?`.
unfoldable pub call_ok :
    Client
    → (deployer contract_name function : Text) → List (List ℕ)
    → Fallible RpcError ClarityValue
call_ok client deployer contract_name function args = do
  v ← client.call_read deployer contract_name function args
  shaped (unwrap_ok v)

-- `field(key)?` and the conversion of its value.
unfoldable pub field_value : ClarityValue → Text → Fallible RpcError ClarityValue
field_value v key = shaped (get_field v key)

unfoldable pub field_uint : ClarityValue → Text → Fallible RpcError ℕ
field_uint v key = do f ← field_value v key; shaped (as_uint f)

unfoldable pub field_principal : ClarityValue → Text → Fallible RpcError Principal
field_principal v key = do f ← field_value v key; shaped (as_principal f)

-- `field(key).ok().and_then(…).unwrap_or(default)`.
abbrev pub or_default : {A : Type 0} → A → Fallible RpcError A → A
or_default d (returned (ok a)) = a
or_default d _ = d

unfoldable pub field_uint_or : ℕ → ClarityValue → Text → ℕ
field_uint_or d v key = or_default d (field_uint v key)

unfoldable pub field_bool : ClarityValue → Text → Fallible RpcError Bool
field_bool v key = do f ← field_value v key; shaped (as_bool f)

unfoldable pub field_bool_or : Bool → ClarityValue → Text → Bool
field_bool_or d v key = or_default d (field_bool v key)

-- `as u32`.
abbrev pub as_u32 : ℕ → ℕ
as_u32 n = n % u32_size

abbrev pub lifted : {A : Type 0} → Outcome A → Fallible RpcError A
lifted (returned a) = success a
lifted panicked = panicked
lifted out_of_fuel = out_of_fuel

-- `.ok()`; a panic is none of the errors that it drops.
unfoldable pub attempted : {A : Type 0} → Fallible RpcError A → Fallible RpcError (Option A)
attempted (returned (ok a)) = success (some a)
attempted (returned (err e)) = success none
attempted panicked = panicked
attempted out_of_fuel = out_of_fuel

module _ (sha256 : List ℕ → List ℕ) where
  -- The address and the name of a contract.
  unfoldable pub principal_parts : Principal → Fallible RpcError (Text × Text)
  principal_parts (standard _ _) = failure RpcError.not_a_contract
  principal_parts (contract version hash160 name) = do
    deployer ← lifted (c32_encode_address sha256 version hash160)
    success (deployer, name)

  abbrev as_decimals : ClarityValue → Fallible RpcError ℕ
  as_decimals (uint n) = if ltb n 256 then success n else failure RpcError.out_of_range
  as_decimals other = failure (RpcError.unexpected other)

  -- `StacksTokenInfo::decimals` for a token that is not cached; what is read is cached for good.
  unfoldable pub fetch_decimals : Client → Principal → Fallible RpcError ℕ
  fetch_decimals client token = do
    (deployer, contract_name) ← principal_parts token
    inner ← call_ok client deployer contract_name (bytes "get-decimals") []
    as_decimals inner
