-- ===== src/Rpc/Response.antt =====
-- What a request of src/rpc ends in. Sending, JSON and the formatting of URLs are other packages':
-- a request is an argument, and its answer a status and what its body parses to.
use stacks_dex_pool.Prelude.{ℕ, Bool, ◌&&◌, not, Option, leb, ◌==◌}
use stacks_dex_pool.Prelude.Outcome.{Outcome, returned, panicked, out_of_fuel, Result}
use stacks_dex_pool.Prelude.Fallible.{Fallible, success, failure, map_err, ensure, or_else, ◌>>=◌}
use stacks_dex_pool.Codec.Clarity.{ClarityValue, ShapeError}
use stacks_dex_pool.Codec.Decode.{Decoded, decoded, failed, DecodeError}
use stacks_dex_pool.Pool.Address.{PrincipalError}
use stacks_dex_pool.Rpc.Hex.{HexError}

pub data RpcError : Type 0 where
  send_failed rate_limited bad_json missing_field not_okay : RpcError
  no_pool token_mismatch not_a_contract out_of_range : RpcError
  http_status : ℕ → RpcError
  unexpected : ClarityValue → RpcError
  bad_contract_id : PrincipalError → RpcError
  bad_hex : HexError → RpcError
  bad_value : DecodeError → RpcError
  bad_shape : ShapeError → RpcError

-- The body is missing if it does not parse.
pub record Response (B : Type 0) : Type 0 where
  pub status : ℕ
  pub body : Option B

-- `StatusCode::is_success`.
abbrev pub is_success : ℕ → Bool
is_success status = leb 200 status && leb status 299

-- The checks that every GET makes: 429 first, then the other failures, then the body.
unfoldable pub answered : {B : Type 0} → Result RpcError (Response B) → Fallible RpcError B
answered sent = do
  resp ← returned sent
  _ ← ensure (not (resp.status == 429)) RpcError.rate_limited
  _ ← ensure (is_success resp.status) (RpcError.http_status resp.status)
  or_else RpcError.bad_json resp.body

abbrev pub hex_error : {A : Type 0} → Fallible HexError A → Fallible RpcError A
hex_error (returned r) = map_err RpcError.bad_hex r
hex_error panicked = panicked
hex_error out_of_fuel = out_of_fuel

abbrev pub value_of : {A : Type 0} → Decoded A → Fallible RpcError A
value_of (decoded a) = success a
value_of (failed e) = failure (RpcError.bad_value e)
value_of Decoded.out_of_fuel = Outcome.out_of_fuel
