-- ===== src/Rpc/Client.antt =====
-- src/rpc/client.rs: read-only calls. Sending a request is a parameter, which answers each attempt;
-- waits are in the unit of `backoff`, and listed.
pub mod Retry
use mathlib.Core.Option
use stacks_dex_pool.Prelude.{
  ℕ, zero, suc, ◌+◌, ◌*◌, Bool, Option, none, some, List, [], ◌∷◌, ◌&&◌, not, ◌==◌, if◌then◌else◌,
  map,
}
use stacks_dex_pool.Prelude.Text.{Text}
use stacks_dex_pool.Prelude.Outcome.{returned, Result, ok, err}
use stacks_dex_pool.Prelude.Fallible.{Fallible, success, failure, or_else, ensure, ◌>>=◌}
use stacks_dex_pool.Codec.Clarity.{ClarityValue}
use stacks_dex_pool.Rpc.Hex.{hex, strip_0x}
use stacks_dex_pool.Rpc.Response.{RpcError, Response, is_success}
use stacks_dex_pool.Rpc.Events.{decode_hex}

-- The fields of `RpcConfig` that a request reads.
pub record RpcConfig : Type 0 where
  pub max_retries : ℕ
  pub backoff : ℕ
  pub sender : Text

-- What the URL and the body of a call say.
pub record CallRead : Type 0 where
  pub deployer : Text
  pub contract_name : Text
  pub function : Text
  pub tip : Option Text
  pub sender : Text
  pub arguments : List Text

pub record CallReadEnvelope : Type 0 where
  pub okay : Bool
  pub result : Option Text

-- The waits of a request, and how it ended.
pub record Attempted : Type 0 where
  pub waits : List ℕ
  pub ended : Fallible RpcError ClarityValue

abbrev pub is_limited : {B : Type 0} → Result RpcError (Response B) → Bool
is_limited (ok resp) = resp.status == 429
is_limited (err e) = Bool.false

-- The end of an attempt that is not repeated.
unfoldable pub finished :
    {B : Type 0}
    → (B → Fallible RpcError Text)
    → Result RpcError (Response B)
    → Fallible RpcError ClarityValue
finished payload sent = do
  resp ← returned sent
  _ ← ensure (is_success resp.status) (RpcError.http_status resp.status)
  env ← or_else RpcError.bad_json resp.body
  hex ← payload env
  decode_hex hex

module _ {B : Type 0} (payload : B → Fallible RpcError Text) (config : RpcConfig)
    (answer : ℕ → Result RpcError (Response B)) where
  -- The loop on 429, for the retries that are left.
  unfoldable pub attempts : (retries_left attempt : ℕ) → Attempted
  attempts zero attempt = record { waits = []; ended = finished payload (answer attempt) }
  attempts (suc retries_left) attempt =
      let later = attempts retries_left (attempt + 1) in
      if is_limited (answer attempt)
      then record { waits = config.backoff * (attempt + 1) ∷ later.waits; ended = later.ended }
      else record { waits = []; ended = finished payload (answer attempt) }

abbrev pub call_result : CallReadEnvelope → Fallible RpcError Text
call_result env = do
  _ ← ensure env.okay RpcError.not_okay
  or_else RpcError.missing_field env.result

abbrev request_of :
    RpcConfig → (deployer contract_name function : Text) → List (List ℕ) → Option Text → CallRead
request_of config deployer contract_name function args tip = record {
  deployer = deployer;
  contract_name = contract_name;
  function = function;
  tip = Option.map strip_0x tip;
  sender = config.sender;
  arguments = map (λ arg. 0x30 ∷ 0x78 ∷ hex arg) args;
}

-- `post` sends a call, and is told how often it was sent before.
unfoldable pub call_read :
    RpcConfig
    → (CallRead → ℕ → Result RpcError (Response CallReadEnvelope))
    → (deployer contract_name function : Text) → List (List ℕ)
    → Option Text
    → Attempted
call_read config post deployer contract_name function args tip =
    attempts call_result config (post (request_of config deployer contract_name function args tip))
      config.max_retries 0

-- The body is the `data` of the envelope.
unfoldable pub data_var :
    RpcConfig
    → ((deployer contract_name var : Text) → ℕ → Result RpcError (Response (Option Text)))
    → (deployer contract_name var : Text) → Attempted
data_var config get deployer contract_name var =
    attempts (or_else RpcError.missing_field) config (get deployer contract_name var)
      config.max_retries 0
