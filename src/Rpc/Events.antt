-- ===== src/Rpc/Events.antt =====
-- src/rpc/events.rs: a page of a contract's events. SHA-256 is a parameter, and so is the request.
use stacks_dex_pool.Prelude.{ℕ, Bool, true, false, Option, none, some, List, if◌then◌else◌}
use stacks_dex_pool.Prelude.Text.{Text, bytes, text_eq}
use stacks_dex_pool.Prelude.Outcome.{Result}
use stacks_dex_pool.Prelude.Fallible.{Fallible, success, or_else, map_err, collect, ◌>>=◌}
use stacks_dex_pool.Pool.Principal.{Principal}
use stacks_dex_pool.Pool.Event.{StacksEvent}
use stacks_dex_pool.Pool.Address.{from_str}
use stacks_dex_pool.Codec.Clarity.{
  ClarityValue, Fields, no_fields, lookup, tuple, string_ascii, string_utf8,
}
use stacks_dex_pool.Codec.Decode.{cv_decode}
use stacks_dex_pool.Rpc.Hex.{hex_decode, strip_0x}
use stacks_dex_pool.Rpc.Response.{RpcError, Response, answered, hex_error, value_of}

pub record EventEnvelope : Type 0 where
  pub tx_id : Text
  pub event_index : ℕ
  pub raw_payload : Option ClarityValue
  pub decoded : Option StacksEvent

-- `ContractLog`, with the `hex` of its value.
pub record ContractLog : Type 0 where
  pub topic : Text
  pub hex : Option Text

pub record RawEvent : Type 0 where
  pub tx_id : Text
  pub event_index : ℕ
  pub contract_log : Option ContractLog

abbrev string_of : Option ClarityValue → Option Text
string_of (some (string_ascii s)) = some s
string_of (some (string_utf8 s)) = some s
string_of _ = none

abbrev with_op : Bool → Option Text → Option (Text × Bool)
with_op used_op none = none
with_op used_op (some s) = some (s, used_op)

abbrev or_other : {A : Type 0} → Option A → Option A → Option A
or_other (some a) b = some a
or_other none b = b

-- The action, and whether it was read from `op`.
unfoldable pub read_action_or_op : Fields → Option (Text × Bool)
read_action_or_op top =
    or_other (with_op false (string_of (lookup (bytes "action") top)))
      (with_op true (string_of (lookup (bytes "op") top)))

abbrev pub nested_data : Option ClarityValue → Fields
nested_data (some (tuple d)) = d
nested_data _ = no_fields

abbrev decoded_action : Principal → Text → ℕ → Fields → Option (Text × Bool) → Option StacksEvent
decoded_action emitter tx_id event_index top none = none
decoded_action emitter tx_id event_index top (some (action, used_op)) = some (record {
  emitter = emitter;
  tx_id = tx_id;
  event_index = event_index;
  action = action;
  fields = if used_op then top else nested_data (lookup (bytes "data") top);
})

unfoldable pub decode_print_payload : Principal → Text → ℕ → ClarityValue → Option StacksEvent
decode_print_payload emitter tx_id event_index (tuple top) =
    decoded_action emitter tx_id event_index top (read_action_or_op top)
decode_print_payload emitter tx_id event_index _ = none

-- An event without a payload that counts.
abbrev bare : RawEvent → EventEnvelope
bare r = record { tx_id = r.tx_id; event_index = r.event_index; raw_payload = none; decoded = none }

-- The `hex` of a `print` log.
abbrev print_hex : Option ContractLog → Option Text
print_hex none = none
print_hex (some cl) = if text_eq cl.topic (bytes "print") then cl.hex else none

-- `hex_decode` of a value without its prefix, and `cv_decode`.
unfoldable pub decode_hex : Text → Fallible RpcError ClarityValue
decode_hex hex = do
  bytes ← hex_error (hex_decode (strip_0x hex))
  (payload, _) ← value_of (cv_decode bytes 0)
  success payload

abbrev parse_print : Principal → RawEvent → Option Text → Fallible RpcError EventEnvelope
parse_print emitter r none = success (bare r)
parse_print emitter r (some hex) = do
  payload ← decode_hex hex
  success (record {
    tx_id = r.tx_id;
    event_index = r.event_index;
    raw_payload = some payload;
    decoded = decode_print_payload emitter r.tx_id r.event_index payload;
  })

unfoldable pub parse_envelope : Principal → RawEvent → Fallible RpcError EventEnvelope
parse_envelope emitter r = parse_print emitter r (print_hex r.contract_log)

module _ (sha256 : List ℕ → List ℕ) where
  -- `get` is the request for the events of a contract, a limit and an offset.
  unfoldable pub fetch_events_page :
      (Text → ℕ → ℕ → Result RpcError (Response (List RawEvent)))
      → Text
      → (limit offset : ℕ) → Fallible RpcError (List EventEnvelope)
  fetch_events_page get contract_id limit offset = do
    results ← answered (get contract_id limit offset)
    emitter ← map_err RpcError.bad_contract_id (from_str sha256 contract_id)
    collect (parse_envelope emitter) results

-- `get` is the request for a transaction, and the body its `block_height`.
unfoldable pub fetch_tx_block_height :
    (Text → Result RpcError (Response (Option ℕ))) → Text → Fallible RpcError ℕ
fetch_tx_block_height get tx_id = do
  block_height ← answered (get tx_id)
  or_else RpcError.missing_field block_height
