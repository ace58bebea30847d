-- ===== src/Rpc/BlockWalker.antt =====
-- src/rpc/block_walker.rs: the transactions of a block, and the events of a transaction. SHA-256 and
-- the requests are parameters.
pub mod Pages
use stacks_dex_pool.Prelude.{
  ℕ, zero, suc, ◌+◌, ◌%◌, Bool, true, false, not, Option, none, some, List, [], ◌∷◌, ◌++◌, ltb, leb,
  ◌||◌, ◌==◌, length, map, if◌then◌else◌,
}
use stacks_dex_pool.Prelude.Text.{Text, bytes, text_eq}
use stacks_dex_pool.Prelude.Word.{u32_size}
use stacks_dex_pool.Prelude.Outcome.{
  Outcome, returned, panicked, out_of_fuel, Result, ok, err, Profile, add_word, ◌>>=◌,
}
use stacks_dex_pool.Prelude.Fallible.{Fallible, success, failure, or_else, collect}
use stacks_dex_pool.Pool.Principal.{Principal}
use stacks_dex_pool.Pool.Event.{StacksEvent}
use stacks_dex_pool.Pool.Address.{from_str}
use stacks_dex_pool.Codec.Clarity.{
  ClarityValue, Fields, no_fields, lookup, tuple, string_ascii, string_utf8,
}
use stacks_dex_pool.Rpc.Response.{RpcError, Response, answered, is_success}
use stacks_dex_pool.Rpc.Events.{decode_hex}

pub record BlockTransaction : Type 0 where
  pub tx_id : Text
  pub contract_call_target : Option Principal
  pub event_count : ℕ
  pub events : List StacksEvent

-- `RawContractLog`, with the `hex` of its value.
pub record RawContractLog : Type 0 where
  pub contract_id : Text
  pub topic : Text
  pub hex : Option Text

pub record RawEvent : Type 0 where
  pub event_type : Text
  pub event_index : ℕ
  pub contract_log : Option RawContractLog

-- `RawTx`, with the `contract_id` of its contract call.
pub record RawTx : Type 0 where
  pub tx_id : Text
  pub tx_type : Text
  pub contract_call : Option Text
  pub events : List RawEvent
  pub event_count : ℕ

pub record TxPage : Type 0 where
  pub total : ℕ
  pub results : List RawTx

-- The closure `try_field`.
abbrev try_field : Option ClarityValue → Option Text
try_field (some (string_ascii s)) = some s
try_field (some (string_utf8 s)) = some s
try_field _ = none

abbrev data_of : Bool → Fields → Option ClarityValue → Fields
data_of true top nested = top
data_of false top (some (tuple d)) = d
data_of false top _ = no_fields

abbrev event_of : Principal → Text → ℕ → Fields → Text → Bool → StacksEvent
event_of emitter tx_id event_index top action used_op = record {
  emitter = emitter;
  tx_id = tx_id;
  event_index = event_index;
  action = action;
  fields = data_of used_op top (lookup (bytes "data") top);
}

abbrev action_first : Principal → Text → ℕ → Fields → Option Text → Option Text → Option StacksEvent
action_first emitter tx_id event_index top (some action) op =
    some (event_of emitter tx_id event_index top action false)
action_first emitter tx_id event_index top none (some op) =
    some (event_of emitter tx_id event_index top op true)
action_first emitter tx_id event_index top none none = none

unfoldable pub decode_print_payload : Principal → Text → ℕ → ClarityValue → Option StacksEvent
decode_print_payload emitter tx_id event_index (tuple top) =
    action_first emitter tx_id event_index top (try_field (lookup (bytes "action") top))
      (try_field (lookup (bytes "op") top))
decode_print_payload emitter tx_id event_index _ = none

-- `if let Ok(…)`: an error is passed over.
abbrev or_skip : {A : Type 0} → Result RpcError A → Option A
or_skip (ok a) = some a
or_skip (err e) = none

abbrev parsed_principal : {E : Type 0} → Result E Principal → Option Principal
parsed_principal (ok p) = some p
parsed_principal (err e) = none

-- `RawContractLog` with what is needed of it: the log's contract and its hex value.
abbrev print_log : RawEvent → Option (Text × Text)
print_log ev = elim ev.contract_log [
  | none ↦ none
  | some cl ↦ elim cl.hex [
    | none ↦ none
    | some hex ↦
        if not (text_eq ev.event_type (bytes "smart_contract_log"))
        then none
        else if not (text_eq cl.topic (bytes "print"))
        then none
        else some (cl.contract_id, hex)
  ]
]

module _ (sha256 : List ℕ → List ℕ) where
  abbrev payload_event : Principal → Text → ℕ → Option ClarityValue → Option StacksEvent
  payload_event emitter tx_id event_index none = none
  payload_event emitter tx_id event_index (some payload) =
      decode_print_payload emitter tx_id event_index payload

  abbrev emitted_event : Text → ℕ → Option Principal → Text → Outcome (Option StacksEvent)
  emitted_event tx_id event_index none hex = returned none
  emitted_event tx_id event_index (some emitter) hex = do
    payload ← decode_hex hex
    returned (payload_event emitter tx_id event_index (or_skip payload))

  abbrev logged_event : Text → ℕ → Option (Text × Text) → Outcome (Option StacksEvent)
  logged_event tx_id event_index none = returned none
  logged_event tx_id event_index (some (contract_id, hex)) =
      emitted_event tx_id event_index (parsed_principal (from_str sha256 contract_id)) hex

  abbrev pushed : Option StacksEvent → List StacksEvent → List StacksEvent
  pushed none out = out
  pushed (some event) out = event ∷ out

  -- The loop over the events of a transaction; what does not decode is left out.
  unfoldable pub decode_events : Text → List RawEvent → Outcome (List StacksEvent)
  decode_events tx_id [] = returned []
  decode_events tx_id (ev ∷ evs) = do
    event ← logged_event tx_id ev.event_index (print_log ev)
    events ← decode_events tx_id evs
    returned (pushed event events)

  abbrev called : Option Text → Option Principal
  called none = none
  called (some contract_id) = parsed_principal (from_str sha256 contract_id)

  unfoldable pub decode_tx : RawTx → Outcome BlockTransaction
  decode_tx raw = do
    events ← decode_events raw.tx_id raw.events
    returned (record {
      tx_id = raw.tx_id;
      contract_call_target =
          if text_eq raw.tx_type (bytes "contract_call") then called raw.contract_call else none;
      event_count = raw.event_count;
      events = events;
    })

  unfoldable pub decode_txs : List RawTx → Outcome (List BlockTransaction)
  decode_txs [] = returned []
  decode_txs (raw ∷ raws) = do tx ← decode_tx raw; txs ← decode_txs raws; returned (tx ∷ txs)

  -- `get` is the request for the events of a transaction.
  unfoldable pub fetch_tx_events :
      (Text → Result RpcError (Response (List RawEvent)))
      → Text
      → Fallible RpcError (List StacksEvent)
  fetch_tx_events get tx_id = do
    body ← answered (get tx_id)
    elim body [ ok events ↦ do out ← decode_events tx_id events; success out | err e ↦ failure e ]

-- The answer to a request for a page; a block that is not indexed yet has no page.
unfoldable pub page_answered : Result RpcError (Response TxPage) → Result RpcError (Option TxPage)
page_answered (err e) = err e
page_answered (ok resp) =
    if resp.status == 429
    then err RpcError.rate_limited
    else if resp.status == 404
    then ok none
    else if not (is_success resp.status)
    then err (RpcError.http_status resp.status)
    else elim resp.body [ none ↦ err RpcError.bad_json | some page ↦ ok (some page) ]

module _ (sha256 : List ℕ → List ℕ) (p : Profile) (get : ℕ → Result RpcError (Response TxPage))
    (page_size : ℕ) where
  -- What a page of transactions leads to: the end, or `go_on` from the next offset.
  unfoldable pub after_page :
      (offset : ℕ)
      → List BlockTransaction
      → TxPage
      → (ℕ → List BlockTransaction → Fallible RpcError (List BlockTransaction))
      → Fallible RpcError (List BlockTransaction)
  after_page offset out page go_on = do
    txs ← decode_txs sha256 page.results
    let got = length page.results % u32_size
    let collected = out ++ txs
    let more = do
      reached ← add_word p u32_size offset got
      if leb page.total reached then success collected else go_on reached collected
    if ltb got page_size then success collected else more

  -- The loop over the pages of a block, `get` the request at an offset.
  unfoldable pub fetch_pages :
      (fuel offset : ℕ) → List BlockTransaction → Fallible RpcError (List BlockTransaction)
  fetch_pages zero offset out = out_of_fuel
  fetch_pages (suc fuel) offset out = elim (page_answered (get offset)) [
    | err e ↦ failure e
    | ok none ↦ success []
    | ok (some page) ↦ after_page offset out page (fetch_pages fuel)
  ]
