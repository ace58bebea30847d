-- ===== src/Rpc/Tests.antt =====
-- The requests of src/rpc at concrete answers of the node.
use stacks_dex_pool.Prelude.{
  ℕ, zero, suc, ◌≡◌, ◌≢◌, ◌<◌, refl, inr, true, none, some, List, [], ◌∷◌, take, drop, replicate,
  arith,
}
use stacks_dex_pool.Prelude.Text.{Text, bytes, text_eq}
use stacks_dex_pool.Prelude.Outcome.{returned, Result, ok, checked}
use stacks_dex_pool.Prelude.Fallible.{success, failure}
use stacks_dex_pool.Pool.Principal.{Principal, contract}
use stacks_dex_pool.Pool.Address.{from_str, contract_at, split_once, is_ascii}
use stacks_dex_pool.Codec.Clarity.{tuple, lookup}
use stacks_dex_pool.Codec.Encode.{cv_encode}
use stacks_dex_pool.Codec.C32Check.{
  stacks_addr_decode, c32check_decode, c32_index, leading, shift_all, shift_in, push_carry,
  shift_bytes, checksum,
}
use stacks_dex_pool.Codec.Samples.{payload, printed, printed-IsEncodable, hashed}
use stacks_dex_pool.Rpc.Hex.{HexError, hex, hex_decode, strip_0x, hex_pairs, cuts, from_str_radix}
use stacks_dex_pool.Rpc.Response.{RpcError, Response}
use stacks_dex_pool.Rpc.Events.{RawEvent, parse_envelope, fetch_events_page, decode_hex}
use stacks_dex_pool.Rpc.BlockWalker.{
  RawTx, TxPage, BlockTransaction, decode_txs, decode_tx, decode_events, fetch_pages,
}
use stacks_dex_pool.Rpc.Client.{
  RpcConfig, CallReadEnvelope, is_limited, attempts, call_result, finished,
}
use stacks_dex_pool.Rpc.Client.Retry.{attempts_lem}
use stacks_dex_pool.Rpc.BlockWalker.Pages.{fetch_block_transactions-listed}
use stacks_dex_pool.Rpc.Delivery.{parse_envelope-cv_encode, fetch_events_page_spoiled}

abbrev emitter : Principal
emitter = contract 22 (replicate 20 0) (bytes "pool")

abbrev print_event : Text → RawEvent
print_event printed_hex = record {
  tx_id = bytes "0x01";
  event_index = 3;
  contract_log = some (record { topic = bytes "print"; hex = some printed_hex });
}

abbrev swap_event : RawEvent
swap_event = print_event (0x30 ∷ 0x78 ∷ hex (cv_encode (tuple printed)))

parse_envelope-cv_encode_example :
    parse_envelope emitter swap_event
    ≡ success (record {
      tx_id = bytes "0x01";
      event_index = 3;
      raw_payload = some (tuple printed);
      decoded = some (record {
        emitter = emitter;
        tx_id = bytes "0x01";
        event_index = 3;
        action = bytes "swap";
        fields = payload;
      });
    })
unfolding lookup text_eq bytes
parse_envelope-cv_encode_example =
    parse_envelope-cv_encode emitter swap_event printed payload (bytes "swap") printed-IsEncodable
      refl refl refl

abbrev bad_event : RawEvent
bad_event = print_event (bytes "0xzz")

abbrev served : Text → ℕ → ℕ → Result RpcError (Response (List RawEvent))
served contract_id limit offset =
    ok (record { status = 200; body = some (swap_event ∷ bad_event ∷ []) })

abbrev contract_id : Text
contract_id = bytes "SP000000000000000000003GE1R7.pool"

known : from_str hashed contract_id ≡ ok emitter
unfolding from_str bytes split_once contract_at stacks_addr_decode c32_index c32check_decode
    shift_all leading shift_in push_carry shift_bytes text_eq checksum is_ascii
known = refl

fails : parse_envelope emitter bad_event ≡ failure (RpcError.bad_hex HexError.bad_digit)
unfolding parse_envelope bytes text_eq decode_hex hex_decode strip_0x hex_pairs cuts from_str_radix
fails = refl

fetch_events_page_spoiled_example : fetch_events_page hashed served contract_id 50 0 ≢ success []
fetch_events_page_spoiled_example =
    fetch_events_page_spoiled hashed served contract_id 50 0 emitter (swap_event ∷ []) [] bad_event
      (RpcError.bad_hex HexError.bad_digit) refl known fails []

abbrev raw_tx : ℕ → RawTx
raw_tx id = record {
  tx_id = id ∷ [];
  tx_type = bytes "token_transfer";
  contract_call = none;
  events = [];
  event_count = 0;
}

abbrev transaction : ℕ → BlockTransaction
transaction id = record {
  tx_id = id ∷ [];
  contract_call_target = none;
  event_count = 0;
  events = [];
}

abbrev listed : List RawTx
listed = raw_tx 1 ∷ raw_tx 2 ∷ raw_tx 3 ∷ []

abbrev pages : ℕ → Result RpcError (Response TxPage)
pages offset = ok (record {
  status = 200;
  body = some (record { total = 3; results = take 2 (drop offset listed) });
})

listed_decodes :
    decode_txs hashed listed ≡ returned (transaction 1 ∷ transaction 2 ∷ transaction 3 ∷ [])
unfolding decode_txs decode_tx decode_events text_eq bytes
listed_decodes = refl

fetch_block_transactions-listed_example :
    fetch_pages hashed checked pages 2 4 0 []
    ≡ success (transaction 1 ∷ transaction 2 ∷ transaction 3 ∷ [])
fetch_block_transactions-listed_example =
    fetch_block_transactions-listed hashed checked pages 2 listed (λ offset. refl) (omega arith)
      (omega arith) (transaction 1 ∷ transaction 2 ∷ transaction 3 ∷ []) listed_decodes

abbrev config : RpcConfig
config = record { max_retries = 3; backoff = 500; sender = bytes "SP000000000000000000002Q6VF78" }

-- Two answers 429, and then a value.
abbrev node : ℕ → Result RpcError (Response CallReadEnvelope)
node zero = ok (record { status = 429; body = none })
node (suc zero) = ok (record { status = 429; body = none })
node _ =
    ok (record { status = 200; body = some (record { okay = true; result = some (bytes "0x03") }) })

busy : (k : ℕ) → k < 2 → is_limited (node k) ≡ true
busy zero h = refl
busy (suc zero) h = refl
busy (suc (suc k)) h = absurd (omega arith)

attempts_lem_example :
    attempts call_result config node 3 0
    ≡ record { waits = 500 ∷ 1000 ∷ []; ended = finished call_result (node 2) }
attempts_lem_example = attempts_lem call_result config node 2 (omega arith) busy (inr refl)
