-- ===== src/Rpc/Delivery.antt =====
-- What a contract prints, from the node's answer to the event.
use stacks_dex_pool.Prelude.{ℕ, ◌≡◌, ◌≢◌, some, List, [], ◌∷◌, ◌++◌}
use mathlib.Core.List.{append-nil}
use stacks_dex_pool.Prelude.Text.{Text, bytes, text_eq_refl}
use stacks_dex_pool.Prelude.Outcome.{Result, ok}
use stacks_dex_pool.Prelude.Fallible.{Fallible, success, failure, ◌>>=◌, >>=-eq-success, collect}
use stacks_dex_pool.Pool.Principal.{Principal}
use stacks_dex_pool.Pool.Address.{from_str}
use stacks_dex_pool.Codec.Clarity.{ClarityValue, Fields, tuple, string_ascii, lookup}
use stacks_dex_pool.Codec.Encode.{cv_encode}
use stacks_dex_pool.Codec.Wire.{IsEncodable}
use stacks_dex_pool.Codec.RoundTrip.{cv_decode-cv_encode}
use stacks_dex_pool.Codec.WrittenBytes.{cv_encode-bytes}
use stacks_dex_pool.Rpc.Hex.{hex, strip_0x, hex_decode-hex}
use stacks_dex_pool.Rpc.Response.{RpcError, Response, answered}
use stacks_dex_pool.Rpc.Events.{
  RawEvent, EventEnvelope, decode_hex, decode_print_payload, read_action_or_op, parse_envelope,
  fetch_events_page,
}

-- The hexadecimal form of a value's encoding, with `0x` before it, decodes to the value.
pub decode_hex-cv_encode :
    (v : ClarityValue) → IsEncodable v → decode_hex (0x30 ∷ 0x78 ∷ hex (cv_encode v)) ≡ success v
unfolding decode_hex strip_0x
decode_hex-cv_encode v h = rw (
  hex_decode-hex (cv_encode v) (cv_encode-bytes v h),
  rw append-nil at (cv_decode-cv_encode [] v [] h),
)

-- The envelope of a print log, once its value decodes.
parse_envelope-print :
    (emitter : Principal) (r : RawEvent) (topic_hex : Text) (v : ClarityValue)
    → r.contract_log ≡ some (record { topic = bytes "print"; hex = some topic_hex })
    → decode_hex topic_hex ≡ success v
    → parse_envelope emitter r
      ≡ success (record {
        tx_id = r.tx_id;
        event_index = r.event_index;
        raw_payload = some v;
        decoded = decode_print_payload emitter r.tx_id r.event_index v;
      })
unfolding parse_envelope
parse_envelope-print emitter r topic_hex v log decodes =
    rw (log, text_eq_refl (bytes "print"), decodes)

-- A print log whose hex is the encoding of a tuple `{ action, data: { … } }` becomes the event with
-- that action and exactly those data fields, from the log's emitter, transaction and index.
pub parse_envelope-cv_encode :
    (emitter : Principal) (r : RawEvent) (printed inner : Fields) (action : Text)
    → IsEncodable (tuple printed)
    → lookup (bytes "action") printed ≡ some (string_ascii action)
    → lookup (bytes "data") printed ≡ some (tuple inner)
    → r.contract_log
      ≡ some (record {
        topic = bytes "print";
        hex = some (0x30 ∷ 0x78 ∷ hex (cv_encode (tuple printed)));
      })
    → parse_envelope emitter r
      ≡ success (record {
        tx_id = r.tx_id;
        event_index = r.event_index;
        raw_payload = some (tuple printed);
        decoded = some (record {
          emitter = emitter;
          tx_id = r.tx_id;
          event_index = r.event_index;
          action = action;
          fields = inner;
        });
      })
unfolding decode_print_payload read_action_or_op
parse_envelope-cv_encode emitter r printed inner action ok_printed has_action has_data log =
    rw (has_action, has_data) at
      (parse_envelope-print emitter r (0x30 ∷ 0x78 ∷ hex (cv_encode (tuple printed)))
        (tuple printed) log (decode_hex-cv_encode (tuple printed) ok_printed))

-- One event whose value does not decode.
collect-fails :
    {E A B : Type 0} (f : A → Fallible E B) (before after : List A) (bad : A) (e : E)
    → f bad ≡ failure e
    → (ys : List B) → collect f (before ++ bad ∷ after) ≢ success ys
unfolding collect
collect-fails f [] after bad e h ys all = cc (rw h at all)
collect-fails f (x ∷ before) after bad e h ys all =
    let rest = collect f (before ++ bad ∷ after) in
    let (y, _, more) = >>=-eq-success (f x) (λ y. rest >>= λ zs. success (y ∷ zs)) ys all in
    let (zs, later, _) = >>=-eq-success rest (λ zs. success (y ∷ zs)) ys more in
    collect-fails f before after bad e h zs later

-- If one event of a page has a value that does not decode, the request for the page gives no events
-- at all, whatever the others are.
pub fetch_events_page_spoiled :
    (sha256 : List ℕ → List ℕ) (get : Text → ℕ → ℕ → Result RpcError (Response (List RawEvent)))
    (contract_id : Text) (limit offset : ℕ) (emitter : Principal) (before after : List RawEvent)
    (bad : RawEvent) (e : RpcError)
    → get contract_id limit offset
      ≡ ok (record { status = 200; body = some (before ++ bad ∷ after) })
    → from_str sha256 contract_id ≡ ok emitter
    → parse_envelope emitter bad ≡ failure e
    → (envelopes : List EventEnvelope)
    → fetch_events_page sha256 get contract_id limit offset ≢ success envelopes
unfolding fetch_events_page answered
fetch_events_page_spoiled sha256 get contract_id limit offset emitter before after bad e sent known
      fails envelopes all =
    collect-fails (parse_envelope emitter) before after bad e fails envelopes
      (rw (sent, known) at all)
