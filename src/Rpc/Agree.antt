-- ===== src/Rpc/Agree.antt =====
-- Both event sources read a payload in the same way.
use stacks_dex_pool.Prelude.{ℕ, ◌≡◌, refl, arith}
use stacks_dex_pool.Prelude.Text.{Text}
use stacks_dex_pool.Pool.Principal.{Principal}
use stacks_dex_pool.Codec.Clarity.{ClarityValue, tuple}
use stacks_dex_pool.Rpc.Events
use stacks_dex_pool.Rpc.BlockWalker

-- The decoder of the event pages and that of the block walker make the same event of every payload.
pub decode_print_payload_agree :
    (emitter : Principal) (tx_id : Text) (event_index : ℕ) (payload : ClarityValue)
    → Events.decode_print_payload emitter tx_id event_index payload
      ≡ BlockWalker.decode_print_payload emitter tx_id event_index payload
unfolding Events.decode_print_payload BlockWalker.decode_print_payload Events.read_action_or_op
decode_print_payload_agree emitter tx_id event_index (tuple top) = ground (arith)
decode_print_payload_agree emitter tx_id event_index _ = refl
