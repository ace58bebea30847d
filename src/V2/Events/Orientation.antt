-- ===== src/V2/Events/Orientation.antt =====
-- The two orders in which a Velar pair can be mirrored: they quote and follow events alike.
use stacks_dex_pool.Prelude.{ℕ, not, ◌≡◌, arith}
use stacks_dex_pool.Pool.Event.{StacksEvent}
use stacks_dex_pool.V2.Velar.{VelarPool, quote_x_for_y, quote_y_for_x}
use stacks_dex_pool.V2.Events.{apply_velar_event}

-- The same pair with its tokens listed in the other order.
unfoldable pub mirrored : VelarPool → VelarPool
mirrored pool = record pool {
  x_token = pool.y_token;
  y_token = pool.x_token;
  x_decimals = pool.y_decimals;
  y_decimals = pool.x_decimals;
  reserve_x = pool.reserve_y;
  reserve_y = pool.reserve_x;
  flipped = not pool.flipped;
}

-- Mirroring a pair in the other order makes no difference: the quotes of the two directions trade
-- places, and after any event the two mirrors are again mirrors of each other.
pub velar_orientation :
    (pool : VelarPool) (event : StacksEvent)
    → ((amount : ℕ) → quote_x_for_y (mirrored pool) amount ≡ quote_y_for_x pool amount)
      × ((apply_velar_event (mirrored pool) event).0 ≡ mirrored (apply_velar_event pool event).0)
      × ((apply_velar_event (mirrored pool) event).1 ≡ (apply_velar_event pool event).1)
unfolding mirrored quote_x_for_y quote_y_for_x apply_velar_event
velar_orientation pool event = ground arith
