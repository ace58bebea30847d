-- ===== src/Pool/Event.antt =====
-- src/pool/event.rs: decoded events and the topics that the collector subscribes to.
use stacks_dex_pool.Prelude.{ℕ, Option, none, some}
use stacks_dex_pool.Prelude.Int.{ℤ}
use stacks_dex_pool.Prelude.Text.{Text}
use stacks_dex_pool.Pool.Principal.{Principal}
use stacks_dex_pool.Codec.Clarity.{ClarityValue, Fields, lookup, int, uint, principal}

pub record StacksEvent : Type 0 where
  pub emitter : Principal
  pub tx_id : Text
  pub event_index : ℕ
  pub action : Text
  pub fields : Fields

abbrev uint_of : Option ClarityValue → Option ℕ
uint_of (some (uint n)) = some n
uint_of _ = none

abbrev int_of : Option ClarityValue → Option ℤ
int_of (some (int n)) = some n
int_of _ = none

abbrev pub principal_of : Option ClarityValue → Option Principal
principal_of (some (principal p)) = some p
principal_of _ = none

unfoldable pub data_uint : StacksEvent → Text → Option ℕ
data_uint event key = uint_of (lookup key event.fields)

unfoldable pub data_int : StacksEvent → Text → Option ℤ
data_int event key = int_of (lookup key event.fields)

unfoldable pub data_principal : StacksEvent → Text → Option Principal
data_principal event key = principal_of (lookup key event.fields)

pub record StacksTopic : Type 0 where
  pub contract : Principal
  pub action : Text
