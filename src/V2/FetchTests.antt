-- ===== src/V2/FetchTests.antt =====
-- The bootstrap of an Arkadiko pool in the order that its contract does not have.
use stacks_dex_pool.Prelude.{ℕ, zero, suc, ◌≡◌, refl, some, List, [], ◌∷◌, replicate}
use stacks_dex_pool.Prelude.Text.{Text, bytes, text_eq}
use stacks_dex_pool.Prelude.Fallible.{Fallible, success, failure}
use stacks_dex_pool.Pool.Principal.{Principal, standard, contract, principal_eq}
use stacks_dex_pool.Pool.Event.{StacksEvent, data_uint, data_principal}
use stacks_dex_pool.Codec.Clarity.{
  ClarityValue, no_fields, field, lookup, uint, principal, tuple, optional_none, optional_some,
  response_ok, get_field, as_uint, as_principal, unwrap_ok,
}
use stacks_dex_pool.Codec.Encode.{cv_principal, cv_encode, encode_principal}
use stacks_dex_pool.Codec.C32Check.{
  c32_encode_address, to_digits, checksum, goes_on, leading, digit, alphabet, divide, strip,
}
use stacks_dex_pool.Codec.Samples.{hashed}
use stacks_dex_pool.Rpc.Response.{RpcError}
use stacks_dex_pool.Rpc.Reads.{
  Client, call_ok, field_value, field_uint, field_principal, principal_parts,
}
use stacks_dex_pool.V2.Arkadiko.{ArkadikoPool}
use stacks_dex_pool.V2.Events.{arkadiko_update, arkadiko_indexed_actions, apply_arkadiko_event}
use stacks_dex_pool.V2.Fetch.{call_pair_details, fetch_arkadiko_pool}
use stacks_dex_pool.V2.Fetch.Orientation.{HasPair, Mirrors, arkadiko_flipped}

abbrev left : Principal
left = standard 1 []

abbrev right : Principal
right = standard 2 []

abbrev swap_token : Principal
swap_token = standard 3 []

abbrev swap_contract : Principal
swap_contract = contract 22 (replicate 20 0) (bytes "swap")

abbrev details : ClarityValue
details = tuple (
    field (bytes "balance-x") (uint 100) (
      field (bytes "balance-y") (uint 900)
        (field (bytes "swap-token") (principal swap_token) no_fields)))

-- The contract knows the pair as `(left, right)`.
abbrev answer : List (List ℕ) → ClarityValue
answer ((_ ∷ suc zero ∷ _) ∷ _) = response_ok (optional_some details)
answer _ = response_ok optional_none

abbrev client : Client
client = record {
  call_read = λ deployer contract_name function args. success (answer args);
  data_var = λ deployer contract_name var. failure RpcError.missing_field;
}

abbrev decimals : Principal → Fallible RpcError ℕ
decimals token = success 6

abbrev deployer : Text
deployer = bytes "SP000000000000000000003GE1R7"

deployed : principal_parts hashed swap_contract ≡ success (deployer, bytes "swap")
unfolding principal_parts bytes c32_encode_address to_digits checksum goes_on leading digit alphabet
    divide strip
deployed = refl

pair : HasPair hashed client decimals swap_contract left right swap_token 100 900
unfolding call_pair_details call_ok field_uint field_principal field_value get_field lookup as_uint
    as_principal unwrap_ok cv_principal cv_encode encode_principal text_eq bytes
pair = record {
  deployer = deployer;
  name = bytes "swap";
  raw = details;
  is_contract = deployed;
  unknown = refl;
  known = refl;
  has_x = refl;
  has_y = refl;
  has_token = refl;
}

abbrev event : StacksEvent
event = record {
  emitter = swap_contract;
  tx_id = bytes "0x01";
  event_index = 0;
  action = bytes "swap-x-for-y";
  fields = field (bytes "balance-x") (uint 110) (
      field (bytes "balance-y") (uint 819)
        (field (bytes "swap-token") (principal swap_token) no_fields));
}

updated : arkadiko_update swap_token event ≡ some (110, 819)
unfolding arkadiko_update arkadiko_indexed_actions data_principal data_uint lookup bytes text_eq
    principal_eq
updated = refl

arkadiko_flipped_example :
    (pool : ArkadikoPool) × (fetch_arkadiko_pool hashed client decimals swap_contract right left
      ≡ success pool)
    × (pool.x_token ≡ right)
    × Mirrors pool (apply_arkadiko_event pool event).0 900 100 110 819
arkadiko_flipped_example =
    arkadiko_flipped hashed client decimals swap_contract left right swap_token 100 900 110 819 6 6
      event pair refl refl updated
