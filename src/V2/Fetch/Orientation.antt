-- ===== src/V2/Fetch/Orientation.antt =====
-- A bootstrapped pool and the events that follow, for the two orders of the tokens.
use stacks_dex_pool.Prelude.{ℕ, ◌≡◌, refl, true, none, some, List, [], ◌∷◌, if◌then◌else◌}
use stacks_dex_pool.Prelude.Text.{Text, bytes}
use stacks_dex_pool.Prelude.Fallible.{Fallible, success}
use stacks_dex_pool.Pool.Principal.{Principal}
use stacks_dex_pool.Pool.Event.{StacksEvent}
use stacks_dex_pool.Codec.Clarity.{ClarityValue, optional_some}
use stacks_dex_pool.Codec.Encode.{cv_principal}
use stacks_dex_pool.Rpc.Response.{RpcError}
use stacks_dex_pool.Rpc.Reads.{
  Client, field_value, field_uint, field_principal, field_bool_or, principal_parts,
}
use stacks_dex_pool.V2.Arkadiko.{ArkadikoPool}
use stacks_dex_pool.V2.Velar.{VelarPool}
use stacks_dex_pool.V2.Events.{
  arkadiko_update, apply_arkadiko_event, velar_update, apply_velar_event,
}
use stacks_dex_pool.V2.Fetch.{
  call_pair_details, fetch_arkadiko_pool, fetch_velar_pool, bool_or_false,
}

-- The first state, and the state after an event.
pub record Mirrors (fetched after : ArkadikoPool) (x y x' y' : ℕ) : Type 0 where
  pub balance_x : fetched.balance_x ≡ x
  pub balance_y : fetched.balance_y ≡ y
  pub later_x : after.balance_x ≡ x'
  pub later_y : after.balance_y ≡ y'

module _ (sha256 : List ℕ → List ℕ) (client : Client)
    (decimals : Principal → Fallible RpcError ℕ) where
  -- A contract that has the pair as `(left, right)`, and not the other way round.
  pub record HasPair (swap_contract left right swap_token : Principal) (x y : ℕ) : Type 0 where
    pub deployer : Text
    pub name : Text
    pub raw : ClarityValue
    pub is_contract : principal_parts sha256 swap_contract ≡ success (deployer, name)
    pub unknown : call_pair_details client deployer name right left ≡ success none
    pub known : call_pair_details client deployer name left right ≡ success (some raw)
    pub has_x : field_uint raw (bytes "balance-x") ≡ success x
    pub has_y : field_uint raw (bytes "balance-y") ≡ success y
    pub has_token : field_principal raw (bytes "swap-token") ≡ success swap_token

  -- Let the contract hold `x` of `left` and `y` of `right`, and let a pool be asked for as
  -- `(right, left)`. The bootstrap exchanges the reserves, as it must. A later event with the
  -- contract's reserves `x'` and `y'` is not exchanged: it leaves the reserve of `left` as that of
  -- `right`, and the other way round.
  pub arkadiko_flipped :
      (swap_contract left right swap_token : Principal) (x y x' y' dl dr : ℕ) (event : StacksEvent)
      → HasPair swap_contract left right swap_token x y
      → decimals left ≡ success dl
      → decimals right ≡ success dr
      → arkadiko_update swap_token event ≡ some (x', y')
      → (pool : ArkadikoPool) × (fetch_arkadiko_pool sha256 client decimals swap_contract right left
          ≡ success pool)
        × (pool.x_token ≡ right)
        × Mirrors pool (apply_arkadiko_event pool event).0 y x x' y'
  unfolding fetch_arkadiko_pool apply_arkadiko_event
  arkadiko_flipped swap_contract left right swap_token x y x' y' dl dr event p hl hr update = (
    record {
      pool_contract = swap_contract;
      swap_token = swap_token;
      x_token = right;
      y_token = left;
      x_decimals = dr;
      y_decimals = dl;
      balance_x = y;
      balance_y = x;
      enabled = field_bool_or true p.raw (bytes "enabled");
      last_tx_id = none;
    },
    rw (p.is_contract, p.unknown, p.known, p.has_x, p.has_y, p.has_token, hl, hr) refl,
    refl,
    record {
      balance_x = refl;
      balance_y = refl;
      later_x = rw update refl;
      later_y = rw update refl;
    },
  )

  -- What `lookup-pool` answers for a pair, in the contract's order and with its flag.
  pub record IsListed (core left right : Principal) (flipped : ClarityValue) (r0 r1 : ℕ)
      : Type 0 where
    pub deployer : Text
    pub name : Text
    pub inner : ClarityValue
    pub pool : ClarityValue
    pub fee : ClarityValue
    pub fee_num : ℕ
    pub fee_den : ℕ
    pub lp_token : Principal
    pub is_contract : principal_parts sha256 core ≡ success (deployer, name)
    pub answer :
        client.call_read deployer name
          (bytes "lookup-pool")
          (cv_principal left ∷ cv_principal right ∷ [])
        ≡ success (optional_some inner)
    pub has_flag : field_value inner (bytes "flipped") ≡ success flipped
    pub has_pool : field_value inner (bytes "pool") ≡ success pool
    pub has_r0 : field_uint pool (bytes "reserve0") ≡ success r0
    pub has_r1 : field_uint pool (bytes "reserve1") ≡ success r1
    pub has_fee : field_value pool (bytes "swap-fee") ≡ success fee
    pub has_num : field_uint fee (bytes "num") ≡ success fee_num
    pub has_den : field_uint fee (bytes "den") ≡ success fee_den
    pub has_lp : field_principal pool (bytes "lp-token") ≡ success lp_token

  -- A Velar pool that was bootstrapped, in either order, agrees with its events: an event that
  -- carries the reserves which were read at the bootstrap changes only the last transaction.
  pub velar_fetch-event :
      (pool_contract core left right : Principal) (flipped : ClarityValue) (r0 r1 dl dr : ℕ)
      (event : StacksEvent) (p : IsListed core left right flipped r0 r1)
      → decimals left ≡ success dl
      → decimals right ≡ success dr
      → velar_update p.lp_token event ≡ some (r0, r1)
      → (pool : VelarPool) × (fetch_velar_pool sha256 client decimals pool_contract core left right
          ≡ success pool)
        × (apply_velar_event pool event ≡ (record pool { last_tx_id = some event.tx_id }, true))
  unfolding fetch_velar_pool apply_velar_event
  velar_fetch-event pool_contract core left right flipped r0 r1 dl dr event p hl hr update = (
    record {
      pool_contract = pool_contract;
      core_contract = core;
      lp_token = p.lp_token;
      x_token = left;
      y_token = right;
      x_decimals = dl;
      y_decimals = dr;
      reserve_x = if bool_or_false flipped then r1 else r0;
      reserve_y = if bool_or_false flipped then r0 else r1;
      flipped = bool_or_false flipped;
      fee_num = p.fee_num;
      fee_den = p.fee_den;
      last_tx_id = none;
    },
    rw
        (
          p.is_contract, p.answer, p.has_flag, p.has_pool, p.has_r0, p.has_r1, p.has_fee, p.has_num,
          p.has_den, p.has_lp, hl, hr,
        )
        refl,
    rw update refl,
  )
