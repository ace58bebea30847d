-- ===== src/V2/Events/Routing.antt =====
-- Which pool an event of a shared contract reaches, and what stays of earlier events.
use stacks_dex_pool.Prelude.{
  ℕ, true, false, Option, none, some, ◌≡◌, ◌≢◌, inl, inr, sym, ◌∙◌, arith, Option-cases,
}
use stacks_dex_pool.Prelude.Text.{bytes}
use stacks_dex_pool.Codec.Clarity.{ClarityValue, tuple, lookup}
use stacks_dex_pool.Pool.Principal.{Principal, eq_of_principal_eq}
use stacks_dex_pool.Pool.Event.{StacksEvent, data_uint, data_principal, principal_of}
use stacks_dex_pool.V2.Arkadiko.{ArkadikoPool, quote_x_for_y, quote_y_for_x}
use stacks_dex_pool.V2.Velar.{VelarPool}
use stacks_dex_pool.V2.Alex.{AlexPool}
use stacks_dex_pool.V2.BitflowXyk.{BitflowXykPool}
use stacks_dex_pool.V2.Events.{
  arkadiko_update, apply_arkadiko_event, velar_update, apply_velar_event, alex_update,
  apply_alex_event, apply_bitflow_xyk_event,
}

-- An update is addressed to one pair.
arkadiko_update-addressed :
    (swap_token : Principal) (event : StacksEvent) (u : ℕ × ℕ)
    → arkadiko_update swap_token event ≡ some u
    → data_principal event (bytes "swap-token") ≡ some swap_token
unfolding arkadiko_update
arkadiko_update-addressed swap_token event u e =
    elim (Option-cases (data_principal event (bytes "swap-token"))) [
      | inl missing ↦ absurd (ground arith)
      | inr (t, found) ↦ ground (arith, eq_of_principal_eq t swap_token)
    ]

alex_update-addressed :
    (pool_id : ℕ) (event : StacksEvent) (u : ℕ × ℕ)
    → alex_update pool_id event ≡ some u
    → data_uint event (bytes "pool-id") ≡ some pool_id
unfolding alex_update
alex_update-addressed pool_id event u e = ground arith

some_inj : {A : Type 0} (a b : A) → some a ≡ some b → a ≡ b
some_inj a b h = cc

-- An event that one pair applies leaves every pair with another LP token alone.
pub arkadiko_one_pair :
    (pool other : ArkadikoPool) (event : StacksEvent)
    → pool.swap_token ≢ other.swap_token
    → (apply_arkadiko_event pool event).1 ≡ true
    → apply_arkadiko_event other event ≡ (other, false)
unfolding apply_arkadiko_event
arkadiko_one_pair pool other event ne applied =
    elim (Option-cases (arkadiko_update pool.swap_token event)) [
      | inl dropped ↦ absurd (ground arith)
      | inr (u, ours) ↦ elim (Option-cases (arkadiko_update other.swap_token event)) [
        | inl dropped ↦ rw dropped
        | inr (v, theirs) ↦ absurd (
            ne (
              some_inj _ _ (
                sym (arkadiko_update-addressed pool.swap_token event u ours)
                ∙ arkadiko_update-addressed other.swap_token event v theirs)))
      ]
    ]

-- An event that one ALEX pool applies leaves every pool with another id alone.
alex_one_pool :
    (pool other : AlexPool) (event : StacksEvent)
    → pool.pool_id ≢ other.pool_id
    → (apply_alex_event pool event).1 ≡ true
    → apply_alex_event other event ≡ (other, false)
unfolding apply_alex_event
alex_one_pool pool other event ne applied = elim (Option-cases (alex_update pool.pool_id event)) [
  | inl dropped ↦ absurd (ground arith)
  | inr (u, ours) ↦ elim (Option-cases (alex_update other.pool_id event)) [
    | inl dropped ↦ rw dropped
    | inr (v, theirs) ↦ absurd (
        ne (
          some_inj _ _ (
            sym (alex_update-addressed pool.pool_id event u ours)
            ∙ alex_update-addressed other.pool_id event v theirs)))
  ]
]

-- The LP token that a Velar event names.
abbrev named_lp : Option ClarityValue → Option Principal
named_lp (some (tuple inner)) = principal_of (lookup (bytes "lp-token") inner)
named_lp _ = none

velar_update-addressed :
    (lp_token : Principal) (event : StacksEvent) (u : ℕ × ℕ)
    → velar_update lp_token event ≡ some u
    → named_lp (lookup (bytes "pool") event.fields) ≡ some lp_token
unfolding velar_update
velar_update-addressed lp_token event u e =
    elim (Option-cases (named_lp (lookup (bytes "pool") event.fields))) [
      | inl missing ↦ absurd (ground arith)
      | inr (t, found) ↦ ground (arith, eq_of_principal_eq t lp_token)
    ]

-- An event that one Velar pair applies leaves every pair with another LP token alone.
pub velar_one_pair :
    (pool other : VelarPool) (event : StacksEvent)
    → pool.lp_token ≢ other.lp_token
    → (apply_velar_event pool event).1 ≡ true
    → apply_velar_event other event ≡ (other, false)
unfolding apply_velar_event
velar_one_pair pool other event ne applied =
    elim (Option-cases (velar_update pool.lp_token event)) [
      | inl dropped ↦ absurd (ground arith)
      | inr (u, ours) ↦ elim (Option-cases (velar_update other.lp_token event)) [
        | inl dropped ↦ rw dropped
        | inr (v, theirs) ↦ absurd (
            ne (
              some_inj _ _ (
                sym (velar_update-addressed pool.lp_token event u ours)
                ∙ velar_update-addressed other.lp_token event v theirs)))
      ]
    ]

-- What an applied event leaves of a Velar pool does not depend on the events before it: only the
-- last one counts, and an earlier one does not change whether it is applied.
pub velar_last_write_wins :
    (pool : VelarPool) (earlier event : StacksEvent)
    → (apply_velar_event pool event).1 ≡ true
    → apply_velar_event (apply_velar_event pool earlier).0 event ≡ apply_velar_event pool event
unfolding apply_velar_event
velar_last_write_wins pool earlier event applied = ground arith

-- The same of an ALEX pool.
alex_last_write_wins :
    (pool : AlexPool) (earlier event : StacksEvent)
    → (apply_alex_event pool event).1 ≡ true
    → apply_alex_event (apply_alex_event pool earlier).0 event ≡ apply_alex_event pool event
unfolding apply_alex_event
alex_last_write_wins pool earlier event applied = ground arith

-- The same of a Bitflow XYK pool.
bitflow_xyk_last_write_wins :
    (pool : BitflowXykPool) (earlier event : StacksEvent)
    → (apply_bitflow_xyk_event pool event).1 ≡ true
    → apply_bitflow_xyk_event (apply_bitflow_xyk_event pool earlier).0 event
      ≡ apply_bitflow_xyk_event pool event
unfolding apply_bitflow_xyk_event
bitflow_xyk_last_write_wins pool earlier event applied = ground arith

-- A disabled Arkadiko pool quotes nothing in either direction, and applies the events that it would
-- apply when enabled, to the same balances.
pub arkadiko_disabled :
    (pool : ArkadikoPool) (event : StacksEvent)
    → pool.enabled ≡ false
    → ((amount : ℕ) → (quote_x_for_y pool amount ≡ 0) × (quote_y_for_x pool amount ≡ 0))
      × (let off = apply_arkadiko_event pool event in
          let on = apply_arkadiko_event (record pool { enabled = true }) event in
          (off.1 ≡ on.1) × (off.0.balance_x ≡ on.0.balance_x) × (off.0.balance_y ≡ on.0.balance_y))
unfolding apply_arkadiko_event quote_x_for_y quote_y_for_x
arkadiko_disabled pool event off = ground arith
