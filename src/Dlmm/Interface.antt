-- ===== src/Dlmm/Interface.antt =====
-- src/dlmm/pool.rs: what a DLMM pool answers as a `PoolInterface`, and what its topics cover.
use stacks_dex_pool.Prelude.{ℕ, List, [], ◌∷◌, map, ◌≡◌, refl, ap, inl, inr}
use stacks_dex_pool.Prelude.Text.{Text, bytes}
use stacks_dex_pool.Prelude.Outcome.{Outcome, returned, ◌>>=◌, Profile, Result}
use stacks_dex_pool.Pool.Principal.{Principal}
use stacks_dex_pool.Pool.Event.{StacksEvent, StacksTopic}
use stacks_dex_pool.Pool.Base.{PoolError, by_token}
use stacks_dex_pool.Dlmm.Pool.{DlmmPool}
use stacks_dex_pool.Dlmm.Quote.{quote_x_for_y, quote_y_for_x}
use stacks_dex_pool.Dlmm.Events.{indexed_actions, apply_event}
use stacks_dex_pool.Dlmm.Events.Filter.{apply_event-IsStamped}

abbrev topic : Principal → Text → StacksTopic
topic emitter action = record { contract = emitter; action = action }

-- The pool's own topics, then those of its core.
unfoldable pub topics : DlmmPool → List StacksTopic
topics pool =
    topic pool.pool_contract (bytes "update-bin-balances")
    ∷ topic pool.pool_contract (bytes "update-bin-balances-on-withdraw")
    ∷ topic pool.core_contract (bytes "swap-x-for-y")
    ∷ topic pool.core_contract (bytes "swap-y-for-x")
    ∷ topic pool.core_contract (bytes "set-x-fees")
    ∷ topic pool.core_contract (bytes "set-y-fees")
    ∷ topic pool.core_contract (bytes "set-variable-fees")
    ∷ topic pool.core_contract (bytes "reset-variable-fees")
    ∷ topic pool.core_contract (bytes "set-pool-status")
    ∷ []

-- The direction is chosen first, so that only its quote runs.
unfoldable pub calculate_output : Profile → DlmmPool → Principal → ℕ → Result PoolError (Outcome ℕ)
calculate_output p pool token_in amount_in =
    let x_for_y = do quote ← quote_x_for_y p pool amount_in; returned quote.total
    in let y_for_x = do quote ← quote_y_for_x p pool amount_in; returned quote.total
      in by_token pool.x_token pool.y_token token_in x_for_y y_for_x

-- The actions of the topics are those that the event handler indexes.
topics-indexed : (pool : DlmmPool) → map (λ t. t.action) (topics pool) ≡ indexed_actions
unfolding topics indexed_actions
topics-indexed pool = refl

topics-eq :
    (pool other : DlmmPool)
    → other.pool_contract ≡ pool.pool_contract
    → other.core_contract ≡ pool.core_contract
    → topics other ≡ topics pool
unfolding topics
topics-eq pool other same same_core = rw (same, same_core) refl

-- No event changes the topics of a pool, so the registry goes on polling for it.
pub topics-apply_event :
    (now : ℕ) (pool : DlmmPool) (event : StacksEvent)
    → topics (apply_event now pool event) ≡ topics pool
topics-apply_event now pool event = elim (apply_event-IsStamped now pool event) [
  | inl same ↦ ap topics same
  | inr (kept, _, _) ↦
      topics-eq pool (apply_event now pool event) kept.pool_contract kept.core_contract
]
