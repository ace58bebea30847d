-- ===== src/Dlmm/Factor.antt =====
-- src/dlmm/factor.rs: the factor tables of the bin steps, and their cache. The lock of the cache is
-- taken for one operation at a time, so the operations are functions of the map.
pub mod Cached
use stacks_dex_pool.Prelude.{ℕ, Option, none, some, List, [], ◌∷◌, ◌==◌}
use stacks_dex_pool.Prelude.Text.{bytes}
use stacks_dex_pool.Prelude.Outcome.{Outcome, returned, panicked, out_of_fuel, Result, ok, err}
use stacks_dex_pool.Prelude.Fallible.{Fallible, success, failure, ◌>>=◌, collect}
use stacks_dex_pool.AssocList.{assoc_get, assoc_insert}
use stacks_dex_pool.Pool.Principal.{Principal}
use stacks_dex_pool.Codec.Clarity.{ClarityValue, Values, list, optional_some, list_items, as_uint}
use stacks_dex_pool.Codec.Encode.{cv_uint}
use stacks_dex_pool.Rpc.Response.{RpcError}
use stacks_dex_pool.Rpc.Reads.{Client, call_ok, shaped, principal_parts}

-- By bin step.
abbrev pub FactorCache : Type 0
FactorCache = List (ℕ × List ℕ)

unfoldable pub insert : ℕ → List ℕ → FactorCache → FactorCache
insert bin_step factors cache = assoc_insert ◌==◌ bin_step factors cache

unfoldable pub get : ℕ → FactorCache → Option (List ℕ)
get bin_step cache = assoc_get ◌==◌ bin_step cache

-- The list, or the list in an optional.
abbrev items_of : ClarityValue → Fallible RpcError (List ClarityValue)
items_of (list vs) = success (list_items vs)
items_of (optional_some (list vs)) = success (list_items vs)
items_of (optional_some other) = failure (RpcError.unexpected other)
items_of other = failure (RpcError.unexpected other)

abbrev pub remembered :
    ℕ → FactorCache → Fallible RpcError (List ℕ) → Fallible RpcError (List ℕ) × FactorCache
remembered bin_step cache (returned (ok factors)) = (success factors, insert bin_step factors cache)
remembered bin_step cache other = (other, cache)

abbrev pub cached_or :
    Option (List ℕ)
    → ℕ
    → FactorCache
    → Fallible RpcError (List ℕ)
    → Fallible RpcError (List ℕ) × FactorCache
cached_or (some factors) bin_step cache fetched = (success factors, cache)
cached_or none bin_step cache fetched = remembered bin_step cache fetched

module _ (sha256 : List ℕ → List ℕ) (client : Client) where
  -- The request for a table that is not cached.
  unfoldable pub fetch_factors : Principal → ℕ → Fallible RpcError (List ℕ)
  fetch_factors core bin_step = do
    (deployer, contract_name) ← principal_parts sha256 core
    inner ←
        call_ok client deployer contract_name (bytes "get-bin-factors-by-step")
          (cv_uint bin_step ∷ [])
    items ← items_of inner
    collect (λ item. shaped (as_uint item)) items

  unfoldable pub get_or_fetch :
      Principal → ℕ → FactorCache → Fallible RpcError (List ℕ) × FactorCache
  get_or_fetch core bin_step cache =
      cached_or (get bin_step cache) bin_step cache (fetch_factors core bin_step)
