-- ===== src/Rpc/TokenInfo.antt =====
-- src/token_info.rs: the decimals of the tokens and their cache, by what a token displays as. The lock
-- of the cache is taken for one operation at a time, so the operations are functions of the map.
pub mod Cached
use stacks_dex_pool.Prelude.{ℕ, Option, none, some, List}
use stacks_dex_pool.Prelude.Text.{Text, text_eq}
use stacks_dex_pool.Prelude.Outcome.{
  Outcome, returned, panicked, out_of_fuel, Result, ok, err, ◌>>=◌,
}
use stacks_dex_pool.Prelude.Fallible.{Fallible, success}
use stacks_dex_pool.AssocList.{assoc_get, assoc_insert}
use stacks_dex_pool.Pool.Principal.{Principal}
use stacks_dex_pool.Pool.Address.{display}
use stacks_dex_pool.Rpc.Response.{RpcError}
use stacks_dex_pool.Rpc.Reads.{Client, fetch_decimals}

abbrev pub TokenCache : Type 0
TokenCache = List (Text × ℕ)

module _ (sha256 : List ℕ → List ℕ) where
  unfoldable pub insert : Principal → ℕ → TokenCache → Outcome TokenCache
  insert token decimals cache = do
    key ← display sha256 token
    returned (assoc_insert text_eq key decimals cache)

  unfoldable pub get_cached : Principal → TokenCache → Outcome (Option ℕ)
  get_cached token cache = do key ← display sha256 token; returned (assoc_get text_eq key cache)

  abbrev pub stored : TokenCache → ℕ → Outcome TokenCache → Fallible RpcError ℕ × TokenCache
  stored cache d (returned later) = (success d, later)
  stored cache d panicked = (panicked, cache)
  stored cache d out_of_fuel = (out_of_fuel, cache)

  -- What is read goes into the cache.
  abbrev pub remembered :
      Principal → TokenCache → Fallible RpcError ℕ → Fallible RpcError ℕ × TokenCache
  remembered token cache (returned (ok d)) = stored cache d (insert token d cache)
  remembered token cache other = (other, cache)

  abbrev pub looked_up :
      Client → Principal → TokenCache → Outcome (Option ℕ) → Fallible RpcError ℕ × TokenCache
  looked_up client token cache (returned (some d)) = (success d, cache)
  looked_up client token cache (returned none) =
      remembered token cache (fetch_decimals sha256 client token)
  looked_up client token cache panicked = (panicked, cache)
  looked_up client token cache out_of_fuel = (out_of_fuel, cache)

  unfoldable pub decimals : Client → Principal → TokenCache → Fallible RpcError ℕ × TokenCache
  decimals client token cache = looked_up client token cache (get_cached token cache)
