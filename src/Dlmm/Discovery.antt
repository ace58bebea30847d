-- ===== src/Dlmm/Discovery.antt =====
-- src/dlmm/discovery.rs: the pools that the core contract has registered. The lookups of the ids end
-- in an order that the runtime chooses, `arrivals`.
pub mod Listed
use stacks_dex_pool.Prelude.{
  ℕ, zero, suc, Bool, Option, none, some, List, [], ◌∷◌, ◌++◌, ltb, ◌==◌, if◌then◌else◌,
}
use stacks_dex_pool.Prelude.Text.{Text, bytes}
use stacks_dex_pool.Prelude.Outcome.{Outcome, returned, panicked, out_of_fuel, Result, ok, err}
use stacks_dex_pool.Prelude.Fallible.{Fallible, success, ◌>>=◌}
use stacks_dex_pool.Pool.Principal.{Principal}
use stacks_dex_pool.Codec.Clarity.{
  ClarityValue, Fields, uint, bool, principal, tuple, optional_some, string_ascii, string_utf8,
  lookup, as_uint,
}
use stacks_dex_pool.Codec.Encode.{cv_uint}
use stacks_dex_pool.Dlmm.Listing.{DlmmPoolListing, decode_listing}
use stacks_dex_pool.Rpc.Response.{RpcError}
use stacks_dex_pool.Rpc.Reads.{Client, call_ok, shaped, principal_parts, attempted}

-- `sort_by_key` by the id, which is stable.
unfoldable pub place : DlmmPoolListing → List DlmmPoolListing → List DlmmPoolListing
place l [] = l ∷ []
place l (k ∷ ks) = let rest = place l ks in if ltb k.id l.id then k ∷ rest else l ∷ k ∷ ks

unfoldable pub sort_by_id : List DlmmPoolListing → List DlmmPoolListing
sort_by_id [] = []
sort_by_id (l ∷ ls) = place l (sort_by_id ls)

abbrev pub kept : Option ClarityValue → List DlmmPoolListing → List DlmmPoolListing
kept none found = found
kept (some v) found = elim (decode_listing v) [ none ↦ found | some l ↦ l ∷ found ]

-- `1..=last_id`.
unfoldable pub ids_to : ℕ → List ℕ
ids_to zero = []
ids_to (suc n) = ids_to n ++ suc n ∷ []

module _ (client : Client) where
  -- The lookups in the order of their answers; one that fails, or that does not decode, is dropped.
  unfoldable pub lookups :
      (deployer name : Text) → List ℕ → Fallible RpcError (List DlmmPoolListing)
  lookups deployer name [] = success []
  lookups deployer name (id ∷ ids) = do
    res ← attempted (call_ok client deployer name (bytes "get-pool-by-id") (cv_uint id ∷ []))
    found ← lookups deployer name ids
    success (kept res found)

module _ (sha256 : List ℕ → List ℕ) (client : Client) where
  unfoldable pub discover_dlmm_pools :
      (List ℕ → List ℕ) → Principal → Fallible RpcError (List DlmmPoolListing)
  discover_dlmm_pools arrivals core_contract = do
    (deployer, name) ← principal_parts sha256 core_contract
    last ← call_ok client deployer name (bytes "get-last-pool-id") []
    last_id ← shaped (as_uint last)
    found ← lookups client deployer name (arrivals (ids_to last_id))
    success (sort_by_id found)
