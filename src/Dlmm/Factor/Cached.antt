-- ===== src/Dlmm/Factor/Cached.antt =====
-- A table is asked for once.
use stacks_dex_pool.Prelude.{ℕ, ◌≡◌, refl, Option, none, some, List, ◌==◌, ==_iff}
use stacks_dex_pool.Prelude.Outcome.{returned, panicked, out_of_fuel, ok, err}
use stacks_dex_pool.Prelude.Fallible.{Fallible, success}
use stacks_dex_pool.AssocList.Laws.{get-insert_self}
use stacks_dex_pool.Pool.Principal.{Principal}
use stacks_dex_pool.Rpc.Response.{RpcError}
use stacks_dex_pool.Rpc.Reads.{Client}
use stacks_dex_pool.Dlmm.Factor.{FactorCache, insert, get, cached_or, get_or_fetch}

get-insert :
    (bin_step : ℕ) (factors : List ℕ) (cache : FactorCache)
    → get bin_step (insert bin_step factors cache) ≡ some factors
unfolding get insert
get-insert bin_step factors cache =
    get-insert_self ◌==◌ (λ n. (==_iff n n).1 refl) (λ m n. (==_iff m n).0) bin_step factors cache

get-cached_or :
    (cached : Option (List ℕ)) (bin_step : ℕ) (cache later : FactorCache)
    (fetched : Fallible RpcError (List ℕ)) (factors : List ℕ)
    → get bin_step cache ≡ cached
    → cached_or cached bin_step cache fetched ≡ (success factors, later)
    → get bin_step later ≡ some factors
get-cached_or (some old) bin_step cache later fetched factors known e =
    let same : old ≡ factors = cc in let kept : cache ≡ later = cc in rw (kept, same) at known
get-cached_or none bin_step cache later (returned (ok new)) factors known e =
    let same : new ≡ factors = cc in
    let stored : insert bin_step new cache ≡ later = cc in
    rw (stored, same) at (get-insert bin_step new cache)
get-cached_or none bin_step cache later (returned (err x)) factors known e = cc
get-cached_or none bin_step cache later panicked factors known e = cc
get-cached_or none bin_step cache later out_of_fuel factors known e = cc

-- Once a bin step's table has been obtained from one core contract, every later request for that
-- bin step gives the same table and leaves the cache as it is, whatever client and whatever core
-- contract it names.
pub get_or_fetch_again :
    (sha256 : List ℕ → List ℕ) (client other : Client) (core other_core : Principal) (bin_step : ℕ)
    (cache later : FactorCache) (factors : List ℕ)
    → get_or_fetch sha256 client core bin_step cache ≡ (success factors, later)
    → get_or_fetch sha256 other other_core bin_step later ≡ (success factors, later)
unfolding get_or_fetch
get_or_fetch_again sha256 client other core other_core bin_step cache later factors e =
    rw (get-cached_or (get bin_step cache) bin_step cache later _ factors refl e) refl
