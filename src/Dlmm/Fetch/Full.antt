-- ===== src/Dlmm/Fetch/Full.antt =====
-- All bins, in one read of many or in many reads of one.
use stacks_dex_pool.Prelude.{
  ℕ, zero, suc, ◌+◌, ◌^◌, ◌≤◌, ◌<◌, ◌≡◌, refl, ap, sym, ◌∙◌, Option, none, some, List, [], ◌∷◌, map,
  length, arith,
}
use stacks_dex_pool.Prelude.Int.{
  ℤ, pos, pos_part, ◌+ℤ◌, ◌-ℤ◌, eq_of_parts, one_part, +ℤ_parts, -ℤ_parts,
}
use stacks_dex_pool.Prelude.Text.{Text, bytes}
use stacks_dex_pool.Prelude.Outcome.{Profile}
use stacks_dex_pool.Prelude.Fallible.{success}
use stacks_dex_pool.BTreeMap.{BTreeMap, get}
use stacks_dex_pool.Pool.Principal.{Principal}
use stacks_dex_pool.Codec.Clarity.{
  ClarityValue, Fields, tuple, list, response_ok, as_values, unwrap_ok,
}
use stacks_dex_pool.Codec.Encode.{cv_uint}
use stacks_dex_pool.Rpc.Reads.{Client, attempted, call_ok}
use stacks_dex_pool.Dlmm.Constants.{min_bin_id, max_bin_id, center_bin_id, num_of_bins}
use stacks_dex_pool.Dlmm.Pool.{BinState}
use stacks_dex_pool.Dlmm.Multicall.{default_helper, multi_args, balance_at, entry_of}
use stacks_dex_pool.Dlmm.Multicall.Chunks.{AreIds, entries, fetch_bin_balances_chunked_lem}
use stacks_dex_pool.Dlmm.Fetch.{
  full, full_per_bin, bounds, ids_from, id_range, unsigned_ids, collect_raw, fetch_bin, fetch_bins,
}
use stacks_dex_pool.Dlmm.Fetch.Mirror.{
  is_listed, InRange, All-listed, id_range-listed, mirror, mirror-get_new, collect_bins-mirror,
}

pub signed_of : (n : ℕ) → pos_part ((pos n -ℤ center_bin_id) +ℤ center_bin_id) ≡ n
signed_of n = omega (
  arith,
  -ℤ_parts (pos n) center_bin_id,
  +ℤ_parts (pos n -ℤ center_bin_id) center_bin_id,
  one_part ((pos n -ℤ center_bin_id) +ℤ center_bin_id),
)

signed_next : (n : ℕ) → (pos n -ℤ center_bin_id) +ℤ pos 1 ≡ pos (n + 1) -ℤ center_bin_id
signed_next n =
    let less = -ℤ_parts (pos n) center_bin_id in
    let more = +ℤ_parts (pos n -ℤ center_bin_id) (pos 1) in
    let other = -ℤ_parts (pos (n + 1)) center_bin_id in
    eq_of_parts ((pos n -ℤ center_bin_id) +ℤ pos 1) (pos (n + 1) -ℤ center_bin_id) (omega arith)

unsigned_ids-AreIds : (count from : ℕ) → from + count < 2 ^ 31 → AreIds (unsigned_ids from count)
unfolding unsigned_ids
unsigned_ids-AreIds zero from h = tt
unsigned_ids-AreIds (suc count) from h =
    (omega arith, unsigned_ids-AreIds count (from + 1) (omega arith))

all_ids : id_range (min_bin_id, max_bin_id) ≡ ids_from (pos 0 -ℤ center_bin_id) num_of_bins
unfolding id_range ◌+ℤ◌ ◌-ℤ◌
all_ids = refl

-- The balances of a bin's tuple.
abbrev pub state_of : Fields → BinState
state_of t = record { x = balance_at (bytes "x-balance") t; y = balance_at (bytes "y-balance") t }

-- `bin` is the tuple of each bin, by its unsigned id.
module _ (bin : ℕ → Fields) where
  abbrev pub read_of : ℤ → Option BinState
  read_of id = some (state_of (bin (pos_part (id +ℤ center_bin_id))))

  abbrev pub item_of : ℕ → ClarityValue
  item_of n = response_ok (tuple (bin n))

  collect_raw-mirror :
      (count from : ℕ) (bins : BTreeMap BinState)
      → collect_raw (entries item_of (unsigned_ids from count)) bins
        ≡ mirror read_of (ids_from (pos from -ℤ center_bin_id) count) bins
  unfolding collect_raw entries entry_of unsigned_ids ids_from
  collect_raw-mirror zero from bins = refl
  collect_raw-mirror (suc count) from bins =
      rw (signed_next from, signed_of from) (collect_raw-mirror count (from + 1) _)

  module _ (p : Profile) (client : Client) (arrivals : List ℤ → List ℤ)
      (arrive : (k : ℤ) (ids : List ℤ) → is_listed k (arrivals ids) ≡ is_listed k ids)
      (pool_contract : Principal) (deployer name : Text)
      (many : (ids : List ℕ)
        → length ids ≤ 100
        → AreIds ids
        → client.call_read default_helper.deployer default_helper.contract
            (bytes "get-bin-balances-multi")
            (multi_args pool_contract ids)
          ≡ success (response_ok (list (as_values (map item_of ids)))))
      (single : (n : ℕ)
        → n ≤ 1000
        → client.call_read deployer name (bytes "get-bin-balances") (cv_uint n ∷ [])
          ≡ success (item_of n)) where
    fetch_bin-read :
        (id : ℤ) → InRange id → attempted (fetch_bin client deployer name id) ≡ success (read_of id)
    unfolding fetch_bin attempted call_ok unwrap_ok
    fetch_bin-read id inside =
        let sum = +ℤ_parts id center_bin_id in
        rw
          (single (pos_part (id +ℤ center_bin_id)) (ground (arith, one_part (id +ℤ center_bin_id))))
          refl

    -- If the helper answers each list of at most 100 ids, the pool answers for each bin, and both
    -- tell the same of each bin, then both ways of reading all bins succeed, in whatever order the
    -- answers arrive, and mirror the same bins.
    pub fetch_bins_agree :
        (active : ℤ)
        → (batched single_reads : BTreeMap BinState) × (fetch_bins client p arrivals full
              pool_contract deployer name active
            ≡ success batched)
          × (fetch_bins client p arrivals full_per_bin pool_contract deployer name active
              ≡ success single_reads)
          × ((k : ℤ) → get k batched ≡ get k single_reads)
    unfolding fetch_bins bounds
    fetch_bins_agree active =
        let all = unsigned_ids 0 num_of_bins in
        let ids = id_range (min_bin_id, max_bin_id) in
        let batch =
          fetch_bin_balances_chunked_lem item_of client default_helper pool_contract 100
            (omega arith) many all none (omega arith) (omega arith)
            (unsigned_ids-AreIds num_of_bins 0 (omega arith)) in
        let inside =
          All-listed InRange (arrivals ids)
            λ k listed. sym (arrive k ids ∙ id_range-listed min_bin_id max_bin_id k) ∙ listed in
        (
          collect_raw (entries item_of all) [],
          mirror read_of (arrivals ids) [],
          rw batch refl,
          collect_bins-mirror read_of client deployer name fetch_bin-read (arrivals ids) [] inside,
          λ k.
              ap (get k) (collect_raw-mirror num_of_bins 0 [])
              ∙ ap (λ l. get k (mirror read_of l [])) (sym all_ids)
              ∙ mirror-get_new read_of k ids
              ∙ sym (rw (arrive k ids) at (mirror-get_new read_of k (arrivals ids))),
        )
