-- ===== src/Dlmm/Samples.antt =====
-- A pool like the one of the tests in src/dlmm/pool.rs.
use stacks_dex_pool.Prelude.{ℕ, none, [], ◌∷◌, replicate, arith}
use stacks_dex_pool.Prelude.Int.{ℤ, pos, negsuc}
use stacks_dex_pool.BTreeMap.{BTreeMap}
use stacks_dex_pool.BTreeMap.Laws.{IsSorted}
use stacks_dex_pool.Pool.Principal.{Principal, contract, standard}
use stacks_dex_pool.Dlmm.Pool.{BinState, DlmmPool}

abbrev pub own_contract : Principal
own_contract = contract 20 (1 ∷ 2 ∷ []) (112 ∷ [])

abbrev pub bin : ℕ → ℕ → BinState
bin x y = record { x = x; y = y }

abbrev pub pool_at : ℤ → BTreeMap BinState → DlmmPool
pool_at active bins = record {
  pool_contract = own_contract;
  core_contract = standard 22 [];
  x_token = standard 20 (1 ∷ []);
  y_token = standard 20 (2 ∷ []);
  x_decimals = 6;
  y_decimals = 6;
  bin_step = 10;
  initial_price = 100_000_000;
  active_bin_id = active;
  x_protocol_fee = 15;
  x_provider_fee = 15;
  y_protocol_fee = 15;
  y_provider_fee = 15;
  x_variable_fee = 0;
  y_variable_fee = 0;
  bins = bins;
  last_tx_id = none;
  last_event_at = none;
  factors = replicate 1001 100_000_000;
}

-- Bins -3 and -2 with y, a gap at -1, the active bin 0 with both, an empty bin 1 and x in bin 3.
abbrev pub sample_bins : BTreeMap BinState
sample_bins =
    (negsuc 2, bin 0 1_000_000)
    ∷ (negsuc 1, bin 0 1_000_000)
    ∷ (pos 0, bin 1_000_000 1_000_000)
    ∷ (pos 1, bin 0 0)
    ∷ (pos 3, bin 1_000_000 0)
    ∷ []

abbrev pub sample : DlmmPool
sample = pool_at (pos 0) sample_bins

-- A small quote ends in the active bin, a larger one passes the gap, and a huge one empties the pool.
-- The keys ascend.
pub sorted : IsSorted sample.bins
sorted = omega arith
