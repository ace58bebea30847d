-- ===== src/Dlmm/Constants.antt =====
-- The constants of src/dlmm/mod.rs.
use stacks_dex_pool.Prelude.{ℕ}
use stacks_dex_pool.Prelude.Int.{ℤ, pos, negsuc}

abbrev pub max_bin_id : ℤ
max_bin_id = pos 500

abbrev pub min_bin_id : ℤ
min_bin_id = negsuc 499

abbrev pub center_bin_id : ℤ
center_bin_id = pos 500

abbrev pub num_of_bins : ℕ
num_of_bins = 1001

abbrev pub price_scale_bps : ℕ
price_scale_bps = 100_000_000

abbrev pub fee_scale_bps : ℕ
fee_scale_bps = 10_000
