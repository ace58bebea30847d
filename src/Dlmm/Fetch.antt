-- ===== src/Dlmm/Fetch.antt =====
-- src/dlmm/fetcher.rs: the first state of a pool. SHA-256, the client, the tokens' decimals and the
-- factor tables are parameters. The reads of single bins end in an order that the runtime chooses,
-- `arrivals`; the reads of the decimals and the factors are taken one after the other.
pub mod Mirror
pub mod Window
pub mod Full
use stacks_dex_pool.Prelude.{
  ℕ, zero, suc, ◌+◌, ◌-◌, ◌^◌, ◌%◌, Bool, true, Option, none, some, List, [], ◌∷◌, ◌++◌, ◌&&◌, ◌||◌,
  ltb, if◌then◌else◌,
}
use stacks_dex_pool.Prelude.Int.{ℤ, pos, negsuc, pos_part, sub_ℕ, leb_ℤ, ltb_ℤ, ◌+ℤ◌, ◌-ℤ◌}
use stacks_dex_pool.Prelude.Text.{Text, bytes}
use stacks_dex_pool.Prelude.Word.{i32_max, u32_size}
use stacks_dex_pool.Prelude.Outcome.{
  Outcome, returned, panicked, out_of_fuel, Profile, checked, wrapping,
}
use stacks_dex_pool.Prelude.Fallible.{Fallible, success, failure, or_else, ◌>>=◌}
use stacks_dex_pool.BTreeMap.{BTreeMap, insert}
use stacks_dex_pool.Pool.Principal.{Principal}
use stacks_dex_pool.Codec.Clarity.{
  ClarityValue, Fields, uint, int, principal, tuple, lookup, as_uint, as_int,
}
use stacks_dex_pool.Codec.Encode.{cv_uint}
use stacks_dex_pool.Rpc.Response.{RpcError}
use stacks_dex_pool.Rpc.Reads.{Client, call_ok, shaped, lifted, as_u32, principal_parts, attempted}
use stacks_dex_pool.Dlmm.Constants.{min_bin_id, max_bin_id, center_bin_id, num_of_bins}
use stacks_dex_pool.Dlmm.Pool.{BinState, DlmmPool}
use stacks_dex_pool.Dlmm.Multicall.{
  RawBinBalance, default_helper, balance_at, fetch_bin_balances_chunked,
}

pub data BootstrapMode : Type 0 where
  window : (radius : ℕ) → BootstrapMode
  full full_per_bin : BootstrapMode

abbrev as_fields : ClarityValue → Fallible RpcError Fields
as_fields (tuple t) = success t
as_fields other = failure (RpcError.unexpected other)

abbrev found_at : Text → Fields → Fallible RpcError ClarityValue
found_at key p = or_else RpcError.missing_field (lookup key p)

unfoldable pub read_uint : Fields → Text → Fallible RpcError ℕ
read_uint p key = do v ← found_at key p; shaped (as_uint v)

unfoldable pub read_int : Fields → Text → Fallible RpcError ℤ
read_int p key = do v ← found_at key p; shaped (as_int v)

abbrev principal_of : Option ClarityValue → Fallible RpcError Principal
principal_of (some (principal q)) = success q
principal_of other = failure RpcError.missing_field

unfoldable pub read_principal : Fields → Text → Fallible RpcError Principal
read_principal p key = principal_of (lookup key p)

abbrev nested_uint : Text → Option ClarityValue → ℕ
nested_uint key (some (tuple fees)) = balance_at key fees
nested_uint key _ = 0

abbrev flat_or : ℕ → Option ClarityValue → ℕ
flat_or nested (some (uint n)) = n
flat_or nested _ = nested

-- A fee at the top level, or in `pool-fees`, or 0.
unfoldable pub read_fee : Fields → Text → ℕ
read_fee p key = as_u32 (flat_or (nested_uint key (lookup (bytes "pool-fees") p)) (lookup key p))

-- `u32::try_from` and `i32::try_from`.
abbrev try_u32 : ℕ → Fallible RpcError ℕ
try_u32 n = if ltb n u32_size then success n else failure RpcError.out_of_range

abbrev i32_min : ℤ
i32_min = negsuc (2 ^ 31 - 1)

abbrev pub fits_i32 : ℤ → Bool
fits_i32 n = leb_ℤ i32_min n && leb_ℤ n i32_max

abbrev try_i32 : ℤ → Fallible RpcError ℤ
try_i32 n = if fits_i32 n then success n else failure RpcError.out_of_range

-- A sum or a difference of two `i32`, by its exact result.
abbrev wrapped_i32 : ℤ → ℤ
wrapped_i32 n = if ltb_ℤ i32_max n then n -ℤ pos u32_size else n +ℤ pos u32_size

abbrev on_overflow_i32 : Profile → ℤ → Outcome ℤ
on_overflow_i32 checked n = panicked
on_overflow_i32 wrapping n = returned (wrapped_i32 n)

unfoldable pub i32_op : Profile → ℤ → Outcome ℤ
i32_op p n = if fits_i32 n then returned n else on_overflow_i32 p n

-- `radius as i32`.
abbrev as_i32 : ℕ → ℤ
as_i32 n = if ltb n (2 ^ 31) then pos n else sub_ℕ n u32_size

abbrev pub max_ℤ : ℤ → ℤ → ℤ
max_ℤ a b = if leb_ℤ a b then b else a

abbrev pub min_ℤ : ℤ → ℤ → ℤ
min_ℤ a b = if leb_ℤ a b then a else b

unfoldable pub bounds : Profile → BootstrapMode → (active_bin_id : ℤ) → Fallible RpcError (ℤ × ℤ)
bounds p (window radius) active_bin_id = do
  lo ← lifted (i32_op p (active_bin_id -ℤ as_i32 radius))
  hi ← lifted (i32_op p (active_bin_id +ℤ as_i32 radius))
  success (max_ℤ lo min_bin_id, min_ℤ hi max_bin_id)
bounds p _ active_bin_id = success (min_bin_id, max_bin_id)

-- `count` ids from `lo` on.
unfoldable pub ids_from : ℤ → (count : ℕ) → List ℤ
ids_from lo zero = []
ids_from lo (suc count) = lo ∷ ids_from (lo +ℤ pos 1) count

-- `lo..=hi`.
unfoldable pub id_range : ℤ × ℤ → List ℤ
id_range (lo, hi) = ids_from lo (pos_part ((hi -ℤ lo) +ℤ pos 1))

-- `0..1001`.
unfoldable pub unsigned_ids : (from count : ℕ) → List ℕ
unsigned_ids from zero = []
unsigned_ids from (suc count) = from ∷ unsigned_ids (from + 1) count

-- An empty bin is left out.
unfoldable pub with_bin : ℤ → BinState → BTreeMap BinState → BTreeMap BinState
with_bin id b bins = if ltb 0 b.x || ltb 0 b.y then insert id b bins else bins

abbrev with_found : ℤ → Option BinState → BTreeMap BinState → BTreeMap BinState
with_found id none bins = bins
with_found id (some b) bins = with_bin id b bins

unfoldable pub collect_raw : List RawBinBalance → BTreeMap BinState → BTreeMap BinState
collect_raw [] bins = bins
collect_raw (b ∷ bs) bins =
    collect_raw bs (with_bin b.bin_id_signed (record { x = b.x; y = b.y }) bins)

-- The balances of a single bin.
abbrev bin_of : ClarityValue → Fallible RpcError BinState
bin_of inner = do
  t ← as_fields inner
  success (record { x = balance_at (bytes "x-balance") t; y = balance_at (bytes "y-balance") t })

module _ (client : Client) where
  unfoldable pub fetch_bin : (deployer name : Text) → ℤ → Fallible RpcError BinState
  fetch_bin deployer name signed = do
    inner ←
        call_ok client deployer name (bytes "get-bin-balances")
          (cv_uint (pos_part (signed +ℤ center_bin_id)) ∷ [])
    bin_of inner

  -- The bins in the order of their answers; a bin whose read fails is left out.
  unfoldable pub collect_bins :
      (deployer name : Text) → List ℤ → BTreeMap BinState → Fallible RpcError (BTreeMap BinState)
  collect_bins deployer name [] bins = success bins
  collect_bins deployer name (id ∷ ids) bins = do
    found ← attempted (fetch_bin deployer name id)
    collect_bins deployer name ids (with_found id found bins)

  unfoldable pub fetch_bins :
      Profile
      → (List ℤ → List ℤ)
      → BootstrapMode
      → (pool_contract : Principal) (deployer name : Text) (active_bin_id : ℤ)
      → Fallible RpcError (BTreeMap BinState)
  fetch_bins p arrivals full pool_contract deployer name active_bin_id = do
    raw ←
        fetch_bin_balances_chunked client default_helper pool_contract (unsigned_ids 0 num_of_bins)
          none
    success (collect_raw raw [])
  fetch_bins p arrivals mode pool_contract deployer name active_bin_id = do
    range ← bounds p mode active_bin_id
    collect_bins deployer name (arrivals (id_range range)) []

module _ (sha256 : List ℕ → List ℕ) (p : Profile) (client : Client)
    (decimals : Principal → Fallible RpcError ℕ)
    (factors_of : Principal → ℕ → Fallible RpcError (List ℕ)) (arrivals : List ℤ → List ℤ) where
  unfoldable pub fetch_dlmm_pool :
      (pool_contract core_contract : Principal) → BootstrapMode → Fallible RpcError DlmmPool
  fetch_dlmm_pool pool_contract core_contract mode = do
    (deployer, name) ← principal_parts sha256 pool_contract
    pool_data ← call_ok client deployer name (bytes "get-pool") []
    t ← as_fields pool_data
    x_token ← read_principal t (bytes "x-token")
    y_token ← read_principal t (bytes "y-token")
    step ← read_uint t (bytes "bin-step")
    bin_step ← try_u32 step
    initial_price ← read_uint t (bytes "initial-price")
    active ← read_int t (bytes "active-bin-id")
    active_bin_id ← try_i32 active
    x_decimals ← decimals x_token
    y_decimals ← decimals y_token
    factors ← factors_of core_contract bin_step
    bins ← fetch_bins client p arrivals mode pool_contract deployer name active_bin_id
    success (record {
      pool_contract = pool_contract;
      core_contract = core_contract;
      x_token = x_token;
      y_token = y_token;
      x_decimals = x_decimals;
      y_decimals = y_decimals;
      bin_step = bin_step;
      initial_price = initial_price;
      active_bin_id = active_bin_id;
      x_protocol_fee = read_fee t (bytes "x-protocol-fee");
      x_provider_fee = read_fee t (bytes "x-provider-fee");
      y_protocol_fee = read_fee t (bytes "y-protocol-fee");
      y_provider_fee = read_fee t (bytes "y-provider-fee");
      x_variable_fee = read_fee t (bytes "x-variable-fee");
      y_variable_fee = read_fee t (bytes "y-variable-fee");
      bins = bins;
      last_tx_id = none;
      last_event_at = none;
      factors = factors;
    })
