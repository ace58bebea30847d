-- ===== src/Dlmm/Multicall.antt =====
-- src/dlmm/multicall.rs: the balances of many bins in one read of a helper contract.
pub mod Chunks
use stacks_dex_pool.Prelude.{
  ℕ, zero, suc, ◌^◌, min, Option, none, some, List, [], ◌∷◌, ◌++◌, map, replicate, length, take,
  drop, ltb, leb, ◌==◌, if◌then◌else◌, not,
}
use stacks_dex_pool.Prelude.Int.{ℤ, pos, ◌-ℤ◌}
use stacks_dex_pool.Prelude.Text.{Text, bytes}
use stacks_dex_pool.Prelude.Outcome.{Outcome, Result, ok, err}
use stacks_dex_pool.Prelude.Fallible.{Fallible, success, failure, ensure, ◌>>=◌}
use stacks_dex_pool.Pool.Principal.{Principal}
use stacks_dex_pool.Codec.Clarity.{
  ClarityValue, Fields, uint, principal, list, tuple, response_ok, response_err, list_items,
  as_values, lookup,
}
use stacks_dex_pool.Codec.Encode.{cv_encode}
use stacks_dex_pool.Rpc.Response.{RpcError}
use stacks_dex_pool.Rpc.Reads.{Client, call_ok}
use stacks_dex_pool.Dlmm.Constants.{center_bin_id}

abbrev pub default_chunk_size : ℕ
default_chunk_size = 100

pub record MultiHelper : Type 0 where
  pub deployer : Text
  pub contract : Text

unfoldable pub default_helper : MultiHelper
default_helper = record {
  deployer = bytes "SM1FKXGNZJWSTWDWXQZJNF7B5TV5ZB235JTCXYXKD";
  contract = bytes "dlmm-pool-multi-helper-v-1-1";
}

pub record RawBinBalance : Type 0 where
  pub bin_id_signed : ℤ
  pub x : ℕ
  pub y : ℕ
  pub shares : ℕ

abbrev uint_or_zero : Option ClarityValue → ℕ
uint_or_zero (some (uint n)) = n
uint_or_zero _ = 0

-- `get(key).and_then(|v| v.as_uint().ok()).unwrap_or(0)`.
unfoldable pub balance_at : Text → Fields → ℕ
balance_at key fields = uint_or_zero (lookup key fields)

-- `i32::try_from(unsigned)? - CENTER_BIN_ID`.
unfoldable pub signed_id : ℕ → Fallible RpcError ℤ
signed_id unsigned =
    if ltb unsigned (2 ^ 31)
    then success (pos unsigned -ℤ center_bin_id)
    else failure RpcError.out_of_range

-- The entry of a bin, from the helper's item; an item that is no response, or that holds no tuple,
-- has none.
unfoldable pub entry_of : ℤ → ClarityValue → List RawBinBalance
entry_of signed (response_ok (tuple t)) =
    record {
      bin_id_signed = signed;
      x = balance_at (bytes "x-balance") t;
      y = balance_at (bytes "y-balance") t;
      shares = balance_at (bytes "bin-shares") t;
    }
    ∷ []
entry_of signed (response_err e) = record { bin_id_signed = signed; x = 0; y = 0; shares = 0 } ∷ []
entry_of signed other = []

-- The loop over the items, which ends with the ids.
unfoldable pub decode_items : List ℕ → List ClarityValue → Fallible RpcError (List RawBinBalance)
decode_items (id ∷ ids) (item ∷ items) = do
  signed ← signed_id id
  rest ← decode_items ids items
  success (entry_of signed item ++ rest)
decode_items _ _ = success []

abbrev list_of : ClarityValue → Fallible RpcError (List ClarityValue)
list_of (list vs) = success (list_items vs)
list_of other = failure (RpcError.unexpected other)

-- The pool as many times as there are ids, and the ids.
abbrev pub multi_args : Principal → List ℕ → List (List ℕ)
multi_args pool_contract ids =
    cv_encode (list (as_values (replicate (length ids) (principal pool_contract))))
    ∷ cv_encode (list (as_values (map uint ids)))
    ∷ []

abbrev pub size_or_default : Option ℕ → ℕ
size_or_default none = default_chunk_size
size_or_default (some chunk_size) = chunk_size

module _ (client : Client) (helper : MultiHelper) (pool_contract : Principal) where
  abbrev requested : List ℕ → Fallible RpcError (List RawBinBalance)
  requested ids = do
    _ ← ensure (leb (length ids) 1001) RpcError.out_of_range
    inner ←
        call_ok client helper.deployer helper.contract (bytes "get-bin-balances-multi")
          (multi_args pool_contract ids)
    items ← list_of inner
    decode_items ids items

  unfoldable pub fetch_bin_balances_multi : List ℕ → Fallible RpcError (List RawBinBalance)
  fetch_bin_balances_multi [] = success []
  fetch_bin_balances_multi (id ∷ ids) = requested (id ∷ ids)

  -- `chunks(chunk_size)`, on fuel for the chunks that are left, with the loop over them.
  unfoldable pub fetch_chunks :
      (fuel chunk_size : ℕ) → List ℕ → Fallible RpcError (List RawBinBalance)
  fetch_chunks fuel chunk_size [] = success []
  fetch_chunks zero chunk_size (id ∷ ids) = Outcome.out_of_fuel
  fetch_chunks (suc fuel) chunk_size (id ∷ ids) = do
    batch ← fetch_bin_balances_multi (take chunk_size (id ∷ ids))
    rest ← fetch_chunks fuel chunk_size (drop chunk_size (id ∷ ids))
    success (batch ++ rest)

  unfoldable pub fetch_bin_balances_chunked :
      List ℕ → Option ℕ → Fallible RpcError (List RawBinBalance)
  fetch_bin_balances_chunked ids chunk_size = do
    _ ← ensure (not (min (size_or_default chunk_size) 1001 == 0)) RpcError.out_of_range
    fetch_chunks (length ids) (min (size_or_default chunk_size) 1001) ids
