-- ===== src/Dlmm/Multicall/Chunks.antt =====
-- src/dlmm/multicall.rs: a read of many bins, in chunks that the helper answers.
use stacks_dex_pool.Prelude.{
  ℕ, zero, suc, ◌^◌, ◌≤◌, ◌<◌, ◌≡◌, refl, ap, sym, ◌∙◌, min, true, false, leb, ltb, ◌==◌, Option,
  List, [], ◌∷◌, ◌++◌, map, length, take, drop, take-append-drop, length-take-min, length-drop, All,
  All-take, All-drop, arith,
}
use mathlib.Core.List.{append_assoc}
use stacks_dex_pool.Prelude.Int.{pos, ◌-ℤ◌}
use stacks_dex_pool.Prelude.Text.{bytes}
use stacks_dex_pool.Prelude.Fallible.{success}
use stacks_dex_pool.Pool.Principal.{Principal}
use stacks_dex_pool.Codec.Clarity.{
  ClarityValue, list, response_ok, list_items, as_values, unwrap_ok,
}
use stacks_dex_pool.Rpc.Reads.{Client, call_ok}
use stacks_dex_pool.Dlmm.Constants.{center_bin_id}
use stacks_dex_pool.Dlmm.Multicall.{
  MultiHelper, RawBinBalance, multi_args, signed_id, entry_of, decode_items,
  fetch_bin_balances_multi, fetch_chunks, size_or_default, fetch_bin_balances_chunked,
}

-- The ids that an `i32` holds.
abbrev pub AreIds : List ℕ → Type 0
AreIds ids = All (λ (id : ℕ). id < 2 ^ 31) ids

pub list_items-as_values : (vs : List ClarityValue) → list_items (as_values vs) ≡ vs
unfolding list_items as_values
list_items-as_values [] = refl
list_items-as_values (v ∷ vs) = ap (λ ws. v ∷ ws) (list_items-as_values vs)

-- What each of the ids contributes, for a pool whose bins the helper sees as `bin`.
module _ (bin : ℕ → ClarityValue) where
  unfoldable pub entries : List ℕ → List RawBinBalance
  entries [] = []
  entries (id ∷ ids) = entry_of (pos id -ℤ center_bin_id) (bin id) ++ entries ids

  entries-append : (xs ys : List ℕ) → entries (xs ++ ys) ≡ entries xs ++ entries ys
  unfolding entries
  entries-append [] ys = refl
  entries-append (x ∷ xs) ys =
      ap (λ es. entry_of (pos x -ℤ center_bin_id) (bin x) ++ es) (entries-append xs ys)
      ∙ sym (append_assoc (entry_of (pos x -ℤ center_bin_id) (bin x)) (entries xs) (entries ys))

  decode_items-map :
      (ids : List ℕ) → AreIds ids → decode_items ids (map bin ids) ≡ success (entries ids)
  unfolding decode_items entries signed_id
  decode_items-map [] h = refl
  decode_items-map (id ∷ ids) (small, h) =
      let fits : ltb id (2 ^ 31) ≡ true = ground arith in rw (fits, decode_items-map ids h) refl

  -- `limit` is the number of ids up to which the helper answers.
  module _ (client : Client) (helper : MultiHelper) (pool_contract : Principal) (limit : ℕ)
      (accepted : limit ≤ 1001)
      (answers : (ids : List ℕ)
        → length ids ≤ limit
        → AreIds ids
        → client.call_read helper.deployer helper.contract
            (bytes "get-bin-balances-multi")
            (multi_args pool_contract ids)
          ≡ success (response_ok (list (as_values (map bin ids))))) where
    fetch_bin_balances_multi_lem :
        (ids : List ℕ)
        → length ids ≤ limit
        → AreIds ids
        → fetch_bin_balances_multi client helper pool_contract ids ≡ success (entries ids)
    unfolding fetch_bin_balances_multi call_ok unwrap_ok entries
    fetch_bin_balances_multi_lem [] short h = refl
    fetch_bin_balances_multi_lem (id ∷ ids) short h =
        let fits : leb (length (id ∷ ids)) 1001 ≡ true = ground arith in
        rw (fits, answers (id ∷ ids) short h, list_items-as_values (map bin (id ∷ ids)))
          (decode_items-map (id ∷ ids) h)

    fetch_chunks_lem :
        (size : ℕ)
        → 0 < size
        → size ≤ limit
        → (fuel : ℕ) (ids : List ℕ) → length ids ≤ fuel
        → AreIds ids
        → fetch_chunks client helper pool_contract fuel size ids ≡ success (entries ids)
    unfolding fetch_chunks entries
    fetch_chunks_lem size some_ids within fuel [] enough h = refl
    fetch_chunks_lem size some_ids within zero (id ∷ ids) enough h = absurd (omega arith)
    fetch_chunks_lem size some_ids within (suc fuel) (id ∷ ids) enough h =
        let all = id ∷ ids in
        let first =
          fetch_bin_balances_multi_lem (take size all) (omega (arith, length-take-min size all))
            (All-take (λ (n : ℕ). n < 2 ^ 31) size all h) in
        let rest =
          fetch_chunks_lem size some_ids within fuel (drop size all)
            (omega (arith, length-drop size all)) (All-drop (λ (n : ℕ). n < 2 ^ 31) size all h) in
        let whole =
          sym (entries-append (take size all) (drop size all))
          ∙ ap entries (take-append-drop size all) in
        rw (first, rest, whole) refl

    -- If the helper answers each list of at most `limit` ids with an item for each id, then the
    -- balances of any ids come out the same whatever the size of the chunks is, as long as it is
    -- neither 0 nor more than `limit`.
    pub fetch_bin_balances_chunked_lem :
        (ids : List ℕ) (chunk_size : Option ℕ)
        → 0 < size_or_default chunk_size
        → size_or_default chunk_size ≤ limit
        → AreIds ids
        → fetch_bin_balances_chunked client helper pool_contract ids chunk_size
          ≡ success (entries ids)
    unfolding fetch_bin_balances_chunked
    fetch_bin_balances_chunked_lem ids chunk_size given within h =
        let size = min (size_or_default chunk_size) 1001 in
        let nonzero : (size == 0) ≡ false = ground arith in
        rw (nonzero)
          (fetch_chunks_lem size (omega arith) (omega arith) (length ids) ids (omega arith) h)
