-- ===== src/Dlmm/FetchTests.antt =====
-- The bootstrap of a DLMM pool at concrete answers of the node.
use stacks_dex_pool.Prelude.{
  ℕ, suc, ◌≤◌, ◌≡◌, refl, Bool-cases, inl, inr, ◌&&◌, ◌==◌, if◌then◌else◌, Option, none, some, List,
  [], ◌∷◌, ap, Bool, any, ◌++◌, true, false, map, replicate, length, arith,
}
use stacks_dex_pool.Prelude.Int.{ℤ, pos, +ℤ_parts, one_part, pos_part, ◌+ℤ◌}
use stacks_dex_pool.Prelude.Text.{bytes}
use stacks_dex_pool.Prelude.Outcome.{checked}
use stacks_dex_pool.Prelude.Fallible.{Fallible, success, failure}
use stacks_dex_pool.Codec.Decode.{Decoded, cv_decode}
use stacks_dex_pool.Codec.Wire.{IsEncodable, AreEncodable}
use stacks_dex_pool.BTreeMap.{BTreeMap, get}
use stacks_dex_pool.Pool.Principal.{Principal, contract}
use stacks_dex_pool.Codec.Clarity.{
  ClarityValue, Fields, no_fields, field, uint, list, response_ok, response_err, list_items,
  count_values, as_values, unwrap_ok,
}
use stacks_dex_pool.Codec.Encode.{cv_uint}
use stacks_dex_pool.Codec.Samples.{read_back}
use stacks_dex_pool.Rpc.Response.{RpcError}
use stacks_dex_pool.Rpc.Reads.{Client, attempted, call_ok}
use stacks_dex_pool.Dlmm.Constants.{center_bin_id}
use stacks_dex_pool.Dlmm.Pool.{BinState}
use stacks_dex_pool.Dlmm.Multicall.{multi_args}
use stacks_dex_pool.Dlmm.Multicall.Chunks.{AreIds, list_items-as_values}
use stacks_dex_pool.Dlmm.Fetch.{window, full, full_per_bin, fetch_bin, fetch_bins}
use stacks_dex_pool.Dlmm.Fetch.Mirror.{shown, same_id, InRange}
use stacks_dex_pool.Dlmm.Fetch.Window.{is_near, fetch_bins_window}
use stacks_dex_pool.Dlmm.Fetch.Full.{fetch_bins_agree, item_of, state_of}

abbrev pool_contract : Principal
pool_contract = contract 22 (replicate 20 0) (bytes "pool")

-- Each bin holds its id in x and 7 in y.
abbrev bin : ℕ → Fields
bin n = field (bytes "x-balance") (uint n) (field (bytes "y-balance") (uint 7) no_fields)

-- The first id is answered last.
abbrev rotated : {A : Type 0} → List A → List A
rotated [] = []
rotated (x ∷ xs) = xs ++ x ∷ []

any-snoc : {A : Type 0} (p : A → Bool) (x : A) (xs : List A) → any p (xs ++ x ∷ []) ≡ any p (x ∷ xs)
any-snoc p x [] = refl
any-snoc p x (y ∷ ys) = ground (arith, any-snoc p x ys)

rotated-any : {A : Type 0} (p : A → Bool) (xs : List A) → any p (rotated xs) ≡ any p xs
rotated-any p [] = refl
rotated-any p (x ∷ xs) = any-snoc p x xs

-- A node that reads the ids of a request; the read of bin 501 alone fails if `flaky`.
abbrev item : ClarityValue → ClarityValue
item (uint n) = item_of bin n
item other = response_err other

abbrev many_answer : Decoded (ClarityValue × ℕ) → Fallible RpcError ClarityValue
many_answer (Decoded.decoded (list vs, end)) =
    success (response_ok (list (as_values (map item (list_items vs)))))
many_answer _ = failure RpcError.send_failed

abbrev single_answer : Bool → Decoded (ClarityValue × ℕ) → Fallible RpcError ClarityValue
single_answer flaky (Decoded.decoded (uint n, end)) =
    if flaky && (n == 501) then failure RpcError.rate_limited else success (item_of bin n)
single_answer flaky _ = failure RpcError.send_failed

abbrev answer : Bool → List (List ℕ) → Fallible RpcError ClarityValue
answer flaky (traits ∷ ids ∷ []) = many_answer (cv_decode ids 0)
answer flaky (id ∷ []) = single_answer flaky (cv_decode id 0)
answer flaky _ = failure RpcError.send_failed

abbrev client : Bool → Client
client flaky = record {
  call_read = λ deployer contract_name function args. answer flaky args;
  data_var = λ deployer contract_name var. failure RpcError.missing_field;
}

uints_count : (ids : List ℕ) → count_values (as_values (map uint ids)) ≡ length ids
unfolding count_values as_values
uints_count [] = refl
uints_count (id ∷ ids) = ap (λ n. suc n) (uints_count ids)

uints-AreEncodable : (ids : List ℕ) → AreIds ids → AreEncodable (as_values (map uint ids))
unfolding AreEncodable IsEncodable as_values
uints-AreEncodable [] h = tt
uints-AreEncodable (id ∷ ids) (small, h) = (omega arith, uints-AreEncodable ids h)

items_of_uints : (ids : List ℕ) → map item (map uint ids) ≡ map (item_of bin) ids
items_of_uints [] = refl
items_of_uints (id ∷ ids) = ap (λ vs. item_of bin id ∷ vs) (items_of_uints ids)

many :
    (ids : List ℕ)
    → length ids ≤ 100
    → AreIds ids
    → answer false (multi_args pool_contract ids)
      ≡ success (response_ok (list (as_values (map (item_of bin) ids))))
unfolding IsEncodable
many ids short h =
    let encodable =
      read_back (list (as_values (map uint ids)))
        (omega (arith, uints_count ids), uints-AreEncodable ids h) in
    rw (encodable, list_items-as_values (map uint ids), items_of_uints ids) refl

single :
    (flaky : Bool) (n : ℕ)
    → n ≤ 1000
    → answer flaky (cv_uint n ∷ [])
      ≡ (if flaky && (n == 501) then failure RpcError.rate_limited else success (item_of bin n))
unfolding cv_uint IsEncodable
single flaky n small = rw (read_back (uint n) (omega arith)) refl

fetch_bins_agree_example :
    (batched single_reads : BTreeMap BinState) × (fetch_bins
        (client false)
        checked
        rotated
        full
        pool_contract
        (bytes "SP1")
        (bytes "pool")
        (pos 0)
      ≡ success batched)
    × (fetch_bins
          (client false)
          checked
          rotated
          full_per_bin
          pool_contract
          (bytes "SP1")
          (bytes "pool")
          (pos 0)
        ≡ success single_reads)
    × ((k : ℤ) → get k batched ≡ get k single_reads)
fetch_bins_agree_example =
    fetch_bins_agree bin checked (client false) rotated (λ k. rotated-any (same_id k)) pool_contract
      (bytes "SP1") (bytes "pool") many (single false) (pos 0)

abbrev read : ℤ → Option BinState
read id =
    if pos_part (id +ℤ center_bin_id) == 501
    then none
    else some (state_of (bin (pos_part (id +ℤ center_bin_id))))

reads :
    (id : ℤ)
    → InRange id
    → attempted (fetch_bin (client true) (bytes "SP1") (bytes "pool") id) ≡ success (read id)
unfolding attempted fetch_bin call_ok unwrap_ok
reads id inside =
    let n = pos_part (id +ℤ center_bin_id) in
    let sum = +ℤ_parts id center_bin_id in
    let asked = single true n (ground (arith, one_part (id +ℤ center_bin_id))) in
    rw asked (elim (Bool-cases (n == 501)) [ inl e ↦ rw e refl | inr ne ↦ rw ne refl ])

fetch_bins_window_example :
    (bins : BTreeMap BinState) × (fetch_bins
        (client true)
        checked
        rotated
        (window 10)
        pool_contract
        (bytes "SP1")
        (bytes "pool")
        (pos 3)
      ≡ success bins)
    × ((k : ℤ) → get k bins ≡ (if is_near (pos 3) 10 k then shown (read k) else none))
fetch_bins_window_example =
    fetch_bins_window checked (client true) rotated (λ k. rotated-any (same_id k)) pool_contract
      (bytes "SP1") (bytes "pool") read reads 10 (pos 3) (omega arith) (omega arith) (omega arith)
