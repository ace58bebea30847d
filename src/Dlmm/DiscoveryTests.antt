-- ===== src/Dlmm/DiscoveryTests.antt =====
-- The discovery and the caches of DLMM pools at concrete answers of the node.
use stacks_dex_pool.Prelude.{
  ℕ, ◌≤◌, ◌≡◌, refl, ==_iff, Bool-cases, inl, inr, leb, ◌&&◌, ◌==◌, if◌then◌else◌, Option, none,
  some, List, [], ◌∷◌, ◌++◌, true, replicate, arith,
}
use stacks_dex_pool.Prelude.Text.{Text, bytes, text_eq}
use stacks_dex_pool.Prelude.Fallible.{Fallible, success, failure, collect}
use stacks_dex_pool.Codec.Decode.{Decoded, cv_decode}
use stacks_dex_pool.Codec.Wire.{IsEncodable}
use stacks_dex_pool.Pool.Principal.{Principal, contract}
use stacks_dex_pool.Codec.Clarity.{
  ClarityValue, Fields, no_fields, field, uint, bool, principal, tuple, list, response_ok,
  optional_some, list_items, string_ascii, as_values, lookup, unwrap_ok, as_uint,
}
use stacks_dex_pool.Codec.Encode.{cv_uint}
use stacks_dex_pool.Codec.C32Check.{
  c32_encode_address, to_digits, checksum, goes_on, leading, digit, alphabet, divide, strip,
}
use stacks_dex_pool.Codec.Samples.{hashed, read_back}
use stacks_dex_pool.Rpc.Response.{RpcError}
use stacks_dex_pool.Rpc.Reads.{Client, attempted, call_ok, principal_parts}
use stacks_dex_pool.Dlmm.Listing.{DlmmPoolListing, decode_listing}
use stacks_dex_pool.Dlmm.Discovery.{discover_dlmm_pools}
use stacks_dex_pool.Dlmm.Discovery.Listed.{IsById, find_id, decoded, discover_dlmm_pools_lem, is_id}
use stacks_dex_pool.Dlmm.Factor.{get_or_fetch, fetch_factors, get, insert}
use stacks_dex_pool.Dlmm.Factor.Cached.{get_or_fetch_again}

abbrev pool_contract : Principal
pool_contract = contract 22 (replicate 20 0) (bytes "pool")

abbrev deployer : Text
deployer = bytes "SP000000000000000000003GE1R7"

abbrev listing : Fields
listing = field (bytes "id") (uint 2) (
    field (bytes "name") (string_ascii (bytes "STX-USDCx-LP")) (
      field (bytes "pool-contract") (principal pool_contract) (
        field (bytes "status") (bool true)
          (field (bytes "symbol") (string_ascii (bytes "STX-USDCx-10")) no_fields))))

-- Of three registered ids the second is listed, and the lookups of the others fail.
abbrev looked_up : ℕ → Option ClarityValue
looked_up n = if n == 2 then some (optional_some (tuple listing)) else none

abbrev lookup_answer : Decoded (ClarityValue × ℕ) → Fallible RpcError ClarityValue
lookup_answer (Decoded.decoded (uint n, end)) =
    if n == 2
    then success (response_ok (optional_some (tuple listing)))
    else failure RpcError.rate_limited
lookup_answer _ = failure RpcError.send_failed

abbrev registry_answer : List (List ℕ) → Fallible RpcError ClarityValue
registry_answer [] = success (response_ok (uint 3))
registry_answer (id ∷ ids) = lookup_answer (cv_decode id 0)

abbrev registry_client : Client
registry_client = record {
  call_read = λ deployer contract_name function args. registry_answer args;
  data_var = λ deployer contract_name var. failure RpcError.missing_field;
}

lookup_reads :
    (id : ℕ)
    → id ≤ 3
    → attempted
        (call_ok registry_client deployer (bytes "core") (bytes "get-pool-by-id") (cv_uint id ∷ []))
      ≡ success (looked_up id)
unfolding attempted call_ok unwrap_ok cv_uint IsEncodable
lookup_reads id small =
    rw (read_back (uint id) (omega arith))
      (elim (Bool-cases (id == 2)) [ inl e ↦ rw e refl | inr ne ↦ rw ne refl ])

own_id : (id : ℕ) (l : DlmmPoolListing) → id ≤ 3 → decoded (looked_up id) ≡ some l → l.id ≡ id
unfolding decode_listing lookup text_eq bytes
own_id id l small e = elim (Bool-cases (id == 2)) [
  | inl two ↦
      let found = rw two at e in
      let same = (==_iff id 2).0 two in let own : 2 ≡ l.id = cc (found) in cc
  | inr ne ↦ cc (rw ne at e)
]

abbrev rotated : List ℕ → List ℕ
rotated [] = []
rotated (x ∷ xs) = xs ++ x ∷ []

snoc-is_id : (n x : ℕ) (xs : List ℕ) → is_id n (xs ++ x ∷ []) ≡ is_id n (x ∷ xs)
snoc-is_id n x [] = refl
snoc-is_id n x (y ∷ ys) = ground (arith, snoc-is_id n x ys)

rotated-is_id : (n : ℕ) (xs : List ℕ) → is_id n (rotated xs) ≡ is_id n xs
rotated-is_id n [] = refl
rotated-is_id n (x ∷ xs) = snoc-is_id n x xs

abbrev core_contract : Principal
core_contract = contract 22 (replicate 20 0) (bytes "core")

deployed : principal_parts hashed core_contract ≡ success (deployer, bytes "core")
unfolding principal_parts bytes c32_encode_address to_digits checksum goes_on leading digit alphabet
    divide strip
deployed = refl

counted :
    call_ok registry_client deployer (bytes "core") (bytes "get-last-pool-id") [] ≡ success (uint 3)
unfolding call_ok unwrap_ok
counted = refl

discover_dlmm_pools_lem_example :
    (found : List DlmmPoolListing) × (discover_dlmm_pools hashed registry_client rotated
        core_contract
      ≡ success found)
    × IsById found
    × ((n : ℕ) → find_id n found ≡ (if leb 1 n && leb n 3 then decoded (looked_up n) else none))
discover_dlmm_pools_lem_example =
    discover_dlmm_pools_lem looked_up 3 own_id hashed registry_client deployer (bytes "core")
      lookup_reads rotated rotated-is_id core_contract deployed counted

-- A core contract with a table of three factors, and one that would answer nothing.
abbrev table_client : Client
table_client = record {
  call_read = λ deployer contract_name function args.
      success (response_ok (optional_some (list (as_values (uint 99 ∷ uint 100 ∷ uint 101 ∷ [])))));
  data_var = λ deployer contract_name var. failure RpcError.missing_field;
}

abbrev table : List ℕ
table = 99 ∷ 100 ∷ 101 ∷ []

table_read :
    get_or_fetch hashed table_client core_contract 10 [] ≡ (success table, (10, table) ∷ [])
unfolding get_or_fetch fetch_factors get insert call_ok unwrap_ok as_uint as_values list_items
    collect principal_parts c32_encode_address to_digits checksum goes_on leading digit alphabet
    divide strip
table_read = refl

get_or_fetch_again_example :
    get_or_fetch hashed registry_client pool_contract 10 ((10, table) ∷ [])
    ≡ (success table, (10, table) ∷ [])
get_or_fetch_again_example =
    get_or_fetch_again hashed table_client registry_client core_contract pool_contract 10 []
      ((10, table) ∷ []) table table_read
