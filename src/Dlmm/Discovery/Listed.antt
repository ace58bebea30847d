-- ===== src/Dlmm/Discovery/Listed.antt =====
-- What the discovery lists.
use stacks_dex_pool.Prelude.{
  ℕ, zero, suc, ◌≤◌, ◌≡◌, refl, sym, ◌∙◌, Bool, true, Bool-cases, inl, inr, leb, ◌==◌, ==_iff, ◌&&◌,
  if◌then◌else◌, Option, none, some, List, [], ◌∷◌, ◌++◌, any, All, arith,
}
use stacks_dex_pool.Prelude.Text.{Text, bytes}
use stacks_dex_pool.Prelude.Fallible.{success}
use stacks_dex_pool.Pool.Principal.{Principal}
use stacks_dex_pool.Codec.Clarity.{ClarityValue, uint, as_uint}
use stacks_dex_pool.Codec.Encode.{cv_uint}
use stacks_dex_pool.Rpc.Reads.{Client, call_ok, attempted, principal_parts}
use stacks_dex_pool.Dlmm.Listing.{DlmmPoolListing, decode_listing}
use stacks_dex_pool.Dlmm.Discovery.{place, sort_by_id, kept, lookups, ids_to, discover_dlmm_pools}

-- The first listing of an id.
abbrev pub find_id : ℕ → List DlmmPoolListing → Option DlmmPoolListing
find_id n [] = none
find_id n (l ∷ ls) = let rest = find_id n ls in if l.id == n then some l else rest

abbrev pub IsById : List DlmmPoolListing → Type 0
IsById [] = Unit
IsById (l ∷ ls) = All (λ (k : DlmmPoolListing). l.id ≤ k.id) ls × IsById ls

abbrev pub is_id : ℕ → List ℕ → Bool
is_id n ids = any (λ id. id == n) ids

place-find :
    (n : ℕ) (l : DlmmPoolListing) (ls : List DlmmPoolListing)
    → find_id n (place l ls) ≡ (if l.id == n then some l else find_id n ls)
unfolding place
place-find n l [] = refl
place-find n l (k ∷ ks) = ground (arith, place-find n l ks)

sort_by_id-find : (n : ℕ) (ls : List DlmmPoolListing) → find_id n (sort_by_id ls) ≡ find_id n ls
unfolding sort_by_id
sort_by_id-find n [] = refl
sort_by_id-find n (l ∷ ls) = place-find n l (sort_by_id ls) ∙ rw (sort_by_id-find n ls) refl

below-all :
    (a b : ℕ) (ls : List DlmmPoolListing)
    → a ≤ b
    → All (λ (k : DlmmPoolListing). b ≤ k.id) ls
    → All (λ (k : DlmmPoolListing). a ≤ k.id) ls
below-all a b [] le h = tt
below-all a b (k ∷ ks) le (first, h) = (omega arith, below-all a b ks le h)

place-below :
    (a : ℕ) (l : DlmmPoolListing) (ls : List DlmmPoolListing)
    → a ≤ l.id
    → All (λ (k : DlmmPoolListing). a ≤ k.id) ls
    → All (λ (k : DlmmPoolListing). a ≤ k.id) (place l ls)
unfolding place
place-below a l [] le h = (le, tt)
place-below a l (k ∷ ks) le (first, h) = ground (arith, place-below a l ks le h)

place-IsById : (l : DlmmPoolListing) (ls : List DlmmPoolListing) → IsById ls → IsById (place l ls)
unfolding place
place-IsById l [] h = (tt, tt)
place-IsById l (k ∷ ks) (below, h) =
    ground (arith, place-IsById l ks h, place-below k.id l ks, below, below-all l.id k.id ks)

sort_by_id-IsById : (ls : List DlmmPoolListing) → IsById (sort_by_id ls)
unfolding sort_by_id
sort_by_id-IsById [] = tt
sort_by_id-IsById (l ∷ ls) = place-IsById l (sort_by_id ls) (sort_by_id-IsById ls)

is_id-append :
    (n id : ℕ) (ids : List ℕ) → is_id n (ids ++ id ∷ []) ≡ (if is_id n ids then true else id == n)
is_id-append n id [] = ground arith
is_id-append n id (i ∷ ids) = ground (arith, is_id-append n id ids)

ids_to-is_id : (n last : ℕ) → is_id n (ids_to last) ≡ (leb 1 n && leb n last)
unfolding ids_to
ids_to-is_id n zero = ground arith
ids_to-is_id n (suc last) =
    is_id-append n (suc last) (ids_to last) ∙ rw (ids_to-is_id n last) (ground arith)

All-ids :
    (last : ℕ) (ids : List ℕ)
    → ((n : ℕ) → is_id n ids ≡ true → n ≤ last)
    → All (λ (id : ℕ). id ≤ last) ids
All-ids last [] each = tt
All-ids last (id ∷ ids) each = (
  each id (ground arith),
  All-ids last ids λ n listed.
      each n (elim (Bool-cases (id == n)) [ inl e ↦ rw e refl | inr ne ↦ rw (ne, listed) refl ]),
)

abbrev pub decoded : Option ClarityValue → Option DlmmPoolListing
decoded none = none
decoded (some v) = decode_listing v

abbrev or_rest : Option DlmmPoolListing → Option DlmmPoolListing → Option DlmmPoolListing
or_rest none rest = rest
or_rest (some l) rest = some l

or_rest-same :
    (d rest : Option DlmmPoolListing) (b : Bool)
    → rest ≡ (if b then d else none)
    → or_rest d rest ≡ d
or_rest-same none rest b e = ground arith
or_rest-same (some l) rest b e = refl

-- The listing of one lookup, and of the others.
abbrev first_or : ℕ → Option DlmmPoolListing → Option DlmmPoolListing → Option DlmmPoolListing
first_or n none rest = rest
first_or n (some l) rest = if l.id == n then some l else rest

first_or-same :
    (n id : ℕ) (d rest : Option DlmmPoolListing)
    → ((l : DlmmPoolListing) → d ≡ some l → l.id ≡ id)
    → first_or n d rest ≡ (if id == n then or_rest d rest else rest)
first_or-same n id none rest own = ground arith
first_or-same n id (some l) rest own = rw (own l refl) refl

-- `read` is what the lookup of each id ends in, a failure being `none`.
module _ (read : ℕ → Option ClarityValue) (last : ℕ)
    (own_id : (id : ℕ) (l : DlmmPoolListing)
      → id ≤ last
      → decoded (read id) ≡ some l
      → l.id ≡ id) where
  abbrev listed : List ℕ → List DlmmPoolListing
  listed [] = []
  listed (id ∷ ids) = kept (read id) (listed ids)

  kept-find :
      (n : ℕ) (found : Option ClarityValue) (ls : List DlmmPoolListing)
      → find_id n (kept found ls) ≡ first_or n (decoded found) (find_id n ls)
  kept-find n none ls = refl
  kept-find n (some v) ls =
      elim (decode_listing v)
        as (λ d. find_id n (elim d [ none ↦ ls | some l ↦ l ∷ ls ]) ≡ first_or n d (find_id n ls)) [
          | none ↦ refl
          | some l ↦ refl
        ]

  listed-find :
      (n : ℕ) (ids : List ℕ)
      → All (λ (id : ℕ). id ≤ last) ids
      → find_id n (listed ids) ≡ (if is_id n ids then decoded (read n) else none)
  listed-find n [] inside = refl
  listed-find n (id ∷ ids) (here, inside) =
      let rest = find_id n (listed ids) in
      let ih = listed-find n ids inside in
      kept-find n (read id) (listed ids)
      ∙ first_or-same n id (decoded (read id)) rest (λ l. own_id id l here)
      ∙ elim (Bool-cases (id == n)) [
        | inl e ↦
            let same = (==_iff id n).0 e in
            rw (e, same) (or_rest-same (decoded (read n)) rest (is_id n ids) ih)
        | inr ne ↦ rw ne ih
      ]

  module _ (sha256 : List ℕ → List ℕ) (client : Client) (deployer name : Text)
      (reads : (id : ℕ)
        → id ≤ last
        → attempted (call_ok client deployer name (bytes "get-pool-by-id") (cv_uint id ∷ []))
          ≡ success (read id)) where
    lookups-listed :
        (ids : List ℕ)
        → All (λ (id : ℕ). id ≤ last) ids
        → lookups client deployer name ids ≡ success (listed ids)
    unfolding lookups
    lookups-listed [] inside = refl
    lookups-listed (id ∷ ids) (here, inside) = rw (reads id here, lookups-listed ids inside) refl

    -- Let `read` say what the lookup of each id up to the last ends in, a failure being `none`, let a listing carry
    -- the id that was looked up, and let the answers arrive in any order. Then the discovery
    -- succeeds, even if lookups fail. Its result is sorted by id, and holds for each id up to the
    -- last one the listing that its lookup decodes to, or nothing if it failed or does not decode.
    pub discover_dlmm_pools_lem :
        (arrivals : List ℕ → List ℕ)
        → ((n : ℕ) (ids : List ℕ) → is_id n (arrivals ids) ≡ is_id n ids)
        → (core_contract : Principal)
        → principal_parts sha256 core_contract ≡ success (deployer, name)
        → call_ok client deployer name (bytes "get-last-pool-id") [] ≡ success (uint last)
        → (found : List DlmmPoolListing) × (discover_dlmm_pools sha256 client arrivals core_contract
            ≡ success found)
          × IsById found
          × ((n : ℕ) → find_id n found ≡ (if leb 1 n && leb n last then decoded (read n) else none))
    unfolding discover_dlmm_pools as_uint
    discover_dlmm_pools_lem arrivals arrive core_contract parts counted =
        let ids = arrivals (ids_to last) in
        let inside =
          All-ids last ids λ n listed.
            ground (arith, sym (arrive n (ids_to last) ∙ ids_to-is_id n last) ∙ listed) in
        (
          sort_by_id (listed ids),
          rw (parts, counted, lookups-listed ids inside) refl,
          sort_by_id-IsById (listed ids),
          λ n.
              sort_by_id-find n (listed ids)
              ∙ listed-find n ids inside
              ∙ rw (arrive n (ids_to last), ids_to-is_id n last) refl,
        )
