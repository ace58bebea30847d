-- ===== src/Dlmm/Listing.antt =====
-- src/dlmm/discovery.rs: the entry of a pool in the registry of the core contract.
use stacks_dex_pool.Prelude.{ℕ, Bool, Option, none, some}
use stacks_dex_pool.Prelude.Text.{Text, bytes}
use stacks_dex_pool.Prelude.Partial.{◌>>=◌}
use stacks_dex_pool.Pool.Principal.{Principal}
use stacks_dex_pool.Codec.Clarity.{
  ClarityValue, Fields, uint, bool, principal, tuple, optional_some, string_ascii, string_utf8,
  lookup,
}

pub record DlmmPoolListing : Type 0 where
  pub id : ℕ
  pub pool_contract : Principal
  pub name : Text
  pub symbol : Text
  pub status : Bool

abbrev string_at : Option ClarityValue → Option Text
string_at (some (string_ascii s)) = some s
string_at (some (string_utf8 s)) = some s
string_at _ = none

abbrev uint_at : Option ClarityValue → Option ℕ
uint_at (some (uint n)) = some n
uint_at _ = none

abbrev bool_at : Option ClarityValue → Option Bool
bool_at (some (bool b)) = some b
bool_at _ = none

abbrev principal_at : Option ClarityValue → Option Principal
principal_at (some (principal p)) = some p
principal_at _ = none

-- The listing of a tuple that has every field.
abbrev listing_of : Fields → Option DlmmPoolListing
listing_of fields = do
  id ← uint_at (lookup (bytes "id") fields)
  pool_contract ← principal_at (lookup (bytes "pool-contract") fields)
  name ← string_at (lookup (bytes "name") fields)
  symbol ← string_at (lookup (bytes "symbol") fields)
  status ← bool_at (lookup (bytes "status") fields)
  some (record {
    id = id;
    pool_contract = pool_contract;
    name = name;
    symbol = symbol;
    status = status;
  })

unfoldable pub decode_listing : ClarityValue → Option DlmmPoolListing
decode_listing (optional_some (tuple fields)) = listing_of fields
decode_listing other = none
