-- ===== src/Codec/Wire.antt =====
-- The values that the types of src/codec/clarity.rs can hold, with lengths that fit their prefixes.
use Prim.Native.Nat.Ordering.{gt}
use stacks_dex_pool.Prelude.{ℕ, ◌<◌, ◌≡◌, true, List, length, All}
use stacks_dex_pool.Prelude.Word.{u32_size, u128_size}
use stacks_dex_pool.Prelude.Bytes.{IsByte, IsI128, is_utf8}
use stacks_dex_pool.Prelude.Text.{Text, text_compare}
use stacks_dex_pool.Pool.Principal.{Principal, standard, contract}
use stacks_dex_pool.Codec.Clarity.{
  ClarityValue, Values, Fields, int, uint, buffer, bool, principal, response_ok, response_err,
  optional_none, optional_some, list, tuple, string_ascii, string_utf8, no_values, value, no_fields,
  field, count_values, count_fields,
}

-- A byte string below a length.
abbrev pub IsBlob : ℕ → List ℕ → Type 0
IsBlob size b = All IsByte b × (length b < size)

abbrev pub IsText : ℕ → Text → Type 0
IsText size s = IsBlob size s × (is_utf8 s ≡ true)

abbrev pub IsHash : List ℕ → Type 0
IsHash h = All IsByte h × (length h ≡ 20)

unfoldable pub IsAddressed : Principal → Type 0
IsAddressed (standard version hash160) = IsByte version × IsHash hash160
IsAddressed (contract version hash160 name) = IsByte version × IsHash hash160 × IsText 256 name

-- The first key of the fields comes after `name`.
unfoldable pub IsAfter : Text → Fields → Type 0
IsAfter name no_fields = Unit
IsAfter name (field key _ _) = text_compare key name ≡ gt

unfoldable mutual
  pub IsEncodable : ClarityValue → Type 0
  IsEncodable (int n) = IsI128 n
  IsEncodable (uint n) = n < u128_size
  IsEncodable (buffer b) = IsBlob u32_size b
  IsEncodable (bool _) = Unit
  IsEncodable (principal p) = IsAddressed p
  IsEncodable (response_ok v) = IsEncodable v
  IsEncodable (response_err v) = IsEncodable v
  IsEncodable optional_none = Unit
  IsEncodable (optional_some v) = IsEncodable v
  IsEncodable (list vs) = (count_values vs < u32_size) × AreEncodable vs
  IsEncodable (tuple fs) = (count_fields fs < u32_size) × HaveEncodable fs
  IsEncodable (string_ascii s) = IsText u32_size s
  IsEncodable (string_utf8 s) = IsText u32_size s

  pub AreEncodable : Values → Type 0
  AreEncodable no_values = Unit
  AreEncodable (value v vs) = IsEncodable v × AreEncodable vs

  pub HaveEncodable : Fields → Type 0
  HaveEncodable no_fields = Unit
  HaveEncodable (field name v fs) =
      IsText 256 name × IsEncodable v × IsAfter name fs × HaveEncodable fs
