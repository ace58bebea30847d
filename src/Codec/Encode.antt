-- ===== src/Codec/Encode.antt =====
-- The encoder of src/codec/clarity.rs. What the source appends to `out` is concatenated here.
use stacks_dex_pool.Prelude.{ℕ, ◌%◌, Bool, true, false, List, [], ◌∷◌, ◌++◌, length}
use stacks_dex_pool.Prelude.Int.{ℤ}
use stacks_dex_pool.Prelude.Word.{u32_size}
use stacks_dex_pool.Prelude.Bytes.{to_be_bytes, i128_bits}
use stacks_dex_pool.Pool.Principal.{Principal, standard, contract}
use stacks_dex_pool.Codec.Clarity.{
  ClarityValue, Values, Fields, int, uint, buffer, bool, principal, response_ok, response_err,
  optional_none, optional_some, list, tuple, string_ascii, string_utf8, no_values, value, no_fields,
  field, count_values, count_fields,
}

-- `n as u32` in four bytes, and `n as u8`.
abbrev pub u32_bytes : ℕ → List ℕ
u32_bytes n = to_be_bytes 4 (n % u32_size)

abbrev pub prefixed : List ℕ → List ℕ
prefixed b = u32_bytes (length b) ++ b

abbrev pub short_prefixed : List ℕ → List ℕ
short_prefixed b = (length b % 256) ∷ b

unfoldable pub encode_principal : Principal → List ℕ
encode_principal (standard version hash160) = 0x05 ∷ version ∷ hash160
encode_principal (contract version hash160 name) = 0x06 ∷ version ∷ (hash160 ++ short_prefixed name)

unfoldable mutual
  unfolding encode_principal

  pub cv_encode : ClarityValue → List ℕ
  cv_encode (int n) = 0x00 ∷ to_be_bytes 16 (i128_bits n)
  cv_encode (uint n) = 0x01 ∷ to_be_bytes 16 n
  cv_encode (buffer b) = 0x02 ∷ prefixed b
  cv_encode (bool true) = 0x03 ∷ []
  cv_encode (bool false) = 0x04 ∷ []
  cv_encode (principal p) = encode_principal p
  cv_encode (response_ok inner) = 0x07 ∷ cv_encode inner
  cv_encode (response_err inner) = 0x08 ∷ cv_encode inner
  cv_encode optional_none = 0x09 ∷ []
  cv_encode (optional_some inner) = 0x0a ∷ cv_encode inner
  cv_encode (list items) = 0x0b ∷ (u32_bytes (count_values items) ++ encode_values items)
  cv_encode (tuple fields) = 0x0c ∷ (u32_bytes (count_fields fields) ++ encode_fields fields)
  cv_encode (string_ascii s) = 0x0d ∷ prefixed s
  cv_encode (string_utf8 s) = 0x0e ∷ prefixed s

  pub encode_values : Values → List ℕ
  encode_values no_values = []
  encode_values (value v vs) = cv_encode v ++ encode_values vs

  pub encode_fields : Fields → List ℕ
  encode_fields no_fields = []
  encode_fields (field name v fs) = short_prefixed name ++ (cv_encode v ++ encode_fields fs)

-- The helpers for request arguments.
unfoldable pub cv_uint : ℕ → List ℕ
cv_uint n = cv_encode (uint n)

unfoldable pub cv_int : ℤ → List ℕ
cv_int n = cv_encode (int n)

unfoldable pub cv_bool : Bool → List ℕ
cv_bool b = cv_encode (bool b)

unfoldable pub cv_principal : Principal → List ℕ
cv_principal p = cv_encode (principal p)
