-- ===== src/Codec/WrittenBytes.antt =====
-- What the encoder writes is bytes.
use stacks_dex_pool.Prelude.{
  ℕ, zero, suc, ◌/◌, ◌%◌, ◌^◌, true, false, List, [], ◌∷◌, ◌++◌, length, All, All-append, arith,
}
use stacks_dex_pool.Prelude.Bytes.{IsByte, to_be_bytes}
use stacks_dex_pool.Pool.Principal.{Principal, standard, contract}
use stacks_dex_pool.Codec.Clarity.{
  ClarityValue, Values, Fields, int, uint, buffer, bool, principal, response_ok, response_err,
  optional_none, optional_some, list, tuple, string_ascii, string_utf8, no_values, value, no_fields,
  field, count_values, count_fields,
}
use stacks_dex_pool.Codec.Encode.{
  u32_bytes, encode_principal, cv_encode, encode_values, encode_fields,
}
use stacks_dex_pool.Codec.Wire.{IsEncodable, AreEncodable, HaveEncodable, IsAddressed}

to_be_bytes-bytes : (width n : ℕ) → All IsByte (to_be_bytes width n)
unfolding to_be_bytes
to_be_bytes-bytes zero n = tt
to_be_bytes-bytes (suc width) n =
    All-append IsByte (to_be_bytes width (n / 256)) (n % 256 ∷ [])
      (to_be_bytes-bytes width (n / 256)) (omega arith, tt)

prefixed-bytes : (n : ℕ) (b : List ℕ) → All IsByte b → All IsByte (u32_bytes n ++ b)
prefixed-bytes n b h = All-append IsByte (u32_bytes n) b (to_be_bytes-bytes 4 (n % 2 ^ 32)) h

encode_principal-bytes : (p : Principal) → IsAddressed p → All IsByte (encode_principal p)
unfolding encode_principal IsAddressed
encode_principal-bytes (standard version h) (v, (hash, _)) = (omega arith, (v, hash))
encode_principal-bytes (contract version h name) (v, (hash, _), ((text, _), _)) =
    (omega arith, (v, All-append IsByte h (length name % 256 ∷ name) hash (omega arith, text)))

mutual
  unfolding cv_encode IsEncodable

  pub cv_encode-bytes : (v : ClarityValue) → IsEncodable v → All IsByte (cv_encode v)
  cv_encode-bytes (int n) h = (omega arith, to_be_bytes-bytes 16 _)
  cv_encode-bytes (uint n) h = (omega arith, to_be_bytes-bytes 16 _)
  cv_encode-bytes (buffer b) h = (omega arith, prefixed-bytes (length b) b h.0)
  cv_encode-bytes (bool true) h = (omega arith, tt)
  cv_encode-bytes (bool false) h = (omega arith, tt)
  cv_encode-bytes (principal p) h = encode_principal-bytes p h
  cv_encode-bytes (response_ok v) h = (omega arith, cv_encode-bytes v h)
  cv_encode-bytes (response_err v) h = (omega arith, cv_encode-bytes v h)
  cv_encode-bytes optional_none h = (omega arith, tt)
  cv_encode-bytes (optional_some v) h = (omega arith, cv_encode-bytes v h)
  cv_encode-bytes (list vs) (_, h) =
      (omega arith, prefixed-bytes (count_values vs) (encode_values vs) (encode_values-bytes vs h))
  cv_encode-bytes (tuple fs) (_, h) =
      (omega arith, prefixed-bytes (count_fields fs) (encode_fields fs) (encode_fields-bytes fs h))
  cv_encode-bytes (string_ascii s) h = (omega arith, prefixed-bytes (length s) s h.0.0)
  cv_encode-bytes (string_utf8 s) h = (omega arith, prefixed-bytes (length s) s h.0.0)

  encode_values-bytes : (vs : Values) → AreEncodable vs → All IsByte (encode_values vs)
  encode_values-bytes no_values h = tt
  encode_values-bytes (value v vs) (h, hs) =
      All-append IsByte (cv_encode v) (encode_values vs) (cv_encode-bytes v h)
        (encode_values-bytes vs hs)

  encode_fields-bytes : (fs : Fields) → HaveEncodable fs → All IsByte (encode_fields fs)
  encode_fields-bytes no_fields h = tt
  encode_fields-bytes (field name v fs) (((text, _), _), h, _, hs) = (
    omega arith,
    All-append IsByte name (cv_encode v ++ encode_fields fs) text (
        All-append IsByte (cv_encode v) (encode_fields fs) (cv_encode-bytes v h)
          (encode_fields-bytes fs hs)),
  )
