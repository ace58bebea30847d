-- ===== src/Pool/Address.antt =====
-- src/pool/principal.rs: principals from their text and back. SHA-256 is a parameter.
pub mod RoundTrip
use mathlib.Core.Option
use stacks_dex_pool.Prelude.{
  ℕ, ◌+◌, ◌≤◌, ◌<◌, ◌≡◌, refl, sym, ap, ◌∙◌, Bool, true, false, not, Option, none, some, List, [],
  ◌∷◌, ◌++◌, ltb, ◌==◌, any, if◌then◌else◌, Bool-cases, inl, inr, length, length-append, All,
  All-append, get_elem?, drop, replicate, arith, Option-cases,
}
use stacks_dex_pool.Prelude.Text.{Text}
use stacks_dex_pool.Prelude.Outcome.{Outcome, returned, panicked, ◌>>=◌, Result, ok, err}
use stacks_dex_pool.Prelude.Bytes.{IsByte}
use stacks_dex_pool.Pool.Principal.{Principal, standard, contract, address}
use stacks_dex_pool.Codec.C32Check.{
  AddressError, alphabet, c32_index, leading, shift_in, shift_all, c32check_decode,
  c32_encode_address, stacks_addr_decode, digit, checksum,
}
use stacks_dex_pool.Codec.C32Check.RoundTrip.{
  IsDigest, checksum-bytes, c32check_decode_lem, stacks_addr_decode-c32_encode_address,
}

pub data PrincipalError : Type 0 where
  bad_address : AddressError → PrincipalError
  name_too_long name_not_ascii : PrincipalError

-- `str::is_ascii`.
unfoldable pub is_ascii : Text → Bool
is_ascii s = not (any (λ b. ltb 127 b) s)

-- `str::split_once('.')`: what stands before the first dot, and after it.
unfoldable pub split_once : Text → Option (Text × Text)
split_once [] = none
split_once (c ∷ s) =
    let later = Option.map (λ (a, b). (c ∷ a, b)) (split_once s) in
    if c == 0x2e then some ([], s) else later

module _ (sha256 : List ℕ → List ℕ) where
  abbrev with_address :
      Result AddressError (ℕ × List ℕ)
      → (ℕ × List ℕ → Result PrincipalError Principal)
      → Result PrincipalError Principal
  with_address (ok a) f = f a
  with_address (err e) f = err (PrincipalError.bad_address e)

  -- `Principal::contract`.
  unfoldable pub contract_at : Text → Text → Result PrincipalError Principal
  contract_at addr name = with_address (stacks_addr_decode sha256 addr) λ (version, hash160).
      if ltb 128 (length name)
      then err PrincipalError.name_too_long
      else if not (is_ascii name)
      then err PrincipalError.name_not_ascii
      else ok (contract version hash160 name)

  -- `Principal::standard`.
  unfoldable pub standard_at : Text → Result PrincipalError Principal
  standard_at addr =
      with_address (stacks_addr_decode sha256 addr)
        λ (version, hash160). ok (standard version hash160)

  -- `Display::fmt`.
  abbrev with_name : Principal → Text → Text
  with_name (standard _ _) addr = addr
  with_name (contract _ _ name) addr = addr ++ 0x2e ∷ name

  unfoldable pub display : Principal → Outcome Text
  display p =
      let (version, hash160) = address p in
      do addr ← c32_encode_address sha256 version hash160; returned (with_name p addr)

  abbrev parsed : Text → Option (Text × Text) → Result PrincipalError Principal
  parsed s none = standard_at s
  parsed s (some (addr, name)) = contract_at addr name

  -- `FromStr::from_str`.
  unfoldable pub from_str : Text → Result PrincipalError Principal
  from_str s = parsed s (split_once s)
