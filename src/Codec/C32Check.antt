-- ===== src/Codec/C32Check.antt =====
-- src/codec/c32.rs: addresses in Crockford's base 32. SHA-256 is the `sha2` package's, a parameter.
pub mod Table
pub mod Number
pub mod Shift
pub mod Divide
pub mod Digits
pub mod RoundTrip
use Prim.Native.Nat.{bit_or}
use stacks_dex_pool.Prelude.{
  ℕ, zero, suc, ◌+◌, ◌*◌, ◌-◌, ◌/◌, ◌%◌, Bool, ◌||◌, Option, none, some, List, [], ◌∷◌, ◌++◌, ltb,
  leb, ◌==◌, not, if◌then◌else◌, length, take, drop, replicate, get_elem?,
}
use stacks_dex_pool.Prelude.Text.{Text, bytes, text_eq}
use stacks_dex_pool.Prelude.Outcome.{Outcome, returned, panicked, ◌>>=◌, Result, ok, err}

unfoldable pub alphabet : Text
unfolding bytes
alphabet = bytes "0123456789ABCDEFGHJKMNPQRSTVWXYZ"

pub data AddressError : Type 0 where
  not_an_address bad_version bad_digit too_long bad_checksum : AddressError

-- `iter().position(|&c| c == ch)`.
unfoldable pub position : ℕ → List ℕ → Option ℕ
position ch [] = none
position ch (c ∷ cs) =
    let later = position ch cs in
    if c == ch then some 0 else elim later [ none ↦ none | some i ↦ some (i + 1) ]

unfoldable pub c32_index : ℕ → Option ℕ
unfolding alphabet position
c32_index ch = position ch alphabet

-- How many of the first elements are `b`.
unfoldable pub leading : ℕ → List ℕ → ℕ
leading b [] = 0
leading b (c ∷ cs) = let later = leading b cs in if c == b then later + 1 else 0

-- `for byte in acc.iter_mut().rev()`: the bytes shifted left by 5 bits, and what is carried out.
unfoldable pub shift_bytes : List ℕ → ℕ → List ℕ × ℕ
shift_bytes [] carry = ([], carry)
shift_bytes (b ∷ bs) carry =
    let (bs', c) = shift_bytes bs carry in let v = bit_or (b * 32) c in (v % 256 ∷ bs', v / 256)

-- `while carry > 0`; four rounds bring every `u32` to 0.
unfoldable pub push_carry : ℕ → ℕ → List ℕ → List ℕ
push_carry zero carry acc = acc
push_carry (suc rounds) carry acc =
    let more = push_carry rounds (carry / 256) (carry % 256 ∷ acc) in
    if carry == 0 then acc else more

unfoldable pub shift_in : List ℕ → ℕ → List ℕ
shift_in acc d = let (bs, carry) = shift_bytes acc d in push_carry 4 carry bs

unfoldable pub shift_all : List ℕ → Text → Result AddressError (List ℕ)
shift_all acc [] = ok acc
shift_all acc (ch ∷ s) = elim (c32_index ch) [
  | none ↦ err AddressError.bad_digit
  | some d ↦ shift_all (shift_in acc d) s
]

abbrev pad : ℕ → ℕ → List ℕ → Result AddressError (List ℕ)
pad expected_len lead acc =
    let full = replicate lead 0 ++ acc in
    if ltb expected_len (length full)
    then err AddressError.too_long
    else ok (replicate (expected_len - length full) 0 ++ full)

abbrev padded : ℕ → ℕ → Result AddressError (List ℕ) → Result AddressError (List ℕ)
padded expected_len lead (ok acc) = pad expected_len lead acc
padded expected_len lead (err e) = err e

-- `b'0'` is 0x30.
unfoldable pub c32check_decode : Text → ℕ → Result AddressError (List ℕ)
c32check_decode s expected_len =
    let lead = leading 0x30 s in padded expected_len lead (shift_all [] (drop lead s))

-- The bytes divided by 32, after a remainder, and the new remainder.
unfoldable pub divide : ℕ → List ℕ → List ℕ × ℕ
divide rem [] = ([], rem)
divide rem (b ∷ bs) =
    let cur = rem * 256 + b in let (out, last) = divide (cur % 32) bs in (cur / 32 ∷ out, last)

-- `while out.len() > 1 && out[0] == 0 { out.remove(0); }`
unfoldable pub strip : List ℕ → List ℕ
strip [] = []
strip (b ∷ []) = b ∷ []
strip (b ∷ c ∷ bs) = let rest = strip (c ∷ bs) in if b == 0 then rest else b ∷ c ∷ bs

-- `n.len() > 1 || n.first().is_some_and(|&b| b != 0)`
unfoldable pub goes_on : List ℕ → Bool
goes_on [] = Bool.false
goes_on (b ∷ bs) = ltb 1 (length (b ∷ bs)) || not (b == 0)

-- Indexing the alphabet, which panics past its 32 digits.
unfoldable pub digit : ℕ → Outcome ℕ
digit i = elim (get_elem? alphabet i) [ none ↦ panicked | some ch ↦ returned ch ]

-- The digits are pushed and then reversed, so each stands before the ones that were there.
unfoldable pub to_digits : ℕ → List ℕ → Text → Outcome Text
to_digits zero n digits = Outcome.out_of_fuel
to_digits (suc fuel) n digits =
    let (out, rem) = divide 0 n in
    let more = do ch ← digit rem; to_digits fuel (strip out) (ch ∷ digits)
    in if goes_on n then more else returned digits

module _ (sha256 : List ℕ → List ℕ) where
  unfoldable pub checksum : ℕ → List ℕ → List ℕ
  checksum version hash160 = take 4 (sha256 (sha256 (version ∷ hash160)))

  -- Each byte makes two digits at most.
  unfoldable pub c32_encode_address : ℕ → List ℕ → Outcome Text
  c32_encode_address version hash160 =
      let payload = hash160 ++ checksum version hash160 in
      let lead = leading 0 payload in
      do
        digits ← to_digits (2 * length payload + 1) (drop lead payload) []
        ch ← digit version
        returned (0x53 ∷ ch ∷ (replicate lead 0x30 ++ digits))

  abbrev verified : ℕ → List ℕ → Result AddressError (ℕ × List ℕ)
  verified version payload =
      let hash160 = take 20 payload in
      if text_eq (drop 20 payload) (checksum version hash160)
      then ok (version, hash160)
      else err AddressError.bad_checksum

  abbrev decoded_payload : ℕ → Result AddressError (List ℕ) → Result AddressError (ℕ × List ℕ)
  decoded_payload version (ok payload) = verified version payload
  decoded_payload version (err e) = err e

  abbrev decoded_body : Option ℕ → Text → Result AddressError (ℕ × List ℕ)
  decoded_body none s = err AddressError.bad_version
  decoded_body (some version) s = decoded_payload version (c32check_decode s 24)

  unfoldable pub stacks_addr_decode : Text → Result AddressError (ℕ × List ℕ)
  stacks_addr_decode [] = err AddressError.not_an_address
  stacks_addr_decode (s ∷ []) = err AddressError.not_an_address
  stacks_addr_decode (s ∷ version_char ∷ body) =
      if s == 0x53
      then decoded_body (c32_index version_char) body
      else err AddressError.not_an_address
