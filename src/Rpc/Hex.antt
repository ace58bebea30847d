-- ===== src/Rpc/Hex.antt =====
-- The hexadecimal text of src/rpc/client.rs, src/rpc/events.rs and src/rpc/block_walker.rs.
use stacks_dex_pool.Prelude.{
  ℕ, ◌+◌, ◌-◌, ◌*◌, ◌/◌, ◌%◌, ◌<◌, ◌≡◌, refl, Bool, false, ◌&&◌, Option, none, some, List, [], ◌∷◌,
  leb, ◌==◌, if◌then◌else◌, length, All, arith,
}
use stacks_dex_pool.Prelude.Text.{Text}
use stacks_dex_pool.Prelude.Bytes.{IsByte}
use stacks_dex_pool.Prelude.Outcome.{panicked}
use stacks_dex_pool.Prelude.Fallible.{Fallible, success, failure, or_else, ◌>>=◌}

-- A digit of `{:02x}`.
abbrev pub hex_digit : ℕ → ℕ
hex_digit d = if leb d 9 then 0x30 + d else 0x57 + d

unfoldable pub hex : List ℕ → Text
hex [] = []
hex (b ∷ bs) = hex_digit (b / 16) ∷ hex_digit (b % 16) ∷ hex bs

pub data HexError : Type 0 where
  odd_length bad_digit : HexError

abbrev pub hex_value : ℕ → Option ℕ
hex_value c =
    if leb 0x30 c && leb c 0x39
    then some (c - 0x30)
    else if leb 0x61 c && leb c 0x66
    then some (c - 0x57)
    else if leb 0x41 c && leb c 0x46
    then some (c - 0x37)
    else none

abbrev pub two_digits : Option ℕ → Option ℕ → Option ℕ
two_digits (some a) (some b) = some (a * 16 + b)
two_digits _ _ = none

-- `u8::from_str_radix(s, 16)` on two bytes; it takes a `+` before the digits.
unfoldable pub from_str_radix : ℕ → ℕ → Option ℕ
from_str_radix a b = if a == 0x2b then hex_value b else two_digits (hex_value a) (hex_value b)

-- Whether a text continues the character before it: a slice that ends there panics.
unfoldable pub cuts : Text → Bool
cuts [] = false
cuts (c ∷ s) = leb 0x80 c && leb c 0xbf

unfoldable pub hex_pairs : Text → Fallible HexError (List ℕ)
hex_pairs [] = success []
hex_pairs (a ∷ []) = success []
hex_pairs (a ∷ b ∷ s) =
    let pair = do
      byte ← or_else HexError.bad_digit (from_str_radix a b)
      bytes ← hex_pairs s
      success (byte ∷ bytes)
    in if cuts s then panicked else pair

unfoldable pub hex_decode : Text → Fallible HexError (List ℕ)
hex_decode s = if length s % 2 == 0 then hex_pairs s else failure HexError.odd_length

-- `strip_prefix("0x").unwrap_or(s)`.
unfoldable pub strip_0x : Text → Text
strip_0x (a ∷ b ∷ s) = if (a == 0x30) && (b == 0x78) then s else a ∷ b ∷ s
strip_0x s = s

digit-value : (d : ℕ) → d < 16 → hex_value (hex_digit d) ≡ some d
digit-value d h = ground arith

digit_plain : (d : ℕ) → d < 16 → (hex_digit d == 0x2b) ≡ false
digit_plain d h = ground arith

cuts-hex : (bs : List ℕ) → All IsByte bs → cuts (hex bs) ≡ false
unfolding cuts hex
cuts-hex [] h = refl
cuts-hex (b ∷ bs) h = ground arith

length-hex : (bs : List ℕ) → length (hex bs) ≡ 2 * length bs
unfolding hex
length-hex [] = refl
length-hex (b ∷ bs) = omega (arith, length-hex bs)

hex_pairs-hex : (bs : List ℕ) → All IsByte bs → hex_pairs (hex bs) ≡ success bs
unfolding hex_pairs hex from_str_radix
hex_pairs-hex [] h = refl
hex_pairs-hex (b ∷ bs) (hb, hbs) =
    let high = digit-value (b / 16) (omega arith) in
    let low = digit-value (b % 16) (omega arith) in
    let plain = digit_plain (b / 16) (omega arith) in
    let whole : b / 16 * 16 + b % 16 ≡ b = omega arith in
    rw (cuts-hex bs hbs, plain, high, low, hex_pairs-hex bs hbs, whole)

-- Bytes that are printed in hexadecimal, with or without `0x`, are read back.
pub hex_decode-hex : (bs : List ℕ) → All IsByte bs → hex_decode (hex bs) ≡ success bs
unfolding hex_decode
hex_decode-hex bs h =
    let even : length (hex bs) % 2 ≡ 0 = omega (arith, length-hex bs) in
    rw (even, hex_pairs-hex bs h)
