-- ===== src/Codec/Samples.antt =====
-- A tuple that a contract prints, a digest and a hash, for the tests.
use stacks_dex_pool.Prelude.{
  ℕ, Bool, true, ◌&&◌, ltb, ltb→lt, ◌≡◌, ◌<◌, refl, List, [], ◌∷◌, length, replicate, All, arith,
}
use stacks_dex_pool.Prelude.Word.{u32_size}
use stacks_dex_pool.Prelude.Bytes.{IsByte, is_utf8, utf8_from}
use stacks_dex_pool.Prelude.Text.{Text, bytes, text_compare}
use stacks_dex_pool.Codec.Clarity.{
  ClarityValue, Fields, no_fields, field, count_fields, uint, tuple, string_ascii,
}
use native.Mathlib.Nat.{zero-add}
use mathlib.Core.List.{append-nil}
use stacks_dex_pool.Codec.Encode.{cv_encode}
use stacks_dex_pool.Codec.Decode.{Decoded, cv_decode}
use stacks_dex_pool.Codec.RoundTrip.{cv_decode-cv_encode}
use stacks_dex_pool.Codec.Wire.{IsEncodable, IsAfter, IsText}
use stacks_dex_pool.Codec.C32Check.RoundTrip.{IsDigest}

abbrev are_bytes : List ℕ → Bool
are_bytes [] = true
are_bytes (b ∷ bs) = ltb b 256 && are_bytes bs

are_bytes_sound : (bs : List ℕ) → are_bytes bs ≡ true → All IsByte bs
are_bytes_sound [] h = _
are_bytes_sound (b ∷ bs) h = (ground arith, are_bytes_sound bs (ground arith))

text-IsText :
    (size : ℕ) (s : Text)
    → are_bytes s ≡ true
    → ltb (length s) size ≡ true
    → is_utf8 s ≡ true
    → IsText size s
text-IsText size s all short valid = ((are_bytes_sound s all, ltb→lt (length s) size short), valid)

abbrev pub payload : Fields
payload = field (bytes "x") (uint 500) no_fields

abbrev pub printed : Fields
printed =
    field (bytes "action") (string_ascii (bytes "swap"))
      (field (bytes "data") (tuple payload) no_fields)

-- `{ action: "swap", data: { x: u500 } }` satisfies the conditions of the encoder.
pub printed-IsEncodable : IsEncodable (tuple printed)
unfolding IsEncodable IsAfter text_compare count_fields bytes utf8_from
printed-IsEncodable = (
  omega arith,
  (
    text-IsText 256 (bytes "action") refl refl refl,
    text-IsText u32_size (bytes "swap") refl refl refl,
    refl,
    (
      text-IsText 256 (bytes "data") refl refl refl,
      (omega arith, (text-IsText 256 (bytes "x") refl refl refl, omega arith, _, _)),
      _,
      _,
    ),
  ),
)

-- A digest of 32 bytes that does not depend on the message.
abbrev pub hashed : List ℕ → List ℕ
hashed m = replicate 32 7

pub hashed-IsDigest : IsDigest hashed
hashed-IsDigest m = (are_bytes_sound (replicate 32 7) refl, refl)

abbrev pub hash_of : ℕ → List ℕ
hash_of n = n ∷ replicate 19 0

pub hash_of-IsByte : (n : ℕ) → n < 256 → All IsByte (hash_of n)
hash_of-IsByte n h = (h, are_bytes_sound (replicate 19 0) refl)

-- An encoding by itself is read back.
pub read_back :
    (v : ClarityValue)
    → IsEncodable v
    → cv_decode (cv_encode v) 0 ≡ Decoded.decoded (v, length (cv_encode v))
read_back v h =
    rw (append-nil (cv_encode v), zero-add (length (cv_encode v))) at
      (cv_decode-cv_encode [] v [] h)
