-- ===== src/Codec/Tests.antt =====
-- The codec of src/codec and the principals of src/pool/principal.rs at concrete values.
use stacks_dex_pool.Prelude.{◌+◌, ◌≡◌, ◌≤◌, ◌<◌, refl, [], ◌∷◌, ◌++◌, length, arith}
use stacks_dex_pool.Prelude.Text.{Text, bytes}
use stacks_dex_pool.Prelude.Outcome.{returned, panicked, ok}
use stacks_dex_pool.Pool.Principal.{Principal, standard, contract, address}
use stacks_dex_pool.Pool.Address.{display, from_str, is_ascii}
use stacks_dex_pool.Pool.Address.RoundTrip.{from_str-display, display-panics}
use stacks_dex_pool.Codec.Clarity.{ClarityValue, tuple}
use stacks_dex_pool.Codec.Encode.{cv_encode}
use stacks_dex_pool.Codec.Decode.{decoded, cv_decode}
use stacks_dex_pool.Codec.Wire.{IsEncodable}
use stacks_dex_pool.Codec.WrittenBytes.{cv_encode-bytes}
use stacks_dex_pool.Codec.Ensures.{Ensures}
use stacks_dex_pool.Codec.RoundTrip.{cv_decode-cv_encode}
use stacks_dex_pool.Codec.Sound.{cv_decode_sound}
use stacks_dex_pool.Codec.Samples.{
  printed, printed-IsEncodable, hashed, hashed-IsDigest, hash_of, hash_of-IsByte,
}

abbrev value : ClarityValue
value = tuple printed

cv_decode-cv_encode_example :
    cv_decode (7 ∷ (cv_encode value ++ 9 ∷ [])) 1 ≡ decoded (value, 1 + length (cv_encode value))
cv_decode-cv_encode_example = cv_decode-cv_encode (7 ∷ []) value (9 ∷ []) printed-IsEncodable

cv_decode_sound_example :
    Ensures
      (λ (v, end). IsEncodable v × (0 < end) × (end ≤ length (cv_encode value)))
      (cv_decode (cv_encode value) 0)
cv_decode_sound_example =
    cv_decode_sound (cv_encode value) 0 (cv_encode-bytes value printed-IsEncodable)

abbrev pool : Principal
pool = contract 22 (hash_of 5) (bytes "pool-v1")

from_str-display_example :
    (s : Text) × (display hashed pool ≡ returned s) × (from_str hashed s ≡ ok pool)
unfolding is_ascii bytes
from_str-display_example =
    from_str-display hashed hashed-IsDigest pool
      ((omega arith, hash_of-IsByte 5 (omega arith), refl), omega arith, refl)

abbrev nowhere : Principal
nowhere = standard 40 (hash_of 5)

display-panics_example : display hashed nowhere ≡ panicked
unfolding address
display-panics_example =
    display-panics hashed hashed-IsDigest nowhere (omega arith) (hash_of-IsByte 5 (omega arith))
      refl
