-- ===== src/Codec/Readers.antt =====
-- The readers of the decoder on what the encoder writes.
use stacks_dex_pool.Prelude.{
  ℕ, ◌%◌, ◌<◌, ◌≡◌, refl, List, [], ◌∷◌, ◌++◌, length, length-append, arith,
}
use mathlib.Core.List.{append_assoc}
use stacks_dex_pool.Prelude.Word.{u32_size}
use stacks_dex_pool.Prelude.Bytes.{
  to_be_bytes, length-to_be_bytes, from_be_bytes-to_be_bytes, split_at-append,
}
use stacks_dex_pool.Prelude.Text.{Text}
use stacks_dex_pool.Pool.Principal.{standard, contract}
use stacks_dex_pool.Codec.Encode.{u32_bytes, prefixed, short_prefixed}
use stacks_dex_pool.Codec.Decode.{
  DecodeError, decoded, read, read_u32, read_prefixed, check_utf8, read_string, read_name,
  read_byte, read_standard, read_contract,
}
use stacks_dex_pool.Codec.Wire.{IsText, IsHash}

pub read-append :
    (n : ℕ) (e : DecodeError) (b rest : List ℕ)
    → length b ≡ n
    → read n e (b ++ rest) ≡ decoded (b, rest)
unfolding read
read-append n e b rest h = rw (split_at-append n b rest h)

-- A word that the encoder wrote.
pub read-word :
    (width n : ℕ) (e : DecodeError) (rest : List ℕ)
    → read width e (to_be_bytes width n ++ rest) ≡ decoded (to_be_bytes width n, rest)
read-word width n e rest =
    read-append width e (to_be_bytes width n) rest (length-to_be_bytes width n)

pub read_u32-append :
    (n : ℕ) (rest : List ℕ) → n < u32_size → read_u32 (u32_bytes n ++ rest) ≡ decoded (n, rest)
unfolding read_u32
read_u32-append n rest h =
    let small : n % u32_size ≡ n = omega arith in
    rw (small, read-word 4 n DecodeError.short_header rest, from_be_bytes-to_be_bytes 4 n h) refl

pub read_prefixed-append :
    (b rest : List ℕ) → length b < u32_size → read_prefixed (prefixed b ++ rest) ≡ decoded (b, rest)
unfolding read_prefixed
read_prefixed-append b rest h = rw (
  append_assoc (u32_bytes (length b)) b rest,
  read_u32-append (length b) (b ++ rest) h,
  read-append (length b) DecodeError.short_body b rest refl,
)

pub read_string-append :
    (s : Text) (rest : List ℕ)
    → IsText u32_size s
    → read_string (prefixed s ++ rest) ≡ decoded (s, rest)
unfolding read_string check_utf8
read_string-append s rest h = rw (read_prefixed-append s rest h.0.1, h.1)

pub read_name-append :
    (e : DecodeError) (s : Text) (rest : List ℕ)
    → IsText 256 s
    → read_name e (short_prefixed s ++ rest) ≡ decoded (s, rest)
unfolding read_name read_byte check_utf8
read_name-append e s rest h =
    let small : length s % 256 ≡ length s = omega arith in
    rw (small, read-append (length s) DecodeError.short_name s rest refl, h.1)

pub read_standard-append :
    (version : ℕ) (h rest : List ℕ)
    → IsHash h
    → read_standard (version ∷ (h ++ rest)) ≡ decoded (standard version h, rest)
unfolding read_standard read_byte
read_standard-append version h rest (_, len) =
    rw (read-append 21 DecodeError.short_header (version ∷ h) rest (omega arith))

pub read_contract-append :
    (version : ℕ) (h : List ℕ) (name : Text) (rest : List ℕ)
    → IsHash h
    → IsText 256 name
    → read_contract (version ∷ ((h ++ short_prefixed name) ++ rest))
      ≡ decoded (contract version h name, rest)
unfolding read_contract read_byte check_utf8
read_contract-append version h name rest (_, len) t =
    let small : length name % 256 ≡ length name = omega arith in
    let head = version ∷ (h ++ length name ∷ []) in
    let whole : (h ++ length name ∷ name) ++ rest ≡ (h ++ length name ∷ []) ++ (name ++ rest) =
      simp append_assoc in
    rw (
      small,
      whole,
      read-append 22 DecodeError.short_header head (name ++ rest)
          (omega (arith, length-append h (length name ∷ []))),
      read-append 20 DecodeError.short_header h (length name ∷ []) len,
      read-append (length name) DecodeError.short_name name rest refl,
      t.1,
    )
