-- ===== src/Codec/Decode.antt =====
-- The decoder of src/codec/clarity.rs. `buf[off..]` is a list, and what is left of it stands for the
-- new offset; `cv_decode` has the buffer and the offsets of the source.
use stacks_dex_pool.Prelude.{
  ℕ, zero, suc, ◌-◌, true, false, Option, none, some, List, [], ◌∷◌, length, drop, get_elem?,
  if◌then◌else◌,
}
use stacks_dex_pool.Prelude.Bytes.{from_be_bytes, split_at, i128_of_bits, is_utf8}
use stacks_dex_pool.Prelude.Text.{Text}
use stacks_dex_pool.Pool.Principal.{Principal, standard, contract}
use stacks_dex_pool.Codec.Clarity.{
  ClarityValue, Values, Fields, bool, principal, no_values, value, no_fields, insert,
}

-- What stands for the texts of the errors.
pub data DecodeError : Type 0 where
  unexpected_eof short_header short_body short_name not_utf8 unknown_tag : DecodeError

-- `out_of_fuel` has no counterpart in the program.
pub data Decoded (A : Type 0) : Type 0 where
  decoded : A → Decoded A
  failed : DecodeError → Decoded A
  out_of_fuel : Decoded A

infixl 5 ◌>>=◌
abbrev pub ◌>>=◌ : {A B : Type 0} → Decoded A → (A → Decoded B) → Decoded B
decoded a >>= f = f a
failed e >>= f = failed e
out_of_fuel >>= f = out_of_fuel

abbrev pub Input : Type 0
Input = List ℕ

abbrev pub Reader : Type 0 → Type 0
Reader A = Input → Decoded (A × Input)

abbrev or_fail : {A : Type 0} → DecodeError → Option A → Decoded A
or_fail e none = failed e
or_fail e (some a) = decoded a

-- The next `n` bytes, or an error if the buffer ends before.
unfoldable pub read : ℕ → DecodeError → Reader (List ℕ)
read n e input = or_fail e (split_at n input)

unfoldable pub read_byte : DecodeError → Reader ℕ
read_byte e [] = failed e
read_byte e (b ∷ rest) = decoded (b, rest)

unfoldable pub read_u32 : Reader ℕ
read_u32 input = do (b, rest) ← read 4 short_header input; decoded (from_be_bytes 0 b, rest)

-- A length of four bytes, and so many bytes.
unfoldable pub read_prefixed : Reader (List ℕ)
read_prefixed input = do (n, start) ← read_u32 input; read n short_body start

unfoldable pub check_utf8 : List ℕ → Input → Decoded (Text × Input)
check_utf8 s rest = if is_utf8 s then decoded (s, rest) else failed not_utf8

unfoldable pub read_string : Reader Text
read_string input = do (s, rest) ← read_prefixed input; check_utf8 s rest

-- A length of one byte, and a text of so many bytes.
unfoldable pub read_name : DecodeError → Reader Text
read_name e input = do
  (n, start) ← read_byte e input
  (s, rest) ← read n short_name start
  check_utf8 s rest

unfoldable pub read_standard : Reader Principal
read_standard input = do
  (b, rest) ← read 21 short_header input
  (version, _) ← read_byte short_header b
  decoded (standard version (drop 1 b), rest)

unfoldable pub read_contract : Reader Principal
read_contract input = do
  (b, start) ← read 22 short_header input
  (version, h) ← read_byte short_header b
  (hash160, l) ← read 20 short_header h
  (n, _) ← read_byte short_header l
  (s, rest) ← read n short_name start
  (name, after) ← check_utf8 s rest
  decoded (contract version hash160 name, after)

-- `for _ in 0..cnt` over the items of a list.
unfoldable pub decode_values : Reader ClarityValue → ℕ → Reader Values
decode_values go zero input = decoded (no_values, input)
decode_values go (suc cnt) input = do
  (v, o) ← go input
  (vs, n) ← decode_values go cnt o
  decoded (value v vs, n)

-- `for _ in 0..cnt` over the fields of a tuple, which are inserted into `map`.
unfoldable pub decode_fields : Reader ClarityValue → ℕ → Fields → Reader Fields
decode_fields go zero map input = decoded (map, input)
decode_fields go (suc cnt) map input = do
  (name, o) ← read_name short_header input
  (v, n) ← go o
  decode_fields go cnt (insert name v map) n

pub data Tag : Type 0 where
  int uint buffer bool_true bool_false principal_std principal_cont response_ok response_err : Tag
  optional_none optional_some list tuple string_ascii string_utf8 : Tag

unfoldable pub tag_of : ℕ → Option Tag
tag_of = get_elem? (
    Tag.int ∷ Tag.uint ∷ Tag.buffer ∷ Tag.bool_true ∷ Tag.bool_false ∷ Tag.principal_std
    ∷ Tag.principal_cont ∷ Tag.response_ok ∷ Tag.response_err ∷ Tag.optional_none
    ∷ Tag.optional_some ∷ Tag.list ∷ Tag.tuple ∷ Tag.string_ascii ∷ Tag.string_utf8 ∷ [])

abbrev pub mapped : {A B : Type 0} → (A → B) → Decoded (A × Input) → Decoded (B × Input)
mapped f m = do (a, rest) ← m; decoded (f a, rest)

-- The arms of the `match` on the tag; `go` decodes an inner value.
unfoldable pub decode_tagged : Reader ClarityValue → Option Tag → Reader ClarityValue
decode_tagged go none input = failed unknown_tag
decode_tagged go (some Tag.int) input =
    mapped (λ b. ClarityValue.int (i128_of_bits (from_be_bytes 0 b))) (read 16 short_body input)
decode_tagged go (some Tag.uint) input =
    mapped (λ b. ClarityValue.uint (from_be_bytes 0 b)) (read 16 short_body input)
decode_tagged go (some Tag.buffer) input = mapped ClarityValue.buffer (read_prefixed input)
decode_tagged go (some Tag.bool_true) input = decoded (bool true, input)
decode_tagged go (some Tag.bool_false) input = decoded (bool false, input)
decode_tagged go (some Tag.principal_std) input = mapped principal (read_standard input)
decode_tagged go (some Tag.principal_cont) input = mapped principal (read_contract input)
decode_tagged go (some Tag.response_ok) input = mapped ClarityValue.response_ok (go input)
decode_tagged go (some Tag.response_err) input = mapped ClarityValue.response_err (go input)
decode_tagged go (some Tag.optional_none) input = decoded (ClarityValue.optional_none, input)
decode_tagged go (some Tag.optional_some) input = mapped ClarityValue.optional_some (go input)
decode_tagged go (some Tag.list) input = do
  (cnt, o) ← read_u32 input
  mapped ClarityValue.list (decode_values go cnt o)
decode_tagged go (some Tag.tuple) input = do
  (cnt, o) ← read_u32 input
  mapped ClarityValue.tuple (decode_fields go cnt no_fields o)
decode_tagged go (some Tag.string_ascii) input =
    mapped ClarityValue.string_ascii (read_string input)
decode_tagged go (some Tag.string_utf8) input = mapped ClarityValue.string_utf8 (read_string input)

-- One unit of fuel for each value that encloses another.
unfoldable pub decode : ℕ → Reader ClarityValue
decode zero input = out_of_fuel
decode (suc fuel) [] = failed unexpected_eof
decode (suc fuel) (tag ∷ rest) = decode_tagged (decode fuel) (tag_of tag) rest

-- The value at an offset, and the offset past its end.
unfoldable pub cv_decode : List ℕ → ℕ → Decoded (ClarityValue × ℕ)
cv_decode buf off = do
  (v, rest) ← decode (suc (length buf)) (drop off buf)
  decoded (v, length buf - length rest)
