-- ===== src/Codec/RoundTrip.antt =====
-- What was encoded decodes to the same value, wherever it stands in a buffer.
use Prim.Native.Nat.Ordering.{gt}
use mathlib.Core.List.{append_assoc}
use stacks_dex_pool.Prelude.{
  ℕ, zero, suc, ◌+◌, ◌-◌, ◌≤◌, ◌<◌, ◌≡◌, refl, ap, true, false, List, [], ◌++◌, length,
  length-append, drop-append, arith,
}
use stacks_dex_pool.Prelude.Bytes.{
  from_be_bytes-to_be_bytes, i128_bits, i128_bits-lt, i128_of_bits-i128_bits,
}
use stacks_dex_pool.Prelude.Text.{Text, text_compare, text_compare_trans}
use stacks_dex_pool.Pool.Principal.{Principal, standard, contract}
use stacks_dex_pool.Codec.Clarity.{
  ClarityValue, Values, Fields, int, uint, buffer, bool, principal, response_ok, response_err,
  optional_none, optional_some, list, tuple, string_ascii, string_utf8, no_values, value, no_fields,
  field, count_values, count_fields, insert,
}
use stacks_dex_pool.Codec.Encode.{
  u32_bytes, short_prefixed, encode_principal, cv_encode, encode_values, encode_fields,
}
use stacks_dex_pool.Codec.Decode.{
  DecodeError, decoded, decode, decode_tagged, decode_values, decode_fields, tag_of, cv_decode,
}
use stacks_dex_pool.Codec.Wire.{IsAfter, IsAddressed, IsEncodable, AreEncodable, HaveEncodable}
use stacks_dex_pool.Codec.Readers.{
  read-word, read_u32-append, read_prefixed-append, read_string-append, read_name-append,
  read_standard-append, read_contract-append,
}

-- The fields of two tuples, one after the other.
unfoldable pub join : Fields → Fields → Fields
join no_fields fs = fs
join (field name v rest) fs = field name v (join rest fs)

-- All keys come before `name`.
abbrev IsBefore : Fields → Text → Type 0
IsBefore no_fields name = Unit
IsBefore (field key _ rest) name = (text_compare name key ≡ gt) × IsBefore rest name

abbrev Joins : Fields → Fields → Type 0
Joins done no_fields = Unit
Joins done (field name _ _) = IsBefore done name

Joins-none : (fs : Fields) → Joins no_fields fs
Joins-none no_fields = tt
Joins-none (field name v fs) = tt

join-none : (fs : Fields) → join fs no_fields ≡ fs
unfolding join
join-none no_fields = refl
join-none (field name v fs) = ap (field name v) (join-none fs)

snoc : Fields → Text → ClarityValue → Fields
unfolding join
snoc done name v = join done (field name v no_fields)

insert-eq-snoc :
    (done : Fields) (name : Text) (v : ClarityValue)
    → IsBefore done name
    → insert name v done ≡ snoc done name v
unfolding insert snoc
insert-eq-snoc no_fields name v h = refl
insert-eq-snoc (field key w rest) name v (h, hs) = rw (h, insert, insert-eq-snoc rest name v hs)

join-snoc :
    (done : Fields) (name : Text) (v : ClarityValue) (fs : Fields)
    → join (snoc done name v) fs ≡ join done (field name v fs)
unfolding snoc
join-snoc no_fields name v fs = refl
join-snoc (field key w rest) name v fs = ap (field key w) (join-snoc rest name v fs)

IsBefore-snoc :
    (done : Fields) (name : Text) (v : ClarityValue) (next : Text)
    → IsBefore done name
    → text_compare next name ≡ gt
    → IsBefore (snoc done name v) next
unfolding snoc
IsBefore-snoc no_fields name v next h k = (k, tt)
IsBefore-snoc (field key w rest) name v next (h, hs) k =
    (text_compare_trans key name next h k, IsBefore-snoc rest name v next hs k)

Joins-snoc :
    (done : Fields) (name : Text) (v : ClarityValue) (fs : Fields)
    → IsBefore done name
    → IsAfter name fs
    → Joins (snoc done name v) fs
unfolding IsAfter
Joins-snoc done name v no_fields h k = tt
Joins-snoc done name v (field next w rest) h k = IsBefore-snoc done name v next h k

length-cv_encode_pos : (v : ClarityValue) → 0 < length (cv_encode v)
unfolding cv_encode encode_principal
length-cv_encode_pos (bool true) = omega arith
length-cv_encode_pos (bool false) = omega arith
length-cv_encode_pos (principal (standard version h)) = omega arith
length-cv_encode_pos (principal (contract version h name)) = omega arith
length-cv_encode_pos _ = omega arith

decode_principal :
    (p : Principal) (f : ℕ) (rest : List ℕ)
    → IsAddressed p
    → decode (suc f) (encode_principal p ++ rest) ≡ decoded (principal p, rest)
unfolding decode decode_tagged tag_of encode_principal IsAddressed
decode_principal (standard version h) f rest (_, hash) =
    rw (read_standard-append version h rest hash)
decode_principal (contract version h name) f rest (_, hash, text) =
    rw (read_contract-append version h name rest hash text)

mutual
  unfolding decode decode_tagged decode_values decode_fields tag_of cv_encode IsEncodable
      count_values count_fields join

  decode-cv_encode :
      (v : ClarityValue) (f : ℕ) (rest : List ℕ)
      → IsEncodable v
      → length (cv_encode v) ≤ f
      → decode f (cv_encode v ++ rest) ≡ decoded (v, rest)
  decode-cv_encode v zero rest h l = absurd (omega (arith, length-cv_encode_pos v))
  decode-cv_encode (int n) (suc f) rest h l = rw (
    read-word 16 (i128_bits n) DecodeError.short_body rest,
    from_be_bytes-to_be_bytes 16 (i128_bits n) (i128_bits-lt n h),
    i128_of_bits-i128_bits n h,
  )
  decode-cv_encode (uint n) (suc f) rest h l =
      rw (read-word 16 n DecodeError.short_body rest, from_be_bytes-to_be_bytes 16 n h)
  decode-cv_encode (buffer b) (suc f) rest h l = rw (read_prefixed-append b rest h.1)
  decode-cv_encode (bool true) (suc f) rest h l = refl
  decode-cv_encode (bool false) (suc f) rest h l = refl
  decode-cv_encode (principal p) (suc f) rest h l = decode_principal p f rest h
  decode-cv_encode (response_ok v) (suc f) rest h l = rw (decode-cv_encode v f rest h (omega arith))
  decode-cv_encode (response_err v) (suc f) rest h l =
      rw (decode-cv_encode v f rest h (omega arith))
  decode-cv_encode optional_none (suc f) rest h l = refl
  decode-cv_encode (optional_some v) (suc f) rest h l =
      rw (decode-cv_encode v f rest h (omega arith))
  decode-cv_encode (list vs) (suc f) rest (few, h) l =
      let n = count_values vs in
      let fits : length (encode_values vs) ≤ f =
        omega (arith, length-append (u32_bytes n) (encode_values vs)) in
      rw (
        append_assoc (u32_bytes n) (encode_values vs) rest,
        read_u32-append n (encode_values vs ++ rest) few,
        decode_values-encode vs f rest h fits,
      )
  decode-cv_encode (tuple fs) (suc f) rest (few, h) l =
      let n = count_fields fs in
      let fits : length (encode_fields fs) ≤ f =
        omega (arith, length-append (u32_bytes n) (encode_fields fs)) in
      rw (
        append_assoc (u32_bytes n) (encode_fields fs) rest,
        read_u32-append n (encode_fields fs ++ rest) few,
        decode_fields-encode fs f no_fields rest h (Joins-none fs) fits,
      )
  decode-cv_encode (string_ascii s) (suc f) rest h l = rw (read_string-append s rest h)
  decode-cv_encode (string_utf8 s) (suc f) rest h l = rw (read_string-append s rest h)

  decode_values-encode :
      (vs : Values) (f : ℕ) (rest : List ℕ)
      → AreEncodable vs
      → length (encode_values vs) ≤ f
      → decode_values (decode f) (count_values vs) (encode_values vs ++ rest) ≡ decoded (vs, rest)
  decode_values-encode no_values f rest h l = refl
  decode_values-encode (value v vs) f rest (h, hs) l =
      let all = length-append (cv_encode v) (encode_values vs) in
      rw (
        append_assoc (cv_encode v) (encode_values vs) rest,
        decode-cv_encode v f (encode_values vs ++ rest) h (omega arith),
        decode_values-encode vs f rest hs (omega arith),
      )

  decode_fields-encode :
      (fs : Fields) (f : ℕ) (done : Fields) (rest : List ℕ)
      → HaveEncodable fs
      → Joins done fs
      → length (encode_fields fs) ≤ f
      → decode_fields (decode f) (count_fields fs) done (encode_fields fs ++ rest)
        ≡ decoded (join done fs, rest)
  decode_fields-encode no_fields f done rest h j l = rw (join-none done)
  decode_fields-encode (field name v fs) f done rest (text, h, after, hs) j l =
      let later = encode_fields fs in
      let all = length-append (short_prefixed name) (cv_encode v ++ later) in
      let both = length-append (cv_encode v) later in
      rw (
        append_assoc (short_prefixed name) (cv_encode v ++ later) rest,
        append_assoc (cv_encode v) later rest,
        read_name-append DecodeError.short_header name (cv_encode v ++ (later ++ rest)) text,
        decode-cv_encode v f (later ++ rest) h (omega arith),
        insert-eq-snoc done name v j,
        decode_fields-encode fs f (snoc done name v) rest hs (Joins-snoc done name v fs j after)
            (omega arith),
        join-snoc done name v fs,
      )

-- A value of the program's types, with lengths that fit their prefixes and tuples sorted by name,
-- decodes to itself from any place of a buffer that holds its encoding; the new offset is the end of
-- the encoding.
pub cv_decode-cv_encode :
    (before : List ℕ) (v : ClarityValue) (after : List ℕ)
    → IsEncodable v
    → cv_decode (before ++ (cv_encode v ++ after)) (length before)
      ≡ decoded (v, length before + length (cv_encode v))
unfolding cv_decode
cv_decode-cv_encode before v after h =
    let buf = before ++ (cv_encode v ++ after) in
    let whole = length-append before (cv_encode v ++ after) in
    let inner = length-append (cv_encode v) after in
    let offset : length buf - length after ≡ length before + length (cv_encode v) = omega arith in
    rw (
      drop-append before (cv_encode v ++ after),
      decode-cv_encode v (suc (length buf)) after h (omega arith),
      offset,
    )

-- Two such values have the same encoding only if they are the same.
pub cv_encode-injective :
    (v w : ClarityValue) → IsEncodable v → IsEncodable w → cv_encode v ≡ cv_encode w → v ≡ w
cv_encode-injective v w h k e =
    let one = cv_decode-cv_encode [] v [] h in let other = cv_decode-cv_encode [] w [] k in cc
