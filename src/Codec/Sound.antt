-- ===== src/Codec/Sound.antt =====
-- On every buffer of bytes the decoder ends, and its value is one that the encoder can write.
use Prim.Native.Nat.Ordering.{gt}
use mathlib.Core.Logic.{inl, inr}
use mathlib.Core.List.{append-nil}
use native.Mathlib.Nat.{zero-add}
use stacks_dex_pool.Prelude.{
  ℕ, zero, suc, ◌+◌, ◌≤◌, ◌<◌, ◌≡◌, refl, some, none, Option, List, [], ◌∷◌, length, drop,
  length-drop, All, All-drop, arith, subst,
}
use stacks_dex_pool.Prelude.Word.{u128_size}
use stacks_dex_pool.Prelude.Bytes.{IsByte, from_be_bytes, from_be_bytes-lt, i128_of_bits-IsI128}
use stacks_dex_pool.Prelude.Text.{
  Text, text_compare, text_compare-cases, text_compare_flip, eq_of_text_compare,
}
use stacks_dex_pool.Codec.Clarity.{
  ClarityValue, Fields, no_fields, field, count_values, count_fields, insert,
}
use stacks_dex_pool.Codec.Encode.{cv_encode}
use stacks_dex_pool.Codec.Decode.{
  DecodeError, Decoded, decoded, Input, Reader, Tag, tag_of, decode, decode_tagged, decode_values,
  decode_fields, cv_decode,
}
use stacks_dex_pool.Codec.Wire.{IsText, IsAfter, IsEncodable, AreEncodable, HaveEncodable}
use stacks_dex_pool.Codec.RoundTrip.{cv_decode-cv_encode}
use stacks_dex_pool.Codec.Ensures.{
  Ensures, holds, rejected, Ensures-bind, Ensures-weaken, Leaves, mapped-Ensures, read-Ensures,
  read_u32-Ensures, read_prefixed-Ensures, read_string-Ensures, read_name-Ensures,
  read_standard-Ensures, read_contract-Ensures,
}

insert-IsAfter :
    (before name : Text) (v : ClarityValue) (fs : Fields)
    → text_compare name before ≡ gt
    → IsAfter before fs
    → IsAfter before (insert name v fs)
unfolding insert IsAfter
insert-IsAfter before name v no_fields h k = h
insert-IsAfter before name v (field key w rest) h k = elim (text_compare-cases name key) [
  | inl less ↦ rw (less, insert, IsAfter) h
  | inr (inl same) ↦ rw (same, insert, IsAfter) h
  | inr (inr more) ↦ rw (more, insert, IsAfter) k
]

insert-HaveEncodable :
    (name : Text) (v : ClarityValue) (fs : Fields)
    → IsText 256 name
    → IsEncodable v
    → HaveEncodable fs
    → HaveEncodable (insert name v fs)
unfolding insert IsEncodable IsAfter
insert-HaveEncodable name v no_fields text h hs = (text, h, tt, tt)
insert-HaveEncodable name v (field key w rest) text h (key_ok, w_ok, after, hs) =
    elim (text_compare-cases name key) [
      | inl less ↦
          rw (less, insert) (text, h, text_compare_flip name key less, (key_ok, w_ok, after, hs))
      | inr (inl same) ↦
          let equal = eq_of_text_compare name key same in
          rw (same, insert) (text, h, rw equal after, hs)
      | inr (inr more) ↦
          rw (more, insert)
            (
              key_ok,
              w_ok,
              insert-IsAfter key name v rest more after,
              insert-HaveEncodable name v rest text h hs,
            )
    ]

count-insert :
    (name : Text) (v : ClarityValue) (fs : Fields)
    → count_fields (insert name v fs) ≤ count_fields fs + 1
unfolding insert count_fields
count-insert name v no_fields = omega arith
count-insert name v (field key w rest) = ground (arith, count-insert name v rest)

-- What a decoder of values ensures on the inputs below a length.
abbrev Decodes : ℕ → Reader ClarityValue → Type 0
Decodes f go = (i : Input) → All IsByte i → length i < f → Ensures (Leaves 1 i IsEncodable) (go i)

module _ (f : ℕ) (go : Reader ClarityValue) (decodes : Decodes f go) where
  decode_values-Ensures :
      (cnt : ℕ) (input : Input)
      → All IsByte input
      → length input < f
      → Ensures
          (Leaves 0 input (λ vs. (count_values vs ≡ cnt) × AreEncodable vs))
          (decode_values go cnt input)
  unfolding decode_values IsEncodable count_values
  decode_values-Ensures zero input h l = holds ((refl, tt), h, omega arith)
  decode_values-Ensures (suc cnt) input h l =
      Ensures-bind (decodes input h l) λ (v, o) (v_ok, r, m).
        Ensures-bind (decode_values-Ensures cnt o r (omega arith))
          λ (vs, n) ((len, all), r', m'). holds ((omega arith, (v_ok, all)), r', omega arith)

  decode_fields-Ensures :
      (cnt : ℕ) (map : Fields) (input : Input)
      → All IsByte input
      → length input < f
      → HaveEncodable map
      → Ensures
          (Leaves 0 input (λ fs. (count_fields fs ≤ count_fields map + cnt) × HaveEncodable fs))
          (decode_fields go cnt map input)
  unfolding decode_fields
  decode_fields-Ensures zero map input h l hs = holds ((omega arith, hs), h, omega arith)
  decode_fields-Ensures (suc cnt) map input h l hs =
      Ensures-bind (read_name-Ensures DecodeError.short_header input h) λ (name, o) (text, r, m).
        Ensures-bind (decodes o r (omega arith)) λ (v, n) (v_ok, r', m').
          Ensures-weaken
            (decode_fields-Ensures cnt (insert name v map) n r' (omega arith)
              (insert-HaveEncodable name v map text v_ok hs))
            λ (fs, rest) ((few, all), r'', m'').
              ((omega (arith, count-insert name v map), all), r'', omega arith)

  uint_ok : (bs : List ℕ) → All IsByte bs × (length bs ≡ 16) → from_be_bytes 0 bs < u128_size
  uint_ok bs (bytes, len) = rw len at (from_be_bytes-lt 0 bs bytes)

  decode_tagged-Ensures :
      (tag : Option Tag) (b : ℕ) (i : Input)
      → All IsByte i
      → length i < f
      → Ensures (Leaves 1 (b ∷ i) IsEncodable) (decode_tagged go tag i)
  unfolding decode_tagged IsEncodable count_fields
  decode_tagged-Ensures none b i h l = rejected
  decode_tagged-Ensures (some Tag.int) b i h l =
      mapped-Ensures _ IsEncodable _ 16 1 i (b ∷ i) (omega arith)
        (λ bs p. i128_of_bits-IsI128 (from_be_bytes 0 bs) (uint_ok bs p))
        (read-Ensures 16 DecodeError.short_body i h)
  decode_tagged-Ensures (some Tag.uint) b i h l =
      mapped-Ensures _ IsEncodable _ 16 1 i (b ∷ i) (omega arith) (λ bs p. uint_ok bs p)
        (read-Ensures 16 DecodeError.short_body i h)
  decode_tagged-Ensures (some Tag.buffer) b i h l =
      mapped-Ensures _ IsEncodable _ 4 1 i (b ∷ i) (omega arith) (λ bs p. p)
        (read_prefixed-Ensures i h)
  decode_tagged-Ensures (some Tag.bool_true) b i h l = holds (tt, h, omega arith)
  decode_tagged-Ensures (some Tag.bool_false) b i h l = holds (tt, h, omega arith)
  decode_tagged-Ensures (some Tag.principal_std) b i h l =
      mapped-Ensures _ IsEncodable _ 21 1 i (b ∷ i) (omega arith) (λ p q. q)
        (read_standard-Ensures i h)
  decode_tagged-Ensures (some Tag.principal_cont) b i h l =
      mapped-Ensures _ IsEncodable _ 22 1 i (b ∷ i) (omega arith) (λ p q. q)
        (read_contract-Ensures i h)
  decode_tagged-Ensures (some Tag.response_ok) b i h l =
      mapped-Ensures _ IsEncodable _ 1 1 i (b ∷ i) (omega arith) (λ v p. p) (decodes i h l)
  decode_tagged-Ensures (some Tag.response_err) b i h l =
      mapped-Ensures _ IsEncodable _ 1 1 i (b ∷ i) (omega arith) (λ v p. p) (decodes i h l)
  decode_tagged-Ensures (some Tag.optional_none) b i h l = holds (tt, h, omega arith)
  decode_tagged-Ensures (some Tag.optional_some) b i h l =
      mapped-Ensures _ IsEncodable _ 1 1 i (b ∷ i) (omega arith) (λ v p. p) (decodes i h l)
  decode_tagged-Ensures (some Tag.list) b i h l =
      Ensures-bind (read_u32-Ensures i h) λ (cnt, o) (few, r, m).
        mapped-Ensures _ IsEncodable _ 0 1 o (b ∷ i) (omega arith)
          (λ vs (len, all). (omega arith, all)) (decode_values-Ensures cnt o r (omega arith))
  decode_tagged-Ensures (some Tag.tuple) b i h l =
      Ensures-bind (read_u32-Ensures i h) λ (cnt, o) (few, r, m).
        mapped-Ensures _ IsEncodable _ 0 1 o (b ∷ i) (omega arith)
          (λ fs (len, all). (omega arith, all))
          (decode_fields-Ensures cnt no_fields o r (omega arith) tt)
  decode_tagged-Ensures (some Tag.string_ascii) b i h l =
      mapped-Ensures _ IsEncodable _ 4 1 i (b ∷ i) (omega arith) (λ s p. p)
        (read_string-Ensures i h)
  decode_tagged-Ensures (some Tag.string_utf8) b i h l =
      mapped-Ensures _ IsEncodable _ 4 1 i (b ∷ i) (omega arith) (λ s p. p)
        (read_string-Ensures i h)

decode-Ensures : (f : ℕ) → Decodes f (decode f)
unfolding decode
decode-Ensures zero i h l = absurd (omega arith)
decode-Ensures (suc f) [] h l = rejected
decode-Ensures (suc f) (tag ∷ rest) (_, h) l =
    decode_tagged-Ensures f (decode f) (decode-Ensures f) (tag_of tag) tag rest h (omega arith)

-- On every buffer of bytes and at every offset the decoder ends. If it returns a value, the value
-- is one that the encoder can write, and the new offset is past the old one and within the buffer.
pub cv_decode_sound :
    (buf : List ℕ) (off : ℕ)
    → All IsByte buf
    → Ensures (λ (v, end). IsEncodable v × (off < end) × (end ≤ length buf)) (cv_decode buf off)
unfolding cv_decode
cv_decode_sound buf off h =
    let left = length-drop off buf in
    Ensures-bind
      (decode-Ensures (suc (length buf)) (drop off buf) (All-drop IsByte off buf h) (omega arith))
      λ (v, rest) (v_ok, r, m). holds (v_ok, omega arith, omega arith)

Ensures-decoded :
    {A : Type 0} {P : A → Type 0} {m : Decoded A} {a : A} → Ensures P m → m ≡ decoded a → P a
Ensures-decoded {P} (holds {a = b} p) e = subst P (cc) p
Ensures-decoded rejected e = cc

-- Whatever a buffer of bytes decodes to is encoded and decoded again without a change.
pub cv_decode_again :
    (buf : List ℕ) (off : ℕ) (v : ClarityValue) (end : ℕ)
    → All IsByte buf
    → cv_decode buf off ≡ decoded (v, end)
    → cv_decode (cv_encode v) 0 ≡ decoded (v, length (cv_encode v))
cv_decode_again buf off v end h e =
    let v_ok = (Ensures-decoded (cv_decode_sound buf off h) e).0 in
    rw (append-nil (cv_encode v), zero-add (length (cv_encode v))) at
      (cv_decode-cv_encode [] v [] v_ok)
