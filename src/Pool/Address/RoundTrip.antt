-- ===== src/Pool/Address/RoundTrip.antt =====
-- What is displayed parses back.
use native.Mathlib.Numerals.{add-one}
use stacks_dex_pool.Prelude.{
  ℕ, zero, suc, ◌≤◌, ◌<◌, ◌≡◌, refl, sym, ap, ◌∙◌, true, false, none, some, List, [], ◌∷◌, ◌++◌,
  ltb, ◌==◌, ==_iff, Bool-cases, inl, inr, length, length-append, All, All-append, get_elem?, drop,
  arith, Option-cases,
}
use stacks_dex_pool.Prelude.Text.{Text}
use stacks_dex_pool.Prelude.Outcome.{returned, panicked, ok, Result-cases}
use stacks_dex_pool.Prelude.Bytes.{IsByte}
use stacks_dex_pool.Pool.Principal.{Principal, standard, contract, address}
use stacks_dex_pool.Codec.C32Check.{
  alphabet, c32_index, leading, shift_in, shift_all, c32check_decode, c32_encode_address,
  stacks_addr_decode, digit, checksum,
}
use stacks_dex_pool.Codec.C32Check.RoundTrip.{
  IsDigest, checksum-bytes, c32check_decode_lem, stacks_addr_decode-c32_encode_address,
}
use stacks_dex_pool.Codec.C32Check.Digits.{shift_all-digit, shift_all-bad}
use stacks_dex_pool.Pool.Address.{is_ascii, split_once, contract_at, standard_at, display, from_str}

abbrev NoDot : Text → Type 0
NoDot = All (λ (c : ℕ). (c == 0x2e) ≡ false)

split_once-none : (s : Text) → NoDot s → split_once s ≡ none
unfolding split_once
split_once-none [] h = refl
split_once-none (c ∷ s) h = rw (h.0, split_once-none s h.1)

split_once-dot : (s name : Text) → NoDot s → split_once (s ++ 0x2e ∷ name) ≡ some (s, name)
unfolding split_once
split_once-dot [] name h = refl
split_once-dot (c ∷ s) name h = rw (h.0, split_once-dot s name h.1)

-- No digit is a dot, so no address that decodes has one.
digit-no_dot : (c d : ℕ) → c32_index c ≡ some d → (c == 0x2e) ≡ false
digit-no_dot c d e = elim (Bool-cases (c == 0x2e)) [
  | inl dot ↦
      let same = (==_iff c 0x2e).0 dot in
      let no_digit : c32_index 0x2e ≡ none = unfold c32_index in refl in cc (ap c32_index same)
  | inr other ↦ other
]

shift_all-NoDot : (acc : List ℕ) (s : Text) (bs : List ℕ) → shift_all acc s ≡ ok bs → NoDot s
shift_all-NoDot acc [] bs e = tt
shift_all-NoDot acc (c ∷ s) bs e = elim (Option-cases (c32_index c)) [
  | inl bad ↦ cc (shift_all-bad acc c s bad)
  | inr (d, index) ↦ (
    digit-no_dot c d index,
    shift_all-NoDot (shift_in acc d) s bs (sym (shift_all-digit acc c d s index) ∙ e),
  )
]

drop-leading-NoDot : (s : Text) → NoDot (drop (leading 0x30 s) s) → NoDot s
unfolding leading
drop-leading-NoDot [] h = tt
drop-leading-NoDot (c ∷ s) h = elim (Bool-cases (c == 0x30)) [
  | inl zero_digit ↦
      let same = (==_iff c 0x30).0 zero_digit in
      (ground arith, drop-leading-NoDot s (rw (zero_digit, add-one) at h))
  | inr other ↦ rw other at h
]

c32check_decode-NoDot : (s : Text) (n : ℕ) (bs : List ℕ) → c32check_decode s n ≡ ok bs → NoDot s
unfolding c32check_decode
c32check_decode-NoDot s n bs e =
    let body = drop (leading 0x30 s) s in
    elim (Result-cases (shift_all [] body)) [
      | inl (acc, h) ↦ drop-leading-NoDot s (shift_all-NoDot [] body acc h)
      | inr (e', h) ↦ cc (rw h at e)
    ]

-- What an address is when it decodes.
module _ (sha256 : List ℕ → List ℕ) where
  stacks_addr_decode-NoDot :
      (s : Text) (a : ℕ × List ℕ) → stacks_addr_decode sha256 s ≡ ok a → NoDot s
  unfolding stacks_addr_decode
  stacks_addr_decode-NoDot [] a e = cc
  stacks_addr_decode-NoDot (c ∷ []) a e = cc
  stacks_addr_decode-NoDot (c ∷ v ∷ body) a e = elim (Bool-cases (c == 0x53)) [
    | inr other ↦ cc (rw other at e)
    | inl is_s ↦ elim (Option-cases (c32_index v)) [
      | inl bad ↦ cc (rw (is_s, bad) at e)
      | inr (d, index) ↦ elim (Result-cases (c32check_decode body 24)) [
        | inl (bs, h) ↦
            let first = (==_iff c 0x53).0 is_s in
            (ground arith, (digit-no_dot v d index, c32check_decode-NoDot body 24 bs h))
        | inr (e', h) ↦ cc (rw (is_s, index, h) at e)
      ]
    ]
  ]

  -- The principals that have an address, with what the constructor checks of a name.
  abbrev IsAddress : ℕ → List ℕ → Type 0
  IsAddress version hash160 = (version < 32) × All IsByte hash160 × (length hash160 ≡ 20)

  abbrev pub IsNamed : Principal → Type 0
  IsNamed (standard version hash160) = IsAddress version hash160
  IsNamed (contract version hash160 name) =
      IsAddress version hash160 × (length name ≤ 128) × (is_ascii name ≡ true)

  -- If SHA-256 makes 32 bytes, every principal with a version below 32 and an ASCII name of at most
  -- 128 bytes is displayed, and what is displayed parses to the principal.
  pub from_str-display :
      IsDigest sha256
      → (p : Principal) → IsNamed p
      → (s : Text) × (display sha256 p ≡ returned s) × (from_str sha256 s ≡ ok p)
  unfolding display from_str standard_at contract_at address
  from_str-display digest (standard version hash160) (low, h, len) =
      let (s, runs, back) =
        stacks_addr_decode-c32_encode_address sha256 digest version hash160 low h len in
      let whole = split_once-none s (stacks_addr_decode-NoDot s (version, hash160) back) in
      (s, rw runs, rw (whole, back))
  from_str-display digest (contract version hash160 name) ((low, h, len), short, ascii) =
      let (s, runs, back) =
        stacks_addr_decode-c32_encode_address sha256 digest version hash160 low h len in
      let whole = split_once-dot s name (stacks_addr_decode-NoDot s (version, hash160) back) in
      let fits : ltb 128 (length name) ≡ false = ground arith in
      (s ++ 0x2e ∷ name, rw runs, rw (whole, back, fits, ascii))

get_elem?-none : (xs : List ℕ) (i : ℕ) → length xs ≤ i → get_elem? xs i ≡ none
get_elem?-none [] i h = refl
get_elem?-none (x ∷ xs) zero h = absurd (omega arith)
get_elem?-none (x ∷ xs) (suc i) h = get_elem?-none xs i (omega arith)

digit-panics : (i : ℕ) → 32 ≤ i → digit i ≡ panicked
unfolding digit alphabet
digit-panics i h =
    let digits : length alphabet ≡ 32 = refl in rw (get_elem?-none alphabet i (omega arith))

module _ (sha256 : List ℕ → List ℕ) (digest : IsDigest sha256) where
  -- If SHA-256 makes 32 bytes, a principal whose version is 32 or more cannot be displayed: indexing
  -- the 32 digits panics.
  pub display-panics :
      (p : Principal)
      → 32 ≤ (address p).0
      → All IsByte (address p).1
      → length (address p).1 ≡ 20
      → display sha256 p ≡ panicked
  unfolding display c32_encode_address
  display-panics p high h len =
      let (version, hash160) = address p in
      let (sum_bytes, sum_length) = checksum-bytes sha256 digest version hash160 in
      let sum = checksum sha256 version hash160 in
      let (s, runs, _) =
        c32check_decode_lem (hash160 ++ sum) (All-append IsByte hash160 sum h sum_bytes)
          (omega (arith, length-append hash160 sum)) in
      rw (runs, digit-panics version high)
