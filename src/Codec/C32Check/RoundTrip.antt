-- ===== src/Codec/C32Check/RoundTrip.antt =====
-- An address that was encoded decodes to its version and hash.
use native.Mathlib.Nat.{pow-le-pow_right}
use native.Mathlib.Numerals.{add-one}
use stacks_dex_pool.Prelude.{
  ℕ, zero, suc, ◌+◌, ◌*◌, ◌^◌, ◌≤◌, ◌<◌, ◌≡◌, refl, List, [], ◌∷◌, ◌++◌, ◌==◌, ==_iff, Bool-cases,
  inl, inr, length, length-append, All, All-append, take, drop, length-drop, All-drop, take-append,
  drop-append, length-take, All-take, le-cases, replicate, arith,
}
use stacks_dex_pool.Prelude.Text.{Text, text_eq_refl}
use stacks_dex_pool.Prelude.Outcome.{returned, ok}
use stacks_dex_pool.Prelude.Bytes.{IsByte}
use stacks_dex_pool.Codec.C32Check.{
  leading, shift_all, c32check_decode, goes_on, to_digits, checksum, c32_encode_address,
  stacks_addr_decode,
}
use stacks_dex_pool.Codec.C32Check.Number.{number, IsCanonical, number-lt}
use stacks_dex_pool.Codec.C32Check.Digits.{held, digit_lem, to_digits-Written}
use stacks_dex_pool.Codec.C32Check.Divide.{IsCanonical-IsDividend, goes_on_canonical}

-- The leading zeros of a list and what follows them.
drop-leading-IsCanonical : (bs : List ℕ) → All IsByte bs → IsCanonical (drop (leading 0 bs) bs)
unfolding leading
drop-leading-IsCanonical [] h = tt
drop-leading-IsCanonical (b ∷ bs) h = elim (Bool-cases (b == 0)) [
  | inl nil ↦ rw (nil, add-one) (drop-leading-IsCanonical bs h.1)
  | inr more ↦ rw more (ground arith, h)
]

replicate-leading : (bs : List ℕ) → replicate (leading 0 bs) 0 ++ drop (leading 0 bs) bs ≡ bs
unfolding leading
replicate-leading [] = refl
replicate-leading (b ∷ bs) = elim (Bool-cases (b == 0)) [
  | inl nil ↦ rw (nil, add-one) (cc (replicate-leading bs, (==_iff b 0).0 nil))
  | inr more ↦ rw more
]

leading-replicate :
    (k : ℕ) (b : ℕ) (s : List ℕ) → leading b s ≡ 0 → leading b (replicate k b ++ s) ≡ k
unfolding leading
leading-replicate zero b s h = h
leading-replicate (suc k) b s h =
    rw ((==_iff b b).1 refl) (omega (arith, leading-replicate k b s h))

drop-replicate : (k b : ℕ) (s : List ℕ) → drop k (replicate k b ++ s) ≡ s
drop-replicate zero b s = refl
drop-replicate (suc k) b s = drop-replicate k b s

held-eq : (n : List ℕ) → IsCanonical n → held n ≡ n
unfolding goes_on
held-eq [] h = refl
held-eq (b ∷ bs) h = rw (goes_on_canonical b bs h)

-- The digits of a payload are written, and the decoder makes them the payload again.
pub c32check_decode_lem :
    (payload : List ℕ)
    → All IsByte payload
    → length payload ≡ 24
    → (s : Text) × (to_digits (2 * length payload + 1) (drop (leading 0 payload) payload) []
        ≡ returned s)
      × (c32check_decode (replicate (leading 0 payload) 0x30 ++ s) 24 ≡ ok payload)
unfolding c32check_decode shift_all
c32check_decode_lem payload h len =
    let lead = leading 0 payload in
    let n = drop lead payload in
    let canonical = drop-leading-IsCanonical payload h in
    let short : length n ≤ 24 = omega (arith, length-drop lead payload) in
    let powers : 256 ^ length n ≤ 256 ^ 24 = pow-le-pow_right (omega arith) short in
    let fits : number n < 32 ^ (2 * length payload) =
      rw len (omega (arith, number-lt n (All-drop IsByte lead payload h), powers)) in
    let (s, runs, w) =
      to_digits-Written (2 * length payload) n [] (IsCanonical-IsDividend n canonical) fits in
    let headed : leading 0x30 s ≡ 0 = elim (le-cases (number n) 0) [
      | inl none_left ↦ rw (w.unchanged (omega arith)) (unfold leading in refl)
      | inr some_left ↦ w.headed some_left
    ] in
    let reads : shift_all [] s ≡ ok n = rw (held-eq n canonical) at w.reads in
    (
      s,
      rw add-one runs,
      rw
          (
            leading-replicate lead 0x30 s headed,
            drop-replicate lead 0x30 s,
            reads,
            replicate-leading payload,
            len,
          )
          refl,
    )

module _ (sha256 : List ℕ → List ℕ) where
  -- What the package documents of SHA-256: 32 bytes.
  abbrev pub IsDigest : Type 0
  IsDigest = (m : List ℕ) → All IsByte (sha256 m) × (length (sha256 m) ≡ 32)

  pub checksum-bytes :
      IsDigest
      → (version : ℕ) (hash160 : List ℕ)
      → All IsByte (checksum sha256 version hash160)
        × (length (checksum sha256 version hash160) ≡ 4)
  unfolding checksum
  checksum-bytes digest version hash160 =
      let (all, len) = digest (sha256 (version ∷ hash160)) in
      let second = sha256 (sha256 (version ∷ hash160)) in
      (All-take IsByte 4 second all, length-take 4 second (omega arith))

  -- Every address of 20 bytes with a version below 32 is written, and reads back to the same version
  -- and bytes, if SHA-256 makes 32 bytes.
  pub stacks_addr_decode-c32_encode_address :
      IsDigest
      → (version : ℕ) (hash160 : List ℕ) → version < 32
      → All IsByte hash160
      → length hash160 ≡ 20
      → (s : Text) × (c32_encode_address sha256 version hash160 ≡ returned s)
        × (stacks_addr_decode sha256 s ≡ ok (version, hash160))
  unfolding c32_encode_address stacks_addr_decode c32check_decode shift_all
  stacks_addr_decode-c32_encode_address digest version hash160 low h len =
      let sum = checksum sha256 version hash160 in
      let payload = hash160 ++ sum in
      let (sum_bytes, sum_length) = checksum-bytes digest version hash160 in
      let (s, runs, back) =
        c32check_decode_lem payload (All-append IsByte hash160 sum h sum_bytes)
          (omega (arith, length-append hash160 sum)) in
      let (ch, written, index, _) = digit_lem version low in
      let front : take 20 payload ≡ hash160 = rw len at (take-append hash160 sum) in
      let end : drop 20 payload ≡ sum = rw len at (drop-append hash160 sum) in
      (
        0x53 ∷ ch ∷ (replicate (leading 0 payload) 0x30 ++ s),
        rw (runs, written),
        rw (index, back, front, end, text_eq_refl sum),
      )
