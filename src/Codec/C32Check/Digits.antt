-- ===== src/Codec/C32Check/Digits.antt =====
-- The digits that the encoder's loop writes, as the decoder's loop reads them.
use native.Mathlib.Nat.{pow-suc, pow-zero}
use stacks_dex_pool.Prelude.{
  ℕ, zero, suc, ◌+◌, ◌*◌, ◌^◌, ◌<◌, ◌≡◌, refl, sym, ◌∙◌, Bool, true, false, ◌&&◌, Option, none,
  some, List, [], ◌∷◌, ◌==◌, if◌then◌else◌, Bool-cases, le-cases, inl, inr, All, arith,
}
use stacks_dex_pool.Prelude.Text.{Text}
use stacks_dex_pool.Prelude.Outcome.{Outcome, returned, panicked, out_of_fuel, err}
use stacks_dex_pool.Prelude.Bytes.{IsByte, from_be_bytes}
use stacks_dex_pool.Codec.C32Check.{
  AddressError, c32_index, leading, shift_in, shift_all, divide, strip, goes_on, digit, to_digits,
}
use stacks_dex_pool.Codec.C32Check.Table.{each_from, table_entry}
use stacks_dex_pool.Codec.C32Check.Number.{
  number, IsCanonical, IsCanonical-bytes, canonical_longer, canonical_unique,
}
use stacks_dex_pool.Codec.C32Check.Shift.{shift_in-Appended}
use stacks_dex_pool.Codec.C32Check.Divide.{
  divide-Divided, IsDividend, strip-IsDividend, goes_on-IsCanonical, goes_on-false,
}

abbrev names : ℕ → Option ℕ → Bool
names i none = false
names i (some j) = i == j

-- The digit of a number below 32 reads back, and only 0 is written as `0`.
abbrev reads_back : ℕ → Outcome ℕ → Bool
reads_back i (returned ch) = names i (c32_index ch) && (if ch == 0x30 then i == 0 else true)
reads_back i _ = false

digit_table : each_from (λ i. reads_back i (digit i)) 0 32 ≡ true
unfolding each_from digit c32_index
digit_table = refl

names→some : (i : ℕ) (o : Option ℕ) → names i o ≡ true → o ≡ some i
names→some i none h = cc
names→some i (some j) h = ground arith

pub digit_lem :
    (i : ℕ)
    → i < 32
    → (ch : ℕ) × (digit i ≡ returned ch) × (c32_index ch ≡ some i) × (0 < i → (ch == 0x30) ≡ false)
digit_lem i l = found (digit i) refl (table_entry (λ i. reads_back i (digit i)) 32 i digit_table l)
  where
    found :
        (o : Outcome ℕ)
        → digit i ≡ o
        → reads_back i o ≡ true
        → (ch : ℕ) × (digit i ≡ returned ch)
          × (c32_index ch ≡ some i)
          × (0 < i → (ch == 0x30) ≡ false)
    found (returned ch) e h =
        (ch, e, names→some i (c32_index ch) (ground arith), λ pos. ground arith)
    found panicked e h = cc
    found out_of_fuel e h = cc

-- What the decoder holds of a dividend.
abbrev pub held : List ℕ → List ℕ
held n = if goes_on n then n else []

pub number-pos : (n : List ℕ) → IsDividend n → goes_on n ≡ true → 0 < number n
unfolding goes_on
number-pos [] d on = cc
number-pos (b ∷ bs) d on =
    let longer =
      canonical_longer (b ∷ bs) [] (goes_on-IsCanonical (b ∷ bs) d on) tt (omega arith) in
    omega arith

held-IsCanonical : (n : List ℕ) → IsDividend n → IsCanonical (held n) × (number (held n) ≡ number n)
unfolding from_be_bytes
held-IsCanonical n d = elim (Bool-cases (goes_on n)) [
  | inl on ↦ rw on (goes_on-IsCanonical n d on, refl)
  | inr off ↦ rw off (tt, sym (goes_on-false n d off))
]

-- The digits of `n` before those that are there.
pub record Written (n : List ℕ) (digits s : Text) : Type 0 where
  pub reads : shift_all [] s ≡ shift_all (held n) digits
  pub unchanged : number n ≡ 0 → s ≡ digits
  pub headed : 0 < number n → leading 0x30 s ≡ 0

-- One digit more: the quotient with the remainder put behind it is the dividend.
divide-held :
    (n : List ℕ)
    → IsDividend n
    → All IsByte n
    → goes_on n ≡ true
    → (IsDividend (strip (divide 0 n).0)
        × (number (strip (divide 0 n).0) * 32 + (divide 0 n).1 ≡ number n)
        × (shift_in (held (strip (divide 0 n).0)) (divide 0 n).1 ≡ n))
divide-held n d h on =
    let r = divide-Divided 0 n h (omega arith) in
    let (dividend, same) = strip-IsDividend (divide 0 n).0 r.bytes in
    let q = strip (divide 0 n).0 in
    let (canonical, held_number) = held-IsCanonical q dividend in
    let (appended, sum) = shift_in-Appended (held q) (divide 0 n).1 canonical r.small in
    let total : number q * 32 + (divide 0 n).1 ≡ number n = omega (arith, r.sum, same) in
    (
      dividend,
      total,
      canonical_unique (shift_in (held q) (divide 0 n).1) n appended (goes_on-IsCanonical n d on)
          (omega (arith, sum, held_number, total)),
    )

pub shift_all-bad :
    (acc : List ℕ) (ch : ℕ) (s : Text)
    → c32_index ch ≡ none
    → shift_all acc (ch ∷ s) ≡ err AddressError.bad_digit
unfolding shift_all
shift_all-bad acc ch s e = rw (e, shift_all)

pub shift_all-digit :
    (acc : List ℕ) (ch d : ℕ) (s : Text)
    → c32_index ch ≡ some d
    → shift_all acc (ch ∷ s) ≡ shift_all (shift_in acc d) s
unfolding shift_all
shift_all-digit acc ch d s e = rw (e, shift_all)

done :
    (fuel : ℕ) (n : List ℕ) (digits : Text)
    → IsDividend n
    → goes_on n ≡ false
    → (s : Text) × (to_digits (suc fuel) n digits ≡ returned s) × Written n digits s
unfolding to_digits
done fuel n digits d off = (
  digits,
  rw off,
  record {
    reads = rw off;
    unchanged = λ e. refl;
    headed = λ pos. absurd (omega (arith, goes_on-false n d off));
  },
)

pub to_digits-Written :
    (fuel : ℕ) (n : List ℕ) (digits : Text)
    → IsDividend n
    → number n < 32 ^ fuel
    → (s : Text) × (to_digits (suc fuel) n digits ≡ returned s) × Written n digits s
unfolding to_digits shift_all leading
to_digits-Written zero n digits d l = elim (Bool-cases (goes_on n)) [
  | inl on ↦ absurd (omega (arith, number-pos n d on, pow-zero 32))
  | inr off ↦ done zero n digits d off
]
to_digits-Written (suc fuel) n digits d l = elim (Bool-cases (goes_on n)) [
  | inl on ↦
      let bytes_n = IsCanonical-bytes n (goes_on-IsCanonical n d on) in
      let (dividend, total, back) = divide-held n d bytes_n on in
      let r = (divide-Divided 0 n bytes_n (omega arith)).small in
      let q = strip (divide 0 n).0 in
      let (ch, written, index, head) = digit_lem (divide 0 n).1 r in
      let (s, runs, w) =
        to_digits-Written fuel q (ch ∷ digits) dividend (omega (arith, pow-suc 32 fuel)) in
      (
        s,
        rw (on, written) runs,
        record {
          reads =
              rw on (w.reads ∙ (shift_all-digit (held q) ch (divide 0 n).1 digits index ∙ rw back));
          unchanged = λ e. absurd (omega (arith, number-pos n d on));
          headed = λ pos. elim (le-cases (number q) 0) [
            | inl none_left ↦ rw (w.unchanged (omega arith), head (omega arith))
            | inr some_left ↦ w.headed some_left
          ];
        },
      )
  | inr off ↦ done (suc fuel) n digits d off
]
