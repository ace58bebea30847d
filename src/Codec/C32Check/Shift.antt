-- ===== src/Codec/C32Check/Shift.antt =====
-- The accumulator of the decoder, after another digit.
use Prim.Native.Nat.{bit_or}
use native.Mathlib.Nat.{pow-zero, pow-suc}
use mathlib.Core.Logic.{inl, inr}
use stacks_dex_pool.Prelude.{
  ℕ, ◌+◌, ◌*◌, ◌/◌, ◌%◌, ◌^◌, ◌<◌, ◌≡◌, refl, ap, ◌∙◌, true, List, [], ◌∷◌, ◌==◌, ==_iff,
  if◌then◌else◌, Bool-cases, length, All, arith,
}
use stacks_dex_pool.Prelude.Bytes.{IsByte, from_be_bytes}
use stacks_dex_pool.Codec.C32Check.{shift_bytes, push_carry, shift_in}
use stacks_dex_pool.Codec.C32Check.Table.{each_from, table_entry}
use stacks_dex_pool.Codec.C32Check.Number.{number, weight, number-cons, IsCanonical}

or_table : each_from (λ x. bit_or (x / 32 * 32) (x % 32) == x) 0 8192 ≡ true
unfolding each_from
or_table = refl

-- The low five bits of a shifted byte are free.
or_low : (b c : ℕ) → b < 256 → c < 32 → bit_or (b * 32) c ≡ b * 32 + c
or_low b c hb hc =
    let high : (b * 32 + c) / 32 ≡ b = omega arith in
    let low : (b * 32 + c) % 32 ≡ c = omega arith in
    rw (high, low) at
      ((==_iff _ (b * 32 + c)).0 (
        table_entry (λ x. bit_or (x / 32 * 32) (x % 32) == x) 8192 (b * 32 + c) or_table
          (omega arith)))

-- What one round of the inner loop leaves.
record Shifted (bs : List ℕ) (d : ℕ) (bs' : List ℕ) (c : ℕ) : Type 0 where
  bytes : All IsByte bs'
  same : length bs' ≡ length bs
  carry : c < 32
  sum : c * weight bs + number bs' ≡ number bs * 32 + d

distribute : (q r w : ℕ) → q * (w * 256) + r * w ≡ (q * 256 + r) * w
distribute q r w = grind arith

digits_of : (v w : ℕ) → v / 256 * (w * 256) + v % 256 * w ≡ v * w
digits_of v w =
    let whole : v / 256 * 256 + v % 256 ≡ v = omega arith in
    distribute (v / 256) (v % 256) w ∙ ap (λ (t : ℕ). t * w) whole

widen : (b c w : ℕ) → (b * 32 + c) * w ≡ b * w * 32 + c * w
widen b c w = grind arith

Shifted-cons :
    (b : ℕ) (bs : List ℕ) (d : ℕ) (bs' : List ℕ) (c : ℕ)
    → IsByte b
    → Shifted bs d bs' c
    → Shifted (b ∷ bs) d ((b * 32 + c) % 256 ∷ bs') ((b * 32 + c) / 256)
Shifted-cons b bs d bs' c hb s =
    let v = b * 32 + c in
    let w = weight bs in
    let low = c_lt s in
    let same_weight : v % 256 * weight bs' ≡ v % 256 * w =
      ap (λ (t : ℕ). v % 256 * 256 ^ t) s.same in
    record {
      bytes = (omega arith, s.bytes);
      same = omega (arith, s.same);
      carry = omega arith;
      sum = omega (
        arith,
        s.sum,
        number-cons (v % 256) bs',
        number-cons b bs,
        same_weight,
        ap (λ (t : ℕ). v / 256 * t) (pow-suc 256 (length bs)),
        digits_of v w,
        widen b c w,
      );
    }
  where
    c_lt : Shifted bs d bs' c → c < 32
    c_lt s = s.carry

shift_bytes-Shifted :
    (bs : List ℕ) (d : ℕ)
    → All IsByte bs
    → d < 32
    → Shifted bs d (shift_bytes bs d).0 (shift_bytes bs d).1
unfolding shift_bytes
shift_bytes-Shifted [] d h l = record {
  bytes = tt;
  same = refl;
  carry = l;
  sum = unfold from_be_bytes in omega (arith, pow-zero 256);
}
shift_bytes-Shifted (b ∷ bs) d (hb, hbs) l =
    let ih = shift_bytes-Shifted bs d hbs l in
    let (bs', c) = shift_bytes bs d in rw (or_low b c hb ih.carry) (Shifted-cons b bs d bs' c hb ih)

push_carry_small :
    (c : ℕ) (acc : List ℕ) → c < 32 → push_carry 4 c acc ≡ (if c == 0 then acc else c ∷ acc)
unfolding push_carry
push_carry_small c acc l =
    let gone : c / 256 ≡ 0 = omega arith in let same : c % 256 ≡ c = omega arith in rw (gone, same)

-- With no carry out, the first byte keeps its bits.
head_kept :
    (b : ℕ) (bs : List ℕ) (d : ℕ)
    → 0 < b
    → All IsByte (b ∷ bs)
    → d < 32
    → (shift_bytes (b ∷ bs) d).1 ≡ 0
    → IsCanonical (shift_bytes (b ∷ bs) d).0
head_kept b bs d pos (hb, hbs) l none_out =
    let all = (shift_bytes-Shifted (b ∷ bs) d (hb, hbs) l).bytes in
    let kept = or_low b (shift_bytes bs d).1 hb (shift_bytes-Shifted bs d hbs l).carry in
    unfold shift_bytes in (unfold shift_bytes in omega arith, all)

-- The accumulator after another digit.
abbrev pub Appended : List ℕ → ℕ → List ℕ → Type 0
Appended acc d acc' = IsCanonical acc' × (number acc' ≡ number acc * 32 + d)

shift_in-cons :
    (b : ℕ) (bs : List ℕ) (d : ℕ)
    → IsCanonical (b ∷ bs)
    → d < 32
    → Appended (b ∷ bs) d (shift_in (b ∷ bs) d)
unfolding shift_in
shift_in-cons b bs d (pos, hs) l =
    let s = shift_bytes-Shifted (b ∷ bs) d hs l in
    let out = (shift_bytes (b ∷ bs) d).1 in
    let acc = (shift_bytes (b ∷ bs) d).0 in
    let small = push_carry_small out acc s.carry in
    elim (Bool-cases (out == 0)) [
      | inl stays ↦
          let zero_out : out ≡ 0 = (==_iff out 0).0 stays in
          rw (small, stays)
            (
              head_kept b bs d pos hs l zero_out,
              omega (arith, s.sum, ap (λ (t : ℕ). t * weight (b ∷ bs)) zero_out),
            )
      | inr grows ↦
          rw (small, grows)
            (
              (ground arith, (omega (arith, s.carry), s.bytes)),
              omega (arith, s.sum, number-cons out acc, ap (λ (t : ℕ). out * 256 ^ t) s.same),
            )
    ]

pub shift_in-Appended :
    (acc : List ℕ) (d : ℕ) → IsCanonical acc → d < 32 → Appended acc d (shift_in acc d)
unfolding shift_in shift_bytes from_be_bytes
shift_in-Appended [] d h l = elim (Bool-cases (d == 0)) [
  | inl stays ↦ rw (push_carry_small d [] l, stays) (tt, ground arith)
  | inr grows ↦
      rw (push_carry_small d [] l, grows) ((ground arith, (omega arith, tt)), ground arith)
]
shift_in-Appended (b ∷ bs) d h l = shift_in-cons b bs d h l
