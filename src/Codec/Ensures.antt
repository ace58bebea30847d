-- ===== src/Codec/Ensures.antt =====
-- What a run of the decoder ensures: it ends, and what it returns satisfies a postcondition.
use mathlib.Core.Logic.{inl, inr}
use stacks_dex_pool.Prelude.{
  ℕ, ◌+◌, ◌≤◌, ◌<◌, ◌≡◌, Bool-cases, Option-cases, List, [], ◌∷◌, ◌++◌, length, length-append, All,
  drop, ap, arith,
}
use stacks_dex_pool.Prelude.Word.{u32_size}
use stacks_dex_pool.Prelude.Bytes.{IsByte, from_be_bytes-lt, split_at, split_at-parts, is_utf8}
use stacks_dex_pool.Prelude.Text.{Text}
use stacks_dex_pool.Pool.Principal.{standard}
use stacks_dex_pool.Codec.Decode.{
  DecodeError, Decoded, decoded, failed, ◌>>=◌, Input, read, read_byte, read_u32, read_prefixed,
  check_utf8, read_string, read_name, read_standard, read_contract, mapped,
}
use stacks_dex_pool.Codec.Wire.{IsBlob, IsText, IsAddressed}

pub data Ensures {A : Type 0} (P : A → Type 0) : Decoded A → Type 0 where
  holds : {a : A} → P a → Ensures P (decoded a)
  rejected : {e : DecodeError} → Ensures P (failed e)

pub Ensures-bind :
    {A B : Type 0} {P : A → Type 0} {Q : B → Type 0} {m : Decoded A} {f : A → Decoded B}
    → Ensures P m
    → ((a : A) → P a → Ensures Q (f a))
    → Ensures Q (m >>= f)
Ensures-bind (holds {a} p) k = k a p
Ensures-bind rejected k = rejected

pub Ensures-weaken :
    {A : Type 0} {P Q : A → Type 0} {m : Decoded A}
    → Ensures P m
    → ((a : A) → P a → Q a)
    → Ensures Q m
Ensures-weaken (holds {a} p) k = holds (k a p)
Ensures-weaken rejected k = rejected

-- At least `k` bytes of the input are gone.
abbrev pub Leaves : {A : Type 0} → ℕ → Input → (A → Type 0) → A × Input → Type 0
Leaves k input P (a, rest) = P a × All IsByte rest × (length rest + k ≤ length input)

pub mapped-Ensures :
    {A B : Type 0} {m : Decoded (A × Input)} (P : A → Type 0) (Q : B → Type 0) (f : A → B) (k j : ℕ)
    (input outer : Input)
    → length input + j ≤ length outer + k
    → ((a : A) → P a → Q (f a))
    → Ensures (Leaves k input P) m
    → Ensures (Leaves j outer Q) (mapped f m)
mapped-Ensures P Q f k j input outer h imp m =
    Ensures-bind m λ (a, rest) (p, b, l). holds (imp a p, b, omega arith)

All-parts : {A : Type 0} (P : A → Type 0) (xs ys : List A) → All P (xs ++ ys) → All P xs × All P ys
All-parts P [] ys h = (tt, h)
All-parts P (x ∷ xs) ys (h, hs) = let (a, b) = All-parts P xs ys hs in ((h, a), b)

pub read-Ensures :
    (n : ℕ) (e : DecodeError) (input : Input)
    → All IsByte input
    → Ensures (Leaves n input (λ b. All IsByte b × (length b ≡ n))) (read n e input)
unfolding read
read-Ensures n e input h = elim (Option-cases (split_at n input)) [
  | inl short ↦ rw short rejected
  | inr ((front, rest), found) ↦
      let (len, whole) = split_at-parts n input front rest found in
      let (a, b) = All-parts IsByte front rest (rw whole at h) in
      rw found (holds ((a, len), b, omega (arith, ap length whole, length-append front rest)))
]

pub read_byte-Ensures :
    (e : DecodeError) (input : Input)
    → All IsByte input
    → Ensures (Leaves 1 input IsByte) (read_byte e input)
unfolding read_byte
read_byte-Ensures e [] h = rejected
read_byte-Ensures e (b ∷ rest) (h, hs) = holds (h, hs, omega arith)

pub read_u32-Ensures :
    (input : Input)
    → All IsByte input
    → Ensures (Leaves 4 input (λ n. n < u32_size)) (read_u32 input)
unfolding read_u32
read_u32-Ensures input h =
    Ensures-bind (read-Ensures 4 DecodeError.short_header input h)
      λ (b, rest) ((bs, len), r, l). holds (rw len at (from_be_bytes-lt 0 b bs), r, l)

pub read_prefixed-Ensures :
    (input : Input)
    → All IsByte input
    → Ensures (Leaves 4 input (IsBlob u32_size)) (read_prefixed input)
unfolding read_prefixed
read_prefixed-Ensures input h = Ensures-bind (read_u32-Ensures input h) λ (n, start) (few, r, l).
    Ensures-weaken (read-Ensures n DecodeError.short_body start r)
      λ (b, rest) ((bs, len), r', l'). ((bs, omega arith), r', omega arith)

pub check_utf8-Ensures :
    (s : Text) (rest input : Input) (k size : ℕ)
    → Leaves k input (IsBlob size) (s, rest)
    → Ensures (Leaves k input (IsText size)) (check_utf8 s rest)
unfolding check_utf8
check_utf8-Ensures s rest input k size (b, r, l) = elim (Bool-cases (is_utf8 s)) [
  | inl good ↦ rw good (holds ((b, good), r, l))
  | inr bad ↦ rw bad rejected
]

pub read_string-Ensures :
    (input : Input)
    → All IsByte input
    → Ensures (Leaves 4 input (IsText u32_size)) (read_string input)
unfolding read_string
read_string-Ensures input h =
    Ensures-bind (read_prefixed-Ensures input h)
      λ (s, rest) p. check_utf8-Ensures s rest input 4 u32_size p

pub read_name-Ensures :
    (e : DecodeError) (input : Input)
    → All IsByte input
    → Ensures (Leaves 1 input (IsText 256)) (read_name e input)
unfolding read_name
read_name-Ensures e input h = Ensures-bind (read_byte-Ensures e input h) λ (n, start) (small, r, l).
    Ensures-bind (read-Ensures n DecodeError.short_name start r) λ (s, rest) ((bs, len), r', l').
      check_utf8-Ensures s rest input 1 256 ((bs, omega arith), r', omega arith)

pub read_standard-Ensures :
    (input : Input) → All IsByte input → Ensures (Leaves 21 input IsAddressed) (read_standard input)
unfolding read_standard IsAddressed read_byte
read_standard-Ensures input h =
    Ensures-bind (read-Ensures 21 DecodeError.short_header input h) λ (b, rest) p. after b rest p
  where
    after :
        (b rest : Input)
        → Leaves 21 input (λ b. All IsByte b × (length b ≡ 21)) (b, rest)
        → Ensures (Leaves 21 input IsAddressed) (
            read_byte DecodeError.short_header b >>= λ (version, _).
            decoded (standard version (drop 1 b), rest))
    after [] rest p = rejected
    after (v ∷ hs) rest (((v_byte, bytes), len), r, l) =
        holds ((v_byte, (bytes, omega arith)), r, l)

pub read_contract-Ensures :
    (input : Input) → All IsByte input → Ensures (Leaves 22 input IsAddressed) (read_contract input)
unfolding read_contract IsAddressed
read_contract-Ensures input h =
    Ensures-bind (read-Ensures 22 DecodeError.short_header input h) λ (b, start) ((bs, _), r, l).
      Ensures-bind (read_byte-Ensures DecodeError.short_header b bs) λ (v, h1) (v_byte, r1, _).
        Ensures-bind (read-Ensures 20 DecodeError.short_header h1 r1) λ (hash, l1) (hash_ok, r2, _).
          Ensures-bind (read_byte-Ensures DecodeError.short_header l1 r2) λ (n, _) (small, _, _).
            Ensures-bind (read-Ensures n DecodeError.short_name start r)
              λ (s, rest) ((ss, len), r3, l3).
                Ensures-bind
                  (check_utf8-Ensures s rest input 22 256 ((ss, omega arith), r3, omega arith))
                  λ (name, after) (text, r4, l4). holds ((v_byte, hash_ok, text), r4, l4)
