-- ===== src/Rpc/Client/Retry.antt =====
-- How often a request is repeated.
use native.Mathlib.Nat.{add-zero, zero-add}
use stacks_dex_pool.Prelude.{
  ℕ, zero, suc, ◌+◌, ◌-◌, subst, sym, ◌*◌, ◌≤◌, ◌<◌, ◌≡◌, refl, ◌⊎◌, inl, inr, true, false, List,
  [], ◌∷◌, arith,
}
use stacks_dex_pool.Prelude.Text.{Text}
use stacks_dex_pool.Prelude.Outcome.{Result}
use stacks_dex_pool.Prelude.Fallible.{Fallible}
use stacks_dex_pool.Rpc.Response.{RpcError, Response}
use stacks_dex_pool.Rpc.Client.{RpcConfig, is_limited, finished, attempts}

-- The waits after each of the attempts from `first` on.
abbrev pub backoffs : ℕ → (first count : ℕ) → List ℕ
backoffs backoff first zero = []
backoffs backoff first (suc count) = backoff * (first + 1) ∷ backoffs backoff (first + 1) count

module _ {B : Type 0} (payload : B → Fallible RpcError Text) (config : RpcConfig)
    (answer : ℕ → Result RpcError (Response B)) where
  attempts-eq :
      (limited left first : ℕ)
      → ((k : ℕ) → k < limited → is_limited (answer (first + k)) ≡ true)
      → (left ≡ 0) ⊎ (is_limited (answer (first + limited)) ≡ false)
      → attempts payload config answer (limited + left) first ≡ record {
        waits = backoffs config.backoff first limited;
        ended = finished payload (answer (first + limited));
      }
  unfolding attempts
  attempts-eq zero zero first busy last = rw (add-zero first) refl
  attempts-eq zero (suc left) first busy (inl none_left) = absurd (omega arith)
  attempts-eq zero (suc left) first busy (inr plain) =
      let here = rw (add-zero first) at plain in
      rw (zero-add (suc left), add-zero first) (rw (here, attempts) refl)
  attempts-eq (suc limited) left first busy last =
      let here = rw (add-zero first) at (busy 0 (omega arith)) in
      let rounds : suc limited + left ≡ suc (limited + left) = omega arith in
      let shift : (k : ℕ) → first + suc k ≡ first + 1 + k = λ k. omega arith in
      let ih =
        attempts-eq limited left (first + 1) (λ k h. rw (shift k) at (busy (suc k) (omega arith)))
          (rw (shift limited) at last) in
      rw (rounds, shift limited) (rw (here, attempts, ih) refl)

  -- A request is repeated for each answer 429, as long as retries are left, with a wait before each
  -- repetition that grows by `backoff`; it ends with the first other answer, or with the answer
  -- after the last retry, whatever that is.
  pub attempts_lem :
      (limited : ℕ)
      → limited ≤ config.max_retries
      → ((k : ℕ) → k < limited → is_limited (answer k) ≡ true)
      → (limited ≡ config.max_retries) ⊎ (is_limited (answer limited) ≡ false)
      → attempts payload config answer config.max_retries 0 ≡ record {
        waits = backoffs config.backoff 0 limited;
        ended = finished payload (answer limited);
      }
  attempts_lem limited within busy last =
      let left = config.max_retries - limited in
      let whole : limited + left ≡ config.max_retries = omega arith in
      let plain : (left ≡ 0) ⊎ (is_limited (answer (0 + limited)) ≡ false) = elim last [
        | inl all ↦ inl (omega arith)
        | inr other ↦
            inr (subst (λ (n : ℕ). is_limited (answer n) ≡ false) (sym (zero-add limited)) other)
      ] in
      let from_zero =
        attempts-eq limited left 0
          (λ k h. subst (λ (n : ℕ). is_limited (answer n) ≡ true) (sym (zero-add k)) (busy k h))
          plain in
      rw (zero-add limited) at (
        subst
          (λ (n : ℕ). attempts payload config answer n 0 ≡ record {
            waits = backoffs config.backoff 0 limited;
            ended = finished payload (answer (0 + limited));
          })
          whole from_zero)
