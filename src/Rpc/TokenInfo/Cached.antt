-- ===== src/Rpc/TokenInfo/Cached.antt =====
-- The decimals of a token are asked for once.
use stacks_dex_pool.Prelude.{ℕ, ◌≡◌, refl, sym, Option, none, some, List}
use stacks_dex_pool.Prelude.Text.{text_eq, text_eq_refl, eq_of_text_eq}
use stacks_dex_pool.Prelude.Outcome.{
  Outcome, returned, panicked, out_of_fuel, ok, err, >>=-eq-returned,
}
use stacks_dex_pool.Prelude.Fallible.{Fallible, success}
use stacks_dex_pool.AssocList.{assoc_insert}
use stacks_dex_pool.AssocList.Laws.{get-insert_self}
use stacks_dex_pool.Pool.Principal.{Principal}
use stacks_dex_pool.Pool.Address.{display}
use stacks_dex_pool.Rpc.Response.{RpcError}
use stacks_dex_pool.Rpc.Reads.{Client, fetch_decimals}
use stacks_dex_pool.Rpc.TokenInfo.{TokenCache, insert, get_cached, stored, looked_up, decimals}

module _ (sha256 : List ℕ → List ℕ) where
  get_cached-insert :
      (token : Principal) (d : ℕ) (cache later : TokenCache)
      → insert sha256 token d cache ≡ returned later
      → get_cached sha256 token later ≡ returned (some d)
  unfolding insert get_cached
  get_cached-insert token d cache later e =
      let (key, shown, rest) =
        >>=-eq-returned (display sha256 token) (λ key. returned (assoc_insert text_eq key d cache))
          later e in
      let whole : assoc_insert text_eq key d cache ≡ later = cc in
      rw (shown, sym whole, get-insert_self text_eq text_eq_refl eq_of_text_eq key d cache) refl

  stored-cached :
      (token : Principal) (cache later : TokenCache) (read d : ℕ) (inserted : Outcome TokenCache)
      → insert sha256 token read cache ≡ inserted
      → stored sha256 cache read inserted ≡ (success d, later)
      → get_cached sha256 token later ≡ returned (some d)
  stored-cached token cache later read d (returned new) known e =
      let same : read ≡ d = cc in
      let kept : new ≡ later = cc in
      rw (kept, same) at (get_cached-insert token read cache new known)
  stored-cached token cache later read d panicked known e = cc
  stored-cached token cache later read d out_of_fuel known e = cc

  looked_up-cached :
      (client : Client) (token : Principal) (cache later : TokenCache) (d : ℕ)
      (cached : Outcome (Option ℕ)) (fetched : Fallible RpcError ℕ)
      → get_cached sha256 token cache ≡ cached
      → fetch_decimals sha256 client token ≡ fetched
      → looked_up sha256 client token cache cached ≡ (success d, later)
      → get_cached sha256 token later ≡ returned (some d)
  looked_up-cached client token cache later d (returned (some old)) fetched known asked e =
      let same : old ≡ d = cc in let kept : cache ≡ later = cc in rw (kept, same) at known
  looked_up-cached client token cache later d (returned none) (returned (ok read)) known asked e =
      stored-cached token cache later read d (insert sha256 token read cache) refl (rw asked at e)
  looked_up-cached client token cache later d (returned none) (returned (err x)) known asked e =
      cc (rw asked at e)
  looked_up-cached client token cache later d (returned none) panicked known asked e =
      cc (rw asked at e)
  looked_up-cached client token cache later d (returned none) out_of_fuel known asked e =
      cc (rw asked at e)
  looked_up-cached client token cache later d panicked fetched known asked e = cc
  looked_up-cached client token cache later d out_of_fuel fetched known asked e = cc

  -- Once the decimals of a token have been obtained, every later request for the token gives the same
  -- number and leaves the cache as it is, whatever a client would answer.
  pub decimals_again :
      (client other : Client) (token : Principal) (cache later : TokenCache) (d : ℕ)
      → decimals sha256 client token cache ≡ (success d, later)
      → decimals sha256 other token later ≡ (success d, later)
  unfolding decimals
  decimals_again client other token cache later d e =
      rw (looked_up-cached client token cache later d (get_cached sha256 token cache) _ refl refl e)
        refl
