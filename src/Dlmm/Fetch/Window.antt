-- ===== src/Dlmm/Fetch/Window.antt =====
-- The bins around the active bin.
use stacks_dex_pool.Prelude.{
  ℕ, ◌^◌, ◌<◌, ◌≡◌, refl, sym, ◌∙◌, true, Bool, ltb, ◌&&◌, if◌then◌else◌, Option, none, List, [],
  arith,
}
use stacks_dex_pool.Prelude.Int.{ℤ, pos, ◌+ℤ◌, ◌-ℤ◌, ◌≤ℤ◌, +ℤ_parts, -ℤ_parts}
use stacks_dex_pool.Prelude.Text.{Text}
use stacks_dex_pool.Prelude.Outcome.{Profile, returned}
use stacks_dex_pool.Prelude.Fallible.{success}
use stacks_dex_pool.BTreeMap.{BTreeMap, get}
use stacks_dex_pool.Pool.Principal.{Principal}
use stacks_dex_pool.Rpc.Reads.{Client, attempted}
use stacks_dex_pool.Dlmm.Constants.{min_bin_id, max_bin_id}
use stacks_dex_pool.Dlmm.Pool.{BinState}
use stacks_dex_pool.Dlmm.Fetch.{
  window, i32_op, fits_i32, bounds, id_range, fetch_bin, fetch_bins, max_ℤ, min_ℤ,
}
use stacks_dex_pool.Dlmm.Fetch.Mirror.{
  shown, is_listed, is_between, InRange, All-listed, mirror, mirror-get_new, collect_bins-mirror,
  id_range-listed,
}

i32_op-exact : (p : Profile) (n : ℤ) → fits_i32 n ≡ true → i32_op p n ≡ returned n
unfolding i32_op
i32_op-exact p n h = rw h refl

-- The ids that are in the range of the pool and at most `radius` from the active bin.
abbrev pub is_near : (active : ℤ) (radius : ℕ) (k : ℤ) → Bool
is_near active radius k =
    is_between min_bin_id max_bin_id k && is_between (active -ℤ pos radius) (active +ℤ pos radius) k

bounds-window :
    (p : Profile) (radius : ℕ) (active : ℤ)
    → radius < 2 ^ 30
    → min_bin_id ≤ℤ active
    → active ≤ℤ max_bin_id
    → bounds p (window radius) active
      ≡ success (max_ℤ (active -ℤ pos radius) min_bin_id, min_ℤ (active +ℤ pos radius) max_bin_id)
unfolding bounds
bounds-window p radius active small low high =
    let less = -ℤ_parts active (pos radius) in
    let more = +ℤ_parts active (pos radius) in
    let word : ltb radius (2 ^ 31) ≡ true = ground arith in
    rw
      (
        word,
        i32_op-exact p (active -ℤ pos radius) (ground arith),
        i32_op-exact p (active +ℤ pos radius) (ground arith),
      )
      refl

between-near :
    (active : ℤ) (radius : ℕ) (k : ℤ)
    → is_between
        (max_ℤ (active -ℤ pos radius) min_bin_id)
        (min_ℤ (active +ℤ pos radius) max_bin_id)
        k
      ≡ is_near active radius k
between-near active radius k = ground arith

near-InRange : (active : ℤ) (radius : ℕ) (k : ℤ) → is_near active radius k ≡ true → InRange k
near-InRange active radius k near = ground arith

module _ (p : Profile) (client : Client) (arrivals : List ℤ → List ℤ)
    (arrive : (k : ℤ) (ids : List ℤ) → is_listed k (arrivals ids) ≡ is_listed k ids)
    (pool_contract : Principal) (deployer name : Text) (read : ℤ → Option BinState)
    (reads : (id : ℤ)
      → InRange id
      → attempted (fetch_bin client deployer name id) ≡ success (read id)) where
  -- Let `read` say what the read of each single bin in range ends in, a failure being `none`, and let the
  -- answers arrive in any order. Then the bootstrap of a window around an active bin in range
  -- succeeds, even if reads fail, and mirrors exactly the bins near the active one that were read
  -- and are not empty: a bin whose read failed is mirrored as an empty one.
  pub fetch_bins_window :
      (radius : ℕ) (active : ℤ)
      → radius < 2 ^ 30
      → min_bin_id ≤ℤ active
      → active ≤ℤ max_bin_id
      → (bins : BTreeMap BinState) × (fetch_bins client p arrivals
            (window radius)
            pool_contract
            deployer
            name
            active
          ≡ success bins)
        × ((k : ℤ) → get k bins ≡ (if is_near active radius k then shown (read k) else none))
  unfolding fetch_bins
  fetch_bins_window radius active small low high =
      let lo = max_ℤ (active -ℤ pos radius) min_bin_id in
      let hi = min_ℤ (active +ℤ pos radius) max_bin_id in
      let ids = arrivals (id_range (lo, hi)) in
      let each_near : (k : ℤ) → is_listed k ids ≡ is_near active radius k = λ k.
        arrive k (id_range (lo, hi)) ∙ id_range-listed lo hi k ∙ between-near active radius k in
      let inside =
        All-listed InRange ids
          λ k listed. near-InRange active radius k (sym (each_near k) ∙ listed) in
      (
        mirror read ids [],
        rw (bounds-window p radius active small low high)
            (collect_bins-mirror read client deployer name reads ids [] inside),
        λ k. rw (each_near k) at (mirror-get_new read k ids),
      )
