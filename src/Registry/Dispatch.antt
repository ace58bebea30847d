-- ===== src/Registry/Dispatch.antt =====
-- Dispatch: every pool that is subscribed to the emitter takes the event once, no other pool does.
use stacks_dex_pool.Prelude.{
  Bool, false, ◌||◌, List, [], ◌∷◌, any, ◌≡◌, refl, ap, ◌∙◌, arith, inl, inr, Bool-cases,
  if◌then◌else◌,
}
use stacks_dex_pool.Prelude.Text.{Text, text_eq, text_eq_refl, text_eq_comm_false}
use stacks_dex_pool.Pool.Event.{StacksEvent}
use stacks_dex_pool.Registry.{
  PoolInterface, PoolRegistry, subscribes, subscribed_in, pools_subscribed_to, write_through,
  write_all, dispatch,
}

module _ {P : Type 0} where
  -- No pool has the id.
  abbrev pub IsAbsent : Text → List (Text × P) → Type 0
  IsAbsent id m = any (λ entry. text_eq id entry.0) m ≡ false

  abbrev pub IsDistinct : List (Text × P) → Type 0
  IsDistinct [] = Unit
  IsDistinct ((id, pool) ∷ m) = IsAbsent id m × IsDistinct m

module _ {P : Type 0} (I : PoolInterface P) (contended : Text → Bool) (event : StacksEvent) where
  -- What one pool is after a dispatch.
  abbrev pub received : Text → P → P
  received id pool =
      if contended id || subscribes (I.topics pool) event.emitter
      then (I.apply_event pool event).0
      else pool

  abbrev pub delivered : List (Text × P) → List (Text × P)
  delivered [] = []
  delivered ((id, pool) ∷ m) = (id, received id pool) ∷ delivered m

  absent_handle :
      (id : Text) (m : List (Text × P))
      → IsAbsent id m
      → any (text_eq id) (subscribed_in I contended event.emitter m) ≡ false
  unfolding subscribed_in
  absent_handle id [] h = refl
  absent_handle id ((j, pool) ∷ m) h = ground (arith, absent_handle id m)

  write_all-skip :
      (id : Text) (pool : P) (handles : List Text) (m : List (Text × P))
      → any (text_eq id) handles ≡ false
      → write_all I event handles ((id, pool) ∷ m) ≡ (id, pool) ∷ write_all I event handles m
  unfolding write_all write_through
  write_all-skip id pool [] m h = refl
  write_all-skip id pool (j ∷ handles) m h =
      let first : text_eq id j ≡ false = ground arith in
      let others : any (text_eq id) handles ≡ false = ground arith in
      rw (text_eq_comm_false id j first)
        (write_all-skip id pool handles (write_through I event j m) others)

  write_all-here :
      (id : Text) (pool : P) (handles : List Text) (m : List (Text × P))
      → any (text_eq id) handles ≡ false
      → write_all I event (id ∷ handles) ((id, pool) ∷ m)
        ≡ (id, (I.apply_event pool event).0) ∷ write_all I event handles m
  unfolding write_all write_through
  write_all-here id pool handles m h =
      rw (text_eq_refl id) (write_all-skip id (I.apply_event pool event).0 handles m h)

  write_all-eq-delivered :
      (m : List (Text × P))
      → IsDistinct m
      → write_all I event (subscribed_in I contended event.emitter m) m ≡ delivered m
  unfolding subscribed_in write_all write_through
  write_all-eq-delivered [] d = refl
  write_all-eq-delivered ((id, pool) ∷ m) (absent, d) =
      let elsewhere = absent_handle id m absent in
      let handles = subscribed_in I contended event.emitter m in
      elim (Bool-cases (contended id || subscribes (I.topics pool) event.emitter)) [
        | inl taken ↦ rw taken (
            write_all-here id pool handles m elsewhere
            ∙ ap (λ n. (id, (I.apply_event pool event).0) ∷ n) (write_all-eq-delivered m d))
        | inr left ↦ rw left (
            write_all-skip id pool handles m elsewhere
            ∙ ap (λ n. (id, pool) ∷ n) (write_all-eq-delivered m d))
      ]

  -- If the ids are distinct, a dispatch gives the event exactly once to each pool that is
  -- subscribed to its emitter or found locked, and leaves the other pools and the rest of the
  -- registry as they are.
  pub dispatch-eq-delivered :
      (registry : PoolRegistry P)
      → IsDistinct registry.by_id
      → dispatch I contended event registry ≡ record registry { by_id = delivered registry.by_id }
  unfolding dispatch pools_subscribed_to
  dispatch-eq-delivered registry d = rw (write_all-eq-delivered registry.by_id d)
