-- ===== src/Registry/Reachable.antt =====
-- What holds of every registry that the program can build.
use stacks_dex_pool.Prelude.{
  ℕ, Bool, true, false, some, List, [], ◌∷◌, any, All, ◌≡◌, refl, sym, subst, arith, inl, inr,
  Bool-cases,
}
use stacks_dex_pool.Prelude.Text.{Text, text_eq, eq_of_text_eq, text_eq_comm_false}
use stacks_dex_pool.AssocList.{assoc_get, assoc_insert, assoc_remove}
use stacks_dex_pool.Pool.Principal.{Principal, principal_eq}
use stacks_dex_pool.Pool.Event.{StacksEvent, StacksTopic}
use stacks_dex_pool.Registry.{
  PoolInterface, PoolRegistry, subscribes, new, get, insert, remove, polled_contracts,
  set_watermark, set_last_processed_block, dispatch, add_topics,
}
use stacks_dex_pool.Registry.Map.{polled_iff, subscribes-add_topics}
use stacks_dex_pool.Registry.Dispatch.{
  IsAbsent, IsDistinct, delivered, received, dispatch-eq-delivered,
}

module _ {P : Type 0} (I : PoolInterface P) where
  -- One change of the registry: by its owner, or by the collector.
  pub data Step : PoolRegistry P → PoolRegistry P → Type 0 where
    inserted : {r : PoolRegistry P} (pool : P) → Step r (insert I pool r)
    removed : {r : PoolRegistry P} (id : Text) → Step r (remove id r).0
    marked :
        {r : PoolRegistry P} (contract : Principal) (tx_id : Text)
        → Step r (set_watermark contract tx_id r)
    advanced : {r : PoolRegistry P} (height : ℕ) → Step r (set_last_processed_block height r)
    dispatched :
        {r : PoolRegistry P} (contended : Text → Bool) (event : StacksEvent)
        → Step r (dispatch I contended event r)

  pub data Reachable : PoolRegistry P → Type 0 where
    start : Reachable new
    step : {r s : PoolRegistry P} → Reachable r → Step r s → Reachable s

  -- Every emitter that the pool listens to is among the topics.
  abbrev pub IsHeard : List StacksTopic → (Text × P) → Type 0
  IsHeard ts entry =
      (c : Principal) → subscribes (I.topics entry.1) c ≡ true → subscribes ts c ≡ true

  pub record IsWellFormed (r : PoolRegistry P) : Type 0 where
    pub distinct : IsDistinct r.by_id
    pub heard : All (IsHeard r.topics) r.by_id

  insert-IsAbsent :
      (j id : Text) (pool : P) (m : List (Text × P))
      → IsAbsent j m
      → text_eq j id ≡ false
      → IsAbsent j (assoc_insert text_eq id pool m)
  insert-IsAbsent j id pool [] h k = rw k
  insert-IsAbsent j id pool ((i, q) ∷ m) h k = ground (arith, insert-IsAbsent j id pool m)

  insert-IsDistinct :
      (id : Text) (pool : P) (m : List (Text × P))
      → IsDistinct m
      → IsDistinct (assoc_insert text_eq id pool m)
  insert-IsDistinct id pool [] d = (refl, tt)
  insert-IsDistinct id pool ((i, q) ∷ m) (a, d) = elim (Bool-cases (text_eq id i)) [
    | inl same ↦ rw same (subst (λ t. IsAbsent t m) (sym (eq_of_text_eq id i same)) a, d)
    | inr other ↦ rw other (
      insert-IsAbsent i id pool m a (text_eq_comm_false id i other),
      insert-IsDistinct id pool m d,
    )
  ]

  remove-IsAbsent :
      (j id : Text) (m : List (Text × P)) → IsAbsent j m → IsAbsent j (assoc_remove text_eq id m)
  remove-IsAbsent j id [] h = refl
  remove-IsAbsent j id ((i, q) ∷ m) h = ground (arith, remove-IsAbsent j id m)

  remove-IsDistinct :
      (id : Text) (m : List (Text × P)) → IsDistinct m → IsDistinct (assoc_remove text_eq id m)
  remove-IsDistinct id [] d = tt
  remove-IsDistinct id ((i, q) ∷ m) (a, d) = elim (Bool-cases (text_eq id i)) [
    | inl same ↦ rw same (remove-IsDistinct id m d)
    | inr other ↦ rw other (remove-IsAbsent i id m a, remove-IsDistinct id m d)
  ]

  remove-All :
      (Q : Text × P → Type 0) (id : Text) (m : List (Text × P))
      → All Q m
      → All Q (assoc_remove text_eq id m)
  remove-All Q id [] h = tt
  remove-All Q id ((i, q) ∷ m) (a, h) = elim (Bool-cases (text_eq id i)) [
    | inl same ↦ rw same (remove-All Q id m h)
    | inr other ↦ rw other (a, remove-All Q id m h)
  ]

  insert-All :
      (Q : Text × P → Type 0) (id : Text) (pool : P) (m : List (Text × P))
      → Q (id, pool)
      → All Q m
      → All Q (assoc_insert text_eq id pool m)
  insert-All Q id pool [] q h = (q, tt)
  insert-All Q id pool ((i, w) ∷ m) q (a, h) = elim (Bool-cases (text_eq id i)) [
    | inl same ↦ rw same (q, h)
    | inr other ↦ rw other (a, insert-All Q id pool m q h)
  ]

  All-mono :
      (Q R : Text × P → Type 0) (m : List (Text × P))
      → ((e : Text × P) → Q e → R e)
      → All Q m
      → All R m
  All-mono Q R [] f h = tt
  All-mono Q R (e ∷ m) f (a, h) = (f e a, All-mono Q R m f h)

  module _ (contended : Text → Bool) (event : StacksEvent) where
    delivered-IsAbsent :
        (j : Text) (m : List (Text × P)) → IsAbsent j m → IsAbsent j (delivered I contended event m)
    delivered-IsAbsent j [] h = refl
    delivered-IsAbsent j ((i, q) ∷ m) h = ground (arith, delivered-IsAbsent j m)

    delivered-IsDistinct :
        (m : List (Text × P)) → IsDistinct m → IsDistinct (delivered I contended event m)
    delivered-IsDistinct [] d = tt
    delivered-IsDistinct ((i, q) ∷ m) (a, d) = (delivered-IsAbsent i m a, delivered-IsDistinct m d)

    delivered-IsHeard :
        (ts : List StacksTopic) (m : List (Text × P))
        → ((p : P) (e : StacksEvent) → I.topics (I.apply_event p e).0 ≡ I.topics p)
        → All (IsHeard ts) m
        → All (IsHeard ts) (delivered I contended event m)
    delivered-IsHeard ts [] keeps h = tt
    delivered-IsHeard ts ((i, q) ∷ m) keeps (a, h) =
        let same : I.topics (received I contended event i q) ≡ I.topics q =
          ground (arith, keeps q event) in
        (
          λ c listens. a c (subst (λ t. subscribes t c ≡ true) same listens),
          delivered-IsHeard ts m keeps h,
        )

  IsHeard-more :
      (more ts : List StacksTopic) (m : List (Text × P))
      → All (IsHeard ts) m
      → All (IsHeard (add_topics more ts)) m
  IsHeard-more more ts m =
      All-mono (IsHeard ts) (IsHeard (add_topics more ts)) m
        (λ e h c listens. rw (subscribes-add_topics more ts c, h c listens) (ground arith))

  IsHeard-new :
      (pool : P) (ts : List StacksTopic) → IsHeard (add_topics (I.topics pool) ts) (I.id pool, pool)
  IsHeard-new pool ts c listens = rw (subscribes-add_topics (I.topics pool) ts c, listens) refl

  heard_at :
      (id : Text) (pool : P) (c : Principal) (ts : List StacksTopic) (m : List (Text × P))
      → All (IsHeard ts) m
      → assoc_get text_eq id m ≡ some pool
      → subscribes (I.topics pool) c ≡ true
      → subscribes ts c ≡ true
  heard_at id pool c ts [] h found listens = cc
  heard_at id pool c ts ((i, q) ∷ m) (a, h) found listens =
      ground (arith, a c, heard_at id pool c ts m h)

  module _ (keeps : (p : P) (e : StacksEvent) → I.topics (I.apply_event p e).0 ≡ I.topics p) where
    Step-IsWellFormed : (r s : PoolRegistry P) → Step r s → IsWellFormed r → IsWellFormed s
    unfolding insert remove set_watermark set_last_processed_block
    Step-IsWellFormed r s (inserted pool) w = record {
      distinct = insert-IsDistinct (I.id pool) pool r.by_id w.distinct;
      heard =
          insert-All (IsHeard (add_topics (I.topics pool) r.topics)) (I.id pool) pool r.by_id
            (IsHeard-new pool r.topics) (IsHeard-more (I.topics pool) r.topics r.by_id w.heard);
    }
    Step-IsWellFormed r s (removed id) w = record {
      distinct = remove-IsDistinct id r.by_id w.distinct;
      heard = remove-All (IsHeard r.topics) id r.by_id w.heard;
    }
    Step-IsWellFormed r s (marked _ _) w = record { distinct = w.distinct; heard = w.heard }
    Step-IsWellFormed r s (advanced _) w = record { distinct = w.distinct; heard = w.heard }
    Step-IsWellFormed r s (dispatched contended event) w =
        rw (dispatch-eq-delivered I contended event r w.distinct) record {
          distinct = delivered-IsDistinct contended event r.by_id w.distinct;
          heard = delivered-IsHeard contended event r.topics r.by_id keeps w.heard;
        }

    reachable-IsWellFormed : (r : PoolRegistry P) → Reachable r → IsWellFormed r
    unfolding new
    reachable-IsWellFormed r start = record { distinct = tt; heard = tt }
    reachable-IsWellFormed r (step {r = q} h s) =
        Step-IsWellFormed q r s (reachable-IsWellFormed q h)

    -- Let `apply_event` keep a pool's topics. Then in every registry that inserts, removals,
    -- dispatches and cursor moves lead to, the ids are distinct, and each contract that a
    -- registered pool listens to is among those to poll.
    pub reachable-polls :
        (r : PoolRegistry P)
        → Reachable r
        → IsDistinct r.by_id
          × ((id : Text) (pool : P) (c : Principal)
              → get id r ≡ some pool
              → subscribes (I.topics pool) c ≡ true
              → any (λ q. principal_eq q c) (polled_contracts r) ≡ true)
    unfolding get polled_contracts
    reachable-polls r h =
        let w = reachable-IsWellFormed r h in
        (
          w.distinct,
          λ id pool c found listens.
              rw (polled_iff r.topics c)
                (heard_at id pool c r.topics r.by_id w.heard found listens),
        )
