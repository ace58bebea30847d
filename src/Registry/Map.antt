-- ===== src/Registry/Map.antt =====
-- Lookups, ids and polled contracts of a registry that is built by its operations.
use stacks_dex_pool.Prelude.{true, ◌||◌, some, List, [], ◌∷◌, any, ◌≡◌, ◌≢◌, refl, arith}
use stacks_dex_pool.Prelude.Text.{Text, text_eq, text_eq_refl, eq_of_text_eq}
use stacks_dex_pool.AssocList.Laws.{get-insert_self, get-insert_ne}
use stacks_dex_pool.Pool.Principal.{Principal, principal_eq, principal_eq_refl, eq_of_principal_eq}
use stacks_dex_pool.Pool.Event.{StacksTopic}
use stacks_dex_pool.Registry.{
  PoolInterface, PoolRegistry, topic_eq, add_topic, add_topics, distinct_contracts, subscribes, get,
  insert,
}

module _ {P : Type 0} (I : PoolInterface P) (pool : P) (registry : PoolRegistry P) where
  -- A pool is found under its id after it is inserted, and every other id reads as before.
  insert-get :
      (get (I.id pool) (insert I pool registry) ≡ some pool)
      × ((id : Text) → id ≢ I.id pool → get id (insert I pool registry) ≡ get id registry)
  unfolding get insert
  insert-get = (
    get-insert_self text_eq text_eq_refl eq_of_text_eq (I.id pool) pool registry.by_id,
    λ id ne. get-insert_ne text_eq text_eq_refl eq_of_text_eq id (I.id pool) pool registry.by_id ne,
  )

any_principal :
    (a c : Principal) (l : List Principal)
    → any (principal_eq a) l ≡ true
    → principal_eq a c ≡ true
    → any (λ q. principal_eq q c) l ≡ true
any_principal a c [] h k = cc
any_principal a c (q ∷ l) h k = ground (
  arith,
  any_principal a c l,
  eq_of_principal_eq a c k,
  eq_of_principal_eq a q,
  principal_eq_refl c,
)

-- The contracts to poll are those that some topic is about.
pub polled_iff :
    (ts : List StacksTopic) (c : Principal)
    → any (λ q. principal_eq q c) (distinct_contracts ts) ≡ subscribes ts c
unfolding distinct_contracts subscribes
polled_iff [] c = refl
polled_iff (t ∷ ts) c =
    ground (arith, polled_iff ts c, any_principal t.contract c (distinct_contracts ts))

any_topic :
    (t : StacksTopic) (c : Principal) (ts : List StacksTopic)
    → any (topic_eq t) ts ≡ true
    → principal_eq t.contract c ≡ true
    → subscribes ts c ≡ true
unfolding subscribes topic_eq
any_topic t c [] h k = cc
any_topic t c (q ∷ ts) h k = ground (
  arith,
  any_topic t c ts,
  eq_of_principal_eq t.contract c k,
  eq_of_principal_eq t.contract q.contract,
  principal_eq_refl c,
)

pub subscribes-add_topics :
    (more ts : List StacksTopic) (c : Principal)
    → subscribes (add_topics more ts) c ≡ (subscribes more c || subscribes ts c)
unfolding subscribes add_topics add_topic
subscribes-add_topics [] ts c = refl
subscribes-add_topics (t ∷ more) ts c =
    ground (arith, subscribes-add_topics more (add_topic t ts) c, any_topic t c ts)
