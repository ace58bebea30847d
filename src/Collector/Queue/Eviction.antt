-- ===== src/Collector/Queue/Eviction.antt =====
-- The set of seen keys at its cap: its size stays bounded, and what it forgets is delivered again.
use stacks_dex_pool.Prelude.{
  ℕ, zero, suc, ◌-◌, ◌/◌, ◌≤◌, ◌<◌, Bool, true, false, List, [], ◌∷◌, ◌++◌, any, length, drop, ◌≡◌,
  refl, ◌∙◌, arith, inl, inr, Bool-cases, leb, le→leb,
}
use stacks_dex_pool.Pool.Event.{StacksEvent}
use stacks_dex_pool.Collector.Queue.{
  Key, key_of, key_eq, EventSender, make_room, send_dedup, build_queue,
}

length-drop : {A : Type 0} (n : ℕ) (xs : List A) → length (drop n xs) ≡ length xs - n
length-drop zero xs = omega arith
length-drop (suc n) [] = omega arith
length-drop (suc n) (x ∷ xs) = omega (arith, length-drop n xs)

any-drop :
    {A : Type 0} (p : A → Bool) (n : ℕ) (xs : List A) → any p xs ≡ false → any p (drop n xs) ≡ false
any-drop p zero xs h = h
any-drop p (suc n) [] h = refl
any-drop p (suc n) (x ∷ xs) h = any-drop p n xs (ground arith)

any-drop_head :
    {A : Type 0} (p : A → Bool) (n : ℕ) (x : A) (xs : List A)
    → 0 < n
    → any p xs ≡ false
    → any p (drop n (x ∷ xs)) ≡ false
any-drop_head p zero x xs h k = absurd (omega arith)
any-drop_head p (suc n) x xs h k = any-drop p n xs k

-- What is said of the order of a set: it lists as many keys as there are.
abbrev pub KeepsLength : (List Key → List Key) → Type 0
KeepsLength order = (keys : List Key) → length (order keys) ≡ length keys

module _ (order : List Key → List Key) where
  -- The seen keys never outgrow the cap that `build_queue` sets, whatever is sent.
  pub send_dedup_bounded :
      (sender : EventSender) (event : StacksEvent) (capacity : ℕ)
      → KeepsLength order
      → sender.seen_cap ≡ (build_queue capacity).seen_cap
      → length sender.seen ≤ sender.seen_cap
      → length (send_dedup order sender event).0.seen ≤ (send_dedup order sender event).0.seen_cap
  unfolding send_dedup make_room build_queue
  send_dedup_bounded sender event capacity keeps cap bounded =
      elim (Bool-cases (any (key_eq (key_of event)) sender.seen)) [
        | inl old ↦ rw old bounded
        | inr new ↦ elim (Bool-cases (leb sender.seen_cap (length sender.seen))) [
          | inl full ↦
              rw
                (
                  new,
                  full,
                  length-drop (sender.seen_cap / 2) (order sender.seen),
                  keeps sender.seen,
                )
                (omega arith)
          | inr room ↦ rw (new, room) (ground arith)
        ]
      ]

  passes :
      (sender : EventSender) (event : StacksEvent)
      → any (key_eq (key_of event)) sender.seen ≡ false
      → (send_dedup order sender event).1 ≡ sender.is_open
  unfolding send_dedup
  passes sender event new = rw new refl

  send_dedup-full :
      (sender : EventSender) (event : StacksEvent) (listed : List Key)
      → sender.is_open ≡ true
      → sender.seen_cap ≤ length sender.seen
      → order sender.seen ≡ listed
      → any (key_eq (key_of event)) sender.seen ≡ false
      → send_dedup order sender event ≡ (
        record sender {
          seen = key_of event ∷ drop (sender.seen_cap / 2) listed;
          sent = sender.sent ++ (event ∷ []);
        },
        true,
      )
  unfolding send_dedup make_room
  send_dedup-full sender event listed opened full eq new =
      rw (new, opened, le→leb sender.seen_cap (length sender.seen) full, eq) refl

  -- At the cap, the set forgets the key that its order lists first: once another event has been
  -- sent, the event of that key passes the queue a second time.
  pub send_dedup_again :
      (sender : EventSender) (old event : StacksEvent) (rest : List Key)
      → sender.is_open ≡ true
      → 2 ≤ sender.seen_cap
      → sender.seen_cap ≤ length sender.seen
      → order sender.seen ≡ key_of old ∷ rest
      → any (key_eq (key_of old)) rest ≡ false
      → any (key_eq (key_of event)) sender.seen ≡ false
      → key_eq (key_of old) (key_of event) ≡ false
      → let (after, passed) = send_dedup order sender event in
        (passed ≡ true) × ((send_dedup order after old).1 ≡ true)
  send_dedup_again sender old event rest opened cap full listed absent new other =
      let kept = drop (sender.seen_cap / 2) (key_of old ∷ rest) in
      let after = record sender {
        seen = key_of event ∷ kept;
        sent = sender.sent ++ (event ∷ []);
      } in
      let sends : send_dedup order sender event ≡ (after, true) =
        send_dedup-full sender event (key_of old ∷ rest) opened full listed new in
      let gone =
        any-drop_head (key_eq (key_of old)) (sender.seen_cap / 2) (key_of old) rest (omega arith)
          absent in
      let unseen : any (key_eq (key_of old)) after.seen ≡ false = ground arith in
      rw sends (refl, passes after old unseen ∙ opened)
