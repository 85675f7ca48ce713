-- ===== src/Subscriptions/Invariant/Sets.antt =====
-- The eviction loop, and what the operations on one peer's set preserve.
use nostr_pubsub.Prelude.{
  ℕ, suc, ◌≤◌, ◌<◌, ◌≡◌, refl, ap, subst, false, some, List, [], ◌∷◌, ◌++◌, arith, Bool-cases,
  Option-cases, inl, inr, length, leb,
}
use nostr_pubsub.Prelude.Map.{
  eqb, Text, text_key, Map, get, contains, insert, remove, get-insert, get-remove,
}
use nostr_pubsub.Prelude.Map.Size.{length-insert, length-remove}
use nostr_pubsub.Prelude.Map.Queue.{
  drop_key, Synced, Synced-pop, Synced-touch, Synced-drop, Synced-nil, Synced-empty, elem-append,
}
use nostr_pubsub.Subscriptions.Types.{FilterJson, Limits, Subscription, SubscriptionSet, empty_set}
use nostr_pubsub.Subscriptions.Sets.{drop_oldest, upsert_set, remove_from_set}
use nostr_pubsub.Subscriptions.Invariant.{IsAccepted, IsKept}

module _ {κ} {V : Type κ} where
  -- The front of a synced queue is held.
  front_held :
      (k : Text) (q : List Text) (m : Map Text V) → Synced (k ∷ q) m → (v : V) × (get k m ≡ some v)
  front_held k q m s = elim (Option-cases (get k m)) [
    | inl e ↦ absurd (ground (arith, s.same k))
    | inr (v, e) ↦ (v, e)
  ]

  -- On a queue in step, one entry goes at most, and there is room again.
  drop_oldest-Synced :
      (limit : ℕ) (q : List Text) (m : Map Text V)
      → 0 < limit
      → length m ≤ limit
      → Synced q m
      → Synced (drop_oldest limit q m).0 (drop_oldest limit q m).1
        × (length (drop_oldest limit q m).1 < limit)
  unfolding drop_oldest
  drop_oldest-Synced limit [] m h le s = ground (arith, Synced-nil m s)
  drop_oldest-Synced limit (k ∷ q) m h le s = elim (Bool-cases (leb limit (length m))) [
    | inr room ↦ rw (room, drop_oldest) (s, ground arith)
    | inl full ↦
        let (v, e) = front_held k q m s in
        rw (full, e, drop_oldest) (Synced-pop k s, ground (arith, length-remove k m s.distinct))
  ]

  -- So it does with a key at the end that the map does not hold yet.
  pub drop_oldest_touched :
      (limit : ℕ) (q : List Text) (m : Map Text V) (new : Text)
      → 0 < limit
      → length m ≤ limit
      → Synced q m
      → (rest : List Text) × ((drop_oldest limit (q ++ new ∷ []) m).0 ≡ rest ++ new ∷ [])
        × Synced rest (drop_oldest limit (q ++ new ∷ []) m).1
        × (length (drop_oldest limit (q ++ new ∷ []) m).1 < limit)
  unfolding drop_oldest
  drop_oldest_touched limit [] m new h le s =
      let nothing = Synced-nil m s in
      let room : leb limit (length m) ≡ false = ground (arith, ap length nothing) in
      (
        [],
        rw (room, drop_oldest) refl,
        rw (room, drop_oldest) s,
        rw (room, drop_oldest) (ground arith),
      )
  drop_oldest_touched limit (k ∷ q) m new h le s = elim (Bool-cases (leb limit (length m))) [
    | inr room ↦ (k ∷ q, rw (room, drop_oldest) refl, rw (room, drop_oldest) s, ground arith)
    | inl full ↦
        let (v, e) = front_held k q m s in
        (
          q,
          rw (full, e, drop_oldest) refl,
          rw (full, e, drop_oldest) (Synced-pop k s),
          rw (full, e, drop_oldest) (ground (arith, length-remove k m s.distinct)),
        )
  ]

  -- What the loop keeps was there.
  pub get-drop_oldest :
      (limit : ℕ) (q : List Text) (m : Map Text V) (j : Text) (v : V)
      → get j (drop_oldest limit q m).1 ≡ some v
      → get j m ≡ some v
  unfolding drop_oldest
  get-drop_oldest limit [] m j v h = h
  get-drop_oldest limit (k ∷ q) m j v h = elim (Bool-cases (leb limit (length m))) [
    | inr room ↦ rw (room, drop_oldest) at h
    | inl full ↦ elim (Option-cases (get k m)) [
      | inl e ↦ get-drop_oldest limit q m j v (rw (full, e, drop_oldest) at h)
      | inr (w, e) ↦
          let h' : get j (remove k m) ≡ some v = rw (full, e, drop_oldest) at h in
          ground (arith, get-remove j k m)
    ]
  ]

  pub drop_oldest_absent :
      (limit : ℕ) (q : List Text) (m : Map Text V) (j : Text)
      → contains j m ≡ false
      → contains j (drop_oldest limit q m).1 ≡ false
  drop_oldest_absent limit q m j h = elim (Option-cases (get j (drop_oldest limit q m).1)) [
    | inl e ↦ rw e
    | inr (v, e) ↦ ground (arith, get-drop_oldest limit q m j v e)
  ]

  -- The newest key stays.
  drop_oldest_newest :
      (limit : ℕ) (q : List Text) (m : Map Text V) (new : Text) (v : V)
      → 1 < limit
      → Synced (q ++ new ∷ []) m
      → get new m ≡ some v
      → get new (drop_oldest limit (q ++ new ∷ []) m).1 ≡ some v
  unfolding drop_oldest
  drop_oldest_newest limit [] m new v h s e =
      let nothing = ap length (Synced-nil (remove new m) (Synced-pop new s)) in
      let room : leb limit (length m) ≡ false =
        ground (arith, nothing, length-remove new m s.distinct) in
      rw (room, drop_oldest) e
  drop_oldest_newest limit (k ∷ q) m new v h s e = elim (Bool-cases (leb limit (length m))) [
    | inr room ↦ rw (room, drop_oldest) e
    | inl full ↦
        let (w, f) = front_held k (q ++ new ∷ []) m s in
        rw (full, f, drop_oldest)
          (ground (arith, get-remove new k m, elem-append k new q, s.once.0))
  ]

  held_of_get : (k : Text) (v : V) (m : Map Text V) → get k m ≡ some v → 0 < length m
  unfolding get
  held_of_get k v [] h = absurd (ground arith)
  held_of_get k v ((j, w) ∷ m) h = omega arith

module _ {F : Type 0} ⦃json : FilterJson F⦄ (l : Limits) where
  -- A set within the limits, which may be empty.
  pub record IsSubscriptionSet (set : SubscriptionSet F) : Type 0 where
    pub synced : Synced set.order set.subscriptions
    pub within : length set.subscriptions ≤ l.max_subscriptions_per_peer
    pub each :
        (id : Text) (s : Subscription F) → get id set.subscriptions ≡ some s → IsAccepted l id s

  pub IsKept→IsSubscriptionSet : (set : SubscriptionSet F) → IsKept l set → IsSubscriptionSet set
  IsKept→IsSubscriptionSet set k = record { synced = k.synced; within = k.within; each = k.each }

  pub empty_set-IsSubscriptionSet : IsSubscriptionSet empty_set
  unfolding get
  empty_set-IsSubscriptionSet = record {
    synced = Synced-empty;
    within = omega arith;
    each = λ id s e. absurd (ground arith);
  }

  -- The set after the upsert holds the new subscription.
  pub get-upsert_set :
      (s : Subscription F) (set : SubscriptionSet F)
      → 0 < l.max_subscriptions_per_peer
      → IsSubscriptionSet set
      → get s.subscription_id (upsert_set s l set).0.subscriptions ≡ some s
  unfolding upsert_set
  get-upsert_set s set h i =
      let id = s.subscription_id in
      let more = insert id s set.subscriptions in
      elim (Option-cases (get id set.subscriptions)) [
        | inr (old, e) ↦ rw (e, upsert_set) (ground (arith, get-insert id id s set.subscriptions))
        | inl e ↦
            rw (e, upsert_set)
              (drop_oldest_newest (suc l.max_subscriptions_per_peer) (drop_key id set.order) more id
                s (omega arith) (Synced-touch id s i.synced)
                (ground (arith, get-insert id id s set.subscriptions)))
      ]

  insert-IsAccepted :
      (s : Subscription F) (set : SubscriptionSet F)
      → IsAccepted l s.subscription_id s
      → IsSubscriptionSet set
      → (id : Text) (t : Subscription F)
      → get id (insert s.subscription_id s set.subscriptions) ≡ some t
      → IsAccepted l id t
  insert-IsAccepted s set a i id t e = elim (Bool-cases (eqb id s.subscription_id)) [
    | inl same ↦
        let here : s ≡ t = ground (arith, get-insert id s.subscription_id s set.subscriptions) in
        let name : s.subscription_id ≡ id = ground arith in
        subst (λ j. IsAccepted l j t) name (subst (IsAccepted l s.subscription_id) here a)
    | inr other ↦ i.each id t (ground (arith, get-insert id s.subscription_id s set.subscriptions))
  ]

  -- The upsert keeps the set within the limits.
  pub upsert_set-IsKept :
      (s : Subscription F) (set : SubscriptionSet F)
      → 0 < l.max_subscriptions_per_peer
      → IsAccepted l s.subscription_id s
      → IsSubscriptionSet set
      → IsKept l (upsert_set s l set).0
  unfolding upsert_set
  upsert_set-IsKept s set h a i =
      let id = s.subscription_id in
      let more = insert id s set.subscriptions in
      let size = length-insert id s set.subscriptions in
      let held = held_of_get id s (upsert_set s l set).0.subscriptions (get-upsert_set s set h i) in
      elim (Option-cases (get id set.subscriptions)) [
        | inr (old, e) ↦
            rw (e, upsert_set)
              (record {
                synced = Synced-touch id s i.synced;
                held = ground (arith, size, held_of_get id old set.subscriptions e);
                within = ground (arith, size, i.within);
                each = insert-IsAccepted s set a i;
              })
        | inl e ↦
            let limit = suc l.max_subscriptions_per_peer in
            let order = drop_key id set.order ++ id ∷ [] in
            let (synced, room) =
              drop_oldest-Synced limit order more (omega arith) (ground (arith, size, i.within))
                (Synced-touch id s i.synced) in
            rw (e, upsert_set)
              (record {
                synced = synced;
                held = rw (e, upsert_set) at held;
                within = omega (arith, room);
                each = λ j t f.
                    insert-IsAccepted s set a i j t (get-drop_oldest limit order more j t f);
              })
      ]

  pub remove_from_set-IsSubscriptionSet :
      (id : Text) (set : SubscriptionSet F)
      → IsSubscriptionSet set
      → IsSubscriptionSet (remove_from_set id set).0
  unfolding remove_from_set
  remove_from_set-IsSubscriptionSet id set i = record {
    synced = Synced-drop id i.synced;
    within = ground (arith, length-remove id set.subscriptions i.synced.distinct, i.within);
    each = λ j t e. i.each j t (ground (arith, get-remove j id set.subscriptions));
  }
