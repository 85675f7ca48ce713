-- ===== src/Subscriptions/Invariant/Removals.antt =====
-- What leaves the store of crates/nostr-pubsub/src/subscriptions.rs: the invariant and the snapshot.
use nostr_pubsub.Prelude.{
  ◌≤◌, ◌<◌, ◌≡◌, refl, subst, true, false, Option, none, some, List, [], ◌∷◌, arith, Bool-cases,
  Option-cases, inl, inr, length, if_both,
}
use nostr_pubsub.Prelude.Map.{
  eqb, Text, text_key, Map, get, contains, insert, remove, Distinct, get-insert, get-remove,
}
use nostr_pubsub.Prelude.Map.Size.{
  length-insert, length-remove, total-insert, total-remove, weight-le-total,
}
use nostr_pubsub.Prelude.Map.Queue.{Synced, Synced-set, Synced-drop}
use nostr_pubsub.Subscriptions.Types.{
  FilterJson, Snapshot, subtract_retained, Limits, Subscription, SubscriptionSet, SubscriptionStore,
  subtract_all, subtract_removed,
}
use nostr_pubsub.Subscriptions.Sets.{remove_from_set, is_empty}
use nostr_pubsub.Subscriptions.Store.{
  removed_subscriptions, remove_peer, drop_if_empty, remove_subscription,
}
use nostr_pubsub.Subscriptions.Accounts.{
  read-peer_count, cost, read-subtract_all, read-subtract_removed, set_total, sum_by-gone,
}
use nostr_pubsub.Subscriptions.Invariant.{IsKept, IsStored, IsExact}
use nostr_pubsub.Subscriptions.Invariant.Sets.{
  IsSubscriptionSet, IsKept→IsSubscriptionSet, remove_from_set-IsSubscriptionSet,
}

module _ {V : Type 0} where
  absent_ne :
      (p peer : Text) (m : Map Text V) (v : V)
      → get peer m ≡ none
      → get p m ≡ some v
      → eqb p peer ≡ false
  absent_ne p peer m v h e = ground arith

  at_same :
      (p peer : Text) (m : Map Text V) (v w : V)
      → eqb p peer ≡ true
      → get peer m ≡ some v
      → get p m ≡ some w
      → v ≡ w
  at_same p peer m v w same e f = ground arith

length_pos :
    {A : Type 0} (xs : List A) → (elim xs [ [] ↦ true | _ ∷ _ ↦ false ]) ≡ false → 0 < length xs
length_pos [] h = absurd (ground arith)
length_pos (x ∷ xs) h = omega arith

held_of_is_empty :
    {F : Type 0} (set : SubscriptionSet F) → is_empty set ≡ false → 0 < length set.subscriptions
held_of_is_empty set h = length_pos set.subscriptions h

module _ {F : Type 0} ⦃json : FilterJson F⦄ where
  peer_count-subtract_removed :
      (s : Option (Subscription F)) (r : Snapshot)
      → (subtract_removed s r).peer_count ≡ r.peer_count
  unfolding subtract_removed subtract_retained
  peer_count-subtract_removed none r = refl
  peer_count-subtract_removed (some s) r = refl

module _ {F : Type 0} ⦃json : FilterJson F⦄ where
  pub remove_peer-IsExact :
      (peer : Text) (m : SubscriptionStore F)
      → Distinct m.peers
      → IsExact m
      → IsExact (remove_peer peer m).0
  unfolding remove_peer
  remove_peer-IsExact peer m d x =
      let gone = removed_subscriptions (get peer m.peers) in
      record {
        peers_eq = refl;
        measures_eq = λ n. omega (
          arith,
          x.measures_eq n,
          read-peer_count n (length (remove peer m.peers)) (subtract_all gone m.retained),
          read-subtract_all n gone m.retained,
          sum_by-gone (cost n) peer m.peers d,
        );
      }

  -- The store while the set of one peer may be empty.
  pub record IsAlmost (peer : Text) (m : SubscriptionStore F) : Type 0 where
    pub synced : Synced m.peer_order m.peers
    pub within : length m.peers ≤ m.limits.max_peers
    pub others :
        (p : Text) (set : SubscriptionSet F)
        → eqb p peer ≡ false
        → get p m.peers ≡ some set
        → IsKept m.limits set
    pub own :
        (set : SubscriptionSet F) → get peer m.peers ≡ some set → IsSubscriptionSet m.limits set

  IsStored→IsAlmost : (peer : Text) (m : SubscriptionStore F) → IsStored m → IsAlmost peer m
  IsStored→IsAlmost peer m i = record {
    synced = i.synced;
    within = i.within;
    others = λ p set d e. i.each p set e;
    own = λ set e. IsKept→IsSubscriptionSet m.limits set (i.each peer set e);
  }

  remove_almost-IsStored :
      (peer : Text) (m : SubscriptionStore F) → IsAlmost peer m → IsStored (remove_peer peer m).0
  unfolding remove_peer
  remove_almost-IsStored peer m i = record {
    synced = Synced-drop peer i.synced;
    within = ground (arith, length-remove peer m.peers i.synced.distinct, i.within);
    each = λ p set e.
        i.others p set (ground (arith, get-remove p peer m.peers))
          (ground (arith, get-remove p peer m.peers));
  }

  is_empty-IsKept :
      (l : Limits) (set : SubscriptionSet F)
      → IsSubscriptionSet l set
      → is_empty set ≡ false
      → IsKept l set
  is_empty-IsKept l set i h = record {
    synced = i.synced;
    held = held_of_is_empty set h;
    within = i.within;
    each = i.each;
  }

  drop_if_empty-IsStored :
      (peer : Text) (m : SubscriptionStore F) → IsAlmost peer m → IsStored (drop_if_empty peer m)
  unfolding drop_if_empty
  drop_if_empty-IsStored peer m i = elim (Option-cases (get peer m.peers)) [
    | inl e ↦
        rw (e, drop_if_empty)
          (record {
            synced = i.synced;
            within = i.within;
            each = λ p set f. i.others p set (absent_ne p peer m.peers set e f) f;
          })
    | inr (set, e) ↦ elim (Bool-cases (is_empty set)) [
      | inl empty ↦ rw (e, empty, drop_if_empty) (remove_almost-IsStored peer m i)
      | inr full ↦
          rw (e, full, drop_if_empty)
            (record {
              synced = i.synced;
              within = i.within;
              each = λ p x f. elim (Bool-cases (eqb p peer)) [
                | inr d ↦ i.others p x d f
                | inl same ↦
                    let here : set ≡ x = at_same p peer m.peers set x same e f in
                    subst (IsKept m.limits) here (is_empty-IsKept m.limits set (i.own set e) full)
              ];
            })
    ]
  ]

  drop_if_empty-IsExact :
      (peer : Text) (m : SubscriptionStore F)
      → Distinct m.peers
      → IsExact m
      → IsExact (drop_if_empty peer m)
  unfolding drop_if_empty
  drop_if_empty-IsExact peer m d x = elim (Option-cases (get peer m.peers)) [
    | inl e ↦ rw (e, drop_if_empty) x
    | inr (set, e) ↦
        rw (e, drop_if_empty)
          (if_both IsExact (is_empty set) (λ f. remove_peer-IsExact peer m d x) (λ f. x))
  ]

  -- The store after a subscription left its set, before an empty set goes.
  abbrev pub lessened : Text → Text → SubscriptionSet F → SubscriptionStore F → SubscriptionStore F
  lessened peer id set m =
      let (set', removed) = remove_from_set id set in
      record m { peers = insert peer set' m.peers; retained = subtract_removed removed m.retained }

  pub lessened-IsAlmost :
      (peer id : Text) (set : SubscriptionSet F) (m : SubscriptionStore F)
      → get peer m.peers ≡ some set
      → IsStored m
      → IsAlmost peer (lessened peer id set m)
  lessened-IsAlmost peer id set m e i =
      let set' = (remove_from_set id set).0 in
      let known : contains peer m.peers ≡ true = rw e in
      record {
        synced = Synced-set peer set' known i.synced;
        within = ground (arith, length-insert peer set' m.peers, i.within);
        others = λ p x d f. i.each p x (ground (arith, get-insert p peer set' m.peers));
        own = λ x f.
            let here : set' ≡ x = ground (arith, get-insert peer peer set' m.peers) in
            subst (IsSubscriptionSet m.limits) here (
              remove_from_set-IsSubscriptionSet m.limits id set
                (IsKept→IsSubscriptionSet m.limits set (i.each peer set e)));
      }

  lessened-IsExact :
      (peer id : Text) (set : SubscriptionSet F) (m : SubscriptionStore F)
      → get peer m.peers ≡ some set
      → IsStored m
      → IsExact m
      → IsExact (lessened peer id set m)
  unfolding remove_from_set
  lessened-IsExact peer id set m e i x =
      let (set', removed) = remove_from_set id set in
      record {
        peers_eq = ground (
          arith,
          x.peers_eq,
          peer_count-subtract_removed removed m.retained,
          length-insert peer set' m.peers,
          e,
        );
        measures_eq = λ n. ground (
          arith,
          x.measures_eq n,
          read-subtract_removed n removed m.retained,
          total-insert (set_total (cost n)) peer set' m.peers,
          total-remove (cost n) id set.subscriptions (i.each peer set e).synced.distinct,
          weight-le-total (set_total (cost n)) peer m.peers,
          e,
        );
      }

  pub remove_subscription-IsStored :
      (peer id : Text) (m : SubscriptionStore F)
      → IsStored m
      → IsStored (remove_subscription peer id m).0
  unfolding remove_subscription
  remove_subscription-IsStored peer id m i = elim (Option-cases (get peer m.peers)) [
    | inl e ↦ rw (e, remove_subscription) i
    | inr (set, e) ↦
        rw (e, remove_subscription)
          (drop_if_empty-IsStored peer (lessened peer id set m)
            (lessened-IsAlmost peer id set m e i))
  ]

  pub remove_subscription-IsExact :
      (peer id : Text) (m : SubscriptionStore F)
      → IsStored m
      → IsExact m
      → IsExact (remove_subscription peer id m).0
  unfolding remove_subscription
  remove_subscription-IsExact peer id m i x = elim (Option-cases (get peer m.peers)) [
    | inl e ↦ rw (e, remove_subscription) x
    | inr (set, e) ↦
        rw (e, remove_subscription)
          (drop_if_empty-IsExact peer (lessened peer id set m)
            (lessened-IsAlmost peer id set m e i).synced.distinct
            (lessened-IsExact peer id set m e i x))
  ]

  pub remove_peer-IsStored :
      (peer : Text) (m : SubscriptionStore F) → IsStored m → IsStored (remove_peer peer m).0
  remove_peer-IsStored peer m i = remove_almost-IsStored peer m (IsStored→IsAlmost peer m i)
