-- ===== src/Subscriptions/Invariant/Steps.antt =====
-- A new subscription of crates/nostr-pubsub/src/subscriptions.rs: the invariant and the snapshot.
use nostr_pubsub.Prelude.{
  ◌+◌, ◌≤◌, ◌<◌, ◌≡◌, refl, sym, subst, Option, none, some, List, [], ◌∷◌, ◌++◌, arith, Bool-cases,
  inl, inr, length, u64_max,
}
use nostr_pubsub.Prelude.Map.{eqb, Text, text_key, Map, get, contains, insert, Distinct, get-insert}
use nostr_pubsub.Prelude.Map.Size.{length-insert, total, weight, total-insert, weight-le-total}
use nostr_pubsub.Prelude.Map.Queue.{Synced, Synced-touch, Synced-push, drop_key_absent}
use nostr_pubsub.Subscriptions.Types.{
  FilterJson, Limits, Subscription, SubscriptionSet, SubscriptionStore, Contribution,
  subscription_contribution, subtract_all, subtract_removed, add_retained,
}
use nostr_pubsub.Subscriptions.Sets.{drop_oldest, upsert_set}
use nostr_pubsub.Subscriptions.Store.{
  or_default, removed_subscriptions, admit_peer, admit_subscription,
}
use nostr_pubsub.Subscriptions.Accounts.{
  Measure, read-add_retained, read-peer_count, cost, cost_eq, read-subtract_all,
  read-subtract_removed, set_total, store_total, total-upsert_set, total-admit_peer,
  set_total-or_default,
}
use nostr_pubsub.Subscriptions.Invariant.{IsAccepted, IsKept, IsStored, IsExact}
use nostr_pubsub.Subscriptions.Invariant.Sets.{
  IsSubscriptionSet, IsKept→IsSubscriptionSet, empty_set-IsSubscriptionSet, get-upsert_set,
  upsert_set-IsKept, drop_oldest_touched, drop_oldest_absent, get-drop_oldest,
}

module _ {F : Type 0} ⦃json : FilterJson F⦄ where
  -- A store to whose sets a predicate applies, with the peer at the end of the queue and room for it.
  record IsAdmitted (peer : Text) (m : SubscriptionStore F) (order : List Text)
      (peers : Map Text (SubscriptionSet F)) : Type 0 where
    pub synced : (set : SubscriptionSet F) → Synced order (insert peer set peers)
    pub within : (set : SubscriptionSet F) → length (insert peer set peers) ≤ m.limits.max_peers
    pub distinct : Distinct peers
    pub each : (p : Text) (set : SubscriptionSet F) → get p peers ≡ some set → IsKept m.limits set

  admit_peer-IsAdmitted :
      (peer : Text) (m : SubscriptionStore F)
      → 0 < m.limits.max_peers
      → IsStored m
      → IsAdmitted peer m (admit_peer peer m).0 (admit_peer peer m).1
  unfolding admit_peer
  admit_peer-IsAdmitted peer m h i = elim (Bool-cases (contains peer m.peers)) [
    | inl old ↦
        rw (old, admit_peer)
          (record {
            synced = λ set. Synced-touch peer set i.synced;
            within = λ set. ground (arith, length-insert peer set m.peers, i.within);
            distinct = i.synced.distinct;
            each = i.each;
          })
    | inr new ↦
        let limit = m.limits.max_peers in
        let absent = drop_key_absent peer m.peer_order (ground (arith, i.synced.same peer, new)) in
        let (q, last, synced, room) =
          drop_oldest_touched limit m.peer_order m.peers peer h i.within i.synced in
        let left = drop_oldest limit (m.peer_order ++ peer ∷ []) m.peers in
        let fresh = drop_oldest_absent limit (m.peer_order ++ peer ∷ []) m.peers peer new in
        rw (new, admit_peer, absent)
          (record {
            synced = λ set.
                subst (λ o. Synced o (insert peer set left.1)) (sym last)
                  (Synced-push peer set fresh synced);
            within = λ set. ground (arith, room, length-insert peer set left.1);
            distinct = synced.distinct;
            each = λ p set e.
                i.each p set (get-drop_oldest limit (m.peer_order ++ peer ∷ []) m.peers p set e);
          })
  ]

  or_default-IsSubscriptionSet :
      (l : Limits) (set : Option (SubscriptionSet F))
      → ((x : SubscriptionSet F) → set ≡ some x → IsKept l x)
      → IsSubscriptionSet l (or_default set)
  or_default-IsSubscriptionSet l none h = empty_set-IsSubscriptionSet l
  or_default-IsSubscriptionSet l (some x) h = IsKept→IsSubscriptionSet l x (h x refl)

  -- The peers after the upsert.
  abbrev pub upserted : Text → Subscription F → SubscriptionStore F → SubscriptionSet F
  upserted peer s m = (upsert_set s m.limits (or_default (get peer (admit_peer peer m).1))).0

  module _ (peer : Text) (s : Subscription F) (c : Contribution) (m : SubscriptionStore F)
      (h : 0 < m.limits.max_peers) (h' : 0 < m.limits.max_subscriptions_per_peer)
      (i : IsStored m) where
    admitted : IsAdmitted peer m (admit_peer peer m).0 (admit_peer peer m).1
    admitted = admit_peer-IsAdmitted peer m h i

    pub earlier_set : IsSubscriptionSet m.limits (or_default (get peer (admit_peer peer m).1))
    earlier_set =
        or_default-IsSubscriptionSet m.limits (get peer (admit_peer peer m).1)
          (λ x e. admitted.each peer x e)

    pub admit_subscription-IsStored :
        IsAccepted m.limits s.subscription_id s → IsStored (admit_subscription peer s c m).0
    unfolding admit_subscription
    admit_subscription-IsStored a =
        let kept =
          upsert_set-IsKept m.limits s (or_default (get peer (admit_peer peer m).1)) h' a
            earlier_set in
        record {
          synced = admitted.synced (upserted peer s m);
          within = admitted.within (upserted peer s m);
          each = λ p set e. elim (Bool-cases (eqb p peer)) [
            | inl same ↦
                let here : upserted peer s m ≡ set =
                  ground (arith, get-insert p peer (upserted peer s m) (admit_peer peer m).1) in
                subst (IsKept m.limits) here kept
            | inr different ↦
                admitted.each p set
                  (ground (arith, get-insert p peer (upserted peer s m) (admit_peer peer m).1))
          ];
        }

    pub admit_subscription-IsExact :
        subscription_contribution s ≡ some c
        → IsExact m
        → ((n : Measure) → store_total (cost n) (admit_subscription peer s c m).0.peers ≤ u64_max)
        → IsExact (admit_subscription peer s c m).0
    unfolding admit_subscription
    admit_subscription-IsExact e x fits =
        let old = or_default (get peer (admit_peer peer m).1) in
        let (set, replaced, evicted) = upsert_set s m.limits old in
        let gone = removed_subscriptions (admit_peer peer m).2 in
        let once = subtract_all gone m.retained in
        let twice = subtract_removed replaced once in
        let less = subtract_removed evicted twice in
        let added = add_retained c less in
        let peers = insert peer set (admit_peer peer m).1 in
        record {
          peers_eq = refl;
          measures_eq = λ n. omega (
            arith,
            fits n,
            x.measures_eq n,
            read-peer_count n (length peers) added,
            read-add_retained n c less,
            read-subtract_removed n evicted twice,
            read-subtract_removed n replaced once,
            read-subtract_all n gone m.retained,
            cost_eq n s c e,
            total-admit_peer (cost n) peer m i.synced.distinct,
            total-insert (set_total (cost n)) peer set (admit_peer peer m).1,
            total-upsert_set (cost n) s m.limits old earlier_set.synced.distinct,
            set_total-or_default (cost n) (get peer (admit_peer peer m).1),
            weight-le-total (set_total (cost n)) peer (admit_peer peer m).1,
            subst (λ o. weight (cost n) o ≤ total (cost n) set.subscriptions)
                (get-upsert_set m.limits s old h' earlier_set)
                (weight-le-total (cost n) s.subscription_id set.subscriptions),
          );
        }

    -- What a subscription adds to the store is no more than its cost.
    pub admit_subscription-store_total-le :
        (n : Measure)
        → store_total (cost n) (admit_subscription peer s c m).0.peers
          ≤ store_total (cost n) m.peers + cost n s
    unfolding admit_subscription
    admit_subscription-store_total-le n =
        let old = or_default (get peer (admit_peer peer m).1) in
        omega (
          arith,
          total-admit_peer (cost n) peer m i.synced.distinct,
          total-insert (set_total (cost n)) peer (upserted peer s m) (admit_peer peer m).1,
          total-upsert_set (cost n) s m.limits old earlier_set.synced.distinct,
          set_total-or_default (cost n) (get peer (admit_peer peer m).1),
          weight-le-total (set_total (cost n)) peer (admit_peer peer m).1,
        )
