-- ===== src/Subscriptions/Store.antt =====
-- `PubsubPeerSubscriptionStore` of crates/nostr-pubsub/src/subscriptions.rs: the operations that
-- change the store.
use nostr_pubsub.Prelude.{
  ◌==◌, Option, none, some, List, [], ◌∷◌, ◌++◌, ◌⊎◌, inl, inr, map, length, ltb, if◌then◌else◌,
}
use nostr_pubsub.Prelude.Map.{Text, text_key, Map, get, contains, insert, remove}
use nostr_pubsub.Prelude.Map.Queue.{drop_key}
use nostr_pubsub.Subscriptions.Types.{
  FilterJson, Limits, Subscription, SubscriptionSet, empty_set, SubscriptionStore, Contribution,
  SubscriptionError, zero_max_peers, zero_max_subscriptions, unencodable, too_many_filters,
  ClientMessage, req, close, other, SubscriptionUpdate, subscribed, closed, ignored,
  subscription_contribution, subtract_all, subtract_removed, add_retained,
}
use nostr_pubsub.Subscriptions.Sets.{drop_oldest, upsert_set, remove_from_set, is_empty}

-- The checks at the head of `upsert`, in the source's order.
unfoldable pub check_limits : {F : Type 0} → Limits → Subscription F → Option SubscriptionError
check_limits l s =
    if l.max_peers == 0
    then some zero_max_peers
    else (if l.max_subscriptions_per_peer == 0
        then some zero_max_subscriptions
        else (if ltb l.max_filters_per_subscription (length s.filters)
            then some (
                too_many_filters s.subscription_id (length s.filters)
                  l.max_filters_per_subscription)
            else none))

abbrev pub values : {V : Type 0} → Map Text V → List V
values m = map (λ p. p.1) m

abbrev touch_peer : Text → List Text → List Text
touch_peer peer q = drop_key peer q ++ peer ∷ []

abbrev pub or_default : {F : Type 0} → Option (SubscriptionSet F) → SubscriptionSet F
or_default none = empty_set
or_default (some set) = set

abbrev pub removed_subscriptions : {F : Type 0} → Option (SubscriptionSet F) → List (Subscription F)
removed_subscriptions none = []
removed_subscriptions (some set) = values set.subscriptions

-- `touch_peer`, and `evict_peers_over_limit` for a new peer, with the set of the evicted peer.
unfoldable pub admit_peer :
    {F : Type 0}
    → Text
    → SubscriptionStore F
    → List Text × Map Text (SubscriptionSet F) × Option (SubscriptionSet F)
admit_peer peer m =
    let order = touch_peer peer m.peer_order in
    if contains peer m.peers
    then (order, m.peers, none)
    else drop_oldest m.limits.max_peers order m.peers

module _ {F : Type 0} ⦃json : FilterJson F⦄ where
  -- The rest of `upsert`, once the subscription is accepted.
  unfoldable pub admit_subscription :
      Text
      → Subscription F
      → Contribution
      → SubscriptionStore F
      → SubscriptionStore F × Option (Subscription F)
  admit_subscription peer s added m =
      let (order, peers, evicted_peer) = admit_peer peer m in
      let (set, replaced, evicted) = upsert_set s m.limits (or_default (get peer peers)) in
      let peers' = insert peer set peers in
      let less = subtract_removed evicted (
        subtract_removed replaced (subtract_all (removed_subscriptions evicted_peer) m.retained)) in
      (
        record m {
          peers = peers';
          peer_order = order;
          retained = record (add_retained added less) { peer_count = length peers' };
        },
        evicted,
      )

  unfoldable pub upsert :
      Text
      → Subscription F
      → SubscriptionStore F
      → SubscriptionStore F × (SubscriptionError ⊎ Option (Subscription F))
  upsert peer s m = elim (check_limits m.limits s) [
    | some x ↦ (m, inl x)
    | none ↦ elim (subscription_contribution s) [
      | none ↦ (m, inl unencodable)
      | some added ↦ let (m', evicted) = admit_subscription peer s added m in (m', inr evicted)
    ]
  ]

  unfoldable pub remove_peer :
      Text → SubscriptionStore F → SubscriptionStore F × List (Subscription F)
  remove_peer peer m =
      let gone = removed_subscriptions (get peer m.peers) in
      let peers = remove peer m.peers in
      (
        record m {
          peers = peers;
          peer_order = drop_key peer m.peer_order;
          retained = record (subtract_all gone m.retained) { peer_count = length peers };
        },
        gone,
      )

  -- The end of `remove`: a peer without subscriptions goes.
  unfoldable pub drop_if_empty : Text → SubscriptionStore F → SubscriptionStore F
  drop_if_empty peer m = elim (get peer m.peers) [
    | none ↦ m
    | some set ↦ if is_empty set then (remove_peer peer m).0 else m
  ]

  unfoldable pub remove_subscription :
      Text → Text → SubscriptionStore F → SubscriptionStore F × Option (Subscription F)
  remove_subscription peer id m = elim (get peer m.peers) [
    | none ↦ (m, none)
    | some set ↦
        let (set', removed) = remove_from_set id set in
        (
          drop_if_empty peer (record m {
            peers = insert peer set' m.peers;
            retained = subtract_removed removed m.retained;
          }),
          removed,
        )
  ]

  unfoldable pub apply_client_message :
      Text
      → ClientMessage F
      → SubscriptionStore F
      → SubscriptionStore F × (SubscriptionError ⊎ SubscriptionUpdate)
  apply_client_message peer (req id filters) m =
      let (m', result) = upsert peer (record { subscription_id = id; filters = filters }) m in
      (m', elim result [ inl x ↦ inl x | inr _ ↦ inr subscribed ])
  apply_client_message peer (close id) m = ((remove_subscription peer id m).0, inr closed)
  apply_client_message peer other m = (m, inr ignored)
