-- ===== src/Subscriptions/Invariant/Run.antt =====
-- Any sequence of client messages and departures of peers: the store of
-- crates/nostr-pubsub/src/subscriptions.rs stays within its limits, and its snapshot exact.
use nostr_pubsub.Prelude.{
  ◌≤◌, ◌<◌, ◌≡◌, refl, Option, none, some, List, [], ◌∷◌, arith, Option-cases, inl, inr, length,
}
use nostr_pubsub.Prelude.Map.{Text, text_key, get, get-insert}
use nostr_pubsub.Subscriptions.Types.{
  FilterJson, Limits, Subscription, SubscriptionSet, SubscriptionStore, SubscriptionError,
  ClientMessage, subscription_contribution,
}
use nostr_pubsub.Subscriptions.Store.{
  check_limits, admit_peer, or_default, admit_subscription, upsert, remove_peer,
  apply_client_message,
}
use nostr_pubsub.Subscriptions.Invariant.{IsStored}
use nostr_pubsub.Subscriptions.Invariant.Sets.{get-upsert_set}
use nostr_pubsub.Subscriptions.Invariant.Steps.{upserted, earlier_set, admit_subscription-IsStored}

-- What the checks let through.
pub record HasRoom {F : Type 0} (l : Limits) (s : Subscription F) : Type 0 where
  pub peers_pos : 0 < l.max_peers
  pub subscriptions_pos : 0 < l.max_subscriptions_per_peer
  pub filters_le : length s.filters ≤ l.max_filters_per_subscription

pub check_limits_room :
    {F : Type 0} (l : Limits) (s : Subscription F) → check_limits l s ≡ none → HasRoom l s
unfolding check_limits
check_limits_room l s h = record {
  peers_pos = ground arith;
  subscriptions_pos = ground arith;
  filters_le = ground arith;
}

-- The calls that change the store.
pub data StoreCall (F : Type 0) : Type 0 where
  client_message : Text → ClientMessage F → StoreCall F
  peer_gone : Text → StoreCall F

module _ {F : Type 0} ⦃json : FilterJson F⦄ where
  unfoldable pub call : StoreCall F → SubscriptionStore F → SubscriptionStore F
  call (client_message peer message) m = (apply_client_message peer message m).0
  call (peer_gone peer) m = (remove_peer peer m).0

  unfoldable pub run_store : List (StoreCall F) → SubscriptionStore F → SubscriptionStore F
  run_store [] m = m
  run_store (c ∷ cs) m = run_store cs (call c m)

  limits-upsert :
      (peer : Text) (s : Subscription F) (m : SubscriptionStore F)
      → (upsert peer s m).0.limits ≡ m.limits
  unfolding upsert admit_subscription
  limits-upsert peer s m = ground arith

  -- An upsert within the limits keeps the store within them.
  pub upsert-IsStored :
      (peer : Text) (s : Subscription F) (m : SubscriptionStore F)
      → IsStored m
      → IsStored (upsert peer s m).0
  unfolding upsert
  upsert-IsStored peer s m i = elim (Option-cases (check_limits m.limits s)) [
    | inr (x, e) ↦ rw (e, upsert) i
    | inl e ↦ elim (Option-cases (subscription_contribution s)) [
      | inl f ↦ rw (e, f, upsert) i
      | inr (c, f) ↦
          let room = check_limits_room m.limits s e in
          rw (e, f, upsert)
            (admit_subscription-IsStored peer s c m room.peers_pos room.subscriptions_pos i
              (record { own_id = refl; filters_le = room.filters_le; serialises = (c, f) }))
    ]
  ]

  -- If a store within its limits accepts a subscription, the peer's set holds this subscription
  -- under its id afterwards, whatever was evicted.
  pub get-upsert :
      (peer : Text) (s : Subscription F) (m : SubscriptionStore F)
      (evicted : Option (Subscription F))
      → IsStored m
      → (upsert peer s m).1 ≡ inr evicted
      → (set : SubscriptionSet F) × (get peer (upsert peer s m).0.peers ≡ some set)
        × (get s.subscription_id set.subscriptions ≡ some s)
  unfolding upsert admit_subscription
  get-upsert peer s m evicted i h = elim (Option-cases (check_limits m.limits s)) [
    | inr (x, e) ↦ absurd (ground arith)
    | inl e ↦ elim (Option-cases (subscription_contribution s)) [
      | inl f ↦ absurd (ground arith)
      | inr (c, f) ↦
          let room = check_limits_room m.limits s e in
          (
            upserted peer s m,
            rw (e, f, upsert)
                (ground (arith, get-insert peer peer (upserted peer s m) (admit_peer peer m).1)),
            get-upsert_set m.limits s (or_default (get peer (admit_peer peer m).1))
                room.subscriptions_pos
                (earlier_set peer s c m room.peers_pos room.subscriptions_pos i),
          )
    ]
  ]

  -- An upsert that fails leaves the store as it was.
  pub upsert_err :
      (peer : Text) (s : Subscription F) (m : SubscriptionStore F) (x : SubscriptionError)
      → (upsert peer s m).1 ≡ inl x
      → (upsert peer s m).0 ≡ m
  unfolding upsert
  upsert_err peer s m x h = elim (Option-cases (check_limits m.limits s)) [
    | inr (y, e) ↦ rw (e, upsert)
    | inl e ↦ elim (Option-cases (subscription_contribution s)) [
      | inl f ↦ rw (e, f, upsert)
      | inr (c, f) ↦ absurd (ground arith)
    ]
  ]
