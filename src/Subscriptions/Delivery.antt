-- ===== src/Subscriptions/Delivery.antt =====
-- The reads of crates/nostr-pubsub/src/subscriptions.rs: which peers and subscriptions an event
-- matches, and the delivery policy.
pub mod Agreement
use nostr_pubsub.Prelude.{
  ℕ, Bool, true, false, Option, none, some, List, [], ◌∷◌, ◌++◌, map, any, keep, length, sum_by,
  if◌then◌else◌,
}
use nostr_pubsub.Prelude.Map.{Text, text_key, Map, get}
use nostr_pubsub.Subscriptions.Types.{
  FilterMatch, Subscription, SubscriptionSet, SubscriptionStore, subscription_filters_match,
}
use nostr_pubsub.Subscriptions.Store.{values}

pub data DeliveryStrategy : Type 0 where
  push_subscribed inventory_first : DeliveryStrategy

pub data PeerInterest : Type 0 where
  subscribed unsubscribed unknown : PeerInterest

pub data DeliveryAction : Type 0 where
  push_frame announce_inventory skip : DeliveryAction

unfoldable pub action_for_peer : DeliveryStrategy → PeerInterest → DeliveryAction
action_for_peer push_subscribed subscribed = push_frame
action_for_peer inventory_first subscribed = announce_inventory
action_for_peer _ _ = skip

module _ {F E : Type 0} ⦃nostr : FilterMatch F E⦄ where
  abbrev matches : Subscription F → E → Bool
  matches s e = subscription_filters_match s.filters e

  -- Whether one of the peer's subscriptions matches.
  abbrev pub set_matches : SubscriptionSet F → E → Bool
  set_matches set e = any (λ s. matches s e) (values set.subscriptions)

  unfoldable pub peer_interest : Text → E → SubscriptionStore F → PeerInterest
  peer_interest peer e m = elim (get peer m.peers) [
    | none ↦ unknown
    | some set ↦ if set_matches set e then subscribed else unsubscribed
  ]

  unfoldable pub action_for_event :
      DeliveryStrategy → Text → E → SubscriptionStore F → DeliveryAction
  action_for_event strategy peer e m = action_for_peer strategy (peer_interest peer e m)

  unfoldable matching_subscriptions : Text → E → SubscriptionStore F → List (Subscription F)
  matching_subscriptions peer e m = elim (get peer m.peers) [
    | none ↦ []
    | some set ↦ keep (λ s. matches s e) (values set.subscriptions)
  ]

  -- The pairs of one peer, and of all.
  abbrev pairs : List (Text × SubscriptionSet F) → E → List (Text × Subscription F)
  pairs [] e = []
  pairs ((peer, set) ∷ xs) e =
      map (λ s. (peer, s)) (keep (λ s. matches s e) (values set.subscriptions)) ++ pairs xs e

  unfoldable matching_peer_subscriptions : E → SubscriptionStore F → List (Text × Subscription F)
  matching_peer_subscriptions e m = pairs m.peers e

  unfoldable pub interested_peers : E → SubscriptionStore F → List Text
  interested_peers e m = map (λ p. p.0) (keep (λ p. set_matches p.1 e) m.peers)
