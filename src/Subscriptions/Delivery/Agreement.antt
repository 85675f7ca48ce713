-- ===== src/Subscriptions/Delivery/Agreement.antt =====
-- The reads of crates/nostr-pubsub/src/subscriptions.rs agree with one another.
use nostr_pubsub.Prelude.{
  ◌≡◌, refl, ◌↔◌, Bool, false, none, some, List, [], ◌∷◌, arith, Bool-cases, inl, inr, keep, map,
}
use nostr_pubsub.Prelude.Map.{Text, text_key, Map, get, Distinct}
use nostr_pubsub.Prelude.Map.Queue.{elem}
use nostr_pubsub.Subscriptions.Types.{FilterMatch, SubscriptionSet, SubscriptionStore}
use nostr_pubsub.Subscriptions.Delivery.{
  DeliveryStrategy, push_subscribed, inventory_first, skip, set_matches, peer_interest,
  action_for_peer, action_for_event, interested_peers,
}

module _ {F E : Type 0} ⦃nostr : FilterMatch F E⦄ where
  -- Whether the peer has a set that matches.
  abbrev has_match : Text → E → Map Text (SubscriptionSet F) → Bool
  has_match peer e peers = elim (get peer peers) [ none ↦ false | some set ↦ set_matches set e ]

  abbrev interested : E → Map Text (SubscriptionSet F) → List Text
  interested e peers = map (λ p. p.0) (keep (λ p. set_matches p.1 e) peers)

  interested_absent :
      (peer : Text) (e : E) (peers : Map Text (SubscriptionSet F))
      → get peer peers ≡ none
      → elem peer (interested e peers) ≡ false
  unfolding get
  interested_absent peer e [] h = refl
  interested_absent peer e ((k, set) ∷ peers) h = elim (Bool-cases (set_matches set e)) [
    | inl b ↦ rw b (ground (arith, interested_absent peer e peers))
    | inr b ↦ rw b (ground (arith, interested_absent peer e peers))
  ]

  elem-interested :
      (peer : Text) (e : E) (peers : Map Text (SubscriptionSet F))
      → Distinct peers
      → elem peer (interested e peers) ≡ has_match peer e peers
  unfolding get
  elem-interested peer e [] d = refl
  elem-interested peer e ((k, set) ∷ peers) d = elim (Bool-cases (set_matches set e)) [
    | inl b ↦ rw b (ground (arith, b, elem-interested peer e peers d.1))
    | inr b ↦
        rw b (ground (arith, b, elem-interested peer e peers d.1, interested_absent peer e peers))
  ]

  -- Where no peer stands twice in the store, under both delivery strategies an event is skipped for
  -- a peer exactly if the peer is not listed among the interested ones.
  pub interested_peers_iff :
      (strategy : DeliveryStrategy) (peer : Text) (e : E) (m : SubscriptionStore F)
      → Distinct m.peers
      → (elem peer (interested_peers e m) ≡ false) ↔ (action_for_event strategy peer e m ≡ skip)
  unfolding interested_peers action_for_event action_for_peer peer_interest
  interested_peers_iff push_subscribed peer e m d = ground (arith, elem-interested peer e m.peers d)
  interested_peers_iff inventory_first peer e m d = ground (arith, elem-interested peer e m.peers d)
