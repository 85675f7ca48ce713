-- ===== src/Wire/Inbound.antt =====
-- The frames that reach the adapter of crates/nostr-pubsub/src/wire.rs, whatever their bytes.
use nostr_pubsub.Prelude.{◌≡◌, refl, ap, ◌⊎◌, inl, inr, some, List, arith, Sum-cases}
use nostr_pubsub.Prelude.Map.{Text, text_key, get}
use nostr_pubsub.Subscriptions.Types.{
  FilterJson, Subscription, SubscriptionSet, SubscriptionStore, SubscriptionError,
}
use nostr_pubsub.Subscriptions.Store.{upsert}
use nostr_pubsub.Subscriptions.Invariant.{IsStored}
use nostr_pubsub.Subscriptions.Invariant.Run.{upsert-IsStored, upsert_err, get-upsert}
use nostr_pubsub.Subscriptions.Invariant.Removals.{remove_subscription-IsStored}
use nostr_pubsub.Wire.Types.{WireMessage, Json, Nostr, WireError, Result, ok, err}
use nostr_pubsub.Wire.Codec.{encode_frame, decode_frame}
use nostr_pubsub.Wire.Roundtrip.{IsJson, IsNostr, IsMessage, decode_frame-encode_frame}
use nostr_pubsub.Wire.Adapter.{Adapter, Inbound, update, inbound, decode_inbound}

Result-cases :
    {A : Type 0} (r : Result A) → ((a : A) × (r ≡ ok a)) ⊎ ((x : WireError) × (r ≡ err x))
Result-cases (ok a) = inl (a, refl)
Result-cases (err x) = inr (x, refl)

module _ {F E I : Type 0} ⦃lengths : FilterJson F⦄ where
  update-IsStored :
      (peer : Text) (message : WireMessage F E I) (m : SubscriptionStore F)
      → IsStored m
      → IsStored (update peer message m).0
  unfolding update
  update-IsStored peer (WireMessage.req id filters) m i = upsert-IsStored peer _ m i
  update-IsStored peer (WireMessage.close id) m i = remove_subscription-IsStored peer id m i
  update-IsStored peer (WireMessage.event id e) m i = i
  update-IsStored peer (WireMessage.receipt id accepted text) m i = i
  update-IsStored peer (WireMessage.inv ids id kind bytes hops) m i = i
  update-IsStored peer (WireMessage.want id) m i = i

  update_err :
      (peer : Text) (message : WireMessage F E I) (m : SubscriptionStore F) (x : SubscriptionError)
      → (update peer message m).1 ≡ inl x
      → (update peer message m).0 ≡ m
  unfolding update
  update_err peer (WireMessage.req id filters) m x e =
      upsert_err peer (record { subscription_id = id; filters = filters }) m x (ground arith)
  update_err peer (WireMessage.close id) m x e = ground arith
  update_err peer (WireMessage.event id e') m x e = refl
  update_err peer (WireMessage.receipt id accepted text) m x e = refl
  update_err peer (WireMessage.inv ids id kind bytes hops) m x e = refl
  update_err peer (WireMessage.want id) m x e = refl

  module _ {V : Type 0} (json : Json V) (nostr : Nostr F E I V) where
    -- Whatever bytes a peer sends, the subscription store of the adapter stays within its limits.
    pub decode_inbound-IsStored :
        (peer frame : Text) (a : Adapter F)
        → IsStored a.subscriptions
        → IsStored (decode_inbound json nostr peer frame a).0.subscriptions
    unfolding decode_inbound
    decode_inbound-IsStored peer frame a i =
        elim (Result-cases (decode_frame json nostr a.codec frame)) [
          | inr (x, e) ↦ rw (e, decode_inbound) i
          | inl (message, e) ↦
              rw (e, decode_inbound) (update-IsStored peer message a.subscriptions i)
        ]

    decode_inbound_err :
        (peer frame : Text) (a : Adapter F) (x : WireError)
        → (decode_inbound json nostr peer frame a).1 ≡ err x
        → (decode_inbound json nostr peer frame a).0 ≡ a
    unfolding decode_inbound inbound
    decode_inbound_err peer frame a x h =
        elim (Result-cases (decode_frame json nostr a.codec frame)) [
          | inr (y, e) ↦ rw (e, decode_inbound) refl
          | inl (message, e) ↦ elim (Sum-cases (update peer message a.subscriptions).1) [
            | inl (y, f) ↦
                rw (e, decode_inbound)
                  (ap (λ m. record a { subscriptions = m })
                    (update_err peer message a.subscriptions y f))
            | inr (u, f) ↦ absurd (ground (arith, rw (e, f, decode_inbound) at h))
          ]
        ]

    -- If the crates read back what they write, the store is within its limits, and the frame of a
    -- request with a filter is accepted, then the peer that sent it has the request's filters under
    -- its subscription id.
    pub decode_inbound-req :
        (peer id frame : Text) (filters : List F) (a : Adapter F) (i : Inbound F E I)
        → IsJson json
        → IsNostr json nostr
        → IsMessage json nostr (WireMessage.req id filters)
        → IsStored a.subscriptions
        → encode_frame json nostr a.codec (WireMessage.req id filters) ≡ ok frame
        → (decode_inbound json nostr peer frame a).1 ≡ ok i
        → (set : SubscriptionSet F) × (get peer
              (decode_inbound json nostr peer frame a).0.subscriptions.peers
            ≡ some set)
          × (get id set.subscriptions ≡ some (record { subscription_id = id; filters = filters }))
    unfolding decode_inbound inbound update
    decode_inbound-req peer id frame filters a i j n h s e good =
        let sub : Subscription F = record { subscription_id = id; filters = filters } in
        let read = decode_frame-encode_frame json nostr j n a.codec _ frame h e in
        elim (Sum-cases (upsert peer sub a.subscriptions).1) [
          | inl (x, f) ↦ absurd (ground (arith, rw (read, update, f, decode_inbound) at good))
          | inr (evicted, f) ↦
              rw (read, decode_inbound) (get-upsert peer sub a.subscriptions evicted s f)
        ]
