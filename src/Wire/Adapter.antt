-- ===== src/Wire/Adapter.antt =====
-- `FipsPubsubWireAdapter` of crates/nostr-pubsub/src/wire.rs: the frames of a peer, and the
-- subscriptions that they open and close.
use nostr_pubsub.Prelude.{◌⊎◌, inl, inr, List}
use nostr_pubsub.Prelude.Map.{Text}
use nostr_pubsub.Subscriptions.Types.{
  FilterJson, Subscription, SubscriptionStore, SubscriptionError, SubscriptionUpdate, subscribed,
  closed, ignored,
}
use nostr_pubsub.Subscriptions.Store.{upsert, remove_peer, remove_subscription}
use nostr_pubsub.Wire.Types.{WireMessage, Json, Nostr, WireError, Result, ok, err}
use nostr_pubsub.Wire.Codec.{Codec, encode_frame, decode_frame}

pub record Adapter (F : Type 0) : Type 0 where
  pub codec : Codec
  pub subscriptions : SubscriptionStore F

-- `FipsPubsubInbound`
pub record Inbound (F E I : Type 0) : Type 0 where
  pub message : WireMessage F E I
  pub subscription_update : SubscriptionUpdate

abbrev disconnect_peer :
    {F : Type 0} ⦃lengths : FilterJson F⦄ → Text → Adapter F → Adapter F × List (Subscription F)
disconnect_peer peer a =
    let (m, gone) = remove_peer peer a.subscriptions in (record a { subscriptions = m }, gone)

module _ {F E I : Type 0} ⦃lengths : FilterJson F⦄ where
  -- What a decoded message does to the subscriptions of its sender.
  unfoldable pub update :
      Text
      → WireMessage F E I
      → SubscriptionStore F
      → SubscriptionStore F × (SubscriptionError ⊎ SubscriptionUpdate)
  update peer (WireMessage.req id filters) m =
      let (after, r) = upsert peer (record { subscription_id = id; filters = filters }) m in
      (after, elim r [ inl x ↦ inl x | inr _ ↦ inr subscribed ])
  update peer (WireMessage.close id) m = ((remove_subscription peer id m).0, inr closed)
  update peer (WireMessage.event id e) m = (m, inr ignored)
  update peer (WireMessage.receipt id accepted text) m = (m, inr ignored)
  update peer (WireMessage.inv ids id kind bytes hops) m = (m, inr ignored)
  update peer (WireMessage.want id) m = (m, inr ignored)

  unfoldable pub inbound :
      WireMessage F E I → SubscriptionError ⊎ SubscriptionUpdate → Result (Inbound F E I)
  inbound message (inl x) = err (WireError.subscription_refused x)
  inbound message (inr u) = ok (record { message = message; subscription_update = u })

  module _ {V : Type 0} (json : Json V) (nostr : Nostr F E I V) where
    unfoldable pub decode_inbound : Text → Text → Adapter F → Adapter F × Result (Inbound F E I)
    decode_inbound peer frame a = elim (decode_frame json nostr a.codec frame) [
      | err x ↦ (a, err x)
      | ok message ↦
          let (m, r) = update peer message a.subscriptions in
          (record a { subscriptions = m }, inbound message r)
    ]

    abbrev encode_outbound : WireMessage F E I → Adapter F → Result Text
    encode_outbound message a = encode_frame json nostr a.codec message
