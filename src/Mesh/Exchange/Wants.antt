-- ===== src/Mesh/Exchange/Wants.antt =====
-- What is requested, and what a request obtains.
use nostr_pubsub.Prelude.{ℕ, ◌≡◌, ◌<◌, some, List, [], ◌∷◌, ◌++◌, ap}
use nostr_pubsub.Prelude.Map.{Text, text_key, get}
use nostr_pubsub.Mesh.Types.{NostrEvent, want, frame, MeshPeer, Action, send, UpstreamRoute, ok}
use nostr_pubsub.Mesh.State.{Mesh, validate_event_id, store_event, remove_pending_event}
use nostr_pubsub.Mesh.Behavior.{Evidence, record_peer_behavior, valid_frame_reward}
use nostr_pubsub.Mesh.Receive.{
  blame, dispatch, receive, close_route, delivery, answer_pending, announce_further, receive_want,
}
use nostr_pubsub.Mesh.Cache.{CachedEvent}
use nostr_pubsub.Mesh.Prune.{prune}
use nostr_pubsub.Mesh.Exchange.Pruned.{get-prune_cached}

module _ {E : Type 0} ⦃nostr : NostrEvent E⦄ where
  -- A cached event answers a request that comes before the event expires.
  pub receive_want_cached :
      (peer id : Text) (c : CachedEvent E) (peers : List MeshPeer) (later : ℕ) (m : Mesh E)
      → validate_event_id id ≡ ok tt
      → get id m.cache.cached_events ≡ some c
      → later < c.expires_at_ms
      → receive peer (want id) peers later m
        ≡ (prune later m, ok (send peer (frame id c.event) ∷ []))
  unfolding receive dispatch receive_want
  receive_want_cached peer id c peers later m i here live =
      let served : receive_want peer id later (prune later m)
          ≡ (prune later m, ok (send peer (frame id c.event) ∷ [])) =
        rw (i, get-prune_cached later m id c here live, receive_want) in
      ap (blame peer) served

  -- The frames that follow the delivery.
  abbrev later_frames :
      Text → Text → E → ℕ → UpstreamRoute → List MeshPeer → Mesh E → List (Action E)
  later_frames source id e bytes r peers d =
      answer_pending id e d
      ++ announce_further source id e bytes r peers
          (record d { routes = remove_pending_event id d.routes })

  abbrev delivered_state :
      Text → Text → E → ℕ → UpstreamRoute → ℕ → Mesh E → Mesh E × List (Action E)
  delivered_state source id e bytes r now m = delivery source id e now (
      close_route id r (
        store_event e bytes now (record m {
          behaviors =
              record_peer_behavior source valid_frame_reward Evidence.valid_frame m.behaviors;
        })))
