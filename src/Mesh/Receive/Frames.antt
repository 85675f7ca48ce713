-- ===== src/Mesh/Receive/Frames.antt =====
-- `receive_frame` of crates/nostr-pubsub/src/mesh.rs: the checks, and what an accepted frame causes.
use nostr_pubsub.Prelude.{
  ℕ, ◌-◌, Bool, not, ◌&&◌, ◌||◌, none, some, List, [], ◌∷◌, ◌++◌, map, if◌then◌else◌, ltb, ◌==◌,
}
use nostr_pubsub.Prelude.Map.{Text, text_key, eqb, get, contains}
use nostr_pubsub.Mesh.Types.{
  NostrEvent, inventory, frame, MeshPeer, MeshOptions, Action, send, deliver, UpstreamRoute,
  unsolicited_frame, unrequested_frame, wrong_frame_id, wrong_frame_shape, Result, ok, err, ◌>>=◌,
  ◌>>◌,
}
use nostr_pubsub.Mesh.Behavior.{Evidence, record_peer_behavior, valid_frame_reward}
use nostr_pubsub.Mesh.State.{
  Mesh, remove_pending_event, validate_event_id, validate_verified_event, validate_event,
  store_event, remember_delivered, send_to_selected_peers,
}
use nostr_pubsub.Mesh.Receive.Providers.{is_provider, Outcome, close_route}

module _ {E : Type 0} ⦃nostr : NostrEvent E⦄ where
  -- `Deliver`, unless the event was delivered before.
  unfoldable pub delivery : Text → Text → E → ℕ → Mesh E → Mesh E × List (Action E)
  delivery source id e now m =
      let (m', first) = remember_delivered id now m in
      (m', if first then deliver source e ∷ [] else [])

  -- The frames to the pending peers, in the order of the set.
  unfoldable pub answer_pending : Text → E → Mesh E → List (Action E)
  answer_pending id e m = elim (get id m.routes.pending_downstream) [
    | none ↦ []
    | some p ↦ map (λ q. send q.0 (frame id e)) p.peers
  ]

  -- The announcement to the next peers, with one hop less.
  unfoldable pub announce_further :
      Text → Text → E → ℕ → UpstreamRoute → List MeshPeer → Mesh E → List (Action E)
  announce_further source id e bytes r peers m =
      if ltb 1 r.hop_limit
      then send_to_selected_peers m peers (some source)
          (inventory id (nostr.kind e) bytes (r.hop_limit - 1))
      else []

  -- What `receive_frame` does once the frame is accepted.
  unfoldable pub accept_frame :
      Text → Text → E → ℕ → UpstreamRoute → List MeshPeer → ℕ → Mesh E → Outcome E
  accept_frame source id e bytes r peers now m =
      let credited = record m {
        behaviors = record_peer_behavior source valid_frame_reward Evidence.valid_frame m.behaviors;
      } in
      let closed = close_route id r (store_event e bytes now credited) in
      let (delivered, first) = delivery source id e now closed in
      let answered = record delivered { routes = remove_pending_event id delivered.routes } in
      (
        answered,
        ok (
            first
            ++ (answer_pending id e delivered
                ++ announce_further source id e bytes r peers answered)),
      )

  -- The checks of `receive_frame` on an event of a requested route.
  unfoldable pub check_frame : Bool → Text → E → UpstreamRoute → MeshOptions → Result ℕ
  check_frame verify id e r o = do
    (verified_id, bytes) ← if verify then validate_event o e else validate_verified_event o e
    (if eqb verified_id id then ok tt else err wrong_frame_id)
    (if (r.event_kind == nostr.kind e) && (r.payload_bytes == bytes)
        then ok bytes
        else err wrong_frame_shape)

  -- The end of `receive_frame`, by the result of the checks: a late copy of an event that was served
  -- changes nothing.
  unfoldable pub finish_frame :
      Text → Text → E → List MeshPeer → ℕ → UpstreamRoute → Result ℕ → Mesh E → Outcome E
  finish_frame source id e peers now r (err x) m = (m, err x)
  finish_frame source id e peers now r (ok bytes) m =
      if r.fulfilled then (m, ok []) else accept_frame source id e bytes r peers now m

  unfoldable pub receive_frame : Text → Text → E → List MeshPeer → ℕ → Bool → Mesh E → Outcome E
  receive_frame source id e peers now verify m = elim (validate_event_id id) [
    | err x ↦ (m, err x)
    | ok _ ↦ elim (get id m.routes.upstream_routes) [
      | none ↦ (m, err unsolicited_frame)
      | some r ↦
          if not (contains id m.routes.want_forwarded) || not (is_provider r source)
          then (m, err unrequested_frame)
          else finish_frame source id e peers now r (check_frame verify id e r m.options) m
    ]
  ]
