-- ===== src/Mesh/Receive/Wants.antt =====
-- `receive_want` of crates/nostr-pubsub/src/mesh.rs.
use nostr_pubsub.Prelude.{
  ℕ, Bool, false, not, ◌&&◌, Option, none, some, [], ◌∷◌, if◌then◌else◌, ltb, length, sat_add_64,
}
use nostr_pubsub.Prelude.Map.{Text, text_key, get, contains, insert, remove}
use nostr_pubsub.Mesh.Types.{want, frame, send, UpstreamRoute, PendingPeers, ok, err}
use nostr_pubsub.Mesh.State.{Routes, Mesh, validate_event_id}
use nostr_pubsub.Mesh.Receive.Providers.{Outcome}

-- The pending entry of an event, or a new one.
abbrev pending_or_fresh : Option PendingPeers → ℕ → PendingPeers
pending_or_fresh (some p) expires = p
pending_or_fresh none expires = record { peers = []; expires_at_ms = expires }

module _ {E : Type 0} where
  -- The source joins the pending peers of an event if there is room.
  unfoldable pub join_pending : Text → Text → PendingPeers → Mesh E → Routes
  join_pending source id p m =
      if ltb (length p.peers) m.options.max_pending_peers_per_event && not (contains source p.peers)
      then record (m.routes) {
        pending_downstream =
            insert id (record p { peers = insert source tt p.peers }) m.routes.pending_downstream;
        pending_peer_count = sat_add_64 m.routes.pending_peer_count 1;
      }
      else record (m.routes) {
        pending_downstream = insert id p m.routes.pending_downstream;
        pending_peer_count = m.routes.pending_peer_count;
      }

  -- `entry(..).or_insert_with(..)` on the pending peers, and the join.
  unfoldable pub add_pending : Text → Text → ℕ → Mesh E → Routes
  add_pending source id now m =
      join_pending source id
        (pending_or_fresh (get id m.routes.pending_downstream)
          (sat_add_64 now m.options.route_ttl_ms))
        m

  -- The rest of `receive_want`: the request goes on to the provider once.
  unfoldable pub forward_want : Text → UpstreamRoute → ℕ → Mesh E → Outcome E
  forward_want id r now m =
      let already : Bool = elim (get id m.routes.want_forwarded) [
        | none ↦ false
        | some t ↦ ltb now t
      ] in
      if already then (m, ok []) else (
        record m {
          routes = record (m.routes) {
            upstream_routes =
                insert id
                  (record r {
                    transport_disrupted_peers = remove r.peer_id r.transport_disrupted_peers;
                  })
                  m.routes.upstream_routes;
            want_forwarded = insert id r.expires_at_ms m.routes.want_forwarded;
          };
        },
        ok (send r.peer_id (want id) ∷ []),
      )

  unfoldable pub receive_want : Text → Text → ℕ → Mesh E → Outcome E
  receive_want source id now m = elim (validate_event_id id) [
    | err e ↦ (m, err e)
    | ok _ ↦ elim (get id m.cache.cached_events) [
      | some c ↦ (m, ok (send source (frame id c.event) ∷ []))
      | none ↦ elim (get id m.routes.upstream_routes) [
        | none ↦ (m, ok [])
        | some r ↦
            if r.fulfilled
            then (m, ok [])
            else forward_want id r now (record m { routes = add_pending source id now m })
      ]
    ]
  ]
