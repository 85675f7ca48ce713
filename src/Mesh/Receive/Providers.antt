-- ===== src/Mesh/Receive/Providers.antt =====
-- The routes of crates/nostr-pubsub/src/mesh.rs: providers, and the calls that close a route or excuse
-- a peer, `dismiss_frame` and `record_transport_disruption`.
use nostr_pubsub.Prelude.{Bool, true, false, not, ◌&&◌, ◌||◌, none, some, List, [], if◌then◌else◌}
use nostr_pubsub.Prelude.Map.{Text, text_key, eqb, get, contains, insert}
use nostr_pubsub.Mesh.Types.{Action, UpstreamRoute, Result}
use nostr_pubsub.Mesh.State.{Mesh, remove_pending_event}

-- Whether a `WANT` of the route was sent to the peer.
abbrev pub is_provider : UpstreamRoute → Text → Bool
is_provider r peer = eqb r.peer_id peer || contains peer r.alternate_peers

abbrev pub Outcome : Type 0 → Type 0
Outcome E = Mesh E × Result (List (Action E))

module _ {E : Type 0} where
  abbrev pub set_route : Text → UpstreamRoute → Mesh E → Mesh E
  set_route id r m = record m {
    routes = record (m.routes) { upstream_routes = insert id r m.routes.upstream_routes };
  }

  -- `dismiss_frame`
  unfoldable pub close_route : Text → UpstreamRoute → Mesh E → Mesh E
  close_route id r m =
      set_route id (record r { fulfilled = true; transport_disrupted_peers = [] }) m

  unfoldable pub dismiss_frame : Text → Text → Mesh E → Mesh E
  dismiss_frame peer id m = elim (get id m.routes.upstream_routes) [
    | none ↦ m
    | some r ↦
        if is_provider r peer
        then (let m' = close_route id r m in
            record m' { routes = remove_pending_event id m'.routes })
        else m
  ]

  -- `record_transport_disruption`; the flag tells whether the mark is new.
  unfoldable pub record_transport_disruption : Text → Text → Mesh E → Mesh E × Bool
  record_transport_disruption peer id m = elim (get id m.routes.upstream_routes) [
    | none ↦ (m, false)
    | some r ↦
        if not r.fulfilled && is_provider r peer
        then (
          set_route id
              (record r { transport_disrupted_peers = insert peer tt r.transport_disrupted_peers })
              m,
          not (contains peer r.transport_disrupted_peers),
        )
        else (m, false)
  ]
