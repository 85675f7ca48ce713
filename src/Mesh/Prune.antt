-- ===== src/Mesh/Prune.antt =====
-- `prune` and `maintain` of crates/nostr-pubsub/src/mesh.rs: what expires, and what its expiry
-- records against the peers.
use nostr_pubsub.Prelude.{
  ℕ, not, ◌&&◌, Option, none, some, List, [], ◌∷◌, ◌++◌, map, if◌then◌else◌, ltb, leb, length, keep,
}
use nostr_pubsub.Prelude.Map.{Text, Map, text_key, contains, retain}
use nostr_pubsub.Prelude.Map.Size.{total}
use nostr_pubsub.Mesh.Types.{UpstreamRoute, PendingPeers}
use nostr_pubsub.Mesh.Cache.{prune_cache}
use nostr_pubsub.Mesh.Behavior.{
  Evidence, Behaviors, record_peer_behavior, unserved_inventory_penalty,
}
use nostr_pubsub.Mesh.State.{Routes, Window, Mesh, earlier}

-- The peers of a route that were asked and are not excused: its provider, then the alternates.
unfoldable pub unserved_peers : UpstreamRoute → List Text
unserved_peers r =
    keep (λ p. not (contains p r.transport_disrupted_peers))
      (r.peer_id ∷ map (λ e. e.0) r.alternate_peers)

-- `expired_routes`
unfoldable pub expired_peers : ℕ → Map Text UpstreamRoute → List Text
expired_peers now [] = []
expired_peers now ((_, r) ∷ m) =
    (if not r.fulfilled && leb r.expires_at_ms now then unserved_peers r else [])
    ++ expired_peers now m

unfoldable pub record_unserved : List Text → Behaviors → Behaviors
record_unserved [] b = b
record_unserved (p ∷ ps) b =
    record_unserved ps
      (record_peer_behavior p unserved_inventory_penalty Evidence.unserved_inventory b)

unfoldable pub prune_window : ℕ → Window → Window
prune_window now w =
    let live = retain (λ _ t. ltb now t) w.expiries in
    record { expiries = live; order = keep (λ id. contains id live) w.order }

unfoldable pub prune_routes : ℕ → Routes → Routes
prune_routes now r =
    let upstream = retain (λ _ (u : UpstreamRoute). ltb now u.expires_at_ms) r.upstream_routes in
    let pending =
      retain (λ id (p : PendingPeers). ltb now p.expires_at_ms && contains id upstream)
        r.pending_downstream in
    record {
      upstream_routes = upstream;
      pending_downstream = pending;
      pending_peer_count = total (λ p. length p.peers) pending;
      want_forwarded = retain (λ id t. ltb now t && contains id upstream) r.want_forwarded;
    }

-- `min` over the values of a map, after what came before in the chain.
unfoldable pub earliest {ℓ} : {V : Type ℓ} → (V → ℕ) → Option ℕ → Map Text V → Option ℕ
earliest f t [] = t
earliest f t ((_, v) ∷ m) = earliest f (earlier t (f v)) m

module _ {E : Type 0} where
  -- The body of `prune`, once it is due.
  unfoldable pub prune_due : ℕ → Mesh E → Mesh E
  prune_due now m =
      let cache = prune_cache now m.cache in
      let seen = prune_window now m.seen in
      let delivered = prune_window now m.delivered in
      let routes = prune_routes now m.routes in
      record {
        options = m.options;
        cache = cache;
        seen = seen;
        delivered = delivered;
        routes = routes;
        behaviors = record_unserved (expired_peers now m.routes.upstream_routes) m.behaviors;
        next_prune_at_ms =
            earliest (λ r. r.expires_at_ms)
              (earliest (λ t. t)
                (earliest (λ t. t) (earliest (λ c. c.expires_at_ms) none cache.cached_events)
                  seen.expiries)
                delivered.expiries)
              routes.upstream_routes;
      }

  unfoldable pub prune : ℕ → Mesh E → Mesh E
  prune now m = elim m.next_prune_at_ms [
    | none ↦ m
    | some due ↦ if ltb now due then m else prune_due now m
  ]

  -- `maintain`
  abbrev pub maintain : ℕ → Mesh E → Mesh E
  maintain = prune
