-- ===== src/Mesh/Invariant/Pruned.antt =====
-- The tracking of routes is kept by `prune` of crates/nostr-pubsub/src/mesh.rs.
use nostr_pubsub.Prelude.{
  ℕ, ◌≡◌, refl, true, ◌&&◌, some, arith, ltb, Option-cases, Bool-cases, inl, inr,
}
use nostr_pubsub.Prelude.Map.{
  Text, Map, text_key, get, contains, retain, Distinct, get-retain, get-retain_never,
  get-retain-some, Distinct-retain,
}
use nostr_pubsub.Mesh.Types.{MeshOptions, UpstreamRoute, PendingPeers}
use nostr_pubsub.Mesh.State.{Routes}
use nostr_pubsub.Mesh.Prune.{prune_routes}
use nostr_pubsub.Mesh.Invariant.{Covers, AreTracked}

-- What pruning leaves is tracked by the inventories that pruning leaves.
module _ (o : MeshOptions) (seen : Map Text ℕ) (r : Routes) (t : AreTracked o seen r)
    (now : ℕ) where
  abbrev live_seen : Map Text ℕ
  live_seen = retain (λ _ s. ltb now s) seen

  abbrev live_routes : Map Text UpstreamRoute
  live_routes = retain (λ _ (u : UpstreamRoute). ltb now u.expires_at_ms) r.upstream_routes

  live_route :
      (id : Text) (u : UpstreamRoute)
      → get id live_routes ≡ some u
      → (get id r.upstream_routes ≡ some u) × (ltb now u.expires_at_ms ≡ true)
  live_route id u h =
      get-retain-some id (λ _ (v : UpstreamRoute). ltb now v.expires_at_ms) r.upstream_routes
        t.routes_distinct h

  live_covered :
      (id : Text) (u : UpstreamRoute)
      → Distinct seen
      → get id live_routes ≡ some u
      → Covers u.expires_at_ms (get id live_seen)
  live_covered id u d h =
      let (here, live) = live_route id u h in
      ground (arith, t.covered id u here, get-retain id (λ _ s. ltb now s) seen d)

  pub prune_routes-AreTracked : Distinct seen → AreTracked o live_seen (prune_routes now r)
  unfolding prune_routes
  prune_routes-AreTracked d =
      let keeps =
        λ (id : Text) (p : PendingPeers). ltb now p.expires_at_ms && contains id live_routes in
      record {
        routes_distinct = Distinct-retain _ r.upstream_routes t.routes_distinct;
        pending_distinct = Distinct-retain _ r.pending_downstream t.pending_distinct;
        wants_distinct = Distinct-retain _ r.want_forwarded t.wants_distinct;
        route = λ id u h. t.route id u (live_route id u h).0;
        covered = λ id u h. live_covered id u d h;
        pending_le = λ id p h.
            t.pending_le id p
              (get-retain-some id keeps r.pending_downstream t.pending_distinct h).0;
        pending_routed = λ id h. elim (Option-cases (get id (retain keeps r.pending_downstream))) [
          | inl e ↦ cc
          | inr (p, e) ↦
              ground (arith, get-retain-some id keeps r.pending_downstream t.pending_distinct e)
        ];
        wants_routed = λ id h. elim (Bool-cases (contains id live_routes)) [
          | inl e ↦ e
          | inr e ↦ ground (
            arith,
            get-retain_never id (λ j s. ltb now s && contains j live_routes) r.want_forwarded
                (λ s. ground arith),
          )
        ];
        pending_count = refl;
      }
