-- ===== src/Mesh/Invariant/Tracking.antt =====
-- The tracking of routes is kept by each change of the route tables.
use nostr_pubsub.Prelude.{ℕ, ◌+◌, ◌*◌, ◌≤◌, ◌≡◌, true, some, arith, length, Option-cases, inl, inr}
use nostr_pubsub.Prelude.Map.{
  Text, Map, text_key, get, contains, insert, remove, Distinct, get-insert, get-remove,
  Distinct-insert, Distinct-remove,
}
use nostr_pubsub.Prelude.Map.Size.{
  total-insert, total-remove, total-le-mul, length-le_of_keys, weight,
}
use nostr_pubsub.Mesh.Types.{MeshOptions, UpstreamRoute, PendingPeers}
use nostr_pubsub.Mesh.State.{Routes, remove_pending_event, forget_event}
use nostr_pubsub.Mesh.Invariant.{Covers, IsRoute, AreTracked}

abbrev peers_of : PendingPeers → ℕ
peers_of p = length p.peers

module _ (o : MeshOptions) (seen : Map Text ℕ) (r : Routes) (t : AreTracked o seen r) where
  pub remove_pending_event-AreTracked : (id : Text) → AreTracked o seen (remove_pending_event id r)
  unfolding remove_pending_event
  remove_pending_event-AreTracked id = elim (Option-cases (get id r.pending_downstream)) [
    | inl e ↦ rw (e, remove_pending_event) t
    | inr (p, e) ↦
        rw (e, remove_pending_event)
          (record {
            routes_distinct = t.routes_distinct;
            pending_distinct = Distinct-remove id r.pending_downstream t.pending_distinct;
            wants_distinct = t.wants_distinct;
            route = t.route;
            covered = t.covered;
            pending_le =
                λ j q h. t.pending_le j q (ground (arith, get-remove j id r.pending_downstream));
            pending_routed =
                λ j h. t.pending_routed j (ground (arith, get-remove j id r.pending_downstream));
            wants_routed = t.wants_routed;
            pending_count = ground (
              arith,
              t.pending_count,
              total-remove peers_of id r.pending_downstream t.pending_distinct,
            );
          })
  ]

  route_kept :
      (id j : Text) (u : UpstreamRoute)
      → get j (remove id r.upstream_routes) ≡ some u
      → get j r.upstream_routes ≡ some u
  route_kept id j u h = ground (arith, get-remove j id r.upstream_routes)

  -- The event's inventory goes too: the rest still stands on what was seen.
  pub forget_event-AreTracked : (id : Text) → AreTracked o (remove id seen) (forget_event id r)
  unfolding forget_event remove_pending_event
  forget_event-AreTracked id = elim (Option-cases (get id r.pending_downstream)) [
    | inl e ↦
        rw (e, forget_event, remove_pending_event)
          (record {
            routes_distinct = Distinct-remove id r.upstream_routes t.routes_distinct;
            pending_distinct = t.pending_distinct;
            wants_distinct = Distinct-remove id r.want_forwarded t.wants_distinct;
            route = λ j u h. t.route j u (route_kept id j u h);
            covered = λ j u h. ground (
              arith,
              t.covered j u (route_kept id j u h),
              get-remove j id r.upstream_routes,
              get-remove j id seen,
            );
            pending_le = t.pending_le;
            pending_routed =
                λ j h. ground (arith, t.pending_routed j h, get-remove j id r.upstream_routes);
            wants_routed = λ j h. ground (
              arith,
              t.wants_routed j,
              get-remove j id r.want_forwarded,
              get-remove j id r.upstream_routes,
            );
            pending_count = t.pending_count;
          })
    | inr (p, e) ↦
        rw (e, forget_event, remove_pending_event)
          (record {
            routes_distinct = Distinct-remove id r.upstream_routes t.routes_distinct;
            pending_distinct = Distinct-remove id r.pending_downstream t.pending_distinct;
            wants_distinct = Distinct-remove id r.want_forwarded t.wants_distinct;
            route = λ j u h. t.route j u (route_kept id j u h);
            covered = λ j u h. ground (
              arith,
              t.covered j u (route_kept id j u h),
              get-remove j id r.upstream_routes,
              get-remove j id seen,
            );
            pending_le =
                λ j q h. t.pending_le j q (ground (arith, get-remove j id r.pending_downstream));
            pending_routed = λ j h. ground (
              arith,
              t.pending_routed j,
              get-remove j id r.pending_downstream,
              get-remove j id r.upstream_routes,
            );
            wants_routed = λ j h. ground (
              arith,
              t.wants_routed j,
              get-remove j id r.want_forwarded,
              get-remove j id r.upstream_routes,
            );
            pending_count = ground (
              arith,
              t.pending_count,
              total-remove peers_of id r.pending_downstream t.pending_distinct,
            );
          })
  ]

  -- A route is set, whose time the inventory covers.
  pub insert_route-AreTracked :
      (id : Text) (u : UpstreamRoute)
      → IsRoute o u
      → Covers u.expires_at_ms (get id seen)
      → AreTracked o seen (record r { upstream_routes = insert id u r.upstream_routes })
  insert_route-AreTracked id u ok c = record {
    routes_distinct = Distinct-insert id u r.upstream_routes t.routes_distinct;
    pending_distinct = t.pending_distinct;
    wants_distinct = t.wants_distinct;
    route = λ j v h. ground (arith, get-insert j id u r.upstream_routes, t.route j v, ok);
    covered = λ j v h. ground (arith, get-insert j id u r.upstream_routes, t.covered j v, c);
    pending_le = t.pending_le;
    pending_routed =
        λ j h. ground (arith, get-insert j id u r.upstream_routes, t.pending_routed j h);
    wants_routed = λ j h. ground (arith, get-insert j id u r.upstream_routes, t.wants_routed j h);
    pending_count = t.pending_count;
  }

  -- A want is noted for an event that has a route.
  pub insert_want-AreTracked :
      (id : Text) (expires : ℕ)
      → contains id r.upstream_routes ≡ true
      → AreTracked o seen (record r { want_forwarded = insert id expires r.want_forwarded })
  insert_want-AreTracked id expires here = record {
    routes_distinct = t.routes_distinct;
    pending_distinct = t.pending_distinct;
    wants_distinct = Distinct-insert id expires r.want_forwarded t.wants_distinct;
    route = t.route;
    covered = t.covered;
    pending_le = t.pending_le;
    pending_routed = t.pending_routed;
    wants_routed =
        λ j h. ground (arith, get-insert j id expires r.want_forwarded, t.wants_routed j);
    pending_count = t.pending_count;
  }

  -- The inventory's time is set anew, no earlier than before.
  pub stamp-AreTracked :
      (id : Text) (expires : ℕ)
      → ((s : ℕ) → get id seen ≡ some s → s ≤ expires)
      → AreTracked o (insert id expires seen) r
  stamp-AreTracked id expires later = record {
    routes_distinct = t.routes_distinct;
    pending_distinct = t.pending_distinct;
    wants_distinct = t.wants_distinct;
    route = t.route;
    covered = λ j v h. elim (Option-cases (get j seen)) [
      | inl e ↦ absurd (rw e at (t.covered j v h))
      | inr (s, e) ↦ ground (arith, get-insert j id expires seen, t.covered j v h, later s)
    ];
    pending_le = t.pending_le;
    pending_routed = t.pending_routed;
    wants_routed = t.wants_routed;
    pending_count = t.pending_count;
  }

-- A pending entry is set for an event that has a route.
module _ (o : MeshOptions) (seen : Map Text ℕ) (r : Routes) (t : AreTracked o seen r) where
  pub insert_pending-AreTracked :
      (id : Text) (p : PendingPeers) (count : ℕ)
      → contains id r.upstream_routes ≡ true
      → length p.peers ≤ o.max_pending_peers_per_event
      → count + weight peers_of (get id r.pending_downstream)
        ≡ r.pending_peer_count + length p.peers
      → AreTracked o seen (record r {
        pending_downstream = insert id p r.pending_downstream;
        pending_peer_count = count;
      })
  insert_pending-AreTracked id p count here le e = record {
    routes_distinct = t.routes_distinct;
    pending_distinct = Distinct-insert id p r.pending_downstream t.pending_distinct;
    wants_distinct = t.wants_distinct;
    route = t.route;
    covered = t.covered;
    pending_le = λ j q h. ground (arith, get-insert j id p r.pending_downstream, t.pending_le j q);
    pending_routed =
        λ j h. ground (arith, get-insert j id p r.pending_downstream, t.pending_routed j);
    wants_routed = t.wants_routed;
    pending_count =
        ground (arith, t.pending_count, total-insert peers_of id p r.pending_downstream);
  }

  -- There are no more routes than inventories, and the pending peers fit their word.
  pub routes-le-seen : Distinct seen → length r.upstream_routes ≤ length seen
  routes-le-seen d =
      length-le_of_keys r.upstream_routes seen
        (λ k h. elim (Option-cases (get k r.upstream_routes)) [
          | inl e ↦ cc
          | inr (u, e) ↦ ground (arith, t.covered k u e)
        ])
        t.routes_distinct d

  pub pending-le-mul :
      Distinct seen
      → length seen ≤ o.max_seen_events
      → r.pending_peer_count ≤ o.max_seen_events * o.max_pending_peers_per_event
  pending-le-mul d h =
      let few =
        length-le_of_keys r.pending_downstream r.upstream_routes t.pending_routed t.pending_distinct
          t.routes_distinct in
      let each =
        total-le-mul peers_of o.max_pending_peers_per_event r.pending_downstream t.pending_le
          t.pending_distinct in
      grind (arith, t.pending_count, few, each, routes-le-seen d)

-- A route and its inventory are renewed together, with a want.
module _ (o : MeshOptions) (seen : Map Text ℕ) (r : Routes) (t : AreTracked o seen r) where
  pub renew-AreTracked :
      (id : Text) (u : UpstreamRoute) (expires : ℕ)
      → IsRoute o u
      → u.expires_at_ms ≤ expires
      → AreTracked o (insert id expires seen) (record r {
        upstream_routes = insert id u r.upstream_routes;
        want_forwarded = insert id expires r.want_forwarded;
      })
  renew-AreTracked id u expires ok le = record {
    routes_distinct = Distinct-insert id u r.upstream_routes t.routes_distinct;
    pending_distinct = t.pending_distinct;
    wants_distinct = Distinct-insert id expires r.want_forwarded t.wants_distinct;
    route = λ j v h. ground (arith, get-insert j id u r.upstream_routes, t.route j v, ok);
    covered = λ j v h.
        ground
          (arith, get-insert j id u r.upstream_routes, get-insert j id expires seen, t.covered j v);
    pending_le = t.pending_le;
    pending_routed =
        λ j h. ground (arith, get-insert j id u r.upstream_routes, t.pending_routed j h);
    wants_routed = λ j h. ground (
      arith,
      get-insert j id u r.upstream_routes,
      get-insert j id expires r.want_forwarded,
      t.wants_routed j,
    );
    pending_count = t.pending_count;
  }
