-- ===== src/Mesh/Invariant/Wants.antt =====
-- Received wants keep the mesh well formed.
use nostr_pubsub.Prelude.{
  ℕ, ◌≤◌, ◌≡◌, true, not, ◌&&◌, some, [], arith, length, Option-cases, inl, inr, ltb, if_both,
  sat_add_64,
}
use nostr_pubsub.Prelude.Map.{Text, text_key, get, contains, insert, remove, get-insert}
use nostr_pubsub.Prelude.Map.Size.{length-insert, weight}
use nostr_pubsub.Mesh.Types.{NostrEvent, UpstreamRoute, PendingPeers, ok, Result-cases}
use nostr_pubsub.Mesh.State.{Mesh, validate_event_id}
use nostr_pubsub.Mesh.Receive.{join_pending, add_pending, forward_want, receive_want}
use nostr_pubsub.Mesh.Invariant.{AreTracked, IsWellFormed}
use nostr_pubsub.Mesh.Invariant.Tracking.{
  insert_route-AreTracked, insert_want-AreTracked, insert_pending-AreTracked, pending-le-mul,
}
use nostr_pubsub.Mesh.Invariant.Steps.{routes-IsWellFormed, LeavesWellFormed}

module _ {E : Type 0} ⦃nostr : NostrEvent E⦄ where
  join_pending-AreTracked :
      (source id : Text) (p : PendingPeers) (m : Mesh E)
      → IsWellFormed m
      → contains id m.routes.upstream_routes ≡ true
      → length p.peers ≤ m.options.max_pending_peers_per_event
      → weight (λ q. length q.peers) (get id m.routes.pending_downstream) ≡ length p.peers
      → AreTracked m.options m.seen.expiries (join_pending source id p m)
  unfolding join_pending
  join_pending-AreTracked source id p m v here le same =
      let set_pending = insert_pending-AreTracked m.options m.seen.expiries m.routes v.routes id in
      let fits =
        pending-le-mul m.options m.seen.expiries m.routes v.routes v.seen.synced.distinct
          v.seen.count_le in
      if_both (AreTracked m.options m.seen.expiries)
        (ltb (length p.peers) m.options.max_pending_peers_per_event
          && not (contains source p.peers))
        (λ join.
          set_pending (record p { peers = insert source tt p.peers })
            (sat_add_64 m.routes.pending_peer_count 1) here
            (ground (arith, length-insert source tt p.peers))
            (ground (arith, length-insert source tt p.peers, fits, v.usable.pending_fits, same)))
        (λ _. set_pending p m.routes.pending_peer_count here le (ground (arith, same)))

  add_pending-AreTracked :
      (source id : Text) (now : ℕ) (m : Mesh E)
      → IsWellFormed m
      → contains id m.routes.upstream_routes ≡ true
      → AreTracked m.options m.seen.expiries (add_pending source id now m)
  unfolding add_pending
  add_pending-AreTracked source id now m v here =
      elim (Option-cases (get id m.routes.pending_downstream)) [
        | inl e ↦
            rw (e, add_pending) (join_pending-AreTracked source id _ m v here (omega arith) (rw e))
        | inr (p, e) ↦
            rw (e, add_pending)
              (join_pending-AreTracked source id p m v here (v.routes.pending_le id p e) (rw e))
      ]

  upstream-add_pending :
      (source id : Text) (now : ℕ) (m : Mesh E)
      → (add_pending source id now m).upstream_routes ≡ m.routes.upstream_routes
  unfolding add_pending join_pending
  upstream-add_pending source id now m = ground arith

  forward_want-IsWellFormed :
      (id : Text) (r : UpstreamRoute) (now : ℕ) (m : Mesh E)
      → IsWellFormed m
      → get id m.routes.upstream_routes ≡ some r
      → IsWellFormed (forward_want id r now m).0
  unfolding forward_want
  forward_want-IsWellFormed id r now m v here =
      let excused = record r {
        transport_disrupted_peers = remove r.peer_id r.transport_disrupted_peers;
      } in
      let fit = v.routes.route id r here in
      let set =
        insert_route-AreTracked m.options m.seen.expiries m.routes v.routes id excused
          (record {
            providers_le = fit.providers_le;
            alternates_distinct = fit.alternates_distinct;
            provider_once = fit.provider_once;
            hops_pos = fit.hops_pos;
            hops_le = fit.hops_le;
          })
          (v.routes.covered id r here) in
      if_both LeavesWellFormed _ {x = (m, ok [])} (λ _. v)
        (λ _. routes-IsWellFormed m _ v (
          insert_want-AreTracked m.options m.seen.expiries _ set id r.expires_at_ms
            (ground (arith, get-insert id id excused m.routes.upstream_routes))))

  pub receive_want-IsWellFormed :
      (source id : Text) (now : ℕ) (m : Mesh E)
      → IsWellFormed m
      → IsWellFormed (receive_want source id now m).0
  unfolding receive_want
  receive_want-IsWellFormed source id now m v = elim (Result-cases (validate_event_id id)) [
    | inr (x, e) ↦ rw (e, receive_want) v
    | inl (_, e) ↦ elim (Option-cases (get id m.cache.cached_events)) [
      | inr (c, f) ↦ rw (e, f, receive_want) v
      | inl f ↦ elim (Option-cases (get id m.routes.upstream_routes)) [
        | inl g ↦ rw (e, f, g, receive_want) v
        | inr (r, g) ↦
            rw (e, f, g, receive_want)
              (if_both LeavesWellFormed r.fulfilled (λ _. v)
                (λ _.
                  forward_want-IsWellFormed id r now _
                    (routes-IsWellFormed m _ v
                      (add_pending-AreTracked source id now m v (ground arith)))
                    (rw (upstream-add_pending source id now m) g)))
      ]
    ]
  ]
