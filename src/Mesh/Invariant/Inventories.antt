-- ===== src/Mesh/Invariant/Inventories.antt =====
-- Received inventories keep the mesh well formed.
use nostr_pubsub.Prelude.{
  ℕ, ◌+◌, ◌≤◌, ◌<◌, ◌≡◌, refl, true, false, not, ◌||◌, some, arith, length, u64_max, max,
  Option-cases, Bool-cases, inl, inr, ltb, leb, ◌==◌, if_both, sat_add_64,
}
use nostr_pubsub.Prelude.Map.{
  Text, text_key, get, contains, insert, remove, get-insert, Distinct-insert,
}
use nostr_pubsub.Prelude.Map.Size.{length-insert}
use nostr_pubsub.Prelude.Map.Queue.{Synced-set}
use nostr_pubsub.Mesh.Types.{NostrEvent, MeshOptions, UpstreamRoute, Result-cases}
use nostr_pubsub.Mesh.State.{Mesh, remember_inventory}
use nostr_pubsub.Mesh.Receive.{
  is_provider, first_route, max_upstream_providers_per_event, ask_again, add_provider,
  retry_provider, retry_inventory, open_route, check_inventory, receive_inventory,
}
use nostr_pubsub.Mesh.Invariant.{Covers, IsRoute, IsWellFormed}
use nostr_pubsub.Mesh.Invariant.Tracking.{
  insert_route-AreTracked, insert_want-AreTracked, renew-AreTracked,
}
use nostr_pubsub.Mesh.Invariant.Windows.{
  options-remember_inventory, time-remember_inventory, remember_inventory-IsWellFormed,
}
use nostr_pubsub.Mesh.Invariant.Steps.{routes-IsWellFormed, LeavesWellFormed}

raised-IsRoute :
    (o : MeshOptions) (r : UpstreamRoute) (hops : ℕ)
    → IsRoute o r
    → hops ≤ o.max_hops
    → IsRoute o (record r { hop_limit = max r.hop_limit hops })
raised-IsRoute o r hops fit h = record {
  providers_le = fit.providers_le;
  alternates_distinct = fit.alternates_distinct;
  provider_once = fit.provider_once;
  hops_pos = omega (arith, fit.hops_pos);
  hops_le = omega (arith, fit.hops_le);
}

module _ {E : Type 0} ⦃nostr : NostrEvent E⦄ where
  ask_again-IsWellFormed :
      (source id : Text) (r : UpstreamRoute) (m : Mesh E)
      → IsWellFormed m
      → IsRoute m.options r
      → Covers r.expires_at_ms (get id m.seen.expiries)
      → IsWellFormed (ask_again source id r m).0
  unfolding ask_again
  ask_again-IsWellFormed source id r m v fit c = routes-IsWellFormed m _ v (
      insert_route-AreTracked m.options m.seen.expiries m.routes v.routes id _
        (record {
          providers_le = fit.providers_le;
          alternates_distinct = fit.alternates_distinct;
          provider_once = fit.provider_once;
          hops_pos = fit.hops_pos;
          hops_le = fit.hops_le;
        })
        c)

  add_provider-IsWellFormed :
      (source id : Text) (r : UpstreamRoute) (now : ℕ) (m : Mesh E)
      → IsWellFormed m
      → IsRoute m.options r
      → contains id m.seen.expiries ≡ true
      → is_provider r source ≡ false
      → leb max_upstream_providers_per_event (length r.alternate_peers + 1) ≡ false
      → IsWellFormed (add_provider source id r now m).0
  unfolding add_provider ask_again
  add_provider-IsWellFormed source id r now m v fit known new room = record {
    usable = v.usable;
    cache = v.cache;
    content = v.content;
    seen = record {
      synced = Synced-set id expires known v.seen.synced;
      count_le = ground (arith, length-insert id expires m.seen.expiries, known, v.seen.count_le);
    };
    delivered = v.delivered;
    routes =
        renew-AreTracked m.options m.seen.expiries m.routes v.routes id
          (record r {
            alternate_peers = insert source tt r.alternate_peers;
            transport_disrupted_peers = remove source r.transport_disrupted_peers;
            expires_at_ms = expires;
          })
          expires
          (record {
            providers_le = ground (arith, length-insert source tt r.alternate_peers);
            alternates_distinct =
                Distinct-insert source tt r.alternate_peers fit.alternates_distinct;
            provider_once =
                ground (arith, get-insert r.peer_id source tt r.alternate_peers, fit.provider_once);
            hops_pos = fit.hops_pos;
            hops_le = fit.hops_le;
          })
          (omega arith);
    behaviors = v.behaviors;
  }
    where
      expires : ℕ
      expires = sat_add_64 now m.options.route_ttl_ms

  retry_provider-IsWellFormed :
      (source id : Text) (r : UpstreamRoute) (now : ℕ) (m : Mesh E)
      → IsWellFormed m
      → IsRoute m.options r
      → Covers r.expires_at_ms (get id m.seen.expiries)
      → IsWellFormed (retry_provider source id r now m).0
  unfolding retry_provider
  retry_provider-IsWellFormed source id r now m v fit c =
      if_both LeavesWellFormed (is_provider r source)
        (λ old. ask_again-IsWellFormed source id r m v fit c)
        (λ new.
          if_both LeavesWellFormed
            (leb max_upstream_providers_per_event (length r.alternate_peers + 1))
            (λ full.
              routes-IsWellFormed m _ v
                (insert_route-AreTracked m.options m.seen.expiries m.routes v.routes id r fit c))
            (λ room. add_provider-IsWellFormed source id r now m v fit (ground arith) new room))

  retry_inventory-IsWellFormed :
      (source id : Text) (kind bytes hops now : ℕ) (m : Mesh E)
      → hops ≤ m.options.max_hops
      → IsWellFormed m
      → IsWellFormed (retry_inventory source id kind bytes hops now m).0
  unfolding retry_inventory
  retry_inventory-IsWellFormed source id kind bytes hops now m h v =
      elim (Option-cases (get id m.routes.upstream_routes)) [
        | inl e ↦ rw (e, retry_inventory) v
        | inr (r, e) ↦
            rw (e, retry_inventory)
              (if_both LeavesWellFormed r.fulfilled (λ _. v)
                (λ _.
                  if_both LeavesWellFormed
                    (not (r.event_kind == kind) || not (r.payload_bytes == bytes)) (λ _. v)
                    (λ _.
                      retry_provider-IsWellFormed source id _ now m v
                        (raised-IsRoute m.options r hops (v.routes.route id r e) h)
                        (v.routes.covered id r e))))
      ]

  open_route-IsWellFormed :
      (source id : Text) (kind bytes hops now : ℕ) (m : Mesh E)
      → 0 < hops
      → hops ≤ m.options.max_hops
      → get id m.seen.expiries ≡ some (sat_add_64 now m.options.route_ttl_ms)
      → IsWellFormed m
      → IsWellFormed (open_route source id kind bytes hops now m).0
  unfolding open_route get
  open_route-IsWellFormed source id kind bytes hops now m pos le e v =
      elim (Bool-cases (contains id m.routes.upstream_routes)) [
        | inl old ↦
            rw (old, open_route)
              (routes-IsWellFormed m _ v
                (insert_want-AreTracked m.options m.seen.expiries m.routes v.routes id _ old))
        | inr new ↦
            rw (new, open_route)
              (routes-IsWellFormed m _ v (
                let opened =
                  insert_route-AreTracked m.options m.seen.expiries m.routes v.routes id _
                    (record {
                      providers_le = omega arith;
                      alternates_distinct = tt;
                      provider_once = refl;
                      hops_pos = pos;
                      hops_le = le;
                    })
                    (rw e (omega arith)) in
                insert_want-AreTracked m.options m.seen.expiries _ opened id _ (
                  ground (
                    arith,
                    get-insert id id
                        (first_route source kind bytes hops (sat_add_64 now m.options.route_ttl_ms))
                        m.routes.upstream_routes,
                  ))))
      ]

  pub receive_inventory-IsWellFormed :
      (source id : Text) (kind bytes hops now : ℕ) (m : Mesh E)
      → now ≤ u64_max
      → IsWellFormed m
      → IsWellFormed (receive_inventory source id kind bytes hops now m).0
  unfolding receive_inventory
  receive_inventory-IsWellFormed source id kind bytes hops now m h v =
      elim (Result-cases (check_inventory m.options id kind bytes)) [
        | inr (x, e) ↦ rw (e, receive_inventory) v
        | inl (_, e) ↦
            rw (e, receive_inventory)
              (if_both LeavesWellFormed (hops == 0) (λ _. v)
                (λ some_hops.
                  if_both LeavesWellFormed (ltb m.options.max_hops hops) (λ _. v)
                    (λ few_hops.
                      if_both LeavesWellFormed (contains id m.cache.cached_events) (λ _. v)
                        (λ _.
                          if_both LeavesWellFormed (remember_inventory id now m).1
                            (λ fresh.
                              open_route-IsWellFormed source id kind bytes hops now _ (ground arith)
                                (rw (options-remember_inventory id now m) (ground arith))
                                (rw (options-remember_inventory id now m)
                                  (time-remember_inventory id now m fresh))
                                (remember_inventory-IsWellFormed m v id now h))
                            (λ seen.
                              retry_inventory-IsWellFormed source id kind bytes hops now _
                                (rw (options-remember_inventory id now m) (ground arith))
                                (remember_inventory-IsWellFormed m v id now h))))))
      ]
