-- ===== src/Mesh/Exchange/Openings.antt =====
-- How a received inventory opens a route, in crates/nostr-pubsub/src/mesh.rs.
use nostr_pubsub.Prelude.{
  ℕ, ◌≡◌, sym, subst, true, false, none, some, List, [], ◌∷◌, arith, length, leb, ltb, Bool-cases,
  inl, inr, ◌==◌, sat_add_64,
}
use nostr_pubsub.Prelude.Map.{Text, Map, text_key, get, contains, remove, get-insert, get-remove}
use nostr_pubsub.Mesh.Types.{NostrEvent, want, MeshOptions, send, UpstreamRoute, ok, Result-cases}
use nostr_pubsub.Mesh.State.{
  Mesh, Routes, validate_event_id, is_remembered, admit_seen, stamp_seen, evict_seen, forget_event,
  remove_pending_event, remember_inventory,
}
use nostr_pubsub.Mesh.Receive.{Outcome, first_route, check_inventory, open_route, receive_inventory}

-- Eviction opens no route.
evict_seen_routes :
    (limit : ℕ) (q : List Text) (w : Map Text ℕ) (r : Routes) (id : Text)
    → get id r.upstream_routes ≡ none
    → get id (evict_seen limit q w r).1.upstream_routes ≡ none
unfolding evict_seen forget_event remove_pending_event
evict_seen_routes limit [] w r id h = h
evict_seen_routes limit (k ∷ q) w r id h = elim (Bool-cases (leb limit (length w))) [
  | inr room ↦ rw (room, evict_seen) h
  | inl full ↦
      rw (full, evict_seen)
        (evict_seen_routes limit q (remove k w) (forget_event k r) id
          (ground (arith, get-remove id k r.upstream_routes)))
]

pub id_checked :
    (o : MeshOptions) (id : Text) (kind bytes : ℕ)
    → check_inventory o id kind bytes ≡ ok tt
    → validate_event_id id ≡ ok tt
unfolding check_inventory
id_checked o id kind bytes h = elim (Result-cases (validate_event_id id)) [
  | inl (_, p) ↦ p
  | inr (x, p) ↦ absurd (ground arith)
]

module _ {E : Type 0} ⦃nostr : NostrEvent E⦄ where
  abbrev pub opened : Text → ℕ → ℕ → ℕ → ℕ → Mesh E → UpstreamRoute
  opened source kind bytes hops now m =
      first_route source kind bytes hops (sat_add_64 now m.options.route_ttl_ms)

  -- The source is asked, over an open route of its own; options and deliveries stay.
  abbrev pub Opens : Text → Text → ℕ → ℕ → ℕ → ℕ → Mesh E → Outcome E → Type 0
  Opens source id kind bytes hops now m x =
      (x.1 ≡ ok (send source (want id) ∷ []))
      × (get id x.0.routes.upstream_routes ≡ some (opened source kind bytes hops now m))
      × (get id x.0.routes.want_forwarded ≡ some (sat_add_64 now m.options.route_ttl_ms))
      × (x.0.options ≡ m.options)
      × (x.0.delivered ≡ m.delivered)

  module _ (source id : Text) (kind bytes hops now : ℕ) (m : Mesh E)
      (checked : check_inventory m.options id kind bytes ≡ ok tt) (some_hops : (hops == 0) ≡ false)
      (few_hops : ltb m.options.max_hops hops ≡ false)
      (uncached : contains id m.cache.cached_events ≡ false)
      (unseen : get id m.seen.expiries ≡ none)
      (unrouted : get id m.routes.upstream_routes ≡ none) where
    abbrev after_inventory : Mesh E
    after_inventory = (receive_inventory source id kind bytes hops now m).0

    remembered : Mesh E
    remembered = stamp_seen id (sat_add_64 now m.options.route_ttl_ms) (admit_seen id m)

    not_remembered : is_remembered id now m ≡ false
    unfolding is_remembered
    not_remembered = rw (unseen, is_remembered)

    remember_unseen : remember_inventory id now m ≡ (remembered, true)
    unfolding remembered remember_inventory
    remember_unseen = rw (not_remembered, remember_inventory)

    remembered_facts :
        (get id remembered.routes.upstream_routes ≡ none)
        × (remembered.options ≡ m.options)
        × (remembered.delivered ≡ m.delivered)
    unfolding remembered admit_seen stamp_seen
    remembered_facts = ground (
      arith,
      unrouted,
      evict_seen_routes m.options.max_seen_events m.seen.order m.seen.expiries m.routes id unrouted,
    )

    receive_inventory-open_route :
        receive_inventory source id kind bytes hops now m
        ≡ open_route source id kind bytes hops now remembered
    unfolding receive_inventory
    receive_inventory-open_route =
        rw (checked, some_hops, few_hops, uncached, remember_unseen, receive_inventory)

    open_route-Opens :
        Opens source id kind bytes hops now m (open_route source id kind bytes hops now remembered)
    unfolding open_route
    open_route-Opens =
        let (none_yet, opts, deliv) = remembered_facts in
        let expires = sat_add_64 now remembered.options.route_ttl_ms in
        ground (
          arith,
          none_yet,
          opts,
          deliv,
          get-insert id id (first_route source kind bytes hops expires)
              remembered.routes.upstream_routes,
          get-insert id id expires remembered.routes.want_forwarded,
        )

    -- An inventory with acceptable id, kind, size and hops of an event that is not cached, seen or
    -- routed is answered by one request to its source, over a new route with the announced values,
    -- and leaves the options and the deliveries as they were.
    pub receive_inventory_new :
        Opens source id kind bytes hops now m (receive_inventory source id kind bytes hops now m)
    receive_inventory_new =
        subst (Opens source id kind bytes hops now m) (sym receive_inventory-open_route)
          open_route-Opens
