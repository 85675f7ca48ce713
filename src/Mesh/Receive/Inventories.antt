-- ===== src/Mesh/Receive/Inventories.antt =====
-- `receive_inventory` of crates/nostr-pubsub/src/mesh.rs: an inventory that is new, and one that was
-- seen before.
use nostr_pubsub.Prelude.{
  ℕ, ◌+◌, false, not, ◌||◌, none, some, [], ◌∷◌, max, if◌then◌else◌, ltb, leb, ◌==◌, length,
  sat_add_64,
}
use nostr_pubsub.Prelude.Map.{Text, Map, text_key, get, contains, insert, remove}
use nostr_pubsub.Mesh.Types.{
  want, MeshOptions, send, UpstreamRoute, hop_limit_exceeded, changed_inventory, Result, ok, err,
  ◌>>◌,
}
use nostr_pubsub.Mesh.State.{
  Mesh, validate_event_id, validate_kind, validate_event_len, remember_inventory,
}
use nostr_pubsub.Mesh.Receive.Providers.{is_provider, Outcome, set_route}

abbrev pub max_upstream_providers_per_event : ℕ
max_upstream_providers_per_event = 3

-- The route that a new inventory opens.
abbrev pub first_route : Text → ℕ → ℕ → ℕ → ℕ → UpstreamRoute
first_route source kind bytes hops expires = record {
  peer_id = source;
  alternate_peers = [];
  transport_disrupted_peers = [];
  event_kind = kind;
  payload_bytes = bytes;
  hop_limit = hops;
  expires_at_ms = expires;
  fulfilled = false;
}

-- `entry(..).or_insert_with(..)` on the routes.
abbrev or_insert_route : Text → UpstreamRoute → Map Text UpstreamRoute → Map Text UpstreamRoute
or_insert_route id r m = if contains id m then m else insert id r m

unfoldable pub check_inventory : MeshOptions → Text → ℕ → ℕ → Result (Unit {0})
check_inventory o id kind bytes = do
  validate_event_id id
  validate_kind o kind
  validate_event_len o bytes

module _ {E : Type 0} where
  -- The end of a retried inventory: the source is asked, and no longer excused.
  unfoldable pub ask_again : Text → Text → UpstreamRoute → Mesh E → Outcome E
  ask_again source id r m = (
    set_route id
        (record r { transport_disrupted_peers = remove source r.transport_disrupted_peers }) m,
    ok (send source (want id) ∷ []),
  )

  -- A further provider joins the route, whose times start again.
  unfoldable pub add_provider : Text → Text → UpstreamRoute → ℕ → Mesh E → Outcome E
  add_provider source id r now m =
      let expires = sat_add_64 now m.options.route_ttl_ms in
      let r' = record r {
        alternate_peers = insert source tt r.alternate_peers;
        expires_at_ms = expires;
      } in
      ask_again source id r' (record m {
        seen = record (m.seen) { expiries = insert id expires m.seen.expiries };
        routes = record (m.routes) { want_forwarded = insert id expires m.routes.want_forwarded };
      })

  -- The route, its hop limit raised: a known provider is asked again, and a new one joins if there is
  -- room.
  unfoldable pub retry_provider : Text → Text → UpstreamRoute → ℕ → Mesh E → Outcome E
  retry_provider source id r now m =
      if is_provider r source
      then ask_again source id r m
      else (if leb max_upstream_providers_per_event (length r.alternate_peers + 1)
          then (set_route id r m, ok [])
          else add_provider source id r now m)

  -- An inventory that was seen before.
  unfoldable pub retry_inventory : Text → Text → ℕ → ℕ → ℕ → ℕ → Mesh E → Outcome E
  retry_inventory source id kind bytes hops now m = elim (get id m.routes.upstream_routes) [
    | none ↦ (m, ok [])
    | some r ↦
        if r.fulfilled
        then (m, ok [])
        else (if not (r.event_kind == kind) || not (r.payload_bytes == bytes)
            then (m, err changed_inventory)
            else retry_provider source id (record r { hop_limit = max r.hop_limit hops }) now m)
  ]

  -- An inventory that is new.
  unfoldable pub open_route : Text → Text → ℕ → ℕ → ℕ → ℕ → Mesh E → Outcome E
  open_route source id kind bytes hops now m =
      let expires = sat_add_64 now m.options.route_ttl_ms in
      let r = first_route source kind bytes hops expires in
      (
        record m {
          routes = record (m.routes) {
            upstream_routes = or_insert_route id r m.routes.upstream_routes;
            want_forwarded = insert id expires m.routes.want_forwarded;
          };
        },
        ok (send source (want id) ∷ []),
      )

  unfoldable pub receive_inventory : Text → Text → ℕ → ℕ → ℕ → ℕ → Mesh E → Outcome E
  receive_inventory source id kind bytes hops now m =
      elim (check_inventory m.options id kind bytes) [
        | err e ↦ (m, err e)
        | ok _ ↦
            if hops == 0
            then (m, ok [])
            else (if ltb m.options.max_hops hops
                then (m, err (hop_limit_exceeded hops))
                else (if contains id m.cache.cached_events
                    then (m, ok [])
                    else (let (m', fresh) = remember_inventory id now m in
                        if fresh
                        then open_route source id kind bytes hops now m'
                        else retry_inventory source id kind bytes hops now m')))
      ]
