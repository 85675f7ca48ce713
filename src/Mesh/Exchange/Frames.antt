-- ===== src/Mesh/Exchange/Frames.antt =====
-- Which frames are accepted, and what accepting one settles.
use nostr_pubsub.Prelude.{
  ℕ, ◌≤◌, ◌≡◌, refl, sym, subst, ◌∙◌, Bool, true, false, not, ◌||◌, some, List, [], arith,
  Option-cases, Bool-cases, inl, inr, sat_add_64,
}
use nostr_pubsub.Prelude.Map.{Text, text_key, get, contains}
use nostr_pubsub.Mesh.Types.{
  NostrEvent, frame, MeshPeer, Action, UpstreamRoute, Result, ok, err, Result-cases,
}
use nostr_pubsub.Mesh.Cache.{CachedEvent, store}
use nostr_pubsub.Mesh.Cache.Invariant.{get-store_self}
use nostr_pubsub.Mesh.State.{Mesh, validate_event_id, store_event, remember_delivered}
use nostr_pubsub.Mesh.Receive.{
  Outcome, blame, dispatch, receive, is_provider, close_route, delivery, accept_frame, finish_frame,
  check_frame, receive_frame,
}
use nostr_pubsub.Mesh.Prune.{prune}
use nostr_pubsub.Mesh.Invariant.Frames.{check_frame-IsValidated}

same_route : (r s : UpstreamRoute) → some r ≡ some s → r ≡ s
same_route r s h = cc

module _ {E : Type 0} ⦃nostr : NostrEvent E⦄ where
  -- A `WANT` for the event is out to the source, and the frame is what was announced.
  pub record IsWanted (m : Mesh E) (verify : Bool) (source id : Text) (e : E) (r : UpstreamRoute)
      : Type 0 where
    pub routed : get id m.routes.upstream_routes ≡ some r
    pub provider : is_provider r source ≡ true
    pub asked : contains id m.routes.want_forwarded ≡ true
    pub signed : verify ≡ true → nostr.verify e ≡ true
    pub same_id : nostr.id_hex e ≡ id
    pub same_kind : r.event_kind ≡ nostr.kind e
    pub same_length : nostr.json_len e ≡ some r.payload_bytes
    pub bytes_le : r.payload_bytes ≤ m.options.max_event_bytes

  -- The checks of `receive_frame`.
  pub record Passes (m : Mesh E) (verify : Bool) (source id : Text) (e : E) (r : UpstreamRoute)
      (bytes : ℕ) : Type 0 where
    pub routed : get id m.routes.upstream_routes ≡ some r
    pub wanted : contains id m.routes.want_forwarded ≡ true
    pub provider : is_provider r source ≡ true
    pub valid_id : validate_event_id id ≡ ok tt
    pub checked : check_frame verify id e r m.options ≡ ok bytes

  module _ (source id : Text) (e : E) (peers : List MeshPeer) (now : ℕ) (verify : Bool)
      (m : Mesh E) where
    finish_frame_ok :
        (r : UpstreamRoute) (c : Result ℕ) (acts : List (Action E))
        → (finish_frame source id e peers now r c m).1 ≡ ok acts
        → (bytes : ℕ) × (c ≡ ok bytes)
    unfolding finish_frame
    finish_frame_ok r (ok bytes) acts h = (bytes, refl)
    finish_frame_ok r (err x) acts h = cc

    -- What a frame that causes no error passed.
    receive_frame-Passes :
        (acts : List (Action E))
        → (receive_frame source id e peers now verify m).1 ≡ ok acts
        → (r : UpstreamRoute) × (bytes : ℕ) × Passes m verify source id e r bytes
    unfolding receive_frame
    receive_frame-Passes acts h = elim (Result-cases (validate_event_id id)) [
      | inr (x, p) ↦ absurd (ground arith)
      | inl (_, p) ↦ elim (Option-cases (get id m.routes.upstream_routes)) [
        | inl q ↦ absurd (ground arith)
        | inr (r, q) ↦
            elim (Bool-cases
              (not (contains id m.routes.want_forwarded) || not (is_provider r source))) [
                | inl b ↦ absurd (ground arith)
                | inr b ↦
                    let (bytes, c) =
                      finish_frame_ok r (check_frame verify id e r m.options) acts
                        (rw (p, q, b, receive_frame) at h) in
                    (
                      r,
                      bytes,
                      record {
                        routed = q;
                        wanted = ground arith;
                        provider = ground arith;
                        valid_id = p;
                        checked = c;
                      },
                    )
              ]
      ]
    ]

    -- If receiving a frame does not fail, there is a route on which the event was requested from
    -- the source; the frame's id is the event's own, the kind and the JSON length are the announced
    -- ones and within the limit, and the signature was verified unless the caller says that it did
    -- so.
    pub receive_frame-IsWanted :
        (acts : List (Action E))
        → (receive_frame source id e peers now verify m).1 ≡ ok acts
        → (r : UpstreamRoute) × IsWanted m verify source id e r
    receive_frame-IsWanted acts h =
        let (r, bytes, passed) = receive_frame-Passes acts h in
        let (signed, valid, kind, size) =
          check_frame-IsValidated verify id e r m.options bytes passed.checked in
        (
          r,
          record {
            routed = passed.routed;
            provider = passed.provider;
            asked = passed.wanted;
            signed = signed;
            same_id = valid.same_id;
            same_kind = kind;
            same_length = ground (arith, valid.length_eq, size);
            bytes_le = ground (arith, valid.bytes_le, size);
          },
        )

  -- The routes and the cache after an accepted frame.
  module _ (source id : Text) (e : E) (bytes : ℕ) (r : UpstreamRoute) (peers : List MeshPeer)
      (now : ℕ) (m : Mesh E) where
    abbrev pub closed : UpstreamRoute
    closed = record r { fulfilled = true; transport_disrupted_peers = [] }

    abbrev pub after_frame : Mesh E
    after_frame = (accept_frame source id e bytes r peers now m).0

    abbrev pub stored : CachedEvent E
    stored = record {
      event = e;
      expires_at_ms = sat_add_64 now m.options.event_ttl_ms;
      payload_bytes = bytes;
    }

    cache-eq-store : after_frame.cache ≡ store m.options (nostr.id_hex e) stored m.cache
    unfolding accept_frame close_route store_event delivery remember_delivered
    cache-eq-store = ground arith

    pub cache-accept_frame :
        nostr.id_hex e ≡ id → get id after_frame.cache.cached_events ≡ some stored
    cache-accept_frame h =
        rw (cache-eq-store, ← h) (get-store_self m.options (nostr.id_hex e) stored m.cache)

  -- A frame that is wanted is accepted, and one for a route that was served is ignored.
  module _ (source id : Text) (e : E) (r : UpstreamRoute) (peers : List MeshPeer) (now bytes : ℕ)
      (verify : Bool) (m : Mesh E) (q : get id m.routes.upstream_routes ≡ some r)
      (w : contains id m.routes.want_forwarded ≡ true) (p : is_provider r source ≡ true)
      (i : validate_event_id id ≡ ok tt) (c : check_frame verify id e r m.options ≡ ok bytes) where
    pub receive_frame-accepts :
        r.fulfilled ≡ false
        → receive_frame source id e peers now verify m
          ≡ accept_frame source id e bytes r peers now m
    unfolding receive_frame finish_frame
    receive_frame-accepts f = rw (i, q, w, p, c, receive_frame) (simp f)

  blame_ok :
      (source : Text) (x : Outcome E) (acts : List (Action E))
      → (blame source x).1 ≡ ok acts
      → (x.1 ≡ ok acts) × (blame source x ≡ x)
  blame_ok source (m, ok a) acts h = (h, refl)
  blame_ok source (m, err y) acts h = absurd (cc)

  -- A received frame that causes no error, on an open route, passed the checks and is accepted.
  pub receive-accepts :
      (source id : Text) (e : E) (r : UpstreamRoute) (peers : List MeshPeer) (now : ℕ) (m : Mesh E)
      (acts : List (Action E))
      → (receive source (frame id e) peers now m).1 ≡ ok acts
      → get id (prune now m).routes.upstream_routes ≡ some r
      → r.fulfilled ≡ false
      → (bytes : ℕ) × Passes (prune now m) true source id e r bytes
        × (receive source (frame id e) peers now m
            ≡ accept_frame source id e bytes r peers now (prune now m))
  unfolding receive dispatch
  receive-accepts source id e r peers now m acts h q open' =
      let k = prune now m in
      let (fine, same) = blame_ok source (receive_frame source id e peers now true k) acts h in
      let (r', bytes, found) = receive_frame-Passes source id e peers now true k acts fine in
      let here : r' ≡ r = same_route r' r (sym found.routed ∙ q) in
      let passed = subst (λ u. Passes k true source id e u bytes) here found in
      (
        bytes,
        passed,
        same
            ∙ receive_frame-accepts source id e r peers now bytes true k q passed.wanted
                passed.provider passed.valid_id passed.checked open',
      )
