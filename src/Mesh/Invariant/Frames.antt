-- ===== src/Mesh/Invariant/Frames.antt =====
-- Received frames keep the mesh well formed.
use nostr_pubsub.Prelude.{
  ℕ, ◌≤◌, ◌≡◌, refl, Bool, true, false, not, ◌||◌, some, List, arith, u64_max, Option-cases, inl,
  inr, if◌then◌else◌, if_both,
}
use nostr_pubsub.Prelude.Map.{Text, text_key, get, contains}
use nostr_pubsub.Mesh.Types.{
  NostrEvent, WireMessage, inventory, want, frame, MeshPeer, MeshOptions, UpstreamRoute, ok, err,
  Result-cases,
}
use nostr_pubsub.Prelude.Int.{ℤ}
use nostr_pubsub.Mesh.Behavior.{
  record_peer_behavior, Evidence, valid_frame_reward, invalid_message_penalty,
}
use nostr_pubsub.Mesh.Behavior.Bounds.{record_peer_behavior-AreTallied}
use nostr_pubsub.Mesh.State.{
  Mesh, validate_event_id, validate_event, validate_verified_event, store_event,
  record_invalid_message, remove_pending_event,
}
use nostr_pubsub.Mesh.Receive.{
  Outcome, is_provider, close_route, delivery, accept_frame, finish_frame, check_frame,
  receive_frame, blame, dispatch, receive,
}
use nostr_pubsub.Mesh.Invariant.{IsWellFormed, IdFixesLength}
use nostr_pubsub.Mesh.Invariant.Tracking.{insert_route-AreTracked, remove_pending_event-AreTracked}
use nostr_pubsub.Mesh.Invariant.Windows.{remember_delivered-IsWellFormed}
use nostr_pubsub.Mesh.Invariant.Entries.{
  IsValidated, validate_verified_event-IsValidated, validate_event-IsValidated,
  store_event-IsWellFormed, prune-IsWellFormed,
}
use nostr_pubsub.Mesh.Invariant.Inventories.{receive_inventory-IsWellFormed}
use nostr_pubsub.Mesh.Invariant.Wants.{receive_want-IsWellFormed}
use nostr_pubsub.Mesh.Invariant.Steps.{with_routes, routes-IsWellFormed, LeavesWellFormed}

module _ {E : Type 0} ⦃nostr : NostrEvent E⦄ where
  pub credit-IsWellFormed :
      (peer : Text) (delta : ℤ) (e : Evidence) (m : Mesh E)
      → IsWellFormed m
      → IsWellFormed (record m { behaviors = record_peer_behavior peer delta e m.behaviors })
  credit-IsWellFormed peer delta e m v = record {
    usable = v.usable;
    cache = v.cache;
    content = v.content;
    seen = v.seen;
    delivered = v.delivered;
    routes = v.routes;
    behaviors = record_peer_behavior-AreTallied peer m.behaviors v.behaviors delta e;
  }

  pub close_route-IsWellFormed :
      (id : Text) (r : UpstreamRoute) (m : Mesh E)
      → get id m.routes.upstream_routes ≡ some r
      → IsWellFormed m
      → IsWellFormed (close_route id r m)
  unfolding close_route
  close_route-IsWellFormed id r m here v =
      let fit = v.routes.route id r here in
      routes-IsWellFormed m _ v (
        insert_route-AreTracked m.options m.seen.expiries m.routes v.routes id _
          (record {
            providers_le = fit.providers_le;
            alternates_distinct = fit.alternates_distinct;
            provider_once = fit.provider_once;
            hops_pos = fit.hops_pos;
            hops_le = fit.hops_le;
          })
          (v.routes.covered id r here))

  pub drop_pending-IsWellFormed :
      (id : Text) (m : Mesh E)
      → IsWellFormed m
      → IsWellFormed (with_routes m (remove_pending_event id m.routes))
  drop_pending-IsWellFormed id m v =
      routes-IsWellFormed m _ v
        (remove_pending_event-AreTracked m.options m.seen.expiries m.routes v.routes id)

  delivery-IsWellFormed :
      (source id : Text) (e : E) (now : ℕ) (m : Mesh E)
      → IsWellFormed m
      → IsWellFormed (delivery source id e now m).0
  unfolding delivery
  delivery-IsWellFormed source id e now m v = remember_delivered-IsWellFormed m v id now

  pub either-IsValidated :
      (verify : Bool) (o : MeshOptions) (e : E) (id : Text) (bytes : ℕ)
      → (if verify then validate_event o e else validate_verified_event o e) ≡ ok (id, bytes)
      → (verify ≡ true → nostr.verify e ≡ true) × IsValidated o e id bytes
  either-IsValidated true o e id bytes h =
      let (signed, valid) = validate_event-IsValidated o e h in (λ _. signed, valid)
  either-IsValidated false o e id bytes h = (λ x. cc, validate_verified_event-IsValidated o e h)

  -- Only a frame that passed the checks is stored: its signature where it is to be verified, its id,
  -- its size and its kind.
  pub check_frame-IsValidated :
      (verify : Bool) (id : Text) (e : E) (r : UpstreamRoute) (o : MeshOptions) (bytes : ℕ)
      → check_frame verify id e r o ≡ ok bytes
      → (verify ≡ true → nostr.verify e ≡ true)
        × IsValidated o e id bytes
        × (r.event_kind ≡ nostr.kind e)
        × (r.payload_bytes ≡ bytes)
  unfolding check_frame
  check_frame-IsValidated verify id e r o bytes h =
      elim (Result-cases (if verify then validate_event o e else validate_verified_event o e)) [
        | inr (x, q) ↦ absurd (ground arith)
        | inl ((id', b), q) ↦
            let (signed, valid) = either-IsValidated verify o e id' b q in
            let shape : (id' ≡ id)
                × (b ≡ bytes)
                × (r.event_kind ≡ nostr.kind e)
                × (r.payload_bytes ≡ bytes) =
              ground arith in
            (signed, ground (arith, valid), shape.2, shape.3)
      ]

  accept_frame-IsWellFormed :
      (source id : Text) (e : E) (bytes : ℕ) (r : UpstreamRoute) (peers : List MeshPeer) (now : ℕ)
      (m : Mesh E)
      → IdFixesLength nostr
      → nostr.verify e ≡ true
      → IsValidated m.options e id bytes
      → get id m.routes.upstream_routes ≡ some r
      → IsWellFormed m
      → IsWellFormed (accept_frame source id e bytes r peers now m).0
  unfolding accept_frame store_event
  accept_frame-IsWellFormed source id e bytes r peers now m fixes signed valid here v =
      drop_pending-IsWellFormed id _ (
        delivery-IsWellFormed source id e now _ (
          close_route-IsWellFormed id r _ here (
            store_event-IsWellFormed e bytes now _ fixes signed
              (record { same_id = refl; length_eq = valid.length_eq; bytes_le = valid.bytes_le })
              (credit-IsWellFormed source valid_frame_reward Evidence.valid_frame m v))))

  -- An event is verified by a check, or comes with its proof.
  pub is_signed :
      (verify : Bool) (e : E)
      → (verify || nostr.verify e) ≡ true
      → (verify ≡ true → nostr.verify e ≡ true)
      → nostr.verify e ≡ true
  is_signed true e proven signed = signed refl
  is_signed false e proven signed = proven

  pub receive_frame-IsWellFormed :
      (source id : Text) (e : E) (peers : List MeshPeer) (now : ℕ) (verify : Bool) (m : Mesh E)
      → IdFixesLength nostr
      → (verify || nostr.verify e) ≡ true
      → IsWellFormed m
      → IsWellFormed (receive_frame source id e peers now verify m).0
  unfolding receive_frame finish_frame
  receive_frame-IsWellFormed source id e peers now verify m fixes proven v =
      elim (Result-cases (validate_event_id id)) [
        | inr (x, p) ↦ rw (p, receive_frame) v
        | inl (_, p) ↦ elim (Option-cases (get id m.routes.upstream_routes)) [
          | inl q ↦ rw (p, q, receive_frame) v
          | inr (r, q) ↦
              rw (p, q, receive_frame)
                (if_both LeavesWellFormed
                  (not (contains id m.routes.want_forwarded) || not (is_provider r source)) (λ _. v)
                  (λ _. checked-IsWellFormed r q))
        ]
      ]
    where
      checked-IsWellFormed :
          (r : UpstreamRoute)
          → get id m.routes.upstream_routes ≡ some r
          → IsWellFormed
              (finish_frame source id e peers now r (check_frame verify id e r m.options) m).0
      checked-IsWellFormed r q = elim (Result-cases (check_frame verify id e r m.options)) [
        | inr (x, c) ↦ rw c v
        | inl (bytes, c) ↦ rw c (
            if_both LeavesWellFormed r.fulfilled (λ _. v)
              (λ _.
                let (signed, valid, kind, size) =
                  check_frame-IsValidated verify id e r m.options bytes c in
                accept_frame-IsWellFormed source id e bytes r peers now m fixes
                  (is_signed verify e proven signed) valid q v))
      ]

  -- Whatever a handler returns, an error counts against the source and nothing else changes.
  pub blame-IsWellFormed :
      (source : Text) (x : Outcome E) → IsWellFormed x.0 → IsWellFormed (blame source x).0
  unfolding record_invalid_message
  blame-IsWellFormed source (m, ok actions) v = v
  blame-IsWellFormed source (m, err x) v =
      credit-IsWellFormed source invalid_message_penalty Evidence.invalid_message m v

  dispatch-IsWellFormed :
      (source : Text) (message : WireMessage E) (peers : List MeshPeer) (now : ℕ) (m : Mesh E)
      → IdFixesLength nostr
      → now ≤ u64_max
      → IsWellFormed m
      → IsWellFormed (dispatch source message peers now m).0
  unfolding dispatch
  dispatch-IsWellFormed source (inventory id kind bytes hops) peers now m fixes h v =
      receive_inventory-IsWellFormed source id kind bytes hops now m h v
  dispatch-IsWellFormed source (want id) peers now m fixes h v =
      receive_want-IsWellFormed source id now m v
  dispatch-IsWellFormed source (frame id e) peers now m fixes h v =
      receive_frame-IsWellFormed source id e peers now true m fixes refl v

  -- Every received message, valid or not, leaves a well-formed mesh well formed.
  pub receive-IsWellFormed :
      (source : Text) (message : WireMessage E) (peers : List MeshPeer) (now : ℕ) (m : Mesh E)
      → IdFixesLength nostr
      → now ≤ u64_max
      → IsWellFormed m
      → IsWellFormed (receive source message peers now m).0
  unfolding receive
  receive-IsWellFormed source message peers now m fixes h v =
      blame-IsWellFormed source _
        (dispatch-IsWellFormed source message peers now _ fixes h (prune-IsWellFormed now m v))
