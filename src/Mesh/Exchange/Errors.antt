-- ===== src/Mesh/Exchange/Errors.antt =====
-- What an error of `receive` leaves, in crates/nostr-pubsub/src/mesh.rs and mesh_verified.rs.
use nostr_pubsub.Prelude.{
  ℕ, ◌≡◌, refl, ap, Bool, true, false, not, ◌||◌, List, arith, Option-cases, Bool-cases, inl, inr,
}
use nostr_pubsub.Prelude.Map.{Text, text_key, get, contains}
use nostr_pubsub.Mesh.Types.{
  NostrEvent, WireMessage, inventory, want, frame, MeshPeer, MeshError, UpstreamRoute, Result, ok,
  err, Result-cases,
}
use nostr_pubsub.Mesh.State.{Mesh, validate_event_id, record_invalid_message, remember_inventory}
use nostr_pubsub.Mesh.Prune.{prune}
use nostr_pubsub.Mesh.Receive.{
  Outcome, is_provider, open_route, retry_inventory, retry_provider, ask_again, add_provider,
  receive_inventory, forward_want, receive_want, accept_frame, finish_frame, check_frame,
  receive_frame, blame, dispatch, receive, receive_verified_frame,
}

module _ {E : Type 0} ⦃nostr : NostrEvent E⦄ where
  finish_frame_err :
      (source id : Text) (e : E) (peers : List MeshPeer) (now : ℕ) (r : UpstreamRoute)
      (c : Result ℕ) (m : Mesh E) (x : MeshError)
      → (finish_frame source id e peers now r c m).1 ≡ err x
      → (finish_frame source id e peers now r c m).0 ≡ m
  unfolding finish_frame accept_frame
  finish_frame_err source id e peers now r (ok bytes) m x h = ground arith
  finish_frame_err source id e peers now r (err y) m x h = refl

  receive_frame_err :
      (source id : Text) (e : E) (peers : List MeshPeer) (now : ℕ) (verify : Bool) (m : Mesh E)
      (x : MeshError)
      → (receive_frame source id e peers now verify m).1 ≡ err x
      → (receive_frame source id e peers now verify m).0 ≡ m
  unfolding receive_frame
  receive_frame_err source id e peers now verify m x h =
      elim (Result-cases (validate_event_id id)) [
        | inr (y, p) ↦ rw (p, receive_frame)
        | inl (_, p) ↦ elim (Option-cases (get id m.routes.upstream_routes)) [
          | inl q ↦ rw (p, q, receive_frame)
          | inr (r, q) ↦
              elim (Bool-cases
                (not (contains id m.routes.want_forwarded) || not (is_provider r source))) [
                  | inl b ↦ rw (p, q, b, receive_frame)
                  | inr b ↦
                      rw (p, q, b, receive_frame)
                        (finish_frame_err source id e peers now r
                          (check_frame verify id e r m.options) m x
                          (rw (p, q, b, receive_frame) at h))
                ]
        ]
      ]

  receive_want_err :
      (source id : Text) (now : ℕ) (m : Mesh E) (x : MeshError)
      → (receive_want source id now m).1 ≡ err x
      → (receive_want source id now m).0 ≡ m
  unfolding receive_want forward_want
  receive_want_err source id now m x h = ground arith

  retry_inventory_err :
      (source id : Text) (kind bytes hops now : ℕ) (m : Mesh E) (x : MeshError)
      → (retry_inventory source id kind bytes hops now m).1 ≡ err x
      → (retry_inventory source id kind bytes hops now m).0 ≡ m
  unfolding retry_inventory retry_provider ask_again add_provider
  retry_inventory_err source id kind bytes hops now m x h = ground arith

  receive_inventory_err :
      (source id : Text) (kind bytes hops now : ℕ) (m : Mesh E) (x : MeshError)
      → (receive_inventory source id kind bytes hops now m).1 ≡ err x
      → (receive_inventory source id kind bytes hops now m).0 ≡ m
  unfolding receive_inventory remember_inventory open_route
  receive_inventory_err source id kind bytes hops now m x h =
      ground (arith, retry_inventory_err source id kind bytes hops now m x)

  dispatch_err :
      (source : Text) (message : WireMessage E) (peers : List MeshPeer) (now : ℕ) (m : Mesh E)
      (x : MeshError)
      → (dispatch source message peers now m).1 ≡ err x
      → (dispatch source message peers now m).0 ≡ m
  unfolding dispatch
  dispatch_err source (inventory id kind bytes hops) peers now m x h =
      receive_inventory_err source id kind bytes hops now m x h
  dispatch_err source (want id) peers now m x h = receive_want_err source id now m x h
  dispatch_err source (frame id e) peers now m x h =
      receive_frame_err source id e peers now true m x h

  blame_err :
      (source : Text) (out : Outcome E) (m : Mesh E) (x : MeshError)
      → ((y : MeshError) → out.1 ≡ err y → out.0 ≡ m)
      → (blame source out).1 ≡ err x
      → (blame source out).0 ≡ record_invalid_message source m
  blame_err source (k, ok acts) m x same h = absurd (cc)
  blame_err source (k, err y) m x same h = ap (record_invalid_message source) (same y refl)

  -- A message of any kind that is received and refused with an error leaves the pruned mesh with
  -- one invalid message recorded against its source, and no other change.
  pub receive_err :
      (source : Text) (message : WireMessage E) (peers : List MeshPeer) (now : ℕ) (m : Mesh E)
      (x : MeshError)
      → (receive source message peers now m).1 ≡ err x
      → (receive source message peers now m).0 ≡ record_invalid_message source (prune now m)
  unfolding receive
  receive_err source message peers now m x h =
      blame_err source (dispatch source message peers now (prune now m)) (prune now m) x
        (λ y. dispatch_err source message peers now (prune now m) y) h

  -- A frame that a caller has verified, and that is refused, counts against its source too.
  receive_verified_frame_err :
      (source id : Text) (e : E) (peers : List MeshPeer) (now : ℕ) (m : Mesh E) (x : MeshError)
      → (receive_verified_frame source id e peers now m).1 ≡ err x
      → (receive_verified_frame source id e peers now m).0
        ≡ record_invalid_message source (prune now m)
  unfolding receive_verified_frame
  receive_verified_frame_err source id e peers now m x h =
      blame_err source (receive_frame source id e peers now false (prune now m)) (prune now m) x
        (λ y. receive_frame_err source id e peers now false (prune now m) y) h
