-- ===== src/Mesh/Publish.antt =====
-- The local entry points: `publish` and `replay_to_peer` of crates/nostr-pubsub/src/mesh.rs, and
-- `seed_verified`, `replay_cached_to_peer`, `publish_verified` and `replay_verified_to_peer` of
-- crates/nostr-pubsub/src/mesh_verified.rs.
use nostr_pubsub.Prelude.{ℕ, Bool, none, some, List, [], ◌∷◌, if◌then◌else◌}
use nostr_pubsub.Prelude.Map.{Text, Map, text_key, get}
use nostr_pubsub.Mesh.Types.{
  NostrEvent, inventory, MeshPeer, Action, send, MeshOptions, Result, ok, err,
}
use nostr_pubsub.Mesh.Cache.{CachedEvent}
use nostr_pubsub.Mesh.State.{
  Mesh, validate_verified_event, validate_event, store_event, remember_inventory,
  send_to_selected_peers,
}
use nostr_pubsub.Mesh.Prune.{prune}
use nostr_pubsub.Mesh.Receive.{Outcome}

module _ {E : Type 0} ⦃nostr : NostrEvent E⦄ where
  -- `validate_event`, or `validate_verified_event` where the signature was checked before.
  abbrev pub validate : Bool → MeshOptions → E → Result (Text × ℕ)
  validate verify o e = if verify then validate_event o e else validate_verified_event o e

  -- `publish`, and `publish_verified` where the flag is `false`.
  unfoldable pub publish : Bool → E → List MeshPeer → ℕ → Mesh E → Outcome E
  publish verify e peers now m =
      let pruned = prune now m in
      elim (validate verify pruned.options e) [
        | err x ↦ (pruned, err x)
        | ok (id, bytes) ↦
            let (m', fresh) = remember_inventory id now (store_event e bytes now pruned) in
            (
              m',
              ok (
                  if fresh
                  then send_to_selected_peers m' peers none
                      (inventory id (nostr.kind e) bytes m'.options.max_hops)
                  else []),
            )
      ]

  -- `replay_to_peer`, and `replay_verified_to_peer` where the flag is `false`.
  unfoldable pub replay_to_peer : Bool → E → Text → ℕ → Mesh E → Outcome E
  replay_to_peer verify e peer now m =
      let pruned = prune now m in
      elim (validate verify pruned.options e) [
        | err x ↦ (pruned, err x)
        | ok (id, bytes) ↦
            let m' = store_event e bytes now pruned in
            (m', ok (send peer (inventory id (nostr.kind e) bytes m'.options.max_hops) ∷ []))
      ]

  unfoldable pub seed_verified : E → ℕ → Mesh E → Mesh E × Result (Unit {0})
  seed_verified e now m =
      let pruned = prune now m in
      elim (validate_verified_event pruned.options e) [
        | err x ↦ (pruned, err x)
        | ok (id, bytes) ↦ (store_event e bytes now pruned, ok tt)
      ]

  -- The `filter_map` of `replay_cached_to_peer` over the queue.
  unfoldable pub cached_inventories :
      Text → ℕ → Map Text (CachedEvent E) → List Text → List (Action E)
  cached_inventories peer hops events [] = []
  cached_inventories peer hops events (id ∷ order) = elim (get id events) [
    | none ↦ cached_inventories peer hops events order
    | some c ↦
        send peer (inventory id (nostr.kind c.event) c.payload_bytes hops)
        ∷ cached_inventories peer hops events order
  ]

  unfoldable pub replay_cached_to_peer : Text → ℕ → Mesh E → Mesh E × List (Action E)
  replay_cached_to_peer peer now m =
      let pruned = prune now m in
      (
        pruned,
        cached_inventories peer pruned.options.max_hops pruned.cache.cached_events
            pruned.cache.cache_order,
      )
