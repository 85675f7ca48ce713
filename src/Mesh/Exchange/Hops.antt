-- ===== src/Mesh/Exchange/Hops.antt =====
-- How far an inventory travels: what `receive_frame` of crates/nostr-pubsub/src/mesh.rs announces.
use nostr_pubsub.Prelude.{
  ℕ, ◌+◌, ◌-◌, ◌≤◌, ◌<◌, ◌≡◌, refl, false, some, List, [], ◌∷◌, arith, All, keep, length, map, ltb,
  if◌then◌else◌, Bool-cases, inl, inr,
}
use nostr_pubsub.Prelude.Map.{Text, text_key, eqb}
use nostr_pubsub.Mesh.Types.{
  NostrEvent, WireMessage, inventory, MeshPeer, Action, send, deliver, UpstreamRoute,
}
use nostr_pubsub.Mesh.Behavior.{peers_with_behavior}
use nostr_pubsub.Mesh.Select.{is_allowed, select_mesh_peers}
use nostr_pubsub.Mesh.Select.Members.{occurs, is_offered, occurs-select_mesh_peers}
use nostr_pubsub.Mesh.Select.Unknowns.{select_mesh_peers_counts}
use nostr_pubsub.Mesh.State.{Mesh, send_to_selected_peers}
use nostr_pubsub.Mesh.Receive.{announce_further}

-- How often a message goes to the peer.
abbrev pub addressed : {E : Type 0} → Text → List (Action E) → ℕ
addressed i [] = 0
addressed i (send p w ∷ acts) = (if eqb i p then 1 else 0) + addressed i acts
addressed i (deliver p e ∷ acts) = addressed i acts

-- An inventory of the event, whose hop limit is positive and below the given one.
abbrev pub Lowers : {E : Type 0} → Text → ℕ → Action E → Type 0
Lowers id hops (send p (inventory i kind bytes h)) = (i ≡ id) × (0 < h) × (h < hops)
Lowers id hops _ = ⊥

is_offered_excluded :
    (i : Text) (ps : List MeshPeer) → is_offered i (keep (is_allowed (some i)) ps) ≡ false
is_offered_excluded i [] = refl
is_offered_excluded i (p ∷ ps) = ground (arith, is_offered_excluded i ps)

All-map_send :
    (E : Type 0) (id : Text) (kind bytes h hops : ℕ) (ps : List MeshPeer)
    → 0 < h
    → h < hops
    → All
        (Lowers {E = E} id hops)
        (map (λ (p : MeshPeer). send p.id (inventory id kind bytes h)) ps)
All-map_send E id kind bytes h hops [] a b = tt
All-map_send E id kind bytes h hops (p ∷ ps) a b =
    ((refl, a, b), All-map_send E id kind bytes h hops ps a b)

module _ {E : Type 0} where
  addressed-map :
      (i : Text) (w : WireMessage E) (ps : List MeshPeer)
      → addressed i (map (λ (p : MeshPeer). send p.id w) ps) ≡ occurs i ps
  addressed-map i w [] = refl
  addressed-map i w (p ∷ ps) = ground (arith, addressed-map i w ps)

  length-map_send :
      (w : WireMessage E) (ps : List MeshPeer)
      → length (map (λ (p : MeshPeer). send p.id w) ps) ≡ length ps
  length-map_send w [] = refl
  length-map_send w (p ∷ ps) = omega (arith, length-map_send w ps)

module _ {E : Type 0} ⦃nostr : NostrEvent E⦄ where
  -- What an accepted frame announces further are inventories of its id with a positive hop limit
  -- below the route's, to each peer at most once, never to the frame's source, and to no more peers
  -- than the fanout.
  pub announce_further-Lowers :
      (source id : Text) (e : E) (bytes : ℕ) (r : UpstreamRoute) (peers : List MeshPeer)
      (m : Mesh E)
      → let acts = announce_further source id e bytes r peers m in
        All (Lowers id r.hop_limit) acts
        × (addressed source acts ≡ 0)
        × ((peer : Text) → addressed peer acts ≤ 1)
        × (length acts ≤ m.options.fanout)
  unfolding announce_further send_to_selected_peers
  announce_further-Lowers source id e bytes r peers m =
      let offered = peers_with_behavior m.behaviors peers in
      let chosen =
        select_mesh_peers offered (some source) m.options.fanout m.options.unknown_peer_reserve in
      let w : WireMessage E = inventory id (nostr.kind e) bytes (r.hop_limit - 1) in
      let once = λ (i : Text).
        occurs-select_mesh_peers i offered (some source) m.options.fanout
          m.options.unknown_peer_reserve in
      elim (Bool-cases (ltb 1 r.hop_limit)) [
        | inr b ↦ rw (b, announce_further) (tt, refl, λ peer. omega arith, omega arith)
        | inl b ↦
            rw (b, announce_further)
              (
                All-map_send E id (nostr.kind e) bytes (r.hop_limit - 1) r.hop_limit chosen
                    (ground arith) (ground arith),
                ground (
                  arith,
                  addressed-map source w chosen,
                  (once source).0,
                  is_offered_excluded source offered,
                ),
                λ peer. ground (arith, addressed-map peer w chosen, (once peer).0),
                ground (
                  arith,
                  length-map_send w chosen,
                  (select_mesh_peers_counts offered (some source) m.options.fanout
                      m.options.unknown_peer_reserve).0,
                ),
              )
      ]
