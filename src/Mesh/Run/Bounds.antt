-- ===== src/Mesh/Run/Bounds.antt =====
-- No history of calls makes the mesh exceed its bounds.
use nostr_pubsub.Prelude.{
  ℕ, ◌*◌, ◌≤◌, ◌≡◌, refl, Bool, true, false, not, ◌&&◌, ◌||◌, List, [], ◌∷◌, All, u64_max, arith,
  if_both, Option-cases, inl, inr,
}
use nostr_pubsub.Prelude.Map.{Text, text_key, get}
use nostr_pubsub.Prelude.Map.Size.{length-le_of_keys}
use nostr_pubsub.Mesh.Types.{NostrEvent, MeshPeer, MeshOptions, ok, Result-cases}
use nostr_pubsub.Mesh.Behavior.{Evidence, invalid_message_penalty, max_tracked_peer_behaviors}
use nostr_pubsub.Mesh.State.{
  Mesh, new, record_invalid_message, validate_verified_event, store_event,
}
use nostr_pubsub.Mesh.Prune.{prune}
use nostr_pubsub.Mesh.Receive.{
  is_provider, receive_verified_frame, dismiss_frame, record_transport_disruption,
}
use nostr_pubsub.Mesh.Publish.{
  validate, publish, replay_to_peer, seed_verified, replay_cached_to_peer,
}
use nostr_pubsub.Mesh.Invariant.{IsWellFormed, IdFixesLength}
use nostr_pubsub.Mesh.Invariant.Tracking.{insert_route-AreTracked, routes-le-seen, pending-le-mul}
use nostr_pubsub.Mesh.Invariant.Windows.{remember_inventory-IsWellFormed}
use nostr_pubsub.Mesh.Invariant.Entries.{
  AreRepresentable, IsValidated, new-IsWellFormed, prune-IsWellFormed, store_event-IsWellFormed,
  validate_verified_event-IsValidated,
}
use nostr_pubsub.Mesh.Invariant.Steps.{routes-IsWellFormed}
use nostr_pubsub.Mesh.Invariant.Frames.{
  either-IsValidated, is_signed, credit-IsWellFormed, close_route-IsWellFormed,
  drop_pending-IsWellFormed, receive_frame-IsWellFormed, blame-IsWellFormed, receive-IsWellFormed,
}
use nostr_pubsub.Mesh.Run.{
  Call, receives, receives_verified, publishes, replays, seeds, replays_cached, maintains,
  dismisses, disrupts, blames, time_of, is_proven, step, run, RetainedState, retained_state,
}

module _ {E : Type 0} ⦃nostr : NostrEvent E⦄ (fixes : IdFixesLength nostr) where
  stored-IsWellFormed :
      (e : E) (id : Text) (bytes now : ℕ) (m : Mesh E)
      → nostr.verify e ≡ true
      → IsValidated m.options e id bytes
      → IsWellFormed m
      → IsWellFormed (store_event e bytes now m)
  stored-IsWellFormed e id bytes now m signed valid v =
      store_event-IsWellFormed e bytes now m fixes signed
        (record { same_id = refl; length_eq = valid.length_eq; bytes_le = valid.bytes_le }) v

  checked-IsWellFormed :
      (verify : Bool) (e : E) (id : Text) (bytes now : ℕ) (m : Mesh E)
      → (verify || nostr.verify e) ≡ true
      → validate verify m.options e ≡ ok (id, bytes)
      → IsWellFormed m
      → IsWellFormed (store_event e bytes now m)
  checked-IsWellFormed verify e id bytes now m proven q v =
      let (signed, valid) = either-IsValidated verify m.options e id bytes q in
      stored-IsWellFormed e id bytes now m (is_signed verify e proven signed) valid v

  publish-IsWellFormed :
      (verify : Bool) (e : E) (peers : List MeshPeer) (now : ℕ) (m : Mesh E)
      → (verify || nostr.verify e) ≡ true
      → now ≤ u64_max
      → IsWellFormed m
      → IsWellFormed (publish verify e peers now m).0
  unfolding publish
  publish-IsWellFormed verify e peers now m proven h v =
      let w = prune-IsWellFormed now m v in
      elim (Result-cases (validate verify (prune now m).options e)) [
        | inr (x, q) ↦ rw (q, publish) w
        | inl ((id, bytes), q) ↦
            rw (q, publish)
              (remember_inventory-IsWellFormed _
                (checked-IsWellFormed verify e id bytes now _ proven q w) id now h)
      ]

  replay_to_peer-IsWellFormed :
      (verify : Bool) (e : E) (peer : Text) (now : ℕ) (m : Mesh E)
      → (verify || nostr.verify e) ≡ true
      → IsWellFormed m
      → IsWellFormed (replay_to_peer verify e peer now m).0
  unfolding replay_to_peer
  replay_to_peer-IsWellFormed verify e peer now m proven v =
      let w = prune-IsWellFormed now m v in
      elim (Result-cases (validate verify (prune now m).options e)) [
        | inr (x, q) ↦ rw (q, replay_to_peer) w
        | inl ((id, bytes), q) ↦
            rw (q, replay_to_peer) (checked-IsWellFormed verify e id bytes now _ proven q w)
      ]

  seed_verified-IsWellFormed :
      (e : E) (now : ℕ) (m : Mesh E)
      → nostr.verify e ≡ true
      → IsWellFormed m
      → IsWellFormed (seed_verified e now m).0
  unfolding seed_verified
  seed_verified-IsWellFormed e now m signed v =
      let w = prune-IsWellFormed now m v in
      elim (Result-cases (validate_verified_event (prune now m).options e)) [
        | inr (x, q) ↦ rw (q, seed_verified) w
        | inl ((id, bytes), q) ↦
            rw (q, seed_verified)
              (stored-IsWellFormed e id bytes now _ signed
                (validate_verified_event-IsValidated (prune now m).options e q) w)
      ]

  dismiss_frame-IsWellFormed :
      (peer id : Text) (m : Mesh E) → IsWellFormed m → IsWellFormed (dismiss_frame peer id m)
  unfolding dismiss_frame
  dismiss_frame-IsWellFormed peer id m v = elim (Option-cases (get id m.routes.upstream_routes)) [
    | inl q ↦ rw (q, dismiss_frame) v
    | inr (r, q) ↦
        rw (q, dismiss_frame)
          (if_both IsWellFormed (is_provider r peer)
            (λ _. drop_pending-IsWellFormed id _ (close_route-IsWellFormed id r m q v)) (λ _. v))
  ]

  record_transport_disruption-IsWellFormed :
      (peer id : Text) (m : Mesh E)
      → IsWellFormed m
      → IsWellFormed (record_transport_disruption peer id m).0
  unfolding record_transport_disruption
  record_transport_disruption-IsWellFormed peer id m v =
      elim (Option-cases (get id m.routes.upstream_routes)) [
        | inl q ↦ rw (q, record_transport_disruption) v
        | inr (r, q) ↦
            let fit = v.routes.route id r q in
            rw (q, record_transport_disruption)
              (if_both (λ (x : Mesh E × Bool). IsWellFormed x.0)
                (not r.fulfilled && is_provider r peer)
                (λ _. routes-IsWellFormed m _ v (
                  insert_route-AreTracked m.options m.seen.expiries m.routes v.routes id _
                    (record {
                      providers_le = fit.providers_le;
                      alternates_distinct = fit.alternates_distinct;
                      provider_once = fit.provider_once;
                      hops_pos = fit.hops_pos;
                      hops_le = fit.hops_le;
                    })
                    (v.routes.covered id r q)))
                (λ _. v))
      ]

  -- Each public call keeps the mesh well formed.
  step-IsWellFormed :
      (c : Call E) (m : Mesh E)
      → time_of c ≤ u64_max
      → is_proven c ≡ true
      → IsWellFormed m
      → IsWellFormed (step c m)
  unfolding step receive_verified_frame replay_cached_to_peer record_invalid_message
  step-IsWellFormed (receives source message peers now) m h p v =
      receive-IsWellFormed source message peers now m fixes h v
  step-IsWellFormed (receives_verified source id e peers now) m h p v =
      blame-IsWellFormed source _ (
        receive_frame-IsWellFormed source id e peers now false _ fixes p
          (prune-IsWellFormed now m v))
  step-IsWellFormed (publishes verify e peers now) m h p v =
      publish-IsWellFormed verify e peers now m p h v
  step-IsWellFormed (replays verify e peer now) m h p v =
      replay_to_peer-IsWellFormed verify e peer now m p v
  step-IsWellFormed (seeds e now) m h p v = seed_verified-IsWellFormed e now m p v
  step-IsWellFormed (replays_cached peer now) m h p v = prune-IsWellFormed now m v
  step-IsWellFormed (maintains now) m h p v = prune-IsWellFormed now m v
  step-IsWellFormed (dismisses peer id) m h p v = dismiss_frame-IsWellFormed peer id m v
  step-IsWellFormed (disrupts peer id) m h p v =
      record_transport_disruption-IsWellFormed peer id m v
  step-IsWellFormed (blames peer) m h p v =
      credit-IsWellFormed peer invalid_message_penalty Evidence.invalid_message m v

  run-IsWellFormed :
      (cs : List (Call E)) (m : Mesh E)
      → All (λ c. time_of c ≤ u64_max) cs
      → All (λ c. is_proven c ≡ true) cs
      → IsWellFormed m
      → IsWellFormed (run cs m)
  unfolding run
  run-IsWellFormed [] m h p v = v
  run-IsWellFormed (c ∷ cs) m h p v =
      run-IsWellFormed cs (step c m) h.1 p.1 (step-IsWellFormed c m h.0 p.0 v)

  -- If the id of a verified event fixes its JSON length, then after any list of public calls on a
  -- new mesh, whose events are verified where the call takes a verified event, with clock values
  -- that fit 64 bits and byte limits and the product of the seen and pending limits below the
  -- maximum of 64 bits, the mesh is well formed: cache, windows, routes, pending peers, forwarded
  -- requests and peer scores are in step and within the options, and each cached event is verified.
  pub run-new-IsWellFormed :
      (o : MeshOptions) (cs : List (Call E))
      → AreRepresentable o
      → All (λ c. time_of c ≤ u64_max) cs
      → All (λ c. is_proven c ≡ true) cs
      → IsWellFormed (run cs (new o))
  run-new-IsWellFormed o cs rep h p = run-IsWellFormed cs (new o) h p (new-IsWellFormed o rep)

-- The limits on what a mesh with these options retains.
pub record IsWithin (o : MeshOptions) (s : RetainedState) : Type 0 where
  pub events_le : s.cached_events ≤ o.max_cached_events
  pub bytes_le : s.cached_event_bytes ≤ o.max_cached_event_bytes
  pub seen_le : s.seen_inventories ≤ o.max_seen_events
  pub delivered_le : s.delivered_events ≤ o.max_seen_events
  pub routes_le : s.upstream_routes ≤ o.max_seen_events
  pub pending_events_le : s.pending_events ≤ o.max_seen_events
  pub pending_peers_le : s.pending_peers ≤ o.max_seen_events * o.max_pending_peers_per_event
  pub wants_le : s.forwarded_wants ≤ o.max_seen_events
  pub behaviors_le : s.peer_behaviors ≤ max_tracked_peer_behaviors

module _ {E : Type 0} ⦃nostr : NostrEvent E⦄ where
  -- What a well-formed mesh reports as retained is within its options: events and their bytes, seen
  -- and delivered windows, routes, pending events and peers, forwarded requests, and at most 4096
  -- peer scores.
  pub retained_state-IsWithin :
      (m : Mesh E) → IsWellFormed m → IsWithin m.options (retained_state m)
  unfolding retained_state
  retained_state-IsWithin m v =
      let t = v.routes in
      let few = routes-le-seen m.options m.seen.expiries m.routes t v.seen.synced.distinct in
      let pending =
        length-le_of_keys m.routes.pending_downstream m.routes.upstream_routes t.pending_routed
          t.pending_distinct t.routes_distinct in
      let wants =
        length-le_of_keys m.routes.want_forwarded m.routes.upstream_routes t.wants_routed
          t.wants_distinct t.routes_distinct in
      record {
        events_le = v.cache.count_le;
        bytes_le = v.cache.bytes_le;
        seen_le = v.seen.count_le;
        delivered_le = v.delivered.count_le;
        routes_le = omega (arith, few, v.seen.count_le);
        pending_events_le = omega (arith, few, pending, v.seen.count_le);
        pending_peers_le =
            pending-le-mul m.options m.seen.expiries m.routes t v.seen.synced.distinct
              v.seen.count_le;
        wants_le = omega (arith, few, wants, v.seen.count_le);
        behaviors_le = v.behaviors.count_le;
      }
