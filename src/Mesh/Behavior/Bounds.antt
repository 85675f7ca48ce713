-- ===== src/Mesh/Behavior/Bounds.antt =====
-- What the behaviour table keeps: bounded scores, counts that add up, and a bounded size.
use nostr_pubsub.Prelude.{
  ◌+◌, ◌≤◌, ◌≡◌, some, min, arith, length, u32_max, Bool-cases, Option-cases, inl, inr,
}
use nostr_pubsub.Prelude.Int.{ℤ, pos, negsuc, sat_add_i32, ◌≤ℤ◌, clamp_bounds}
use nostr_pubsub.Prelude.Map.{Text, Map, text_key, get, contains, insert, get-insert}
use nostr_pubsub.Prelude.Map.Size.{length-insert}
use nostr_pubsub.Prelude.Map.Queue.{Synced, Synced-set, evict_push, get-evict}
use nostr_pubsub.Mesh.Behavior.{
  PeerBehavior, no_behavior, Evidence, Behaviors, observe_behavior, track_peer,
  record_peer_behavior, max_tracked_peer_behaviors, behavior_or_default,
}

-- One peer's record: the score in range, and every sample counted under one heading, until the
-- counters saturate.
pub record IsTallied (b : PeerBehavior) : Type 0 where
  pub low : negsuc 99 ≤ℤ b.score
  pub high : b.score ≤ℤ pos 100
  pub valid_le : b.valid_frames ≤ u32_max
  pub invalid_le : b.invalid_messages ≤ u32_max
  pub unserved_le : b.unserved_inventories ≤ u32_max
  pub tally : b.samples ≡ min (b.valid_frames + b.invalid_messages + b.unserved_inventories) u32_max

pub record AreTallied (b : Behaviors) : Type 0 where
  pub synced : Synced b.peer_behavior_order b.peer_behaviors
  pub count_le : length b.peer_behaviors ≤ max_tracked_peer_behaviors
  pub each : (peer : Text) (r : PeerBehavior) → get peer b.peer_behaviors ≡ some r → IsTallied r

observe_behavior-IsTallied :
    (delta : ℤ) (e : Evidence) (b : PeerBehavior)
    → IsTallied b
    → IsTallied (observe_behavior delta e b)
unfolding observe_behavior
observe_behavior-IsTallied delta Evidence.valid_frame b t =
    ground (arith, clamp_bounds (negsuc 99) (pos 100) (sat_add_i32 b.score delta))
observe_behavior-IsTallied delta e b t =
    ground (arith, clamp_bounds (negsuc 99) (pos 100) (sat_add_i32 b.score delta))

no_behavior-IsTallied : IsTallied no_behavior
no_behavior-IsTallied = omega arith

-- A peer's record is as it was, or fresh; after tracking there is room for it.
module _ (peer : Text) (b : Behaviors) (t : AreTallied b) where
  kept_each :
      (j : Text) (r : PeerBehavior)
      → get j (track_peer peer b).peer_behaviors ≡ some r
      → IsTallied r
  unfolding track_peer
  kept_each j r h = elim (Bool-cases (contains peer b.peer_behaviors)) [
    | inl old ↦ t.each j r (ground arith)
    | inr new ↦ t.each j r (
        ground
          (arith, get-evict max_tracked_peer_behaviors b.peer_behavior_order b.peer_behaviors j r))
  ]

  current-IsTallied : IsTallied (behavior_or_default (get peer (track_peer peer b).peer_behaviors))
  current-IsTallied = elim (Option-cases (get peer (track_peer peer b).peer_behaviors)) [
    | inl e ↦ rw e no_behavior-IsTallied
    | inr (r, e) ↦ rw e (kept_each peer r e)
  ]

  tracked_in_step :
      (r : PeerBehavior)
      → let k = track_peer peer b in
        Synced k.peer_behavior_order (insert peer r k.peer_behaviors)
        × (length (insert peer r k.peer_behaviors) ≤ max_tracked_peer_behaviors)
  unfolding track_peer
  tracked_in_step r = elim (Bool-cases (contains peer b.peer_behaviors)) [
    | inl old ↦
        rw (old, track_peer)
          (Synced-set peer r old t.synced, ground (arith, length-insert peer r b.peer_behaviors))
    | inr new ↦
        rw (new, track_peer)
          (evict_push max_tracked_peer_behaviors b.peer_behavior_order b.peer_behaviors peer r
            (omega arith) new t.synced)
  ]

  -- If the table of peer scores is in bounds, it is so after an observation: each score between
  -- -100 and 100, each record's counters in agreement, at most 4096 peers, and each once in the
  -- queue.
  pub record_peer_behavior-AreTallied :
      (delta : ℤ) (e : Evidence) → AreTallied (record_peer_behavior peer delta e b)
  unfolding record_peer_behavior
  record_peer_behavior-AreTallied delta e = record {
    synced = (tracked_in_step _).0;
    count_le = (tracked_in_step _).1;
    each = λ j r h. ground (
      arith,
      get-insert j peer (observe_behavior delta e current) kept,
      kept_each j r,
      observe_behavior-IsTallied delta e current current-IsTallied,
    );
  }
    where
      kept : Map Text PeerBehavior
      kept = (track_peer peer b).peer_behaviors

      current : PeerBehavior
      current = behavior_or_default (get peer kept)
