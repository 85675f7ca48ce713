-- ===== src/Mesh/Behavior.antt =====
-- Locally observed peer behaviour, from crates/nostr-pubsub/src/mesh.rs: `record_peer_behavior`,
-- `peer_behavior_observation`, `peer_behavior_score` and `peers_with_behavior`.
pub mod Bounds
use nostr_pubsub.Prelude.{
  ℕ, ◌≡◌, Bool, true, false, Option, none, some, List, [], ◌∷◌, ◌++◌, map, if◌then◌else◌, leb,
  sat_add_32,
}
use nostr_pubsub.Prelude.Int.{ℤ, pos, negsuc, clamp, sat_add_i32}
use nostr_pubsub.Prelude.Map.{Text, Map, text_key, get, contains, insert}
use nostr_pubsub.Prelude.Map.Queue.{evict}
use nostr_pubsub.Mesh.Types.{MeshPeer}

abbrev pub max_tracked_peer_behaviors : ℕ
max_tracked_peer_behaviors = 4096

abbrev min_peer_behavior_samples : ℕ
min_peer_behavior_samples = 3

-- 20, -40 and -20.
abbrev pub valid_frame_reward : ℤ
valid_frame_reward = pos 20

abbrev pub invalid_message_penalty : ℤ
invalid_message_penalty = negsuc 39

abbrev pub unserved_inventory_penalty : ℤ
unserved_inventory_penalty = negsuc 19

pub record PeerBehavior : Type 0 where
  pub score : ℤ
  pub samples : ℕ
  pub valid_frames : ℕ
  pub invalid_messages : ℕ
  pub unserved_inventories : ℕ

abbrev pub no_behavior : PeerBehavior
no_behavior = record {
  score = pos 0;
  samples = 0;
  valid_frames = 0;
  invalid_messages = 0;
  unserved_inventories = 0;
}

pub data Evidence : Type 0 where
  valid_frame invalid_message unserved_inventory : Evidence

pub record Behaviors : Type 0 where
  pub peer_behaviors : Map Text PeerBehavior
  pub peer_behavior_order : List Text

abbrev pub empty_behaviors : Behaviors
empty_behaviors = record { peer_behaviors = []; peer_behavior_order = [] }

-- `clamp(-100, 100)` of a saturating sum.
abbrev add_score : ℤ → ℤ → ℤ
add_score a b = clamp (negsuc 99) (pos 100) (sat_add_i32 a b)

-- The `match evidence` at the end of `record_peer_behavior`.
unfoldable pub count_evidence : Evidence → PeerBehavior → PeerBehavior
count_evidence Evidence.valid_frame b = record b { valid_frames = sat_add_32 b.valid_frames 1 }
count_evidence Evidence.invalid_message b = record b {
  invalid_messages = sat_add_32 b.invalid_messages 1;
}
count_evidence Evidence.unserved_inventory b = record b {
  unserved_inventories = sat_add_32 b.unserved_inventories 1;
}

unfoldable pub observe_behavior : ℤ → Evidence → PeerBehavior → PeerBehavior
unfolding count_evidence
observe_behavior delta evidence b =
    count_evidence evidence
      (record b { samples = sat_add_32 b.samples 1; score = add_score b.score delta })

-- `or_default`
abbrev pub behavior_or_default : Option PeerBehavior → PeerBehavior
behavior_or_default none = no_behavior
behavior_or_default (some b) = b

-- The guard of `record_peer_behavior`: a new peer evicts the oldest ones and joins the queue.
unfoldable pub track_peer : Text → Behaviors → Behaviors
track_peer peer_id b =
    if contains peer_id b.peer_behaviors
    then b
    else (let (order, kept) =
          evict max_tracked_peer_behaviors b.peer_behavior_order b.peer_behaviors in
        record { peer_behaviors = kept; peer_behavior_order = order ++ peer_id ∷ [] })

unfoldable pub record_peer_behavior : Text → ℤ → Evidence → Behaviors → Behaviors
unfolding track_peer
record_peer_behavior peer_id delta evidence b =
    let tracked = track_peer peer_id b in
    let behavior = behavior_or_default (get peer_id tracked.peer_behaviors) in
    record tracked {
      peer_behaviors =
          insert peer_id (observe_behavior delta evidence behavior) tracked.peer_behaviors;
    }

unfoldable pub peer_behavior_observation : Behaviors → Text → Option PeerBehavior
peer_behavior_observation b peer_id = elim (get peer_id b.peer_behaviors) [
  | none ↦ none
  | some behavior ↦ if leb min_peer_behavior_samples behavior.samples then some behavior else none
]

unfoldable pub peer_behavior_score : Behaviors → Text → Option ℤ
unfolding peer_behavior_observation
peer_behavior_score b peer_id = elim (peer_behavior_observation b peer_id) [
  | none ↦ none
  | some behavior ↦ some behavior.score
]

-- The `match` of `peers_with_behavior`: an external score and a local one are added and clamped.
unfoldable pub combine_scores : Option ℤ → Option ℤ → Option ℤ
combine_scores (some external) (some local) = some (add_score external local)
combine_scores (some external) none = some external
combine_scores none local = local

unfoldable pub scored_peer : Behaviors → MeshPeer → MeshPeer
unfolding combine_scores peer_behavior_score
scored_peer b p = record p {
  quality_score = combine_scores p.quality_score (peer_behavior_score b p.id);
}

abbrev pub peers_with_behavior : Behaviors → List MeshPeer → List MeshPeer
peers_with_behavior b = map (scored_peer b)
