-- ===== src/Mesh/Tests.antt =====
-- Runs of the mesh of crates/nostr-pubsub/src/mesh.rs on small inputs, where its theorems apply.
use nostr_pubsub.Prelude.{
  ℕ, zero, suc, false, ◌+◌, ◌==◌, ◌||◌, ap, u64_max, ◌≤◌, ◌<◌, ◌⊎◌, ◌≡◌, refl, true, none, some,
  List, [], ◌∷◌, length, keep, min, arith, ℕ_discrete, if◌then◌else◌, All,
}
use nostr_pubsub.Prelude.Map.{
  Text, text_key, text_discrete, get, insert, replace, place, retain, remove,
}
use nostr_pubsub.Prelude.Map.Queue.{evict}
use nostr_pubsub.Mesh.Types.{
  NostrEvent, inventory, want, frame, MeshPeer, default_options, adjust_options, AreUsable, deliver,
  UpstreamRoute, unsolicited_frame,
}
use nostr_pubsub.Mesh.Cache.{make_room, store, prune_cache}
use nostr_pubsub.Mesh.Behavior.{
  record_peer_behavior, peer_behavior_observation, peer_behavior_score, combine_scores, scored_peer,
  count_evidence, observe_behavior, track_peer,
}
use nostr_pubsub.Mesh.Select.{
  is_allowed, candidates, count_unknown, select_mesh_peers, dedup, dedup_step, sort_peers,
  insert_sorted, precedes, replace_last_known, reserve_unknown, cut,
}
use nostr_pubsub.Mesh.Select.Members.{occurs, is_offered, occurs-select_mesh_peers}
use nostr_pubsub.Mesh.Select.Unknowns.{select_mesh_peers_counts}
use nostr_pubsub.Mesh.State.{
  Mesh, new, is_event_id, validate_event_id, validate_kind, validate_event_len, to_u32,
  validate_verified_event, validate_event, store_event, is_remembered, admit_seen, stamp_seen,
  evict_seen, forget_event, remove_pending_event, remember_inventory, remember_delivered,
  send_to_selected_peers, record_invalid_message,
}
use nostr_pubsub.Mesh.Receive.{
  check_inventory, first_route, open_route, receive_inventory, receive_want, close_route, delivery,
  answer_pending, announce_further, accept_frame, check_frame, finish_frame, receive_frame,
  dispatch, receive,
}
use nostr_pubsub.Mesh.Invariant.{IsWellFormed, IdFixesLength}
use nostr_pubsub.Mesh.Run.{Call, receives, publishes, maintains, time_of, run, retained_state}
use nostr_pubsub.Mesh.Run.Bounds.{run-new-IsWellFormed, IsWithin, retained_state-IsWithin}
use nostr_pubsub.Mesh.Exchange.Frames.{IsWanted, receive_frame-IsWanted}
use nostr_pubsub.Mesh.Publish.{publish}
use nostr_pubsub.Mesh.Prune.{prune, prune_due, prune_routes, prune_window}
use nostr_pubsub.Mesh.Exchange.Errors.{receive_err}
use nostr_pubsub.Mesh.Exchange.Hops.{Lowers, addressed, announce_further-Lowers}
use nostr_pubsub.Mesh.Invariant.Entries.{AreRepresentable}

-- Events of a test network: the number of letters in the id is fixed, and so is the JSON length.
abbrev letters : ℕ → ℕ → Text
letters zero c = []
letters (suc n) c = c ∷ letters n c

abbrev note_id : Text
note_id = letters 64 97

abbrev other_id : Text
other_id = letters 64 98

abbrev first_letter : Text → ℕ
first_letter [] = 0
first_letter (c ∷ cs) = c

-- The notes 7 and 8 are signed, and their lengths go with their ids; any other number is a forgery
-- under the id of 7, whose length is the number.
instance abbrev test_events : NostrEvent ℕ
test_events = record {
  id_hex = λ n. if n == 8 then other_id else note_id;
  kind = λ n. 1;
  verify = λ n. (n == 7) || (n == 8);
  json_len = λ n.
      some (
        if (n == 7) || (n == 8)
        then first_letter (if n == 8 then other_id else note_id) + 3
        else n);
}

abbrev alice : Text
alice = 65 ∷ []

abbrev bob : Text
bob = 66 ∷ []

fixes : IdFixesLength test_events
fixes a b signed signed' h = rw (signed, signed') (ap (λ t. some (first_letter t + 3)) h)

program : Unit {0}
unfolding publish prune text_discrete ℕ_discrete get insert replace place retain remove evict new
    adjust_options make_room store record_peer_behavior peer_behavior_observation
    peer_behavior_score combine_scores scored_peer count_evidence observe_behavior track_peer
    candidates select_mesh_peers dedup dedup_step sort_peers insert_sorted precedes
    replace_last_known reserve_unknown cut is_event_id validate_event_id validate_kind
    validate_event_len to_u32 validate_verified_event validate_event store_event is_remembered
    admit_seen stamp_seen evict_seen forget_event remove_pending_event remember_inventory
    remember_delivered send_to_selected_peers check_inventory open_route receive_inventory
    receive_want close_route delivery answer_pending announce_further accept_frame check_frame
    finish_frame receive_frame dispatch receive prune_due prune_routes prune_window prune_cache
program = tt

abbrev fresh : Mesh ℕ
fresh = new default_options

-- Alice has announced the note, and was asked for it.
abbrev asked : Mesh ℕ
asked = (receive_inventory alice note_id 1 100 4 1000 fresh).0

abbrev route : UpstreamRoute
route = first_route alice 1 100 4 121000

default_fits : AreRepresentable default_options
default_fits = record { event_le = omega arith; cache_le = omega arith; product_le = omega arith }

abbrev bob_peer : MeshPeer
bob_peer = record { id = bob; quality_score = none }

abbrev exchange : List (Call ℕ)
exchange =
    receives alice (inventory note_id 1 100 4) [] 1000
    ∷ receives bob (want note_id) [] 1001
    ∷ receives alice (frame note_id 9) [] 1001
    ∷ receives alice (frame note_id 7) (bob_peer ∷ []) 1002
    ∷ publishes false 8 [] 1003
    ∷ maintains 200000
    ∷ []

exchange_times : All (λ c. time_of c ≤ u64_max) exchange
exchange_times =
    (omega arith, (omega arith, (omega arith, (omega arith, (omega arith, (omega arith, tt))))))

exchange-IsWellFormed : IsWellFormed (run exchange (new {E = ℕ} default_options))
exchange-IsWellFormed =
    run-new-IsWellFormed fixes default_options exchange default_fits exchange_times
      (refl, (refl, (refl, (refl, (refl, (refl, tt))))))

test_asked : get note_id asked.routes.upstream_routes ≡ some route
unfolding program
test_asked = refl

run-new-IsWellFormed_example : IsWellFormed (run exchange (new {E = ℕ} default_options))
run-new-IsWellFormed_example =
    run-new-IsWellFormed fixes default_options exchange default_fits exchange_times
      (refl, (refl, (refl, (refl, (refl, (refl, tt))))))

retained_state-IsWithin_example :
    IsWithin
      (run exchange (new {E = ℕ} default_options)).options
      (retained_state (run exchange (new {E = ℕ} default_options)))
retained_state-IsWithin_example =
    retained_state-IsWithin (run exchange (new {E = ℕ} default_options)) exchange-IsWellFormed

receive_frame-IsWanted_example : (r : UpstreamRoute) × IsWanted asked true alice note_id 7 r
unfolding program
receive_frame-IsWanted_example =
    receive_frame-IsWanted alice note_id 7 [] 1002 true asked (deliver alice 7 ∷ []) refl

receive_err_example :
    (receive bob (frame note_id 7) [] 1002 fresh).0 ≡ record_invalid_message bob (prune 1002 fresh)
unfolding program
receive_err_example = receive_err bob (frame note_id 7) [] 1002 fresh unsolicited_frame refl

announce_further-Lowers_example :
    let acts = announce_further alice note_id 7 100 route (bob_peer ∷ []) asked in
    All (Lowers note_id 4) acts
    × (addressed alice acts ≡ 0)
    × ((peer : Text) → addressed peer acts ≤ 1)
    × (length acts ≤ asked.options.fanout)
announce_further-Lowers_example =
    announce_further-Lowers alice note_id 7 100 route (bob_peer ∷ []) asked

occurs-select_mesh_peers_example :
    let offered : ℕ =
      if is_offered bob (keep (is_allowed (some alice)) (bob_peer ∷ [])) then 1 else 0 in
    let selected = select_mesh_peers (bob_peer ∷ []) (some alice) 8 1 in
    (occurs bob selected ≤ offered)
    × ((8 < length (candidates (bob_peer ∷ []) (some alice))) ⊎ (occurs bob selected ≡ offered))
occurs-select_mesh_peers_example = occurs-select_mesh_peers bob (bob_peer ∷ []) (some alice) 8 1

select_mesh_peers_counts_example :
    let cs = candidates (bob_peer ∷ []) (some alice) in
    let selected = select_mesh_peers (bob_peer ∷ []) (some alice) 8 1 in
    (length selected ≡ min 8 (length cs))
    × (min (min 1 8) (count_unknown cs) ≤ count_unknown selected)
select_mesh_peers_counts_example = select_mesh_peers_counts (bob_peer ∷ []) (some alice) 8 1

default_usable : AreUsable default_options
default_usable = omega arith
