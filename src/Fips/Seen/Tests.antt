-- ===== src/Fips/Seen/Tests.antt =====
-- Runs of the observations of crates/nostr-pubsub-fips/src/seen_ids.rs on small windows, where their
-- theorems apply.
use nostr_pubsub.Prelude.{
  length, ℕ, ◌≤◌, ◌≡◌, refl, true, false, none, some, List, [], ◌∷◌, ℕ_discrete,
}
use nostr_pubsub.Prelude.Map.{
  Text, text_key, text_discrete, pair_key, pair_discrete, get, insert, replace, place, retain,
  remove,
}
use nostr_pubsub.Prelude.Map.Size.{total}
use nostr_pubsub.Fips.Seen.{
  window_at, Scope, ScopedSeenIds, new_seen, trim_window, drop_stale, forget, evict_oldest, compact,
  evict_global, add_observation, observe_with_match, observe, observe_wire, clear_scopes,
}
use nostr_pubsub.Fips.Seen.Counts.{size}
use nostr_pubsub.Fips.Seen.Invariant.{new_seen-IsSeen}
use nostr_pubsub.Fips.Seen.Run.{SeenCall, make_call, make_calls, answer, answers, make_calls-within}
use nostr_pubsub.Fips.Seen.Refinement.{view_of, SpecRun, make_calls-SpecRun}

abbrev alice : Text
alice = 65 ∷ []

abbrev bob : Text
bob = 66 ∷ []

abbrev feed : Text
feed = 70 ∷ []

abbrev id_of : ℕ → Text
id_of n = n ∷ []

program : Unit {0}
unfolding text_discrete pair_discrete ℕ_discrete get insert replace place retain remove trim_window
    drop_stale forget evict_oldest compact evict_global add_observation observe_with_match observe
    observe_wire clear_scopes make_call make_calls answer answers
program = tt

abbrev calls : List SeenCall
calls =
    SeenCall.inventory alice feed (id_of 1)
    ∷ SeenCall.inventory alice feed (id_of 2)
    ∷ SeenCall.event bob (some (79 ∷ [])) feed (id_of 1) true
    ∷ SeenCall.inventory alice feed (id_of 3)
    ∷ SeenCall.event bob none feed (id_of 1) false
    ∷ SeenCall.peer_gone alice
    ∷ []

abbrev start : ScopedSeenIds
start = new_seen 2 4

abbrev seen : ScopedSeenIds
seen = make_calls calls start

-- The third id of a window of two pushes out the first; the answer by another subscription counts.
answers_run :
    answers calls start
    ≡ some (record { first = true; previously_matched = false })
      ∷ some (record { first = true; previously_matched = false })
      ∷ some (record { first = true; previously_matched = false })
      ∷ some (record { first = true; previously_matched = false })
      ∷ some (record { first = false; previously_matched = true })
      ∷ none
      ∷ []
unfolding program
answers_run = refl

make_calls-within_example :
    (seen.total_ids ≡ total size seen.scopes)
    × (seen.total_ids ≤ 4)
    × ((scope : Scope) → length (window_at scope seen.scopes).ids ≤ 2)
make_calls-within_example = make_calls-within 2 4 calls

make_calls-SpecRun_example : SpecRun (view_of start) calls (answers calls start) (view_of seen)
make_calls-SpecRun_example = make_calls-SpecRun calls start (new_seen-IsSeen 2 4)
