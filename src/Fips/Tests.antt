-- ===== src/Fips/Tests.antt =====
-- Runs of the parts of crates/nostr-pubsub-fips on small inputs, where their theorems apply.
use nostr_pubsub.Prelude.{ℕ, ◌≡◌, refl, true, none, some, List, [], ◌∷◌, arith, ℕ_discrete}
use nostr_pubsub.Prelude.Map.{
  Text, text_key, text_discrete, get, insert, replace, place, retain, remove,
}
use nostr_pubsub.Prelude.Map.Queue.{evict}
use nostr_pubsub.Fips.Recent.{
  EventIds, RecentEvents, new_recent, trim, insert_recent, recent_event, insert_for_publish,
}
use nostr_pubsub.Fips.Recent.Bounds.{
  IsRecent, RecentCall, arrive, publish, call_recent, run_recent, run_recent-new-IsRecent,
}
use nostr_pubsub.Fips.Pending.{
  InventoryProvider, PendingInventory, PendingWants, new_pending, find_requested, join_provider,
  insert_pending, take_matching, retry_due,
}
use nostr_pubsub.Fips.Pending.Bounds.{IsEntry, IsPending}
use nostr_pubsub.Fips.Pending.Calls.{
  PendingCall, add, call_pending, run_pending, run_pending-new-IsPending,
}
use nostr_pubsub.Fips.Pending.Taking.{
  IsAnswered, take_matching_once, AfterRound, retry_due-AfterRound,
}

instance abbrev test_ids : EventIds ℕ
test_ids = record { id_hex = λ n. n ∷ []; from_hex = λ t. some t }

program_recent : Unit {0}
unfolding text_discrete ℕ_discrete get insert replace place retain remove evict trim insert_recent
    recent_event insert_for_publish call_recent run_recent
program_recent = tt

abbrev arrivals : List (RecentCall ℕ (Unit {0}))
arrivals = arrive 1 tt 4 ∷ arrive 2 tt 4 ∷ publish 1 tt 4 ∷ arrive 3 tt 4 ∷ []

abbrev recent : RecentEvents ℕ (Unit {0})
recent = run_recent arrivals (new_recent 1 2)

run_recent-new-IsRecent_example : IsRecent recent
run_recent-new-IsRecent_example = run_recent-new-IsRecent 1 2 arrivals

abbrev alice : Text
alice = 65 ∷ []

abbrev note : Text
note = 78 ∷ []

abbrev from_alice : InventoryProvider
from_alice = record { peer_npub = alice; subscription_ids = (49 ∷ []) ∷ []; requested = true }

abbrev wanted : PendingInventory
wanted = record {
  selected = from_alice;
  alternatives = [];
  event_kind = 1;
  payload_bytes = 100;
  hop_limit = 4;
  requested_at_ms = 1000;
  retry_count = 0;
}

abbrev requests : List PendingCall
requests = add note wanted ∷ []

wanted-IsEntry : IsEntry 2 wanted
wanted-IsEntry = record { alternatives_le = omega arith; retries_le = omega arith }

abbrev pending : PendingWants
pending = run_pending requests (new_pending 3 2)

program : Unit {0}
unfolding text_discrete ℕ_discrete get insert replace place retain remove evict find_requested
    join_provider insert_pending take_matching call_pending run_pending
program = tt

run_pending-new-IsPending_example : IsPending pending
run_pending-new-IsPending_example = run_pending-new-IsPending 3 2 requests (wanted-IsEntry, tt)

take_matching_once_example :
    let left = (take_matching note alice (49 ∷ []) 1 100 pending).0 in
    (get note pending.entries ≡ some wanted)
    × IsAnswered alice (49 ∷ []) 1 100 wanted
    × (take_matching note alice (49 ∷ []) 1 100 left ≡ (left, none))
unfolding program
take_matching_once_example =
    take_matching_once note alice alice (49 ∷ []) (49 ∷ []) 1 1 100 100 pending wanted refl

retry_due-AfterRound_example :
    let (left, report) = retry_due 5000 1000 pending in
    AfterRound 5000 1000
      (get note pending.entries)
      (get note left.entries)
      (get note report.retries)
retry_due-AfterRound_example =
    retry_due-AfterRound 5000 1000 note pending
      (run_pending-new-IsPending 3 2 requests (wanted-IsEntry, tt))
