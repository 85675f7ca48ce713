-- ===== src/Subscriptions/Tests.antt =====
-- Runs of the store of crates/nostr-pubsub/src/subscriptions.rs on small inputs, where its theorems
-- apply.
use nostr_pubsub.Prelude.{
  ℕ, ◌+◌, ◌≤◌, ◌≡◌, refl, ◌↔◌, false, none, some, List, [], ◌∷◌, length, arith, ◌==◌, ℕ_discrete,
  sum_by, u64_max,
}
use nostr_pubsub.Prelude.Map.{
  Text, text_key, text_discrete, get, insert, replace, place, retain, remove,
}
use nostr_pubsub.Prelude.Map.Queue.{elem}
use nostr_pubsub.Subscriptions.Types.{
  FilterMatch, FilterJson, Limits, Subscription, SubscriptionSet, SubscriptionStore, new_store,
  zero_max_peers, req, close, filters_len, subscription_contribution,
  subscription_contribution_infallible, subtract_retained, subtract_all, subtract_removed,
  add_retained,
}
use nostr_pubsub.Subscriptions.Sets.{drop_oldest, upsert_set, remove_from_set}
use nostr_pubsub.Subscriptions.Store.{
  check_limits, admit_peer, admit_subscription, upsert, remove_peer, drop_if_empty,
  remove_subscription, apply_client_message,
}
use nostr_pubsub.Subscriptions.Delivery.{inventory_first, interested_peers, action_for_event, skip}
use nostr_pubsub.Subscriptions.Delivery.Agreement.{interested_peers_iff}
use nostr_pubsub.Subscriptions.Accounts.{Measure}
use nostr_pubsub.Subscriptions.Invariant.{IsStored, IsExact}
use nostr_pubsub.Subscriptions.Invariant.Run.{
  StoreCall, client_message, peer_gone, call, run_store, get-upsert, upsert_err,
}
use nostr_pubsub.Subscriptions.Invariant.History.{
  call_cost, run_store-new-IsStored, run_store-new-IsExact,
}

-- Filters of a test network match one number; a filter's JSON text has one byte, a `REQ` frame nine
-- beside its id.
instance abbrev test_matches : FilterMatch ℕ ℕ
test_matches = record { match_event = λ f e. f == e }

instance abbrev test_json : FilterJson ℕ
test_json = record { filter_len = λ f. some 1; req_len = λ id fs. some (length id + 9) }

abbrev alice : Text
alice = 65 ∷ []

abbrev bob : Text
bob = 66 ∷ []

-- Two subscriptions for each of two peers.
abbrev small : Limits
small = record { max_peers = 2; max_subscriptions_per_peer = 2; max_filters_per_subscription = 2 }

abbrev session : List (StoreCall ℕ)
session =
    client_message alice (req (49 ∷ []) (1 ∷ 2 ∷ []))
    ∷ client_message bob (req (49 ∷ []) (3 ∷ []))
    ∷ client_message alice (req (50 ∷ []) (4 ∷ []))
    ∷ client_message alice (close (49 ∷ []))
    ∷ peer_gone bob
    ∷ []

program : Unit {0}
unfolding text_discrete ℕ_discrete get insert replace place retain remove filters_len
    subscription_contribution subscription_contribution_infallible subtract_retained subtract_all
    subtract_removed add_retained drop_oldest upsert_set remove_from_set check_limits admit_peer
    admit_subscription upsert remove_peer drop_if_empty remove_subscription apply_client_message
    call run_store
program = tt

test_session : (run_store session (new_store small)).retained ≡ record {
  peer_count = 1;
  subscription_count = 1;
  filter_count = 1;
  encoded_filter_bytes = 1;
  encoded_req_bytes = 10;
}
unfolding program
test_session = refl

run_store-new-IsStored_example : IsStored (run_store session (new_store small))
run_store-new-IsStored_example = run_store-new-IsStored small session

session_fits : (n : Measure) → sum_by (call_cost n) session ≤ u64_max
unfolding program
session_fits Measure.subscriptions = omega arith
session_fits Measure.filters = omega arith
session_fits Measure.filter_bytes = omega arith
session_fits Measure.req_bytes = omega arith

run_store-new-IsExact_example : IsExact (run_store session (new_store small))
run_store-new-IsExact_example = run_store-new-IsExact small session session_fits

abbrev after_session : SubscriptionStore ℕ
after_session = run_store session (new_store small)

abbrev third : Subscription ℕ
third = record { subscription_id = 51 ∷ []; filters = 5 ∷ [] }

get-upsert_example :
    (set : SubscriptionSet ℕ) × (get bob (upsert bob third after_session).0.peers ≡ some set)
    × (get (51 ∷ []) set.subscriptions ≡ some third)
unfolding program
get-upsert_example =
    get-upsert bob third after_session none (run_store-new-IsStored small session) refl

abbrev closed_limits : Limits
closed_limits = record small { max_peers = 0 }

upsert_err_example : (upsert bob third (new_store closed_limits)).0 ≡ new_store closed_limits
unfolding program
upsert_err_example = upsert_err bob third (new_store closed_limits) zero_max_peers refl

abbrev fourth : ℕ
fourth = 4

interested_peers_iff_example :
    (elem alice (interested_peers fourth after_session) ≡ false)
    ↔ (action_for_event inventory_first alice fourth after_session ≡ skip)
interested_peers_iff_example =
    interested_peers_iff inventory_first alice fourth after_session
      (run_store-new-IsStored small session).synced.distinct
