-- ===== src/Retained/Tests.antt =====
-- Runs of the snapshot of crates/nostr-pubsub/src/retained.rs on small events, where its theorems apply.
use nostr_pubsub.Prelude.{
  ℕ, ◌==◌, ◌≡◌, refl, true, none, some, List, [], ◌∷◌, map, keep, ℕ_discrete,
}
use nostr_pubsub.Prelude.Map.{Text, text_key, text_discrete, pair_discrete}
use nostr_pubsub.Prelude.Sort.{place, sort_by}
use nostr_pubsub.Subscriptions.Types.{FilterMatch, subscription_filters_match}
use nostr_pubsub.Retained.{
  EventView, FilterLimit, RetentionPolicy, RetainedEvents, new_retained, parse_digits, is_current,
  event_supersedes, event_coordinate, pop, shed, admit, insert, restore, select, select_all, query,
}
use nostr_pubsub.Retained.Invariant.{
  IsRetained, RetainedCall, make_calls, make_calls-new-IsRetained,
}
use nostr_pubsub.Retained.Query.{is_answer, query_unlimited}

-- An event of a kind, at a time, by one author; it may expire.
pub record Note : Type 0 where
  pub number : ℕ
  pub time : ℕ
  pub kind : ℕ
  pub tags : List (List Text)

instance abbrev test_view : EventView Note
test_view = record {
  id = λ e. e.number ∷ [];
  created_at = λ e. e.time;
  kind = λ e. e.kind;
  pubkey = λ e. 65 ∷ [];
  tags = λ e. e.tags;
  identifier = λ e. none;
  json_len = λ e. some 100;
  verify = λ e. true;
}

instance abbrev test_filter : FilterMatch ℕ Note
test_filter = record { match_event = λ f e. e.kind == f }

instance abbrev test_limit : FilterLimit ℕ
test_limit = record { limit = λ f. none }

program : Unit {0}
unfolding text_discrete pair_discrete ℕ_discrete place sort_by new_retained parse_digits is_current
    event_supersedes event_coordinate pop shed admit insert restore select select_all query
    make_calls subscription_filters_match
program = tt

abbrev note : ℕ → ℕ → ℕ → Note
note number time kind = record { number = number; time = time; kind = kind; tags = [] }

-- "expiration" "60"
abbrev fleeting : Note
fleeting = record (note 9 50 1) {
  tags =
      ((101 ∷ 120 ∷ 112 ∷ 105 ∷ 114 ∷ 97 ∷ 116 ∷ 105 ∷ 111 ∷ 110 ∷ []) ∷ (54 ∷ 48 ∷ []) ∷ []) ∷ [];
}

abbrev policy : RetentionPolicy ℕ
policy = record { filters = 0 ∷ 1 ∷ []; max_events = 3 }

abbrev empty : RetainedEvents ℕ Note
empty = record { policy = policy; events = []; bytes = 0 }

abbrev calls : List (RetainedCall Note)
calls =
    RetainedCall.inserting (note 1 10 0) 55
    ∷ RetainedCall.restoring (note 2 20 1 ∷ fleeting ∷ note 3 15 7 ∷ []) 55
    ∷ RetainedCall.inserting (note 4 30 0) 55
    ∷ RetainedCall.inserting (note 5 25 0) 55
    ∷ []

abbrev kept : RetainedEvents ℕ Note
kept = make_calls calls empty

is_new : new_retained Note policy ≡ some empty
unfolding program
is_new = refl

-- The newer profile replaces the older one, and a third is refused.
kept_run : kept.events ≡ (fleeting, 100) ∷ (note 4 30 0, 100) ∷ (note 2 20 1, 100) ∷ []
unfolding program
kept_run = refl

-- Past its expiration an event is not answered.
query_run : query (1 ∷ []) none 61 kept ≡ note 2 20 1 ∷ []
unfolding program
query_run = refl

make_calls-new-IsRetained_example : IsRetained kept
make_calls-new-IsRetained_example = make_calls-new-IsRetained calls policy empty is_new

query_unlimited_example :
    query (1 ∷ []) none 55 kept ≡ map (λ x. x.0) (keep (is_answer {F = ℕ} (1 ∷ []) 55) kept.events)
query_unlimited_example =
    query_unlimited (1 ∷ []) 55 kept (make_calls-new-IsRetained calls policy empty is_new)
      (refl, tt)
