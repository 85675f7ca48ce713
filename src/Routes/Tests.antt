-- ===== src/Routes/Tests.antt =====
-- Runs of crates/nostr-pubsub/src/routes.rs and router.rs on small inputs, where their theorems apply.
use nostr_pubsub.Prelude.{
  ℕ, ◌≤◌, ◌≡◌, refl, true, none, some, List, [], ◌∷◌, ◌⊎◌, inl, inr, All, keep, map, length,
  u64_max, ℕ_discrete, if◌then◌else◌,
}
use nostr_pubsub.Prelude.Map.{Text, text_key, text_discrete, eqb}
use nostr_pubsub.Prelude.Sort.{place, sort_by, Pairwise}
use nostr_pubsub.Prelude.Int.{ℤ, pos, ◌+ℤ◌, clamp, sat_add_i32}
use nostr_pubsub.Routes.Types.{
  SourceKind, EventSource, PolicyDecision, from_source, QuerySource, Candidate, RoutedReport,
  EventKey, SourcePolicy,
}
use nostr_pubsub.Routes.Merge.{
  dedup_after, dedup, extend, add_event, add_events, merge_routed_events,
}
use nostr_pubsub.Routes.Query.{
  dataset_of, check_routes, allowed_candidates, join_group, join_groups, group_by_dataset,
  query_dataset, combine, query_groups, query_routes_with_policy,
}
use nostr_pubsub.Routes.Groups.{find_group, find_group-group_by_dataset}
use nostr_pubsub.Routes.Datasets.{HaveOwnIds, is_answered, query_groups_events}
use nostr_pubsub.Routes.Router.{
  PublishReport, PublishSource, count_result, publish_all, report_of, publish_to_routes,
}

instance abbrev test_key : EventKey ℕ
test_key = record { id = λ e. e ∷ []; created_at = λ e. e }

program : Unit {0}
unfolding text_discrete ℕ_discrete place sort_by ◌+ℤ◌ clamp sat_add_i32 dedup_after dedup extend
    add_event add_events merge_routed_events check_routes allowed_candidates join_group join_groups
    query_dataset combine query_groups query_routes_with_policy count_result publish_all report_of
    publish_to_routes
program = tt

abbrev source_of : ℕ → EventSource
source_of n = record { id = n ∷ []; kind = SourceKind.peer; url = none }

-- A route of a dataset, whose reader fails or has the events.
abbrev reader : ℕ → ℕ → Text ⊎ List ℕ → QuerySource (Unit {0}) ℕ
reader n dataset answer = record {
  route = record (from_source (source_of n)) { dataset_id = dataset ∷ [] };
  read = λ filters limit. elim answer [
    | inl e ↦ inl e
    | inr es ↦ inr (map (λ e. record { event = e; source = source_of n; priority = pos 5 }) es)
  ];
}

abbrev routes : List (QuerySource (Unit {0}) ℕ)
routes =
    reader 1 100 (inl (88 ∷ []))
    ∷ reader 2 200 (inr (4 ∷ 9 ∷ []))
    ∷ reader 3 100 (inr (4 ∷ 6 ∷ []))
    ∷ []

-- The second route is preferred.
abbrev policy : SourcePolicy
policy candidate author capabilities =
    inr (PolicyDecision.allow (if eqb candidate.source.id (2 ∷ []) then pos 50 else pos 0))

abbrev candidate : ℤ → ℕ → QuerySource (Unit {0}) ℕ → PolicyDecision → Candidate (Unit {0}) ℕ
candidate priority ordinal source decision = record {
  effective_priority = priority;
  ordinal = ordinal;
  source = source;
  decision = decision;
}

abbrev candidates : List (Candidate (Unit {0}) ℕ)
candidates =
    candidate (pos 150) 1 (reader 2 200 (inr (4 ∷ 9 ∷ []))) (PolicyDecision.allow (pos 50))
    ∷ candidate (pos 100) 0 (reader 1 100 (inl (88 ∷ []))) (PolicyDecision.allow (pos 0))
    ∷ candidate (pos 100) 2 (reader 3 100 (inr (4 ∷ 6 ∷ []))) (PolicyDecision.allow (pos 0))
    ∷ []

allowed : allowed_candidates policy none none routes ≡ inr candidates
unfolding program
allowed = refl

abbrev groups : List (Text × List (Candidate (Unit {0}) ℕ))
groups = group_by_dataset candidates

abbrev report : RoutedReport ℕ
report = query_groups (tt ∷ []) none groups

-- The replica stands in for the route that failed, and the shared event is listed once.
report_run : map (λ x. x.event) report.events ≡ 9 ∷ 6 ∷ 4 ∷ []
unfolding program
report_run = refl

find_group-group_by_dataset_example :
    find_group (100 ∷ []) groups ≡ keep (λ c. eqb (100 ∷ []) (dataset_of c)) candidates
find_group-group_by_dataset_example = find_group-group_by_dataset (100 ∷ []) candidates

query_groups_events_example :
    (length report.events ≤ u64_max)
    × Pairwise HaveOwnIds report.events
    × All (λ x. is_answered (tt ∷ []) none groups (test_key.id x.event) ≡ true) report.events
query_groups_events_example = query_groups_events (tt ∷ []) none groups

abbrev publisher : ℕ → Text ⊎ PublishReport → PublishSource ℕ
publisher n r = record { route = from_source (source_of n); publish = λ e source. r }

abbrev targets : List (PublishSource ℕ)
targets =
    publisher 1 (inl (88 ∷ []))
    ∷ publisher 2 (inr (record { accepted = true; priority = pos 7; reason = none }))
    ∷ []

abbrev published : PublishReport
published = record { accepted = true; priority = pos 7; reason = some (1 ∷ 58 ∷ 32 ∷ 88 ∷ []) }

is_published : publish_to_routes policy 4 (source_of 9) targets ≡ inr published
unfolding program
is_published = refl
