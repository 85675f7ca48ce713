-- ===== src/Routes/Query.antt =====
-- `query_routes_with_policy` of crates/nostr-pubsub/src/routes.rs. The datasets are read concurrently;
-- each result takes the place of its dataset, so that the outcome is that of reading them in turn.
use nostr_pubsub.Prelude.{
  ℕ, suc, ◌==◌, Bool, true, false, not, ◌&&◌, ◌||◌, Option, none, some, List, [], ◌∷◌, ◌++◌, ◌⊎◌,
  inl, inr, all, map, length, take, ltb, if◌then◌else◌, u64_max,
}
use nostr_pubsub.Prelude.Map.{Text, text_key, eqb}
use nostr_pubsub.Prelude.Sort.{sort_by}
use nostr_pubsub.Prelude.Int.{ltb_ℤ, sat_add_i32}
use nostr_pubsub.Routes.Types.{
  decision_priority, is_drop, SourceCandidate, SourceRoute, QueryEvent, QuerySource, AttemptOutcome,
  RouteAttempt, RoutedEvent, RoutedReport, Candidate, DatasetResult, EventKey, SourcePolicy,
}
use nostr_pubsub.Routes.Merge.{merge_routed_events}

abbrev pub candidate_of : SourceRoute → SourceCandidate
candidate_of r = record { source = r.source; priority = r.priority; reason = r.reason }

-- `unwrap_or`
abbrev pub or_else : {A : Type 0} → A → Option A → A
or_else a none = a
or_else a (some b) = b

-- `concat`, in order.
abbrev pub concat_map : {A B : Type 0} → (A → List B) → List A → List B
concat_map f [] = []
concat_map f (x ∷ xs) = f x ++ concat_map f xs

module _ {E : Type 0} ⦃key : EventKey E⦄ where
  -- The results of the datasets, put together.
  unfoldable pub combine : ℕ → List (DatasetResult E) → RoutedReport E
  combine limit results = record {
    events = take limit (merge_routed_events (concat_map (λ r. r.events) results));
    attempts = concat_map (λ r. r.attempts) results;
    datasets = map (λ r. r.report) results;
    complete = all (λ r. r.report.complete) results;
  }

module _ {F E : Type 0} where
  -- The loop over the routes: an error of the policy ends it, and a dropped route is passed over.
  unfoldable pub check_routes :
      SourcePolicy
      → Option Text
      → Option (List Text)
      → ℕ
      → List (QuerySource F E)
      → Text ⊎ List (Candidate F E)
  check_routes policy author capabilities ordinal [] = inr []
  check_routes policy author capabilities ordinal (s ∷ ss) =
      let rest = check_routes policy author capabilities (suc ordinal) ss in
      elim (policy (candidate_of s.route) author (or_else s.route.capabilities capabilities)) [
        | inl e ↦ inl e
        | inr decision ↦ elim rest [
          | inl e ↦ inl e
          | inr cs ↦
              if is_drop decision
              then inr cs
              else inr (
                  record {
                    effective_priority = sat_add_i32 s.route.priority (decision_priority decision);
                    ordinal = ordinal;
                    source = s;
                    decision = decision;
                  }
                  ∷ cs)
        ]
      ]

  -- The higher priority first, then the earlier route.
  abbrev candidate_precedes : Candidate F E → Candidate F E → Bool
  candidate_precedes a b =
      ltb_ℤ b.effective_priority a.effective_priority
      || (not (ltb_ℤ a.effective_priority b.effective_priority) && ltb a.ordinal b.ordinal)

  unfoldable pub allowed_candidates :
      SourcePolicy
      → Option Text
      → Option (List Text)
      → List (QuerySource F E)
      → Text ⊎ List (Candidate F E)
  allowed_candidates policy author capabilities routes =
      elim (check_routes policy author capabilities 0 routes) [
        | inl e ↦ inl e
        | inr cs ↦ inr (sort_by candidate_precedes cs)
      ]

  abbrev pub dataset_of : Candidate F E → Text
  dataset_of c = c.source.route.dataset_id

  -- A candidate joins the group of its dataset, or opens one.
  unfoldable pub join_group :
      Candidate F E → List (Text × List (Candidate F E)) → List (Text × List (Candidate F E))
  join_group c [] = (dataset_of c, c ∷ []) ∷ []
  join_group c ((d, replicas) ∷ groups) =
      if eqb d (dataset_of c)
      then (d, replicas ++ c ∷ []) ∷ groups
      else (d, replicas) ∷ join_group c groups

  unfoldable pub join_groups :
      List (Candidate F E) → List (Text × List (Candidate F E)) → List (Text × List (Candidate F E))
  join_groups [] groups = groups
  join_groups (c ∷ cs) groups = join_groups cs (join_group c groups)

  abbrev pub group_by_dataset : List (Candidate F E) → List (Text × List (Candidate F E))
  group_by_dataset cs = join_groups cs []

  abbrev pub routed_event : Candidate F E → Text → QueryEvent E → RoutedEvent E
  routed_event c dataset x = record {
    event = x.event;
    source = x.source;
    priority = x.priority;
    provenance =
        record {
          route_id = c.source.route.id;
          dataset_id = dataset;
          source = x.source;
          priority = x.priority;
        }
        ∷ [];
  }

  abbrev pub attempt : Candidate F E → Text → AttemptOutcome → RouteAttempt
  attempt c dataset outcome = record {
    route = c.source.route;
    dataset_id = dataset;
    decision = c.decision;
    outcome = outcome;
  }

  module _ ⦃key : EventKey E⦄ where
    -- The replicas in turn, until one answers; with the attempts so far.
    unfoldable pub query_dataset :
        List F → Option ℕ → Text → List RouteAttempt → List (Candidate F E) → DatasetResult E
    query_dataset filters limit dataset attempts [] = record {
      report = record { dataset_id = dataset; complete = false; event_count = 0 };
      attempts = attempts;
      events = [];
    }
    query_dataset filters limit dataset attempts (c ∷ cs) = elim (c.source.read filters limit) [
      | inr found ↦
          let events = merge_routed_events (map (routed_event c dataset) found) in
          record {
            report = record { dataset_id = dataset; complete = true; event_count = length events };
            attempts = attempts ++ attempt c dataset (AttemptOutcome.success (length events)) ∷ [];
            events = events;
          }
      | inl e ↦
          query_dataset filters limit dataset
            (attempts ++ attempt c dataset (AttemptOutcome.failure e) ∷ []) cs
    ]

    abbrev unread : List (Text × List (Candidate F E)) → RoutedReport E
    unread groups = record {
      events = [];
      attempts = [];
      datasets = map (λ g. record { dataset_id = g.0; complete = true; event_count = 0 }) groups;
      complete = true;
    }

    unfoldable pub query_groups :
        List F → Option ℕ → List (Text × List (Candidate F E)) → RoutedReport E
    query_groups filters limit groups =
        if or_else u64_max limit == 0
        then unread groups
        else combine (or_else u64_max limit)
            (map (λ g. query_dataset filters limit g.0 [] g.1) groups)

    unfoldable pub query_routes_with_policy :
        List (QuerySource F E)
        → List F
        → Option ℕ
        → Option Text
        → SourcePolicy
        → Option (List Text)
        → Text ⊎ RoutedReport E
    query_routes_with_policy routes filters limit author policy capabilities =
        elim (allowed_candidates policy author capabilities routes) [
          | inl e ↦ inl e
          | inr cs ↦ inr (query_groups filters limit (group_by_dataset cs))
        ]
