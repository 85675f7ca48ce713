-- ===== src/Routes/Datasets.antt =====
-- What a query over the datasets of crates/nostr-pubsub/src/routes.rs returns.
use nostr_pubsub.Prelude.{
  ℕ, zero, suc, ◌==◌, ◌≤◌, ◌≡◌, refl, sym, ap, ◌∙◌, Bool, true, false, ◌||◌, Option, none, some,
  List, [], ◌∷◌, ◌++◌, inl, inr, any, all, map, length, take, All, any-append, is_some, arith,
  length-take-le, u64_max, Bool-cases, Sum-cases,
}
use nostr_pubsub.Prelude.Map.{Text, text_key, eqb}
use nostr_pubsub.Prelude.Sort.{Pairwise, Pairwise-snoc, Pairwise-sort, Pairwise-take, any-sort}
use nostr_pubsub.Routes.Types.{
  QueryEvent, AttemptOutcome, RouteAttempt, RoutedEvent, Candidate, EventKey,
}
use nostr_pubsub.Routes.Merge.{
  has_event, extend, add_event, add_events, event_precedes, order_provenance, merge_routed_events,
}
use nostr_pubsub.Routes.Query.{
  or_else, concat_map, routed_event, attempt, query_dataset, combine, query_groups,
}

module _ {E : Type 0} ⦃key : EventKey E⦄ where
  abbrev pub HaveOwnIds : RoutedEvent E → RoutedEvent E → Type 0
  HaveOwnIds x y = eqb (key.id x.event) (key.id y.event) ≡ false

  swap_ids : (x y : RoutedEvent E) → HaveOwnIds x y → HaveOwnIds y x
  swap_ids x y h = ground arith

  -- What holds of each id that occurs holds at each event.
  All-ids :
      (p : Text → Bool) (xs : List (RoutedEvent E))
      → ((j : Text) → any (has_event j) xs ≡ true → p j ≡ true)
      → All (λ x. p (key.id x.event) ≡ true) xs
  All-ids p [] f = tt
  All-ids p (x ∷ xs) f =
      (f (key.id x.event) (ground arith), All-ids p xs (λ j h. f j (ground (arith, h))))

  any-extend :
      (j id : Text) (more : List _) (xs : List (RoutedEvent E))
      → any (has_event j) (extend id more xs) ≡ any (has_event j) xs
  unfolding extend
  any-extend j id more [] = refl
  any-extend j id more (x ∷ xs) = ground (arith, any-extend j id more xs)

  All-extend :
      (z : RoutedEvent E) (id : Text) (more : List _) (xs : List (RoutedEvent E))
      → All (HaveOwnIds z) xs
      → All (HaveOwnIds z) (extend id more xs)
  unfolding extend
  All-extend z id more [] h = tt
  All-extend z id more (x ∷ xs) h = ground (arith, h.0, h.1, All-extend z id more xs)

  Pairwise-extend :
      (id : Text) (more : List _) (xs : List (RoutedEvent E))
      → Pairwise HaveOwnIds xs
      → Pairwise HaveOwnIds (extend id more xs)
  unfolding extend
  Pairwise-extend id more [] w = tt
  Pairwise-extend id more (x ∷ xs) w = elim (Bool-cases (has_event id x)) [
    | inl b ↦ rw (b, extend) (w.0, w.1)
    | inr b ↦ rw (b, extend) (All-extend x id more xs w.0, Pairwise-extend id more xs w.1)
  ]

  any-add_event :
      (j : Text) (x : RoutedEvent E) (m : List (RoutedEvent E))
      → any (has_event j) (add_event x m) ≡ (any (has_event j) m || has_event j x)
  unfolding add_event
  any-add_event j x m =
      ground
        (arith, any-extend j (key.id x.event) x.provenance m, any-append (has_event j) m (x ∷ []))

  apart :
      (x : RoutedEvent E) (m : List (RoutedEvent E))
      → any (has_event (key.id x.event)) m ≡ false
      → All (λ y. HaveOwnIds y x) m
  apart x [] h = tt
  apart x (y ∷ ys) h = ground (arith, apart x ys)

  Pairwise-add_event :
      (x : RoutedEvent E) (m : List (RoutedEvent E))
      → Pairwise HaveOwnIds m
      → Pairwise HaveOwnIds (add_event x m)
  unfolding add_event
  Pairwise-add_event x m w = elim (Bool-cases (any (has_event (key.id x.event)) m)) [
    | inl b ↦ rw (b, add_event) (Pairwise-extend (key.id x.event) x.provenance m w)
    | inr b ↦ rw (b, add_event) (Pairwise-snoc HaveOwnIds x m (apart x m b) w)
  ]

  any-add_events :
      (j : Text) (xs m : List (RoutedEvent E))
      → any (has_event j) (add_events xs m) ≡ (any (has_event j) m || any (has_event j) xs)
  unfolding add_events
  any-add_events j [] m = ground arith
  any-add_events j (x ∷ xs) m =
      ground (arith, any-add_events j xs (add_event x m), any-add_event j x m)

  Pairwise-add_events :
      (xs m : List (RoutedEvent E)) → Pairwise HaveOwnIds m → Pairwise HaveOwnIds (add_events xs m)
  unfolding add_events
  Pairwise-add_events [] m w = w
  Pairwise-add_events (x ∷ xs) m w =
      Pairwise-add_events xs (add_event x m) (Pairwise-add_event x m w)

  any-ordered :
      (j : Text) (xs : List (RoutedEvent E))
      → any (has_event j) (map order_provenance xs) ≡ any (has_event j) xs
  any-ordered j [] = refl
  any-ordered j (x ∷ xs) = ap (λ b. has_event j x || b) (any-ordered j xs)

  All-ordered :
      (z : RoutedEvent E) (xs : List (RoutedEvent E))
      → All (HaveOwnIds z) xs
      → All (HaveOwnIds z) (map order_provenance xs)
  All-ordered z [] h = tt
  All-ordered z (x ∷ xs) h = (h.0, All-ordered z xs h.1)

  Pairwise-ordered :
      (xs : List (RoutedEvent E))
      → Pairwise HaveOwnIds xs
      → Pairwise HaveOwnIds (map order_provenance xs)
  Pairwise-ordered [] w = tt
  Pairwise-ordered (x ∷ xs) w = (All-ordered x xs w.0, Pairwise-ordered xs w.1)

  -- The merge has the ids that it is given, each once.
  merge_routed_events_lem :
      (xs : List (RoutedEvent E))
      → Pairwise HaveOwnIds (merge_routed_events xs)
        × ((j : Text) → any (has_event j) (merge_routed_events xs) ≡ any (has_event j) xs)
  unfolding merge_routed_events
  merge_routed_events_lem xs =
      let merged = add_events xs [] in
      (
        Pairwise-sort event_precedes HaveOwnIds swap_ids (map order_provenance merged)
            (Pairwise-ordered merged (Pairwise-add_events xs [] tt)),
        λ j.
            any-sort event_precedes (has_event j) (map order_provenance merged)
            ∙ any-ordered j merged
            ∙ any-add_events j xs [],
      )

any-take :
    {A : Type 0} (p : A → Bool) (n : ℕ) (xs : List A) → any p (take n xs) ≡ true → any p xs ≡ true
any-take p zero xs h = absurd (ground arith)
any-take p (suc n) [] h = h
any-take p (suc n) (x ∷ xs) h = ground (arith, any-take p n xs)

abbrev holds : {E : Type 0} ⦃key : EventKey E⦄ → Text → Option (List (QueryEvent E)) → Bool
holds j none = false
holds ⦃key = key⦄ j (some found) = any (λ x. eqb j (key.id x.event)) found

module _ {F E : Type 0} where
  -- What the first replica that answers holds.
  abbrev first_answer : List F → Option ℕ → List (Candidate F E) → Option (List (QueryEvent E))
  first_answer filters limit [] = none
  first_answer filters limit (c ∷ cs) = elim (c.source.read filters limit) [
    | inl e ↦ first_answer filters limit cs
    | inr found ↦ some found
  ]

  module _ ⦃key : EventKey E⦄ where
    -- Whether the answer of some dataset has the id.
    abbrev pub is_answered : List F → Option ℕ → List (Text × List (Candidate F E)) → Text → Bool
    is_answered filters limit groups j = any (λ g. holds j (first_answer filters limit g.1)) groups

    any-routed :
        (j : Text) (c : Candidate F E) (dataset : Text) (found : List (QueryEvent E))
        → any (has_event j) (map (routed_event c dataset) found)
          ≡ any (λ x. eqb j (key.id x.event)) found
    any-routed j c dataset [] = refl
    any-routed j c dataset (x ∷ xs) =
        ap (λ b. eqb j (key.id x.event) || b) (any-routed j c dataset xs)

    query_dataset_ids :
        (filters : List F) (limit : Option ℕ) (dataset : Text) (attempts : List RouteAttempt)
        (cs : List (Candidate F E)) (j : Text)
        → any (has_event j) (query_dataset filters limit dataset attempts cs).events
          ≡ holds j (first_answer filters limit cs)
    unfolding query_dataset
    query_dataset_ids filters limit dataset attempts [] j = refl
    query_dataset_ids filters limit dataset attempts (c ∷ cs) j =
        elim (Sum-cases (c.source.read filters limit)) [
          | inl (e, f) ↦
              rw (f, query_dataset)
                (query_dataset_ids filters limit dataset
                  (attempts ++ attempt c dataset (AttemptOutcome.failure e) ∷ []) cs j)
          | inr (found, f) ↦
              rw (f, query_dataset)
                ((merge_routed_events_lem (map (routed_event c dataset) found)).1 j
                  ∙ any-routed j c dataset found)
        ]

    query_dataset_complete :
        (filters : List F) (limit : Option ℕ) (dataset : Text) (attempts : List RouteAttempt)
        (cs : List (Candidate F E))
        → (query_dataset filters limit dataset attempts cs).report.complete
          ≡ is_some (first_answer filters limit cs)
    unfolding query_dataset
    query_dataset_complete filters limit dataset attempts [] = refl
    query_dataset_complete filters limit dataset attempts (c ∷ cs) =
        elim (Sum-cases (c.source.read filters limit)) [
          | inl (e, f) ↦
              rw (f, query_dataset)
                (query_dataset_complete filters limit dataset
                  (attempts ++ attempt c dataset (AttemptOutcome.failure e) ∷ []) cs)
          | inr (found, f) ↦ rw (f, query_dataset) refl
        ]

    any-results :
        (filters : List F) (limit : Option ℕ) (j : Text)
        (groups : List (Text × List (Candidate F E)))
        → any
            (has_event j)
            (concat_map (λ r. r.events) (map (λ g. query_dataset filters limit g.0 [] g.1) groups))
          ≡ is_answered filters limit groups j
    any-results filters limit j [] = refl
    any-results filters limit j ((d, cs) ∷ groups) =
        any-append (has_event j) (query_dataset filters limit d [] cs).events _
        ∙ ground
            (arith, query_dataset_ids filters limit d [] cs j, any-results filters limit j groups)

    -- A query over datasets returns no more events than its limit, none twice, and only events that
    -- the first answering replica of some dataset reported.
    pub query_groups_events :
        (filters : List F) (limit : Option ℕ) (groups : List (Text × List (Candidate F E)))
        → let events = (query_groups filters limit groups).events in
          (length events ≤ or_else u64_max limit)
          × Pairwise HaveOwnIds events
          × All (λ x. is_answered filters limit groups (key.id x.event) ≡ true) events
    unfolding query_groups combine
    query_groups_events filters limit groups = elim (Bool-cases (or_else u64_max limit == 0)) [
      | inl b ↦ rw (b, query_groups) (omega arith, tt, tt)
      | inr b ↦
          let found =
            concat_map (λ r. r.events) (map (λ g. query_dataset filters limit g.0 [] g.1) groups) in
          let (own, same) = merge_routed_events_lem found in
          rw (b, query_groups)
            (
              length-take-le (or_else u64_max limit) (merge_routed_events found),
              Pairwise-take HaveOwnIds (or_else u64_max limit) (merge_routed_events found) own,
              All-ids (is_answered filters limit groups)
                  (take (or_else u64_max limit) (merge_routed_events found))
                  (λ j h.
                    sym (any-results filters limit j groups)
                    ∙ sym (same j)
                    ∙ any-take (has_event j) (or_else u64_max limit) (merge_routed_events found) h),
            )
    ]

    all-complete :
        (filters : List F) (limit : Option ℕ) (groups : List (Text × List (Candidate F E)))
        → all (λ r. r.report.complete) (map (λ g. query_dataset filters limit g.0 [] g.1) groups)
          ≡ all (λ g. is_some (first_answer filters limit g.1)) groups
    all-complete filters limit [] = refl
    all-complete filters limit ((d, cs) ∷ groups) =
        ground
          (arith, query_dataset_complete filters limit d [] cs, all-complete filters limit groups)

    query_groups_complete :
        (filters : List F) (limit : Option ℕ) (groups : List (Text × List (Candidate F E)))
        → (or_else u64_max limit == 0) ≡ false
        → (query_groups filters limit groups).complete
          ≡ all (λ g. is_some (first_answer filters limit g.1)) groups
    unfolding query_groups combine
    query_groups_complete filters limit groups h =
        rw (h, query_groups) (all-complete filters limit groups)
