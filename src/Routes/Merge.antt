-- ===== src/Routes/Merge.antt =====
-- `merge_routed_events` of crates/nostr-pubsub/src/routes.rs. The index of an id in the list is where
-- its event stands, so the first event of the id is the one that is found.
use nostr_pubsub.Prelude.{
  ◌==◌, Bool, true, false, not, ◌&&◌, ◌||◌, Option, none, some, List, [], ◌∷◌, ◌++◌, any, map, ltb,
  if◌then◌else◌,
}
use nostr_pubsub.Prelude.Map.{Text, text_key, eqb, lt_bytes}
use nostr_pubsub.Prelude.Sort.{sort_by}
use nostr_pubsub.Prelude.Int.{ℤ, ltb_ℤ}
use nostr_pubsub.Routes.Types.{source_kind_rank, Provenance, RoutedEvent, EventKey}

-- Lexicographic order: the first comparison that tells the two apart.
abbrev then_by : Bool → Bool → Bool → Bool
then_by less greater rest = less || (not greater && rest)

-- `None` comes before `Some`.
abbrev lt_option : Option Text → Option Text → Bool
lt_option none none = false
lt_option none (some b) = true
lt_option (some a) none = false
lt_option (some a) (some b) = lt_bytes a b

abbrev eq_option : Option Text → Option Text → Bool
eq_option none none = true
eq_option none (some b) = false
eq_option (some a) none = false
eq_option (some a) (some b) = eqb a b

abbrev eq_ℤ : ℤ → ℤ → Bool
eq_ℤ a b = not (ltb_ℤ a b) && not (ltb_ℤ b a)

abbrev provenance_precedes : Provenance → Provenance → Bool
provenance_precedes l r =
    then_by (lt_bytes l.dataset_id r.dataset_id) (lt_bytes r.dataset_id l.dataset_id) (
      then_by (lt_bytes l.route_id r.route_id) (lt_bytes r.route_id l.route_id) (
        then_by (ltb (source_kind_rank l.source.kind) (source_kind_rank r.source.kind))
          (ltb (source_kind_rank r.source.kind) (source_kind_rank l.source.kind))
          (then_by (lt_bytes l.source.id r.source.id) (lt_bytes r.source.id l.source.id) (
            then_by (lt_option l.source.url r.source.url) (lt_option r.source.url l.source.url)
              (ltb_ℤ l.priority r.priority)))))

-- `PartialEq` of a provenance.
abbrev same_provenance : Provenance → Provenance → Bool
same_provenance l r =
    eqb l.route_id r.route_id
    && (eqb l.dataset_id r.dataset_id
        && (eqb l.source.id r.source.id
            && (source_kind_rank l.source.kind == source_kind_rank r.source.kind
                && (eq_option l.source.url r.source.url && eq_ℤ l.priority r.priority))))

-- `dedup`: of equal neighbours the first stays.
unfoldable pub dedup_after : Provenance → List Provenance → List Provenance
dedup_after p [] = []
dedup_after p (q ∷ qs) = if same_provenance p q then dedup_after p qs else q ∷ dedup_after q qs

unfoldable pub dedup : List Provenance → List Provenance
dedup [] = []
dedup (p ∷ ps) = p ∷ dedup_after p ps

module _ {E : Type 0} ⦃key : EventKey E⦄ where
  abbrev pub has_event : Text → RoutedEvent E → Bool
  has_event id x = eqb id (key.id x.event)

  -- The provenance joins the event that has the id.
  unfoldable pub extend : Text → List Provenance → List (RoutedEvent E) → List (RoutedEvent E)
  extend id more [] = []
  extend id more (x ∷ xs) =
      if has_event id x
      then record x { provenance = x.provenance ++ more } ∷ xs
      else x ∷ extend id more xs

  unfoldable pub add_event : RoutedEvent E → List (RoutedEvent E) → List (RoutedEvent E)
  add_event x merged =
      if any (has_event (key.id x.event)) merged
      then extend (key.id x.event) x.provenance merged
      else merged ++ x ∷ []

  -- The loop over the events.
  unfoldable pub add_events : List (RoutedEvent E) → List (RoutedEvent E) → List (RoutedEvent E)
  add_events [] merged = merged
  add_events (x ∷ xs) merged = add_events xs (add_event x merged)

  abbrev pub event_precedes : RoutedEvent E → RoutedEvent E → Bool
  event_precedes l r =
      ltb (key.created_at r.event) (key.created_at l.event)
      || (key.created_at l.event == key.created_at r.event
          && lt_bytes (key.id l.event) (key.id r.event))

  abbrev pub order_provenance : RoutedEvent E → RoutedEvent E
  order_provenance x = record x { provenance = dedup (sort_by provenance_precedes x.provenance) }

  unfoldable pub merge_routed_events : List (RoutedEvent E) → List (RoutedEvent E)
  merge_routed_events xs = sort_by event_precedes (map order_provenance (add_events xs []))
