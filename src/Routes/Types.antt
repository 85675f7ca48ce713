-- ===== src/Routes/Types.antt =====
-- The types of crates/nostr-pubsub/src/lib.rs and routes.rs that a routed query is about. Text is its
-- bytes, and a priority is an integer of 32 bits.
use nostr_pubsub.Prelude.{ℕ, Bool, Option, none, List, [], ◌∷◌, ◌⊎◌, length, ◌==◌, if◌then◌else◌}
use nostr_pubsub.Prelude.Map.{Text}
use nostr_pubsub.Prelude.Int.{ℤ, pos, negsuc}

pub data SourceKind : Type 0 where
  local_index peer fips_endpoint relay : SourceKind

abbrev default_priority : SourceKind → ℤ
default_priority SourceKind.local_index = pos 300
default_priority SourceKind.fips_endpoint = pos 200
default_priority SourceKind.peer = pos 100
default_priority SourceKind.relay = negsuc 99

abbrev pub source_kind_rank : SourceKind → ℕ
source_kind_rank SourceKind.local_index = 0
source_kind_rank SourceKind.fips_endpoint = 1
source_kind_rank SourceKind.peer = 2
source_kind_rank SourceKind.relay = 3

pub record EventSource : Type 0 where
  pub id : Text
  pub kind : SourceKind
  pub url : Option Text

pub data PolicyDecision : Type 0 where
  allow : ℤ → PolicyDecision
  throttle : ℤ → Text → PolicyDecision
  drop : Text → PolicyDecision

abbrev pub decision_priority : PolicyDecision → ℤ
decision_priority (PolicyDecision.allow p) = p
decision_priority (PolicyDecision.throttle p reason) = p
decision_priority (PolicyDecision.drop reason) = pos 0

abbrev pub is_drop : PolicyDecision → Bool
is_drop (PolicyDecision.drop reason) = Bool.true
is_drop (PolicyDecision.allow p) = Bool.false
is_drop (PolicyDecision.throttle p reason) = Bool.false

-- `SourceCandidate`; its health has no fields, and no route gives a freshness hint.
pub record SourceCandidate : Type 0 where
  pub source : EventSource
  pub priority : ℤ
  pub reason : Option Text

pub record SourceRoute : Type 0 where
  pub id : Text
  pub dataset_id : Text
  pub source : EventSource
  pub priority : ℤ
  pub reason : Option Text
  pub capabilities : List Text

-- "default"
abbrev default_route_dataset_id : Text
default_route_dataset_id = 100 ∷ 101 ∷ 102 ∷ 97 ∷ 117 ∷ 108 ∷ 116 ∷ []

abbrev pub from_source : EventSource → SourceRoute
from_source s = record {
  id = s.id;
  dataset_id = default_route_dataset_id;
  source = s;
  priority = default_priority s.kind;
  reason = none;
  capabilities = [];
}

-- `with_dataset`, which refuses an empty identity.
abbrev with_dataset : Text → SourceRoute → Option SourceRoute
with_dataset dataset r =
    if length dataset == 0 then none else Option.some (record r { dataset_id = dataset })

pub record QueryEvent (E : Type 0) : Type 0 where
  pub event : E
  pub source : EventSource
  pub priority : ℤ

-- `EventBus::query` of a route's reader: an error's text, or the events.
pub record QuerySource (F E : Type 0) : Type 0 where
  pub route : SourceRoute
  pub read : List F → Option ℕ → Text ⊎ List (QueryEvent E)

pub data AttemptOutcome : Type 0 where
  success : ℕ → AttemptOutcome
  failure : Text → AttemptOutcome

pub record RouteAttempt : Type 0 where
  pub route : SourceRoute
  pub dataset_id : Text
  pub decision : PolicyDecision
  pub outcome : AttemptOutcome

pub record Provenance : Type 0 where
  pub route_id : Text
  pub dataset_id : Text
  pub source : EventSource
  pub priority : ℤ

pub record RoutedEvent (E : Type 0) : Type 0 where
  pub event : E
  pub source : EventSource
  pub priority : ℤ
  pub provenance : List Provenance

pub record DatasetReport : Type 0 where
  pub dataset_id : Text
  pub complete : Bool
  pub event_count : ℕ

pub record RoutedReport (E : Type 0) : Type 0 where
  pub events : List (RoutedEvent E)
  pub attempts : List RouteAttempt
  pub datasets : List DatasetReport
  pub complete : Bool

pub record Candidate (F E : Type 0) : Type 0 where
  pub effective_priority : ℤ
  pub ordinal : ℕ
  pub source : QuerySource F E
  pub decision : PolicyDecision

pub record DatasetResult (E : Type 0) : Type 0 where
  pub report : DatasetReport
  pub attempts : List RouteAttempt
  pub events : List (RoutedEvent E)

-- What the merge asks of the nostr crate's `Event`: the id, which is compared in hexadecimal, and the time.
pub record EventKey (E : Type 0) : Type 0 where
  pub id : E → Text
  pub created_at : E → ℕ

-- `PubsubPolicy::check_source`: an error's text, or the decision.
abbrev pub SourcePolicy : Type 0
SourcePolicy = SourceCandidate → Option Text → List Text → Text ⊎ PolicyDecision
