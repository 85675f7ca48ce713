-- ===== src/Fips/Recent.antt =====
-- `RecentEvents` of crates/nostr-pubsub-fips/src/recent_events.rs: a window of payloads and a longer
-- window of identifiers.
pub mod Bounds
use nostr_pubsub.Prelude.{
  ℕ, suc, Bool, true, false, not, ◌&&◌, Option, none, some, List, [], ◌∷◌, ◌++◌, length, ltb, keep,
  if◌then◌else◌,
}
use nostr_pubsub.Prelude.Map.{Text, text_key, Map, eqb, contains, insert, remove}
use nostr_pubsub.Prelude.Map.Queue.{drop_key, evict}
use nostr_pubsub.Subscriptions.Types.{FilterMatch, subscription_filters_match}

-- What the component asks of the nostr crate: the hexadecimal id of an event, and the parser of
-- ids, with the id's canonical text as its result.
pub record EventIds (E : Type 0) : Type 0 where
  pub id_hex : E → Text
  pub from_hex : Text → Option Text

pub record RecentEvent (E S : Type 0) : Type 0 where
  pub event : E
  pub source : S
  pub hop_limit : ℕ

pub record RecentEvents (E S : Type 0) : Type 0 where
  pub max_payload_events : ℕ
  pub max_seen_ids : ℕ
  pub event_ids : Map Text (Unit {0})
  pub event_id_order : List Text
  pub entries : List (RecentEvent E S)

abbrev pub new_recent : {E S : Type 0} → ℕ → ℕ → RecentEvents E S
new_recent payloads ids = record {
  max_payload_events = payloads;
  max_seen_ids = ids;
  event_ids = [];
  event_id_order = [];
  entries = [];
}

abbrev pub is_none : {A : Type 0} → Option A → Bool
is_none o = elim o [ none ↦ true | some e ↦ false ]

-- `while entries.len() > max { entries.pop_front() }`
unfoldable pub trim : {A : Type 0} → ℕ → List A → List A
trim n [] = []
trim n (x ∷ xs) = let rest = trim n xs in if ltb n (length (x ∷ xs)) then rest else x ∷ xs

module _ {E S : Type 0} ⦃nostr : EventIds E⦄ where
  unfoldable pub insert_recent : E → S → ℕ → RecentEvents E S → RecentEvents E S × Bool
  insert_recent e source hops r =
      let id = nostr.id_hex e in
      if contains id r.event_ids
      then (r, false)
      else (let (order, ids) =
            evict (suc r.max_seen_ids) (r.event_id_order ++ id ∷ []) (insert id tt r.event_ids) in
          (
            record r {
              event_ids = ids;
              event_id_order = order;
              entries =
                  trim r.max_payload_events
                    (r.entries ++ record { event = e; source = source; hop_limit = hops } ∷ []);
            },
            true,
          ))

  abbrev find_event : Text → List (RecentEvent E S) → Option E
  find_event id [] = none
  find_event id (x ∷ xs) = if eqb (nostr.id_hex x.event) id then some x.event else find_event id xs

  -- `event`
  unfoldable pub recent_event : Text → RecentEvents E S → Option E
  recent_event text r = elim (nostr.from_hex text) [
    | none ↦ none
    | some id ↦ find_event id r.entries
  ]

  -- An event of the application whose payload has left the window starts afresh.
  abbrev pub forgotten : Text → RecentEvents E S → RecentEvents E S
  forgotten id r =
      if is_none (recent_event id r) && contains id r.event_ids
      then record r {
        event_ids = remove id r.event_ids;
        event_id_order = drop_key id r.event_id_order;
      }
      else r

  unfoldable pub insert_for_publish : E → S → ℕ → RecentEvents E S → RecentEvents E S × Bool
  insert_for_publish e source hops r = insert_recent e source hops (forgotten (nostr.id_hex e) r)

-- `contains` and `matching`
abbrev has_seen : {E S : Type 0} → Text → RecentEvents E S → Bool
has_seen id r = contains id r.event_ids

unfoldable matching_recent :
    {F E S : Type 0} ⦃nostr : FilterMatch F E⦄ → List F → RecentEvents E S → List (RecentEvent E S)
matching_recent filters r = keep (λ x. subscription_filters_match filters x.event) r.entries
