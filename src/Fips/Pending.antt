-- ===== src/Fips/Pending.antt =====
-- `PendingWants` of crates/nostr-pubsub-fips/src/pending_wants.rs: for each wanted event, the peer
-- that was asked, the peers that may be asked instead, and the retries.
pub mod Retain
pub mod Bounds
pub mod Calls
pub mod Taking
use nostr_pubsub.Prelude.{
  ℕ, suc, ◌+◌, ◌-◌, ◌*◌, ◌^◌, ◌==◌, min, max, Bool, true, false, not, ◌&&◌, ◌||◌, Option, none,
  some, List, [], ◌∷◌, ◌++◌, any, keep, length, ltb, leb, if◌then◌else◌, sat_add_64, sat_sub,
  u64_max,
}
use nostr_pubsub.Prelude.Map.{Text, text_key, lt_bytes, Map, eqb, get, contains, insert, remove}
use nostr_pubsub.Prelude.Map.Queue.{drop_key, evict, elem}

pub record InventoryProvider : Type 0 where
  pub peer_npub : Text
  pub subscription_ids : List Text
  pub requested : Bool

pub record PendingInventory : Type 0 where
  pub selected : InventoryProvider
  pub alternatives : List InventoryProvider
  pub event_kind : ℕ
  pub payload_bytes : ℕ
  pub hop_limit : ℕ
  pub requested_at_ms : ℕ
  pub retry_count : ℕ

pub record PendingWants : Type 0 where
  pub max_events : ℕ
  pub max_alternatives : ℕ
  pub entries : Map Text PendingInventory
  pub order : List Text

abbrev pub max_want_retries : ℕ
max_want_retries = 5

abbrev pub new_pending : ℕ → ℕ → PendingWants
new_pending events alternatives = record {
  max_events = events;
  max_alternatives = alternatives;
  entries = [];
  order = [];
}

-- The number of events that `from_options` allows.
abbrev pending_capacity : ℕ → ℕ → ℕ
pending_capacity active replay = max (min (sat_add_64 active 1 * replay) u64_max) 1

-- `requested_provider`, in the order of the chain.
unfoldable pub find_requested : Text → List InventoryProvider → Option InventoryProvider
find_requested npub [] = none
find_requested npub (p ∷ ps) =
    if p.requested && eqb p.peer_npub npub then some p else find_requested npub ps

abbrev requested_provider : Text → PendingInventory → Option InventoryProvider
requested_provider npub p = find_requested npub (p.selected ∷ p.alternatives)

-- `sort_unstable` and `dedup`, of which equal texts cannot tell any other sort.
abbrev insert_text : Text → List Text → List Text
insert_text t [] = t ∷ []
insert_text t (u ∷ us) = if lt_bytes u t then u ∷ insert_text t us else t ∷ u ∷ us

abbrev sort_texts : List Text → List Text
sort_texts [] = []
sort_texts (t ∷ ts) = insert_text t (sort_texts ts)

abbrev dedup_texts : List Text → List Text
dedup_texts [] = []
dedup_texts (t ∷ ts) = elim (dedup_texts ts) [
  | [] ↦ t ∷ []
  | u ∷ us ↦ if eqb t u then u ∷ us else t ∷ u ∷ us
]

abbrev pub sort_dedup : List Text → List Text
sort_dedup ts = dedup_texts (sort_texts ts)

abbrev merge_subscription_ids : List Text → List Text → List Text
merge_subscription_ids existing incoming = sort_dedup (existing ++ incoming)

abbrev merge_into : List Text → InventoryProvider → InventoryProvider
merge_into ids p = record p { subscription_ids = merge_subscription_ids p.subscription_ids ids }

-- A provider joins the alternatives, or lends its subscriptions to the one that stands for it.
unfoldable pub merge_first : InventoryProvider → List InventoryProvider → List InventoryProvider
merge_first p [] = []
merge_first p (q ∷ qs) =
    if eqb q.peer_npub p.peer_npub
    then merge_into p.subscription_ids q ∷ qs
    else q ∷ merge_first p qs

unfoldable pub join_alternatives :
    ℕ → InventoryProvider → List InventoryProvider → List InventoryProvider
join_alternatives most p qs =
    if any (λ q. eqb q.peer_npub p.peer_npub) qs
    then merge_first p qs
    else (if ltb (length qs) most
        then qs
          ++ record p { requested = false; subscription_ids = sort_dedup p.subscription_ids } ∷ []
        else qs)

-- The case of `insert` where the event is pending.
unfoldable pub join_provider : ℕ → PendingInventory → PendingInventory → PendingInventory
join_provider most incoming p =
    if not (p.event_kind == incoming.event_kind) || not (p.payload_bytes == incoming.payload_bytes)
    then p
    else (if eqb incoming.selected.peer_npub p.selected.peer_npub
        then record p { selected = merge_into incoming.selected.subscription_ids p.selected }
        else record p { alternatives = join_alternatives most incoming.selected p.alternatives })

unfoldable pub insert_pending : Text → PendingInventory → PendingWants → PendingWants × Bool
insert_pending id incoming w = elim (get id w.entries) [
  | some p ↦ (
    record w { entries = insert id (join_provider w.max_alternatives incoming p) w.entries },
    false,
  )
  | none ↦
      let (order, entries) =
        evict (suc w.max_events) (w.order ++ id ∷ []) (insert id incoming w.entries) in
      (record w { entries = entries; order = order }, true)
]

-- Whether a complete event from the peer answers the request.
abbrev pub answers : Text → Text → ℕ → ℕ → PendingInventory → Bool
answers source subscription kind bytes p = elim (requested_provider source p) [
  | none ↦ false
  | some q ↦
      elem subscription q.subscription_ids && ((p.event_kind == kind) && (p.payload_bytes == bytes))
]

unfoldable pub take_matching :
    Text → Text → Text → ℕ → ℕ → PendingWants → PendingWants × Option PendingInventory
take_matching id source subscription kind bytes w = elim (get id w.entries) [
  | none ↦ (w, none)
  | some p ↦
      if answers source subscription kind bytes p
      then (record w { entries = remove id w.entries; order = drop_key id w.order }, some p)
      else (w, none)
]

-- `retain` with a test that may change the value.
unfoldable pub retain_map : {V : Type 0} → (V → Option V) → Map Text V → Map Text V
retain_map f [] = []
retain_map f ((k, v) ∷ m) =
    let rest = retain_map f m in elim (f v) [ none ↦ rest | some w ↦ (k, w) ∷ rest ]

-- The entries after such a `retain`, and the order that is left.
unfoldable pub retain_entries :
    (PendingInventory → Option PendingInventory) → PendingWants → PendingWants
retain_entries f w =
    let entries = retain_map f w.entries in
    record w { entries = entries; order = keep (λ id. contains id entries) w.order }

abbrev is_nil : List Text → Bool
is_nil xs = elim xs [ [] ↦ true | _ ∷ _ ↦ false ]

abbrev without : Text → InventoryProvider → InventoryProvider
without subscription p = record p {
  subscription_ids = keep (λ s. not (eqb s subscription)) p.subscription_ids;
}

abbrev pub withouts : Text → List InventoryProvider → List InventoryProvider
withouts subscription [] = []
withouts subscription (p ∷ ps) =
    let rest = withouts subscription ps in
    if is_nil (without subscription p).subscription_ids then rest else without subscription p ∷ rest

-- The first alternative takes the place of the peer that was asked.
abbrev pub promote : PendingInventory → Option PendingInventory
promote p = elim p.alternatives [
  | [] ↦ none
  | q ∷ qs ↦ some (record p { selected = q; alternatives = qs })
]

unfoldable pub drop_subscription : Text → PendingInventory → Option PendingInventory
drop_subscription subscription p =
    let p' = record p {
      selected = without subscription p.selected;
      alternatives = withouts subscription p.alternatives;
    } in
    if is_nil p'.selected.subscription_ids then promote p' else some p'

abbrev pub remove_subscription : Text → PendingWants → PendingWants
remove_subscription subscription w = retain_entries (drop_subscription subscription) w

unfoldable pub drop_peer : Text → ℕ → PendingInventory → Option PendingInventory
drop_peer npub now p =
    let p' = record p { alternatives = keep (λ q. not (eqb q.peer_npub npub)) p.alternatives } in
    if eqb p.selected.peer_npub npub
    then elim (promote p') [
      | none ↦ none
      | some q ↦ some (record q { retry_count = 0; requested_at_ms = now })
    ]
    else some p'

-- `remove_peer`, with the clock's time.
abbrev pub remove_peer : Text → ℕ → PendingWants → PendingWants
remove_peer npub now w = retain_entries (drop_peer npub now) w

abbrev pub clear : PendingWants → PendingWants
clear w = record w { entries = []; order = [] }

-- What `retry_due` finds of an entry.
pub data Verdict : Type 0 where
  waiting expired : Verdict
  retried : PendingInventory → Verdict

-- `1 << min(retry_count, 5)` steps of the delay, with saturation.
abbrev retry_delay : ℕ → ℕ → ℕ
retry_delay after count = min (after * 2 ^ min count max_want_retries) u64_max

abbrev pub rotate : PendingInventory → PendingInventory
rotate p = elim p.alternatives [
  | [] ↦ p
  | q ∷ qs ↦ record p { selected = q; alternatives = qs ++ p.selected ∷ [] }
]

abbrev pub ask : ℕ → PendingInventory → PendingInventory
ask now p = record p {
  selected = record (p.selected) { requested = true };
  requested_at_ms = now;
  retry_count = p.retry_count + 1;
}

unfoldable pub judge : ℕ → ℕ → PendingInventory → Verdict
judge now after p =
    if ltb (sat_sub now p.requested_at_ms) (retry_delay after p.retry_count)
    then waiting
    else (if leb max_want_retries p.retry_count then expired else retried (ask now (rotate p)))

abbrev pub surviving : Verdict → PendingInventory → Option PendingInventory
surviving waiting p = some p
surviving expired p = none
surviving (retried q) p = some q

-- `PendingWantRetryBatch`
pub record RetryBatch : Type 0 where
  pub retries : List (Text × InventoryProvider)
  pub expired_providers : List InventoryProvider
  pub expired_event_count : ℕ

abbrev pub report : Text → PendingInventory → Verdict → RetryBatch → RetryBatch
report id p waiting b = b
report id p expired b = record b {
  expired_event_count = b.expired_event_count + 1;
  expired_providers = keep (λ q. q.requested) (p.selected ∷ p.alternatives) ++ b.expired_providers;
}
report id p (retried q) b = record b { retries = (id, q.selected) ∷ b.retries }

unfoldable pub batch : ℕ → ℕ → Map Text PendingInventory → RetryBatch
batch now after [] = record { retries = []; expired_providers = []; expired_event_count = 0 }
batch now after ((id, p) ∷ m) = report id p (judge now after p) (batch now after m)

unfoldable pub retry_due : ℕ → ℕ → PendingWants → PendingWants × RetryBatch
retry_due now after w =
    (retain_entries (λ p. surviving (judge now after p) p) w, batch now after w.entries)
