-- ===== src/Retained.antt =====
-- `RetainedEvents` of crates/nostr-pubsub/src/retained.rs: the bounded snapshot of the events that an
-- application keeps. Times are seconds; `usize` is 64 bits wide.
pub mod Order
pub mod Invariant
pub mod Query
mod Tests
use nostr_pubsub.Prelude.{
  ℕ, zero, suc, ◌+◌, ◌-◌, ◌*◌, ◌==◌, Bool, true, false, not, ◌&&◌, ◌||◌, Option, none, some, List,
  [], ◌∷◌, ◌++◌, ◌⊎◌, inl, inr, any, all, keep, length, map, sum_by, take, ltb, leb, if◌then◌else◌,
  is_some, sat_add_64, u64_max,
}
use nostr_pubsub.Prelude.Map.{Text, text_key, nat_key, pair_key, eqb, lt_bytes}
use nostr_pubsub.Prelude.Map.Queue.{elem}
use nostr_pubsub.Prelude.Sort.{sort_by}
use nostr_pubsub.Subscriptions.Types.{FilterMatch, subscription_filters_match}

-- What the snapshot asks of the nostr crate's `Event`: its fields, its `d` tag, the length of its JSON
-- text, if it serialises, and the check of id and signature.
pub record EventView (E : Type 0) : Type 0 where
  pub id : E → Text
  pub created_at : E → ℕ
  pub kind : E → ℕ
  pub pubkey : E → Text
  pub tags : E → List (List Text)
  pub identifier : E → Option Text
  pub json_len : E → Option ℕ
  pub verify : E → Bool

pub record FilterLimit (F : Type 0) : Type 0 where
  pub limit : F → Option ℕ

abbrev pub max_retained_event_bytes : ℕ
max_retained_event_bytes = 65536

abbrev pub max_retained_snapshot_bytes : ℕ
max_retained_snapshot_bytes = 16777216

abbrev max_retained_events : ℕ
max_retained_events = 4096

-- `EventRetentionPolicy`
pub record RetentionPolicy (F : Type 0) : Type 0 where
  pub filters : List F
  pub max_events : ℕ

pub record RetainedEvents (F E : Type 0) : Type 0 where
  pub policy : RetentionPolicy F
  pub events : List (E × ℕ)
  pub bytes : ℕ

-- `RetainedEvents::new`; the error has one message.
unfoldable pub new_retained :
    {F : Type 0} (E : Type 0) → RetentionPolicy F → Option (RetainedEvents F E)
new_retained E p =
    if p.max_events == 0 || (ltb max_retained_events p.max_events || length p.filters == 0)
    then none
    else some (record { policy = p; events = []; bytes = 0 })

abbrev filters_match : {F E : Type 0} ⦃f : FilterMatch F E⦄ → List F → E → Bool
filters_match filters e = length filters == 0 || subscription_filters_match filters e

abbrev pub accepts_event : {F E : Type 0} ⦃f : FilterMatch F E⦄ → RetentionPolicy F → E → Bool
accepts_event p e = ltb 0 p.max_events && filters_match p.filters e

-- "expiration"
abbrev expiration_text : Text
expiration_text = 101 ∷ 120 ∷ 112 ∷ 105 ∷ 114 ∷ 97 ∷ 116 ∷ 105 ∷ 111 ∷ 110 ∷ []

abbrev is_digit : ℕ → Bool
is_digit b = leb 48 b && leb b 57

-- `parse::<u64>` of digits.
unfoldable pub parse_digits : ℕ → Text → Option ℕ
parse_digits n [] = some n
parse_digits n (b ∷ bs) =
    if ltb u64_max (n * 10 + (b - 48)) then none else parse_digits (n * 10 + (b - 48)) bs

abbrev parse_expiration : Text → Option ℕ
parse_expiration [] = none
parse_expiration (b ∷ bs) = if all is_digit (b ∷ bs) then parse_digits 0 (b ∷ bs) else none

abbrev is_expiration : List Text → Bool
is_expiration [] = false
is_expiration (name ∷ values) = eqb name expiration_text

-- The first tag of that name.
abbrev find_expiration : List (List Text) → Option (List Text)
find_expiration [] = none
find_expiration (t ∷ ts) = if is_expiration t then some t else find_expiration ts

-- The time in a tag, if it has one.
abbrev expires_at : List Text → Option ℕ
expires_at [] = none
expires_at (name ∷ []) = none
expires_at (name ∷ value ∷ values) = parse_expiration value

module _ {E : Type 0} ⦃view : EventView E⦄ where
  abbrev is_unexpired : E → ℕ → Bool
  is_unexpired e now = elim (find_expiration (view.tags e)) [
    | none ↦ true
    | some tag ↦ elim (expires_at tag) [ none ↦ false | some t ↦ ltb now t ]
  ]

  -- `retained_event_is_current`
  unfoldable pub is_current : E → ℕ → Bool
  is_current e now =
      not (leb 20000 (view.kind e) && ltb (view.kind e) 30000)
      && (leb (view.created_at e) (sat_add_64 now 300) && is_unexpired e now)

  unfoldable pub event_supersedes : E → E → Bool
  event_supersedes candidate previous =
      ltb (view.created_at previous) (view.created_at candidate)
      || (view.created_at candidate == view.created_at previous
          && lt_bytes (view.id candidate) (view.id previous))

  unfoldable pub event_coordinate : E → Option (ℕ × (Text × Text))
  event_coordinate e =
      let kind = view.kind e in
      if kind == 0 || (kind == 3 || (leb 10000 kind && leb kind 19999))
      then some (kind, (view.pubkey e, []))
      else (if leb 30000 kind && ltb kind 40000
          then some (
            kind,
            (view.pubkey e, elim (view.identifier e) as (λ _. Text) [ none ↦ [] | some d ↦ d ]),
          )
          else none)

  -- `event_coordinate(old).as_ref() == Some(coordinate)`
  abbrev pub has_coordinate : ℕ × (Text × Text) → E → Bool
  has_coordinate c e = elim (event_coordinate e) [ none ↦ false | some d ↦ eqb d c ]

  abbrev pub same_id : E → E → Bool
  same_id a b = eqb (view.id a) (view.id b)

  -- Whether an event of the same coordinate stands that the new one does not supersede.
  abbrev is_superseded : E → Option (ℕ × (Text × Text)) → List (E × ℕ) → Bool
  is_superseded e none events = false
  is_superseded e (some c) events =
      any (λ old. has_coordinate c old.0 && not (event_supersedes e old.0)) events

  abbrev pub survives : ℕ → Option (ℕ × (Text × Text)) → E × ℕ → Bool
  survives now coordinate old =
      is_current old.0 now
      && elim coordinate [ none ↦ true | some c ↦ not (has_coordinate c old.0) ]

  -- The comparison of the sort: the newer event first, then the lower id.
  abbrev pub precedes : E × ℕ → E × ℕ → Bool
  precedes a b =
      ltb (view.created_at b.0) (view.created_at a.0)
      || (view.created_at a.0 == view.created_at b.0 && lt_bytes (view.id a.0) (view.id b.0))

-- `pop`: the list without its last item, and this item.
unfoldable pub pop : {E : Type 0} → List (E × ℕ) → Option (List (E × ℕ) × ℕ)
pop [] = none
pop (x ∷ xs) = elim (pop xs) [ none ↦ some ([], x.1) | some p ↦ some (x ∷ p.0, p.1) ]

-- The loop that ends `insert`, on fuel: each round takes an event away.
unfoldable pub shed : {E : Type 0} → ℕ → ℕ → List (E × ℕ) → ℕ → List (E × ℕ) × ℕ
shed zero most events bytes = (events, bytes)
shed (suc fuel) most events bytes = elim (pop events) [
  | none ↦ (events, bytes)
  | some p ↦ elim (ltb most (length events) || ltb max_retained_snapshot_bytes (bytes + 128)) [
    | true ↦ shed fuel most p.0 (bytes - (p.1 + 1))
    | false ↦ (events, bytes)
  ]
]

-- `sum` of the sizes, each with its comma.
abbrev pub sum_sizes : {E : Type 0} → List (E × ℕ) → ℕ
sum_sizes events = sum_by (λ x. x.1 + 1) events

module _ {F E : Type 0} ⦃view : EventView E⦄ ⦃filter : FilterMatch F E⦄ where
  -- The rest of `insert`, once the event is accepted.
  unfoldable pub admit : E → ℕ → ℕ → RetainedEvents F E → RetainedEvents F E
  admit e size now r =
      let left = keep (survives now (event_coordinate e)) r.events in
      let sorted = sort_by precedes (left ++ (e, size) ∷ []) in
      let (events, bytes) = shed (length sorted) r.policy.max_events sorted (sum_sizes sorted) in
      record r { events = events; bytes = bytes }

  unfoldable pub insert : E → ℕ → RetainedEvents F E → RetainedEvents F E × Bool
  insert e now r =
      if not (accepts_event r.policy e)
        || (not (is_current e now) || any (λ old. same_id old.0 e) r.events)
      then (r, false)
      else elim (view.json_len e) as (λ _. RetainedEvents F E × Bool) [
        | none ↦ (r, false)
        | some size ↦
            if ltb max_retained_event_bytes size || is_superseded e (event_coordinate e) r.events
            then (r, false)
            else (admit e size now r, any (λ old. same_id old.0 e) (admit e size now r).events)
      ]

  -- `restore`, on events that are checked again.
  unfoldable pub restore : List E → ℕ → RetainedEvents F E → RetainedEvents F E
  restore [] now r = r
  restore (e ∷ es) now r = restore es now (if view.verify e then (insert e now r).0 else r)

abbrev pub snapshot : {F E : Type 0} ⦃view : EventView E⦄ → ℕ → RetainedEvents F E → List E
snapshot now r = map (λ x. x.0) (keep (λ x. is_current x.0 now) r.events)

module _ {F E : Type 0} ⦃view : EventView E⦄ ⦃filter : FilterMatch F E⦄
    ⦃limits : FilterLimit F⦄ where
  -- The events that a filter selects: its inner loop, with the matches so far.
  unfoldable pub select : F → ℕ → ℕ → List (E × ℕ) → List Text
  select f now matched [] = []
  select f now matched (x ∷ xs) =
      let chosen = elim (is_current x.0 now && filter.match_event f x.0) as (λ _. List Text) [
        | true ↦ view.id x.0 ∷ select f now (suc matched) xs
        | false ↦ select f now matched xs
      ] in
      elim (limits.limit f) [ none ↦ chosen | some n ↦ if leb n matched then [] else chosen ]

  unfoldable pub select_all : List F → ℕ → List (E × ℕ) → List Text
  select_all [] now events = []
  select_all (f ∷ fs) now events = select f now 0 events ++ select_all fs now events

  unfoldable pub query : List F → Option ℕ → ℕ → RetainedEvents F E → List E
  query filters most now r =
      let selected = select_all filters now r.events in
      take (elim most as (λ _. ℕ) [ none ↦ r.policy.max_events | some n ↦ n ])
        (map (λ x. x.0) (keep (λ x. elem (view.id x.0) selected) r.events))
