-- ===== src/Fips/Seen.antt =====
-- `ScopedSeenIds` of crates/nostr-pubsub-fips/src/seen_ids.rs: which event ids a peer has sent under
-- a subscription, in windows that are bounded one by one and together. `usize` and `u64` are 64 bits
-- wide.
pub mod Windows
pub mod Counts
pub mod Eviction
pub mod Invariant
pub mod Scoping
pub mod Run
pub mod Refinement
mod Tests
use nostr_pubsub.Prelude.{
  ℕ, suc, ◌+◌, ◌-◌, ◌*◌, ◌%◌, ◌^◌, ◌==◌, min, max, Bool, true, false, not, Option, none, some, List,
  [], ◌∷◌, ◌++◌, keep, length, ltb, if◌then◌else◌, sat_sub, u64_max,
}
use nostr_pubsub.Prelude.Map.{Text, Map, text_key, pair_key, eqb, get, insert, remove, retain}
use nostr_pubsub.Prelude.Map.Size.{total}

-- The peer, and the subscription.
abbrev pub Scope : Type 0
Scope = Text × Text

pub record IdObservation : Type 0 where
  pub generation : ℕ
  pub matched_subscription : Bool

pub record IdWindow : Type 0 where
  pub ids : Map Text IdObservation
  pub order : List (Text × ℕ)

pub record Observation : Type 0 where
  pub first : Bool
  pub previously_matched : Bool

pub record ScopedSeenIds : Type 0 where
  pub max_per_scope : ℕ
  pub max_total : ℕ
  pub next_generation : ℕ
  pub total_ids : ℕ
  pub scopes : Map Scope IdWindow
  pub global_order : List (Scope × (Text × ℕ))

abbrev pub new_seen : ℕ → ℕ → ScopedSeenIds
new_seen per_scope all_scopes = record {
  max_per_scope = per_scope;
  max_total = all_scopes;
  next_generation = 1;
  total_ids = 0;
  scopes = [];
  global_order = [];
}

abbrev pub empty_window : IdWindow
empty_window = record { ids = []; order = [] }

-- `entry(scope).or_default()`
abbrev pub window_at : Scope → Map Scope IdWindow → IdWindow
window_at scope m = elim (get scope m) [ none ↦ empty_window | some w ↦ w ]

-- `wrapping_add(1).max(1)`
abbrev following : ℕ → ℕ
following g = max ((g + 1) % 2 ^ 64) 1

-- Whether a queue's record is about the observation that the window holds now.
abbrev pub is_live : Text → ℕ → Map Text IdObservation → Bool
is_live id g ids = elim (get id ids) [ none ↦ false | some o ↦ o.generation == g ]

-- The loop over the window's own queue, with the count of all observations.
unfoldable pub trim_window : ℕ → List (Text × ℕ) → Map Text IdObservation → ℕ → IdWindow × ℕ
trim_window most [] ids n = (record { ids = ids; order = [] }, n)
trim_window most ((id, g) ∷ q) ids n = elim (ltb most (length ids)) [
  | false ↦ (record { ids = ids; order = (id, g) ∷ q }, n)
  | true ↦ elim (is_live id g ids) [
    | true ↦ trim_window most q (remove id ids) (n - 1)
    | false ↦ trim_window most q ids n
  ]
]

-- The stale records at the front of a window's queue.
unfoldable pub drop_stale : Map Text IdObservation → List (Text × ℕ) → List (Text × ℕ)
drop_stale ids [] = []
drop_stale ids ((id, g) ∷ q) = if is_live id g ids then (id, g) ∷ q else drop_stale ids q

-- A window without the id; the scope goes with its last one.
unfoldable pub forget : Scope → Text → IdWindow → Map Scope IdWindow → Map Scope IdWindow
forget scope id w m = elim (remove id w.ids) [
  | [] ↦ remove scope m
  | x ∷ xs ↦ insert scope (record { ids = x ∷ xs; order = drop_stale (x ∷ xs) w.order }) m
]

pub record Remaining : Type 0 where
  pub scopes : Map Scope IdWindow
  pub queue : List (Scope × (Text × ℕ))
  pub count : ℕ

-- The loop of `evict_global`.
unfoldable pub evict_oldest : ℕ → List (Scope × (Text × ℕ)) → Map Scope IdWindow → ℕ → Remaining
evict_oldest most [] m n = record { scopes = m; queue = []; count = n }
evict_oldest most ((scope, (id, g)) ∷ q) m n = elim (ltb most n) [
  | false ↦ record { scopes = m; queue = (scope, (id, g)) ∷ q; count = n }
  | true ↦ elim (get scope m) [
    | none ↦ evict_oldest most q m n
    | some w ↦ elim (is_live id g w.ids) [
      | true ↦ evict_oldest most q (forget scope id w m) (n - 1)
      | false ↦ evict_oldest most q m n
    ]
  ]
]

abbrev pub is_current : Map Scope IdWindow → Scope × (Text × ℕ) → Bool
is_current m (scope, (id, g)) = elim (get scope m) [ none ↦ false | some w ↦ is_live id g w.ids ]

-- The compaction that ends `evict_global`.
unfoldable pub compact :
    ℕ → Map Scope IdWindow → List (Scope × (Text × ℕ)) → List (Scope × (Text × ℕ))
compact most m q = if ltb (min (most * 2) u64_max) (length q) then keep (is_current m) q else q

unfoldable pub evict_global : ScopedSeenIds → ScopedSeenIds
evict_global s =
    let r = evict_oldest s.max_total s.global_order s.scopes s.total_ids in
    record s {
      scopes = r.scopes;
      total_ids = r.count;
      global_order = compact s.max_total r.scopes r.queue;
    }

-- The state before `evict_global`, once an id is known to be new in its window.
unfoldable pub add_observation : Scope → Text → Bool → IdWindow → ScopedSeenIds → ScopedSeenIds
add_observation scope id matched w s =
    let g = s.next_generation in
    let (window, count) =
      trim_window s.max_per_scope (w.order ++ (id, g) ∷ [])
        (insert id (record { generation = g; matched_subscription = matched }) w.ids)
        (suc s.total_ids) in
    record s {
      next_generation = following g;
      total_ids = count;
      scopes = insert scope window s.scopes;
      global_order = s.global_order ++ (scope, (id, g)) ∷ [];
    }

unfoldable pub observe_with_match :
    Scope → Text → Bool → ScopedSeenIds → ScopedSeenIds × Observation
observe_with_match scope id matched s = elim (get id (window_at scope s.scopes).ids) [
  | some o ↦ (s, record { first = false; previously_matched = o.matched_subscription })
  | none ↦ (
    evict_global (add_observation scope id matched (window_at scope s.scopes) s),
    record { first = true; previously_matched = false },
  )
]

unfoldable pub observe : Text → Text → Text → ScopedSeenIds → ScopedSeenIds × Bool
observe npub subscription id s =
    let (after, seen) = observe_with_match (npub, subscription) id false s in (after, seen.first)

-- The identity of a late duplicate, under the wire subscription that the event came by.
unfoldable pub observe_wire :
    Text → Option Text → Text → Text → Bool → ScopedSeenIds → ScopedSeenIds
observe_wire npub wire response id matched s = elim wire [
  | none ↦ s
  | some subscription ↦
      if eqb subscription response
      then s
      else (observe_with_match (npub, subscription) id matched s).0
]

abbrev pub observe_response :
    Text → Option Text → Text → Text → Bool → ScopedSeenIds → ScopedSeenIds × Observation
observe_response npub wire response id matched s =
    observe_with_match (npub, response) id matched (observe_wire npub wire response id matched s)

-- The scopes of a test go, with their observations and their records in the queue.
unfoldable pub clear_scopes : (Scope → Bool) → ScopedSeenIds → ScopedSeenIds
clear_scopes p s = record s {
  scopes = retain (λ scope _. not (p scope)) s.scopes;
  total_ids =
      sat_sub s.total_ids (total (λ w. length w.ids) (retain (λ scope _. p scope) s.scopes));
  global_order = keep (λ e. not (p e.0)) s.global_order;
}

abbrev pub clear_peer : Text → ScopedSeenIds → ScopedSeenIds
clear_peer npub s = clear_scopes (λ scope. eqb scope.0 npub) s

abbrev pub clear_subscription : Text → ScopedSeenIds → ScopedSeenIds
clear_subscription subscription s = clear_scopes (λ scope. eqb scope.1 subscription) s
