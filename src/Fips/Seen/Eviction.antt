-- ===== src/Fips/Seen/Eviction.antt =====
-- `evict_global` of crates/nostr-pubsub-fips/src/seen_ids.rs: the loop over the global queue ends
-- within the limit, and the compaction drops only records that no observation needs.
use nostr_pubsub.Prelude.{
  ℕ, ◌-◌, ◌≤◌, ◌≡◌, true, some, List, [], ◌∷◌, arith, ltb, Bool-cases, Option-cases, List-cases,
  inl, inr,
}
use nostr_pubsub.Prelude.Map.{Text, Map, text_key, nat_key, pair_key, get, remove}
use nostr_pubsub.Prelude.Map.Size.{total-le-mul}
use nostr_pubsub.Prelude.Map.Queue.{elem-keep}
use nostr_pubsub.Fips.Seen.{
  Scope, IdObservation, IdWindow, is_live, is_current, drop_stale, forget, Remaining, evict_oldest,
  compact, ScopedSeenIds, evict_global,
}
use nostr_pubsub.Fips.Seen.Windows.{IsCovered-remove, drop_stale-IsCovered}
use nostr_pubsub.Fips.Seen.Counts.{
  size, record_of, IsCounted, IsCounted-stale, IsCounted-remove, IsCounted-set,
}

forget-IsCounted :
    (most : ℕ) (scope : Scope) (id : Text) (g : ℕ) (m : Map Scope IdWindow)
    (q : List (Scope × (Text × ℕ))) (n : ℕ) (w : IdWindow)
    → get scope m ≡ some w
    → is_live id g w.ids ≡ true
    → IsCounted most m ((scope, (id, g)) ∷ q) n
    → IsCounted most (forget scope id w m) q (n - 1)
unfolding forget
forget-IsCounted most scope id g m q n w here live c = elim (List-cases (remove id w.ids)) [
  | inl e ↦ rw (e, forget) (IsCounted-remove most scope id g m q n w here live c e)
  | inr (x, xs, e) ↦
      rw (e, forget)
        (rw e at (
          IsCounted-set most scope id g m q n w here live c (drop_stale (remove id w.ids) w.order) (
            drop_stale-IsCovered w.order (remove id w.ids)
              (IsCovered-remove id w.order w.ids (c.windows scope w here).window.covered))))
]

IsCounted-nil : (most : ℕ) (m : Map Scope IdWindow) (n : ℕ) → IsCounted most m [] n → n ≡ 0
unfolding get
IsCounted-nil most m n c =
    let none_left =
      total-le-mul size 0 m
        (λ scope w e. elim (List-cases w.ids) [
          | inl f ↦ ground arith
          | inr ((id, o), ys, f) ↦ absurd (ground (arith, c.covered scope w e id o))
        ])
        c.distinct in
    grind (arith, c.counted)

-- What the loop over the global queue ends with.
record IsEvicted (most limit : ℕ) (r : Remaining) : Type 0 where
  pub left : IsCounted most r.scopes r.queue r.count
  pub within : r.count ≤ limit

evict_oldest-IsEvicted :
    (most limit : ℕ) (q : List (Scope × (Text × ℕ))) (m : Map Scope IdWindow) (n : ℕ)
    → IsCounted most m q n
    → IsEvicted most limit (evict_oldest limit q m n)
unfolding evict_oldest
evict_oldest-IsEvicted most limit [] m n c = record {
  left = c;
  within = omega (arith, IsCounted-nil most m n c);
}
evict_oldest-IsEvicted most limit ((scope, (id, g)) ∷ q) m n c = elim (Bool-cases (ltb limit n)) [
  | inr b ↦ rw (b, evict_oldest) (record { left = c; within = ground arith })
  | inl b ↦ elim (Option-cases (get scope m)) [
    | inl e ↦
        rw (b, e, evict_oldest)
          (evict_oldest-IsEvicted most limit q m n
            (IsCounted-stale most scope id g m q n (ground arith) c))
    | inr (w, e) ↦ elim (Bool-cases (is_live id g w.ids)) [
      | inr stale ↦
          rw (b, e, stale, evict_oldest)
            (evict_oldest-IsEvicted most limit q m n
              (IsCounted-stale most scope id g m q n (ground arith) c))
      | inl live ↦
          rw (b, e, live, evict_oldest)
            (evict_oldest-IsEvicted most limit q (forget scope id w m) (n - 1)
              (forget-IsCounted most scope id g m q n w e live c))
    ]
  ]
]

is_current_of :
    (m : Map Scope IdWindow) (scope : Scope) (w : IdWindow) (id : Text) (o : IdObservation)
    → get scope m ≡ some w
    → get id w.ids ≡ some o
    → is_current m (record_of scope id o) ≡ true
is_current_of m scope w id o e f = ground arith

compact-IsCounted :
    (most limit : ℕ) (m : Map Scope IdWindow) (q : List (Scope × (Text × ℕ))) (n : ℕ)
    → IsCounted most m q n
    → IsCounted most m (compact limit m q) n
unfolding compact
compact-IsCounted most limit m q n c = record {
  distinct = c.distinct;
  windows = c.windows;
  counted = c.counted;
  covered = λ scope w e id o f. ground (
    arith,
    c.covered scope w e id o f,
    elem-keep (record_of scope id o) (is_current m) q,
    is_current_of m scope w id o e f,
  );
}

-- The state within its limits.
pub record IsSeen (s : ScopedSeenIds) : Type 0 where
  pub counted : IsCounted s.max_per_scope s.scopes s.global_order s.total_ids
  pub within : s.total_ids ≤ s.max_total

pub evict_global-IsSeen :
    (s : ScopedSeenIds)
    → IsCounted s.max_per_scope s.scopes s.global_order s.total_ids
    → IsSeen (evict_global s)
unfolding evict_global
evict_global-IsSeen s c =
    let r = evict_oldest s.max_total s.global_order s.scopes s.total_ids in
    let e =
      evict_oldest-IsEvicted s.max_per_scope s.max_total s.global_order s.scopes s.total_ids c in
    record {
      counted = compact-IsCounted s.max_per_scope s.max_total r.scopes r.queue r.count e.left;
      within = e.within;
    }
