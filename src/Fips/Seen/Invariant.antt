-- ===== src/Fips/Seen/Invariant.antt =====
-- Every operation of crates/nostr-pubsub-fips/src/seen_ids.rs keeps the windows within their limits.
use nostr_pubsub.Prelude.{
  ℕ, suc, ◌+◌, ◌≤◌, ◌≡◌, refl, Bool, true, not, Option, none, some, List, [], ◌∷◌, ◌++◌, arith,
  if_both, Bool-cases, Option-cases, inl, inr,
}
use nostr_pubsub.Prelude.Map.{
  Text, Map, text_key, nat_key, pair_key, eqb, get, insert, retain, get-insert, get-retain-some,
  Distinct-insert, Distinct-retain,
}
use nostr_pubsub.Prelude.Map.Size.{total, total-insert, weight-le-total, length-insert}
use nostr_pubsub.Prelude.Map.Queue.{elem, elem-append, elem-keep}
use nostr_pubsub.Fips.Seen.{
  Scope, IdObservation, IdWindow, window_at, ScopedSeenIds, trim_window, add_observation,
  observe_with_match, observe_wire, observe_response, clear_scopes, new_seen,
}
use nostr_pubsub.Fips.Seen.Windows.{
  eqb_pair, IsCovered-push, empty_window-IsWindow, trim_window-IsTrimmed,
}
use nostr_pubsub.Fips.Seen.Counts.{size, record_of, IsBounded, IsCounted, each_set}
use nostr_pubsub.Fips.Seen.Eviction.{IsSeen, evict_global-IsSeen}

pub new_seen-IsSeen : (per_scope all_scopes : ℕ) → IsSeen (new_seen per_scope all_scopes)
unfolding get
new_seen-IsSeen per_scope all_scopes = record {
  counted = record {
    distinct = tt;
    windows = λ scope w e. ground arith;
    counted = refl;
    covered = λ scope w e id o f. ground arith;
  };
  within = omega arith;
}

window_at-IsBounded :
    {most n : ℕ} {q : List (Scope × (Text × ℕ))} (scope : Scope) (m : Map Scope IdWindow)
    → IsCounted most m q n
    → IsBounded most (window_at scope m)
window_at-IsBounded {most} scope m c = elim (Option-cases (get scope m)) [
  | inl e ↦ rw (e, window_at) (record { window = empty_window-IsWindow; within = omega arith })
  | inr (w, e) ↦ rw (e, window_at) (c.windows scope w e)
]

window_at-covered :
    {most n : ℕ} {q : List (Scope × (Text × ℕ))} (scope : Scope) (m : Map Scope IdWindow)
    → IsCounted most m q n
    → (id : Text) (o : IdObservation) → get id (window_at scope m).ids ≡ some o
    → elem (record_of scope id o) q ≡ true
unfolding get
window_at-covered scope m c id o f = elim (Option-cases (get scope m)) [
  | inl e ↦ ground arith
  | inr (w, e) ↦ c.covered scope w e id o (ground arith)
]

size-window_at : (scope : Scope) (m : Map Scope IdWindow) → size (window_at scope m) ≤ total size m
size-window_at scope m = ground (arith, weight-le-total size scope m)

-- A record joins the global queue, and an id its window.
covered_push :
    (scope : Scope) (id : Text) (o : IdObservation) (q : List (Scope × (Text × ℕ)))
    (ids : Map Text IdObservation)
    → ((j : Text) (p : IdObservation) → get j ids ≡ some p → elem (record_of scope j p) q ≡ true)
    → (j : Text) (p : IdObservation) → get j (insert id o ids) ≡ some p
    → elem (record_of scope j p) (q ++ record_of scope id o ∷ []) ≡ true
covered_push scope id o q ids h j p e = elim (Bool-cases (eqb j id)) [
  | inl same ↦ ground (
    arith,
    get-insert j id o ids,
    elem-append (record_of scope j p) (record_of scope id o) q,
    eqb_pair (record_of scope j p) (record_of scope id o),
    eqb_pair (j, p.generation) (id, o.generation),
  )
  | inr other ↦ ground (
    arith,
    h j p,
    get-insert j id o ids,
    elem-append (record_of scope j p) (record_of scope id o) q,
  )
]

add_observation-IsCounted :
    (scope : Scope) (id : Text) (matched : Bool) (s : ScopedSeenIds)
    → get id (window_at scope s.scopes).ids ≡ none
    → IsSeen s
    → let after = add_observation scope id matched (window_at scope s.scopes) s in
      IsCounted s.max_per_scope after.scopes after.global_order after.total_ids
unfolding add_observation
add_observation-IsCounted scope id matched s new i =
    let c = i.counted in
    let w = window_at scope s.scopes in
    let o : IdObservation = record {
      generation = s.next_generation;
      matched_subscription = matched;
    } in
    let old = window_at-IsBounded scope s.scopes c in
    let queue = w.order ++ (id, s.next_generation) ∷ [] in
    let ids = insert id o w.ids in
    let left = trim_window s.max_per_scope queue ids (suc s.total_ids) in
    let t =
      trim_window-IsTrimmed s.max_per_scope (suc s.total_ids) queue ids
        (Distinct-insert id o w.ids old.window.distinct)
        (IsCovered-push id o w.order w.ids old.window.covered)
        (ground (arith, length-insert id o w.ids, size-window_at scope s.scopes, c.counted)) in
    record {
      distinct = Distinct-insert scope left.0 s.scopes c.distinct;
      windows =
          each_set (λ _. IsBounded s.max_per_scope) scope left.0 s.scopes
            (record { window = t.window; within = t.within }) (λ r v _. c.windows r v);
      counted = ground (
        arith,
        t.counted,
        c.counted,
        length-insert id o w.ids,
        total-insert size scope left.0 s.scopes,
      );
      covered =
          each_set
            (λ r v.
              (j : Text) (p : IdObservation)
              → get j v.ids ≡ some p
              → elem (record_of r j p) (s.global_order ++ record_of scope id o ∷ []) ≡ true)
            scope left.0 s.scopes
            (λ j p e.
              covered_push scope id o s.global_order w.ids (window_at-covered scope s.scopes c) j p
                (t.kept j p e))
            (λ r v _ e j p f. ground (
              arith,
              c.covered r v e j p f,
              elem-append (record_of r j p) (record_of scope id o) s.global_order,
            ));
    }

pub observe_with_match-IsSeen :
    (scope : Scope) (id : Text) (matched : Bool) (s : ScopedSeenIds)
    → IsSeen s
    → IsSeen (observe_with_match scope id matched s).0
unfolding observe_with_match add_observation
observe_with_match-IsSeen scope id matched s i =
    elim (Option-cases (get id (window_at scope s.scopes).ids)) [
      | inr (o, e) ↦ rw (e, observe_with_match) i
      | inl e ↦
          rw (e, observe_with_match)
            (evict_global-IsSeen (add_observation scope id matched (window_at scope s.scopes) s)
              (add_observation-IsCounted scope id matched s e i))
    ]

observe_wire-IsSeen :
    (npub : Text) (wire : Option Text) (response id : Text) (matched : Bool) (s : ScopedSeenIds)
    → IsSeen s
    → IsSeen (observe_wire npub wire response id matched s)
unfolding observe_wire
observe_wire-IsSeen npub none response id matched s i = i
observe_wire-IsSeen npub (some subscription) response id matched s i =
    if_both IsSeen (eqb subscription response) (λ _. i)
      (λ _. observe_with_match-IsSeen (npub, subscription) id matched s i)

pub observe_response-IsSeen :
    (npub : Text) (wire : Option Text) (response id : Text) (matched : Bool) (s : ScopedSeenIds)
    → IsSeen s
    → IsSeen (observe_response npub wire response id matched s).0
observe_response-IsSeen npub wire response id matched s i =
    observe_with_match-IsSeen (npub, response) id matched _
      (observe_wire-IsSeen npub wire response id matched s i)

-- A test splits what the values sum to.
total_split :
    (p : Scope → Bool) (m : Map Scope IdWindow)
    → total size (retain (λ scope _. p scope) m) + total size (retain (λ scope _. not (p scope)) m)
      ≡ total size m
unfolding retain
total_split p [] = refl
total_split p ((scope, w) ∷ m) = ground (arith, total_split p m)

pub clear_scopes-IsSeen :
    (p : Scope → Bool) (s : ScopedSeenIds) → IsSeen s → IsSeen (clear_scopes p s)
unfolding clear_scopes
clear_scopes-IsSeen p s i =
    let c = i.counted in
    let kept : (scope : Scope) (w : IdWindow)
        → get scope (retain (λ scope _. not (p scope)) s.scopes) ≡ some w
        → (get scope s.scopes ≡ some w) × (not (p scope) ≡ true) =
      λ scope w e. get-retain-some scope (λ r _. not (p r)) s.scopes c.distinct e in
    record {
      counted = record {
        distinct = Distinct-retain _ s.scopes c.distinct;
        windows = λ scope w e. c.windows scope w (kept scope w e).0;
        counted = omega (arith, c.counted, total_split p s.scopes);
        covered = λ scope w e id o f. ground (
          arith,
          kept scope w e,
          c.covered scope w (kept scope w e).0 id o f,
          elem-keep (record_of scope id o) (λ r. not (p r.0)) s.global_order,
        );
      };
      within = omega (arith, i.within);
    }
