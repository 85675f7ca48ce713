-- ===== src/Retained/Invariant.antt =====
-- The snapshot of crates/nostr-pubsub/src/retained.rs stays within its limits, and holds no two events
-- of an id or of a coordinate.
use nostr_pubsub.Prelude.{
  ℕ, ◌≤◌, ◌≡◌, refl, Bool, true, false, not, ◌||◌, none, some, List, [], ◌∷◌, ◌++◌, any, keep,
  length, All, All-append, All-keep, ltb, arith, if◌then◌else◌, if_both, any-false, subst,
  Bool-cases, Option-cases, inl, inr,
}
use nostr_pubsub.Prelude.Map.{text_key, nat_key, pair_key}
use nostr_pubsub.Prelude.Sort.{
  sort_by, Pairwise, Pairwise-keep, Pairwise-snoc, All-sort, Pairwise-sort,
}
use nostr_pubsub.Subscriptions.Types.{FilterMatch}
use nostr_pubsub.Retained.{
  EventView, max_retained_event_bytes, RetentionPolicy, RetainedEvents, new_retained, accepts_event,
  is_current, event_coordinate, has_coordinate, same_id, is_superseded, survives, precedes,
  sum_sizes, admit, insert, restore,
}
use nostr_pubsub.Retained.Order.{IsShed, shed-IsShed, All-shed, Pairwise-shed, IsNewer, sort_newest}

module _ {E : Type 0} ⦃view : EventView E⦄ where
  abbrev pub HaveOwnIds : E × ℕ → E × ℕ → Type 0
  HaveOwnIds x y = same_id x.0 y.0 ≡ false

  -- Two events of one coordinate.
  abbrev share_coordinate : E → E → Bool
  share_coordinate a b = elim (event_coordinate a) [ none ↦ false | some c ↦ has_coordinate c b ]

  abbrev HaveOwnCoordinates : E × ℕ → E × ℕ → Type 0
  HaveOwnCoordinates x y = share_coordinate x.0 y.0 ≡ false

  ids_swap : (x y : E × ℕ) → HaveOwnIds x y → HaveOwnIds y x
  ids_swap x y h = ground arith

  coordinates_swap : (x y : E × ℕ) → HaveOwnCoordinates x y → HaveOwnCoordinates y x
  coordinates_swap x y h = ground arith

  -- What survives has another coordinate than the new event.
  survivors_apart :
      (e : E) (size now : ℕ) (xs : List (E × ℕ))
      → All (λ y. HaveOwnCoordinates y (e, size)) (keep (survives now (event_coordinate e)) xs)
  survivors_apart e size now [] = tt
  survivors_apart e size now (x ∷ xs) = ground (arith, survivors_apart e size now xs)

-- An event that may be kept, with its size.
pub record IsKept {F E : Type 0} ⦃view : EventView E⦄ ⦃filter : FilterMatch F E⦄
    (p : RetentionPolicy F) (x : E × ℕ) : Type 0 where
  pub accepted : accepts_event p x.0 ≡ true
  pub size_eq : view.json_len x.0 ≡ some x.1
  pub size_le : x.1 ≤ max_retained_event_bytes

pub record IsRetained {F E : Type 0} ⦃view : EventView E⦄ ⦃filter : FilterMatch F E⦄
    (r : RetainedEvents F E) : Type 0 where
  pub shed : IsShed r.policy.max_events r.events r.bytes
  pub each : All (IsKept r.policy) r.events
  pub ids : Pairwise HaveOwnIds r.events
  pub coordinates : Pairwise HaveOwnCoordinates r.events
  pub newest : Pairwise IsNewer r.events

module _ {F E : Type 0} ⦃view : EventView E⦄ ⦃filter : FilterMatch F E⦄ where
  admit-IsRetained :
      (e : E) (size now : ℕ) (r : RetainedEvents F E)
      → IsKept r.policy (e, size)
      → any (λ old. same_id old.0 e) r.events ≡ false
      → IsRetained r
      → IsRetained (admit e size now r)
  unfolding admit
  admit-IsRetained e size now r k fresh i =
      let left = keep (survives now (event_coordinate e)) r.events in
      let pushed = left ++ (e, size) ∷ [] in
      let sorted = sort_by precedes pushed in
      record {
        shed =
            shed-IsShed (length sorted) r.policy.max_events sorted (sum_sizes sorted) (omega arith)
              refl;
        each =
            All-shed (IsKept r.policy) (length sorted) r.policy.max_events sorted (sum_sizes sorted)
              (All-sort precedes (IsKept r.policy) pushed (
                All-append (IsKept r.policy) left ((e, size) ∷ [])
                  (All-keep (IsKept r.policy) _ r.events i.each) (k, tt)));
        ids =
            Pairwise-shed HaveOwnIds (length sorted) r.policy.max_events sorted (sum_sizes sorted) (
              Pairwise-sort precedes HaveOwnIds ids_swap pushed (
                Pairwise-snoc HaveOwnIds (e, size) left
                  (All-keep (λ y. HaveOwnIds y (e, size)) _ r.events
                    (any-false (λ old. same_id old.0 e) r.events fresh))
                  (Pairwise-keep HaveOwnIds _ r.events i.ids)));
        coordinates =
            Pairwise-shed HaveOwnCoordinates (length sorted) r.policy.max_events sorted
              (sum_sizes sorted)
              (Pairwise-sort precedes HaveOwnCoordinates coordinates_swap pushed (
                Pairwise-snoc HaveOwnCoordinates (e, size) left
                  (survivors_apart e size now r.events)
                  (Pairwise-keep HaveOwnCoordinates _ r.events i.coordinates)));
        newest =
            Pairwise-shed IsNewer (length sorted) r.policy.max_events sorted (sum_sizes sorted)
              (sort_newest pushed);
      }

  insert-IsRetained :
      (e : E) (now : ℕ) (r : RetainedEvents F E) → IsRetained r → IsRetained (insert e now r).0
  unfolding insert
  insert-IsRetained e now r i =
      elim (Bool-cases (
        not (accepts_event r.policy e)
        || (not (is_current e now) || any (λ old. same_id old.0 e) r.events))) [
          | inl b ↦ rw (b, insert) i
          | inr b ↦ elim (Option-cases (view.json_len e)) [
            | inl f ↦ rw (b, f, insert) i
            | inr (size, f) ↦
                elim (Bool-cases (
                  ltb max_retained_event_bytes size
                  || is_superseded e (event_coordinate e) r.events)) [
                    | inl d ↦ rw (b, f, d, insert) i
                    | inr d ↦
                        rw (b, f, d, insert)
                          (admit-IsRetained e size now r
                            (record {
                              accepted = ground arith;
                              size_eq = f;
                              size_le = ground arith;
                            })
                            (ground arith) i)
                  ]
          ]
        ]

  restore-IsRetained :
      (es : List E) (now : ℕ) (r : RetainedEvents F E)
      → IsRetained r
      → IsRetained (restore es now r)
  unfolding restore
  restore-IsRetained [] now r i = i
  restore-IsRetained (e ∷ es) now r i =
      restore-IsRetained es now (if view.verify e then (insert e now r).0 else r)
        (if_both IsRetained (view.verify e) (λ _. insert-IsRetained e now r i) (λ _. i))

-- A call that changes the snapshot, with the time at which it is made.
pub data RetainedCall (E : Type 0) : Type 0 where
  inserting : E → ℕ → RetainedCall E
  restoring : List E → ℕ → RetainedCall E

module _ {F E : Type 0} ⦃view : EventView E⦄ ⦃filter : FilterMatch F E⦄ where
  unfoldable pub make_calls : List (RetainedCall E) → RetainedEvents F E → RetainedEvents F E
  make_calls [] r = r
  make_calls (RetainedCall.inserting e now ∷ cs) r = make_calls cs (insert e now r).0
  make_calls (RetainedCall.restoring es now ∷ cs) r = make_calls cs (restore es now r)

  make_calls-IsRetained :
      (cs : List (RetainedCall E)) (r : RetainedEvents F E)
      → IsRetained r
      → IsRetained (make_calls cs r)
  unfolding make_calls
  make_calls-IsRetained [] r i = i
  make_calls-IsRetained (RetainedCall.inserting e now ∷ cs) r i =
      make_calls-IsRetained cs (insert e now r).0 (insert-IsRetained e now r i)
  make_calls-IsRetained (RetainedCall.restoring es now ∷ cs) r i =
      make_calls-IsRetained cs (restore es now r) (restore-IsRetained es now r i)

  -- After any insertions and restorations, at any times, on the snapshot that `new` makes of a
  -- policy, it holds no more events than the policy allows and no more bytes than a snapshot may
  -- have with its envelope; its byte count is exact; each event was accepted by the policy and has
  -- its size, which is within the limit; no two events share an id or a coordinate; and newer
  -- events come first.
  pub make_calls-new-IsRetained :
      (cs : List (RetainedCall E)) (p : RetentionPolicy F) (r : RetainedEvents F E)
      → new_retained E p ≡ some r
      → IsRetained (make_calls cs r)
  unfolding new_retained
  make_calls-new-IsRetained cs p r e = make_calls-IsRetained cs r (
      let empty : record { policy = p; events = []; bytes = 0 } ≡ r = ground arith in
      subst IsRetained empty (record {
        shed = record { within = omega arith; counted = refl; fits = omega arith };
        each = tt;
        ids = tt;
        coordinates = tt;
        newest = tt;
      }))
