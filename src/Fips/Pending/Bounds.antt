-- ===== src/Fips/Pending/Bounds.antt =====
-- The requests of crates/nostr-pubsub-fips/src/pending_wants.rs stay within their limits.
use nostr_pubsub.Prelude.{
  ℕ, suc, ◌≤◌, ◌≡◌, ◌==◌, refl, subst, false, not, ◌||◌, Option, some, List, [], ◌∷◌, ◌++◌, any,
  length, ltb, if_both, Bool-cases, Option-cases, inl, inr, arith, length-append,
}
use nostr_pubsub.Prelude.Map.{Text, text_key, Map, eqb, get, insert, get-insert, get-remove}
use nostr_pubsub.Prelude.Map.Size.{length-insert, length-remove}
use nostr_pubsub.Prelude.Map.Queue.{
  evict_room, get-evict, Synced, Synced-push, Synced-set, Synced-drop,
}
use nostr_pubsub.Fips.Pending.{
  InventoryProvider, PendingInventory, PendingWants, max_want_retries, merge_first, sort_dedup,
  join_alternatives, join_provider, insert_pending, answers, take_matching, retain_entries,
}
use nostr_pubsub.Fips.Pending.Retain.{get-retain_map, length-retain_map-le, Synced-retain_map}

-- An entry within the limits.
pub record IsEntry (most : ℕ) (p : PendingInventory) : Type 0 where
  pub alternatives_le : length p.alternatives ≤ most
  pub retries_le : p.retry_count ≤ max_want_retries

-- The order holds the events that are waited for, each once, and all is within the limits.
pub record IsPending (w : PendingWants) : Type 0 where
  pub synced : Synced w.order w.entries
  pub events_le : length w.entries ≤ w.max_events
  pub each :
      (id : Text) (p : PendingInventory) → get id w.entries ≡ some p → IsEntry w.max_alternatives p

length-merge_first :
    (p : InventoryProvider) (qs : List InventoryProvider) → length (merge_first p qs) ≡ length qs
unfolding merge_first
length-merge_first p [] = refl
length-merge_first p (q ∷ qs) = ground (arith, length-merge_first p qs)

pub length_snoc :
    (qs : List InventoryProvider) (q : InventoryProvider) → length (qs ++ q ∷ []) ≡ suc (length qs)
length_snoc qs q = omega (arith, length-append qs (q ∷ []))

length-join_alternatives :
    (most : ℕ) (p : InventoryProvider) (qs : List InventoryProvider)
    → length qs ≤ most
    → length (join_alternatives most p qs) ≤ most
unfolding join_alternatives
length-join_alternatives most p qs h =
    elim (Bool-cases (any (λ q. eqb q.peer_npub p.peer_npub) qs)) [
      | inl b ↦ rw (b, join_alternatives) (omega (arith, length-merge_first p qs, h))
      | inr b ↦ elim (Bool-cases (ltb (length qs) most)) [
        | inr d ↦ rw (b, d, join_alternatives) h
        | inl d ↦
            rw (b, d, join_alternatives)
              (ground (
                arith,
                length_snoc qs (record p {
                  requested = false;
                  subscription_ids = sort_dedup p.subscription_ids;
                }),
              ))
      ]
    ]

join_provider-IsEntry :
    (most : ℕ) (incoming p : PendingInventory)
    → IsEntry most p
    → IsEntry most (join_provider most incoming p)
unfolding join_provider
join_provider-IsEntry most incoming p i =
    if_both (IsEntry most)
      (not (p.event_kind == incoming.event_kind) || not (p.payload_bytes == incoming.payload_bytes))
      (λ b. i)
      (λ b.
        if_both (IsEntry most) (eqb incoming.selected.peer_npub p.selected.peer_npub)
          (λ d. record { alternatives_le = i.alternatives_le; retries_le = i.retries_le })
          (λ d. record {
            alternatives_le =
                length-join_alternatives most incoming.selected p.alternatives i.alternatives_le;
            retries_le = i.retries_le;
          }))

-- An insertion with an entry that fulfils a predicate.
each_insert :
    (P : PendingInventory → Type 0) (id : Text) (p : PendingInventory)
    (m : Map Text PendingInventory)
    → P p
    → ((j : Text) (q : PendingInventory) → get j m ≡ some q → P q)
    → (j : Text) (q : PendingInventory) → get j (insert id p m) ≡ some q
    → P q
each_insert P id p m h f j q e = elim (Bool-cases (eqb j id)) [
  | inl same ↦ let here : p ≡ q = ground (arith, get-insert j id p m) in subst P here h
  | inr other ↦ f j q (ground (arith, get-insert j id p m))
]

pub insert_pending-IsPending :
    (id : Text) (incoming : PendingInventory) (w : PendingWants)
    → IsEntry w.max_alternatives incoming
    → IsPending w
    → IsPending (insert_pending id incoming w).0
unfolding insert_pending
insert_pending-IsPending id incoming w h i = elim (Option-cases (get id w.entries)) [
  | inr (p, e) ↦
      let p' = join_provider w.max_alternatives incoming p in
      rw (e, insert_pending)
        (record {
          synced = Synced-set id p' (ground arith) i.synced;
          events_le = ground (arith, length-insert id p' w.entries, i.events_le);
          each =
              each_insert (IsEntry w.max_alternatives) id p' w.entries
                (join_provider-IsEntry w.max_alternatives incoming p (i.each id p e)) i.each;
        })
  | inl e ↦
      let limit = suc w.max_events in
      let order = w.order ++ id ∷ [] in
      let entries = insert id incoming w.entries in
      let (synced, room) =
        evict_room limit order entries (omega arith)
          (Synced-push id incoming (ground arith) i.synced) in
      rw (e, insert_pending)
        (record {
          synced = synced;
          events_le = omega (arith, room);
          each = λ j q f.
              each_insert (IsEntry w.max_alternatives) id incoming w.entries h i.each j q
                (get-evict limit order entries j q f);
        })
]

pub take_matching-IsPending :
    (id source subscription : Text) (kind bytes : ℕ) (w : PendingWants)
    → IsPending w
    → IsPending (take_matching id source subscription kind bytes w).0
unfolding take_matching
take_matching-IsPending id source subscription kind bytes w i =
    elim (Option-cases (get id w.entries)) [
      | inl e ↦ rw (e, take_matching) i
      | inr (p, e) ↦ elim (Bool-cases (answers source subscription kind bytes p)) [
        | inr b ↦ rw (e, b, take_matching) i
        | inl b ↦
            rw (e, b, take_matching)
              (record {
                synced = Synced-drop id i.synced;
                events_le =
                    ground (arith, length-remove id w.entries i.synced.distinct, i.events_le);
                each = λ j q f. i.each j q (ground (arith, get-remove j id w.entries));
              })
      ]
    ]

-- A `retain` keeps the invariant if it keeps the entries within the limits.
pub retain_entries-IsPending :
    (f : PendingInventory → Option PendingInventory) (w : PendingWants)
    → ((p q : PendingInventory)
        → IsEntry w.max_alternatives p
        → f p ≡ some q
        → IsEntry w.max_alternatives q)
    → IsPending w
    → IsPending (retain_entries f w)
unfolding retain_entries
retain_entries-IsPending f w h i = record {
  synced = Synced-retain_map f i.synced;
  events_le = omega (arith, length-retain_map-le f w.entries, i.events_le);
  each = λ id q e. elim (Option-cases (get id w.entries)) [
    | inl g ↦ absurd (ground (arith, get-retain_map f id w.entries i.synced.distinct))
    | inr (p, g) ↦
        h p q (i.each id p g) (ground (arith, get-retain_map f id w.entries i.synced.distinct))
  ];
}
