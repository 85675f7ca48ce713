-- ===== src/Live/Window.antt =====
-- The window of crates/nostr-pubsub/src/live_routes.rs, against a description of what it lets through.
use nostr_pubsub.Prelude.{
  ℕ, suc, ◌-◌, ◌≡◌, ◌≤◌, refl, true, false, Option, none, some, List, [], ◌∷◌, ◌++◌, length,
  length-append, drop, ltb, Bool-cases, inl, inr, arith, ◌∙◌, sym, ap,
}
use nostr_pubsub.Prelude.Map.{Text, text_key, Map, contains, insert, remove}
use nostr_pubsub.Prelude.Map.Queue.{elem, Synced, Synced-push, Synced-pop, Synced-empty}
use nostr_pubsub.Routes.Types.{SourceRoute, QueryEvent, EventKey}
use nostr_pubsub.Live.{
  LiveEvent, SeenEvents, new_seen_events, shrink, add_seen, insert_seen, receive_event,
}

-- The last of a list.
abbrev last_of : {A : Type 0} → ℕ → List A → List A
last_of n xs = drop (length xs - n) xs

shrink-last_of :
    (n : ℕ) (q : List Text) (ids : Map Text (Unit {0})) → (shrink n q ids).0 ≡ last_of n q
unfolding shrink
shrink-last_of n [] ids = ground arith
shrink-last_of n (k ∷ q) ids = elim (Bool-cases (ltb n (length (k ∷ q)))) [
  | inl full ↦
      let less : length (k ∷ q) - n ≡ suc (length q - n) = ground (arith, full) in
      rw (full, shrink, less) (shrink-last_of n q (remove k ids))
  | inr room ↦
      let all_of : length (k ∷ q) - n ≡ 0 = ground (arith, room) in rw (room, shrink, all_of) refl
]

shrink-Synced :
    (n : ℕ) (q : List Text) (ids : Map Text (Unit {0}))
    → Synced q ids
    → Synced (shrink n q ids).0 (shrink n q ids).1
unfolding shrink
shrink-Synced n [] ids s = s
shrink-Synced n (k ∷ q) ids s = elim (Bool-cases (ltb n (length (k ∷ q)))) [
  | inl full ↦ rw (full, shrink) (shrink-Synced n q (remove k ids) (Synced-pop k s))
  | inr room ↦ rw (room, shrink) s
]

last_of_all : {A : Type 0} (n : ℕ) (xs : List A) → length xs ≤ n → last_of n xs ≡ xs
last_of_all n xs h = let nothing : length xs - n ≡ 0 = omega (arith, h) in rw nothing refl

last_of_more :
    {A : Type 0} (n : ℕ) (x : A) (xs : List A) → n ≤ length xs → last_of n (x ∷ xs) ≡ last_of n xs
last_of_more n x xs h =
    let less : suc (length xs) - n ≡ suc (length xs - n) = omega (arith, h) in rw less refl

-- The last of what stands in the window and one more are the last of all and one more.
last_of-append :
    {A : Type 0} (n : ℕ) (before : List A) (k : A)
    → last_of n (last_of n before ++ k ∷ []) ≡ last_of n (before ++ k ∷ [])
last_of-append n [] k = ap (λ xs. last_of n (xs ++ k ∷ [])) (last_of_all n [] (omega arith))
last_of-append n (x ∷ xs) k = elim (Bool-cases (ltb (length xs) n)) [
  | inl small ↦ ap (λ ys. last_of n (ys ++ k ∷ [])) (last_of_all n (x ∷ xs) (ground (arith, small)))
  | inr large ↦
      ap (λ ys. last_of n (ys ++ k ∷ [])) (last_of_more n x xs (ground (arith, large)))
      ∙ (last_of-append n xs k
          ∙ sym
              (last_of_more n x (xs ++ k ∷ []) (ground (arith, large, length-append xs (k ∷ [])))))
]

module _ {E : Type 0} ⦃key : EventKey E⦄ where
  abbrev id_of : SourceRoute × QueryEvent E → Text
  id_of x = key.id x.1.event

  abbrev live_event : SourceRoute × QueryEvent E → LiveEvent E
  live_event (route, x) = record {
    event = x.event;
    source = x.source;
    priority = x.priority;
    route = route;
  }

  abbrev join_passed : Option (LiveEvent E) → List (LiveEvent E) → List (LiveEvent E)
  join_passed none ys = ys
  join_passed (some y) ys = y ∷ ys

  -- What comes in over the routes, in its order, and what is passed on.
  unfoldable pub deliveries : List (SourceRoute × QueryEvent E) → SeenEvents → List (LiveEvent E)
  deliveries [] s = []
  deliveries (x ∷ xs) s =
      let result = receive_event x.0 x.1 s in join_passed result.1 (deliveries xs result.0)

  -- An event passes if its id is not among the last ids that passed, as many as the maximum.
  unfoldable pub passing : ℕ → List Text → List (SourceRoute × QueryEvent E) → List (LiveEvent E)
  passing n before [] = []
  passing n before (x ∷ xs) = elim (elem (id_of x) (last_of n before)) [
    | true ↦ passing n before xs
    | false ↦ live_event x ∷ passing n (before ++ id_of x ∷ []) xs
  ]

  receive_event_seen :
      (x : SourceRoute × QueryEvent E) (s : SeenEvents)
      → contains (id_of x) s.ids ≡ true
      → receive_event x.0 x.1 s ≡ (s, none)
  unfolding receive_event insert_seen
  receive_event_seen x s h = rw (h, receive_event, insert_seen) refl

  receive_event_fresh :
      (x : SourceRoute × QueryEvent E) (s : SeenEvents)
      → contains (id_of x) s.ids ≡ false
      → receive_event x.0 x.1 s ≡ (add_seen (id_of x) s, some (live_event x))
  unfolding receive_event insert_seen
  receive_event_fresh x s h = rw (h, receive_event, insert_seen) refl

  deliveries-passing_from :
      (xs : List (SourceRoute × QueryEvent E)) (before : List Text) (s : SeenEvents)
      → Synced s.order s.ids
      → s.order ≡ last_of s.maximum before
      → deliveries xs s ≡ passing s.maximum before xs
  unfolding deliveries passing
  deliveries-passing_from [] before s i h = refl
  deliveries-passing_from (x ∷ xs) before s i h =
      let id = id_of x in
      let same : elem id (last_of s.maximum before) ≡ contains id s.ids =
        ap (elem id) (sym h) ∙ i.same id in
      elim (Bool-cases (contains id s.ids)) [
        | inl b ↦
            ap (λ r. join_passed r.1 (deliveries xs r.0)) (receive_event_seen x s b)
            ∙ rw (same ∙ b, passing) (deliveries-passing_from xs before s i h)
        | inr b ↦
            let q = s.order ++ id ∷ [] in
            let ids = insert id tt s.ids in
            let stands =
              shrink-last_of s.maximum q ids
              ∙ (ap (λ o. last_of s.maximum (o ++ id ∷ [])) h
                  ∙ last_of-append s.maximum before id) in
            ap (λ r. join_passed r.1 (deliveries xs r.0)) (receive_event_fresh x s b)
            ∙ rw (same ∙ b, passing)
                (ap (λ ys. live_event x ∷ ys)
                  (deliveries-passing_from xs (before ++ id ∷ []) (add_seen id s)
                    (shrink-Synced s.maximum q ids (Synced-push id tt b i)) stands))
      ]

  -- Of the events that come in over the routes of a live subscription, in any order, exactly those
  -- are passed on whose ids are not among the last ids passed on, as many as the window may hold.
  pub deliveries-passing :
      (n : ℕ) (xs : List (SourceRoute × QueryEvent E))
      → deliveries xs (new_seen_events n) ≡ passing n [] xs
  deliveries-passing n xs =
      deliveries-passing_from xs [] (new_seen_events n) Synced-empty
        (sym (last_of_all n [] (omega arith)))
