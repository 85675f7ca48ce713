-- ===== src/Retained/Query.antt =====
-- What a query of crates/nostr-pubsub/src/retained.rs returns.
use nostr_pubsub.Prelude.{
  ℕ, zero, suc, ◌≤◌, ◌≡◌, refl, ap, sym, ◌∙◌, Bool, true, false, ◌&&◌, ◌||◌, Option, none, List, [],
  ◌∷◌, ◌++◌, any, keep, length, map, take, All, All-imp, All-take, Bool-cases, inl, inr, arith,
  length-keep-le,
}
use nostr_pubsub.Prelude.Map.{Text, text_key, eqb}
use nostr_pubsub.Prelude.Map.Queue.{elem}
use nostr_pubsub.Subscriptions.Types.{FilterMatch}
use nostr_pubsub.Retained.{
  EventView, FilterLimit, RetainedEvents, is_current, select, select_all, query,
}
use nostr_pubsub.Prelude.Sort.{Pairwise}
use nostr_pubsub.Retained.Invariant.{HaveOwnIds, IsRetained}

-- Whether a stored event is current and matches a filter.
abbrev pub is_answer :
    {F E : Type 0} ⦃view : EventView E⦄ ⦃filter : FilterMatch F E⦄ → List F → ℕ → E × ℕ → Bool
is_answer ⦃filter = filter⦄ filters now x =
    is_current x.0 now && any (λ f. filter.match_event f x.0) filters

module _ {A : Type 0} where
  keep_same : (p q : A → Bool) (xs : List A) → All (λ x. p x ≡ q x) xs → keep p xs ≡ keep q xs
  keep_same p q [] h = refl
  keep_same p q (x ∷ xs) h = ground (arith, h.0, keep_same p q xs h.1)

  take_all : (n : ℕ) (es : List A) → length es ≤ n → take n es ≡ es
  take_all zero [] h = refl
  take_all zero (e ∷ es) h = absurd (omega (arith, h))
  take_all (suc n) [] h = refl
  take_all (suc n) (e ∷ es) h = ap (λ r. e ∷ r) (take_all n es (omega (arith, h)))

  length-map {ℓ} : {B : Type ℓ} (f : A → B) (xs : List A) → length (map f xs) ≡ length xs
  length-map f [] = refl
  length-map f (x ∷ xs) = omega (arith, length-map f xs)

  keep_passes :
      (p q : A → Bool) (xs : List A)
      → All (λ x. p x ≡ true → q x ≡ true) xs
      → All (λ x. q x ≡ true) (keep p xs)
  keep_passes p q [] h = tt
  keep_passes p q (x ∷ xs) h = elim (Bool-cases (p x)) [
    | inl b ↦ rw b (h.0 b, keep_passes p q xs h.1)
    | inr b ↦ rw b (keep_passes p q xs h.1)
  ]

  All-map_of {ℓ κ} :
      {B : Type κ} (P : B → Type ℓ) (f : A → B) (xs : List A)
      → All (λ x. P (f x)) xs
      → All P (map f xs)
  All-map_of P f [] h = tt
  All-map_of P f (x ∷ xs) h = (h.0, All-map_of P f xs h.1)

elem-append : (id : Text) (us vs : List Text) → elem id (us ++ vs) ≡ (elem id us || elem id vs)
elem-append id [] vs = refl
elem-append id (u ∷ us) vs = ground (arith, elem-append id us vs)

module _ {E : Type 0} ⦃view : EventView E⦄ where
  -- Whether an event of the id passes the test.
  abbrev has_id : (E × ℕ → Bool) → Text → List (E × ℕ) → Bool
  has_id p id xs = any (λ y. eqb id (view.id y.0) && p y) xs

  has_id_apart :
      (p : E × ℕ → Bool) (x : E × ℕ) (xs : List (E × ℕ))
      → All (HaveOwnIds x) xs
      → has_id p (view.id x.0) xs ≡ false
  has_id_apart p x [] h = refl
  has_id_apart p x (y ∷ ys) h = ground (arith, h.0, has_id_apart p x ys h.1)

  has_id_behind :
      (p : E × ℕ → Bool) (x : E × ℕ) (xs ys : List (E × ℕ))
      → All (HaveOwnIds x) xs
      → All (λ z. has_id p (view.id z.0) ys ≡ p z) xs
      → All (λ z. has_id p (view.id z.0) (x ∷ ys) ≡ p z) xs
  has_id_behind p x [] ys h a = tt
  has_id_behind p x (z ∷ zs) ys h a = ground (arith, h.0, a.0, has_id_behind p x zs ys h.1 a.1)

  -- Where no id stands twice, an event passes exactly if one of its id does.
  has_id_own :
      (p : E × ℕ → Bool) (xs : List (E × ℕ))
      → Pairwise HaveOwnIds xs
      → All (λ x. has_id p (view.id x.0) xs ≡ p x) xs
  has_id_own p [] w = tt
  has_id_own p (x ∷ xs) w =
      (ground (arith, has_id_apart p x xs w.0), has_id_behind p x xs xs w.0 (has_id_own p xs w.1))

module _ (F : Type 0) {E : Type 0} ⦃view : EventView E⦄ ⦃filter : FilterMatch F E⦄ where
  has_id_none :
      (now : ℕ) (id : Text) (xs : List (E × ℕ)) → has_id (is_answer {F = F} [] now) id xs ≡ false
  has_id_none now id [] = refl
  has_id_none now id (x ∷ xs) = ground (arith, has_id_none now id xs)

module _ {F E : Type 0} ⦃view : EventView E⦄ ⦃filter : FilterMatch F E⦄
    ⦃limits : FilterLimit F⦄ where
  abbrev matches_now : F → ℕ → E × ℕ → Bool
  matches_now f now x = is_current x.0 now && filter.match_event f x.0

  elem-select :
      (f : F) (now matched : ℕ) (id : Text) (xs : List (E × ℕ))
      → elem id (select f now matched xs) ≡ true
      → has_id (matches_now f now) id xs ≡ true
  unfolding select
  elem-select f now matched id [] h = h
  elem-select f now matched id (x ∷ xs) h =
      ground (arith, elem-select f now (suc matched) id xs, elem-select f now matched id xs)

  elem-select_unlimited :
      (f : F) (now matched : ℕ) (id : Text) (xs : List (E × ℕ))
      → limits.limit f ≡ none
      → elem id (select f now matched xs) ≡ has_id (matches_now f now) id xs
  unfolding select
  elem-select_unlimited f now matched id [] e = refl
  elem-select_unlimited f now matched id (x ∷ xs) e = ground (
    arith,
    elem-select_unlimited f now (suc matched) id xs e,
    elem-select_unlimited f now matched id xs e,
  )

  has_id_or :
      (f : F) (fs : List F) (now : ℕ) (id : Text) (xs : List (E × ℕ))
      → has_id (is_answer (f ∷ fs) now) id xs
        ≡ (has_id (matches_now f now) id xs || has_id (is_answer fs now) id xs)
  has_id_or f fs now id [] = refl
  has_id_or f fs now id (x ∷ xs) = ground (arith, has_id_or f fs now id xs)

  elem-select_all :
      (fs : List F) (now : ℕ) (id : Text) (xs : List (E × ℕ))
      → elem id (select_all fs now xs) ≡ true
      → has_id (is_answer fs now) id xs ≡ true
  unfolding select_all
  elem-select_all [] now id xs h = ground arith
  elem-select_all (f ∷ fs) now id xs h = ground (
    arith,
    elem-append id (select f now 0 xs) (select_all fs now xs),
    elem-select f now 0 id xs,
    elem-select_all fs now id xs,
    has_id_or f fs now id xs,
  )

  elem-select_all_unlimited :
      (fs : List F) (now : ℕ) (id : Text) (xs : List (E × ℕ))
      → All (λ f. limits.limit f ≡ none) fs
      → elem id (select_all fs now xs) ≡ has_id (is_answer fs now) id xs
  unfolding select_all
  elem-select_all_unlimited [] now id xs h = ground (arith, has_id_none F now id xs)
  elem-select_all_unlimited (f ∷ fs) now id xs h = ground (
    arith,
    elem-append id (select f now 0 xs) (select_all fs now xs),
    elem-select_unlimited f now 0 id xs h.0,
    elem-select_all_unlimited fs now id xs h.1,
    has_id_or f fs now id xs,
  )

  -- On a snapshot within its limits, a query whose filters have no limits, and without a limit of
  -- its own, returns exactly the stored events that are current and match a filter, in their order.
  pub query_unlimited :
      (fs : List F) (now : ℕ) (r : RetainedEvents F E)
      → IsRetained r
      → All (λ f. limits.limit f ≡ none) fs
      → query fs none now r ≡ map (λ x. x.0) (keep (is_answer fs now) r.events)
  unfolding query
  query_unlimited fs now r i h =
      let selected = select_all fs now r.events in
      let same =
        keep_same (λ x. elem (view.id x.0) selected) (is_answer fs now) r.events
          (All-imp (λ x. has_id (is_answer fs now) (view.id x.0) r.events ≡ is_answer fs now x) _
            r.events (λ x e. elem-select_all_unlimited fs now (view.id x.0) r.events h ∙ e)
            (has_id_own (is_answer fs now) r.events i.ids)) in
      let answers = keep (is_answer fs now) r.events in
      rw same (
        take_all r.policy.max_events (map (λ x. x.0) answers) (
          omega (
            arith,
            length-map {B = E} (λ x. x.0) answers,
            length-keep-le (is_answer fs now) r.events,
            i.shed.within,
          )))

  query_answers :
      (fs : List F) (most : Option ℕ) (now : ℕ) (r : RetainedEvents F E)
      → IsRetained r
      → All (λ e. is_answer fs now (e, 0) ≡ true) (query fs most now r)
  unfolding query
  query_answers fs most now r i =
      let selected = select_all fs now r.events in
      All-take (λ e. is_answer fs now (e, 0) ≡ true) _
        (map (λ x. x.0) (keep (λ x. elem (view.id x.0) selected) r.events))
        (All-map_of (λ e. is_answer fs now (e, 0) ≡ true) (λ x. x.0)
          (keep (λ x. elem (view.id x.0) selected) r.events)
          (keep_passes (λ x. elem (view.id x.0) selected) (is_answer fs now) r.events
            (All-imp (λ x. has_id (is_answer fs now) (view.id x.0) r.events ≡ is_answer fs now x) _
              r.events (λ x e h. sym e ∙ elem-select_all fs now (view.id x.0) r.events h)
              (has_id_own (is_answer fs now) r.events i.ids))))
