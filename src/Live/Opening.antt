-- ===== src/Live/Opening.antt =====
-- The subscriptions that crates/nostr-pubsub/src/live_routes.rs opens, and closes again if a route fails.
use nostr_pubsub.Prelude.{
  ℕ, ◌≡◌, refl, Option, List, [], ◌∷◌, ◌++◌, ◌⊎◌, inl, inr, Bool-cases, Sum-cases, ◌∙◌, sym, ap,
  append_assoc, append-nil, ◌==◌,
}
use nostr_pubsub.Prelude.Map.{Text}
use nostr_pubsub.Routes.Types.{SourcePolicy}
use nostr_pubsub.Live.{
  EventSubscription, LiveSource, LiveSubscription, LiveAction, close_all, close_subscriptions,
  LiveError, allowed_sources, open_routes, subscribe_routes_with_policy, new_seen_events,
}

module _ {S : Type 0} where
  unfoldable pub opened_by : List (LiveAction S) → List S
  opened_by [] = []
  opened_by (LiveAction.opened s ∷ more) = s ∷ opened_by more
  opened_by (LiveAction.shut s ∷ more) = opened_by more

  unfoldable pub shut_by : List (LiveAction S) → List S
  shut_by [] = []
  shut_by (LiveAction.opened s ∷ more) = shut_by more
  shut_by (LiveAction.shut s ∷ more) = s ∷ shut_by more

  -- After a failure, what was opened is shut, in its order; else it is what the subscription holds.
  unfoldable pub IsSettled : List S → List (LiveAction S) → LiveError ⊎ LiveSubscription S → Type 0
  IsSettled before actions (inl e) = shut_by actions ≡ before ++ opened_by actions
  IsSettled before actions (inr r) =
      (shut_by actions ≡ []) × (r.subscriptions ≡ before ++ opened_by actions)

  -- An opened subscription may be counted before or among the actions.
  IsSettled-opened :
      (before : List S) (s : S) (more : List (LiveAction S)) (out : LiveError ⊎ LiveSubscription S)
      → IsSettled (before ++ s ∷ []) more out
      → IsSettled before (LiveAction.opened s ∷ more) out
  unfolding IsSettled opened_by shut_by
  IsSettled-opened before s more (inl e) h = h ∙ append_assoc before (s ∷ []) (opened_by more)
  IsSettled-opened before s more (inr r) h =
      (h.0, h.1 ∙ append_assoc before (s ∷ []) (opened_by more))

module _ {S : Type 0} ⦃subscription : EventSubscription S⦄ where
  opened_by-close_all :
      (ss : List S) (failures : List Text) → opened_by (close_all ss failures).0 ≡ []
  unfolding opened_by close_all
  opened_by-close_all [] failures = refl
  opened_by-close_all (s ∷ ss) failures = opened_by-close_all ss _

  -- Each subscription is closed, whichever fail.
  shut_by-close_all : (ss : List S) (failures : List Text) → shut_by (close_all ss failures).0 ≡ ss
  unfolding shut_by close_all
  shut_by-close_all [] failures = refl
  shut_by-close_all (s ∷ ss) failures = ap (λ xs. s ∷ xs) (shut_by-close_all ss _)

module _ {F S : Type 0} ⦃subscription : EventSubscription S⦄ where
  open_routes-IsSettled :
      (filters : List F) (ss : List (LiveSource F S)) (r : LiveSubscription S)
      → IsSettled r.subscriptions (open_routes filters ss r).0 (open_routes filters ss r).1
  unfolding open_routes close_subscriptions IsSettled opened_by shut_by
  open_routes-IsSettled filters [] r = (refl, sym (append-nil r.subscriptions))
  open_routes-IsSettled filters (s ∷ ss) r = elim (Sum-cases (s.subscribe filters)) [
    | inl (e, h) ↦
        rw (h, open_routes)
          (shut_by-close_all r.subscriptions []
            ∙ sym (
                ap (λ xs. r.subscriptions ++ xs) (opened_by-close_all r.subscriptions [])
                ∙ append-nil r.subscriptions))
    | inr (x, h) ↦
        let more = record r {
          route_ids = r.route_ids ++ s.route.id ∷ [];
          subscriptions = r.subscriptions ++ x ∷ [];
        } in
        let rest = open_routes filters ss more in
        rw (h, open_routes)
          (IsSettled-opened r.subscriptions x rest.0 rest.1 (open_routes-IsSettled filters ss more))
  ]

  -- If a subscription over routes fails, whatever was opened for it is closed again, each once and
  -- in the order of opening, even where closing one fails; else nothing is closed, and the
  -- subscription holds what was opened.
  pub subscribe_routes_with_policy-IsSettled :
      (routes : List (LiveSource F S)) (filters : List F) (policy : SourcePolicy)
      (author : Option Text) (capabilities : Option (List Text)) (most : ℕ)
      → let out = subscribe_routes_with_policy routes filters policy author capabilities most in
        IsSettled [] out.0 out.1
  unfolding subscribe_routes_with_policy IsSettled opened_by shut_by
  subscribe_routes_with_policy-IsSettled routes filters policy author capabilities most =
      elim (Bool-cases (most == 0)) [
        | inl b ↦ rw (b, subscribe_routes_with_policy) refl
        | inr b ↦ elim (Sum-cases (allowed_sources policy author capabilities routes)) [
          | inl (e, h) ↦ rw (b, h, subscribe_routes_with_policy) refl
          | inr (allowed, h) ↦
              rw (b, h, subscribe_routes_with_policy)
                (open_routes-IsSettled filters allowed
                  (record { route_ids = []; subscriptions = []; seen = new_seen_events most }))
        ]
      ]
