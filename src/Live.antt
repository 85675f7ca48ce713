-- ===== src/Live.antt =====
-- crates/nostr-pubsub/src/live_routes.rs: a subscription over several routes, which delivers an event
-- once. The handlers of the routes share a window of ids, so that what comes in over all routes is one
-- sequence. The lock of the window is taken to be sound.
pub mod Window
pub mod Opening
pub mod Status
mod Tests
use nostr_pubsub.Prelude.{
  ℕ, zero, suc, ◌==◌, Bool, true, false, Option, none, some, List, [], ◌∷◌, ◌++◌, ◌⊎◌, inl, inr,
  map, length, ltb, if◌then◌else◌,
}
use nostr_pubsub.Prelude.Map.{Text, text_key, Map, contains, insert, remove}
use nostr_pubsub.Prelude.Int.{ℤ}
use nostr_pubsub.Routes.Types.{
  EventSource, SourceRoute, QueryEvent, EventKey, SourcePolicy, is_drop,
}
use nostr_pubsub.Routes.Query.{candidate_of, or_else}
use nostr_pubsub.Routes.Router.{join_failures}

-- `SubscriptionDeliveryStatus`
pub data DeliveryStatus : Type 0 where
  active closed lagged : DeliveryStatus

-- The trait `NostrEventSubscription`: the health of a subscription, if its provider reports it, and
-- the error that closing it ends with, if any.
pub record EventSubscription (S : Type 0) : Type 0 where
  pub delivery_status : S → Option DeliveryStatus
  pub close : S → Option Text

-- A route with its `NostrEventSubscriber`: an error's text, or the subscription.
pub record LiveSource (F S : Type 0) : Type 0 where
  pub route : SourceRoute
  pub subscribe : List F → Text ⊎ S

pub record LiveEvent (E : Type 0) : Type 0 where
  pub event : E
  pub source : EventSource
  pub priority : ℤ
  pub route : SourceRoute

pub record SeenEvents : Type 0 where
  pub maximum : ℕ
  pub ids : Map Text (Unit {0})
  pub order : List Text

abbrev pub new_seen_events : ℕ → SeenEvents
new_seen_events n = record { maximum = n; ids = []; order = [] }

-- `while order.len() > maximum`: the oldest id goes.
unfoldable pub shrink : ℕ → List Text → Map Text (Unit {0}) → List Text × Map Text (Unit {0})
shrink n [] ids = ([], ids)
shrink n (k ∷ q) ids = elim (ltb n (length (k ∷ q))) as (λ _. List Text × Map Text (Unit {0})) [
  | true ↦ shrink n q (remove k ids)
  | false ↦ (k ∷ q, ids)
]

-- An id that is new to the window.
abbrev pub add_seen : Text → SeenEvents → SeenEvents
add_seen id s =
    let (order, ids) = shrink s.maximum (s.order ++ id ∷ []) (insert id tt s.ids) in
    record s { ids = ids; order = order }

unfoldable pub insert_seen : Text → SeenEvents → SeenEvents × Bool
insert_seen id s = if contains id s.ids then (s, false) else (add_seen id s, true)

abbrev clear_seen : SeenEvents → SeenEvents
clear_seen s = record s { ids = []; order = [] }

-- The handler of a route: what it passes on, if anything.
unfoldable pub receive_event :
    {E : Type 0} ⦃key : EventKey E⦄
    → SourceRoute
    → QueryEvent E
    → SeenEvents
    → SeenEvents × Option (LiveEvent E)
receive_event ⦃key⦄ route x s =
    let (after, fresh) = insert_seen (key.id x.event) s in
    (
      after,
      if fresh
          then some
              (record { event = x.event; source = x.source; priority = x.priority; route = route })
          else none,
    )

pub record LiveSubscription (S : Type 0) : Type 0 where
  pub route_ids : List Text
  pub subscriptions : List S
  pub seen : SeenEvents

-- What is done to the subscriptions of the routes.
pub data LiveAction (S : Type 0) : Type 0 where
  opened shut : S → LiveAction S

-- The errors: a window of no events, an error of the policy or of a route, and an error of a route
-- whose predecessors could not all be closed.
pub data LiveError : Type 0 where
  empty_window : LiveError
  policy_error route_error storage_error : Text → LiveError

-- "close live routes: "
abbrev close_text : Text
close_text =
    99 ∷ 108 ∷ 111 ∷ 115 ∷ 101 ∷ 32 ∷ 108 ∷ 105 ∷ 118 ∷ 101 ∷ 32 ∷ 114 ∷ 111 ∷ 117 ∷ 116 ∷ 101 ∷ 115
    ∷ 58 ∷ 32 ∷ []

module _ {S : Type 0} ⦃subscription : EventSubscription S⦄ where
  -- The loop of `close_subscriptions`, with the failures so far: what it closes, and all failures.
  unfoldable pub close_all : List S → List Text → List (LiveAction S) × List Text
  close_all [] failures = ([], failures)
  close_all (s ∷ ss) failures =
      let more = elim (subscription.close s) as (λ _. List Text) [
        | none ↦ failures
        | some e ↦ failures ++ e ∷ []
      ] in
      let rest = close_all ss more in (LiveAction.shut s ∷ rest.0, rest.1)

  -- `close_subscriptions`: what it closes, and its error, if any.
  unfoldable pub close_subscriptions : List S → List (LiveAction S) × Option Text
  close_subscriptions ss =
      let (actions, failures) = close_all ss [] in
      (actions, if length failures == 0 then none else some (close_text ++ join_failures failures))

  -- The loop of `delivery_status`, with its variables.
  unfoldable pub status_from : Option DeliveryStatus → Bool → List S → Option DeliveryStatus
  status_from known unknown [] = if unknown then none else known
  status_from known unknown (s ∷ ss) = elim (subscription.delivery_status s) [
    | none ↦ status_from known true ss
    | some d ↦ elim d [
      | lagged ↦ some DeliveryStatus.lagged
      | active ↦ status_from (some DeliveryStatus.active) unknown ss
      | closed ↦ status_from (some (or_else DeliveryStatus.closed known)) unknown ss
    ]
  ]

  abbrev pub delivery_status : LiveSubscription S → Option DeliveryStatus
  delivery_status r = status_from none false r.subscriptions

  -- `close`; the window is cleared, whatever fails.
  abbrev close_live : LiveSubscription S → List (LiveAction S) × (SeenEvents × Option Text)
  close_live r =
      let (actions, error) = close_subscriptions r.subscriptions in
      (actions, (clear_seen r.seen, error))

module _ {F S : Type 0} where
  -- The first loop: the routes that the policy allows.
  unfoldable pub allowed_sources :
      SourcePolicy
      → Option Text
      → Option (List Text)
      → List (LiveSource F S)
      → LiveError ⊎ List (LiveSource F S)
  allowed_sources policy author capabilities [] = inr []
  allowed_sources policy author capabilities (s ∷ ss) =
      let rest = allowed_sources policy author capabilities ss in
      elim (policy (candidate_of s.route) author (or_else s.route.capabilities capabilities)) [
        | inl e ↦ inl (LiveError.policy_error e)
        | inr decision ↦ elim rest [
          | inl e ↦ inl e
          | inr allowed ↦ inr (if is_drop decision then allowed else s ∷ allowed)
        ]
      ]

-- "; closing previously opened live routes failed: storage failed: "
abbrev closing_text : Text
closing_text =
    59 ∷ 32 ∷ 99 ∷ 108 ∷ 111 ∷ 115 ∷ 105 ∷ 110 ∷ 103 ∷ 32 ∷ 112 ∷ 114 ∷ 101 ∷ 118 ∷ 105 ∷ 111 ∷ 117
    ∷ 115 ∷ 108 ∷ 121 ∷ 32 ∷ 111 ∷ 112 ∷ 101 ∷ 110 ∷ 101 ∷ 100 ∷ 32 ∷ 108 ∷ 105 ∷ 118 ∷ 101 ∷ 32
    ∷ 114 ∷ 111 ∷ 117 ∷ 116 ∷ 101 ∷ 115 ∷ 32 ∷ 102 ∷ 97 ∷ 105 ∷ 108 ∷ 101 ∷ 100 ∷ 58 ∷ 32 ∷ 115
    ∷ 116 ∷ 111 ∷ 114 ∷ 97 ∷ 103 ∷ 101 ∷ 32 ∷ 102 ∷ 97 ∷ 105 ∷ 108 ∷ 101 ∷ 100 ∷ 58 ∷ 32 ∷ []

-- The error of a route, and of closing what was open.
abbrev failed_by : Text → Option Text → LiveError
failed_by e none = LiveError.route_error e
failed_by e (some c) = LiveError.storage_error (e ++ (closing_text ++ c))

module _ {F S : Type 0} ⦃subscription : EventSubscription S⦄ where
  -- The second loop, with what it has opened: what it does, and how it ends.
  unfoldable pub open_routes :
      List F
      → List (LiveSource F S)
      → LiveSubscription S
      → List (LiveAction S) × (LiveError ⊎ LiveSubscription S)
  open_routes filters [] r = ([], inr r)
  open_routes filters (s ∷ ss) r = elim (s.subscribe filters) [
    | inl e ↦
        let (actions, error) = close_subscriptions r.subscriptions in
        (actions, inl (failed_by e error))
    | inr x ↦
        let rest = open_routes filters ss (record r {
          route_ids = r.route_ids ++ s.route.id ∷ [];
          subscriptions = r.subscriptions ++ x ∷ [];
        }) in
        (LiveAction.opened x ∷ rest.0, rest.1)
  ]

  unfoldable pub subscribe_routes_with_policy :
      List (LiveSource F S)
      → List F
      → SourcePolicy
      → Option Text
      → Option (List Text)
      → ℕ
      → List (LiveAction S) × (LiveError ⊎ LiveSubscription S)
  subscribe_routes_with_policy routes filters policy author capabilities most =
      if most == 0
      then ([], inl LiveError.empty_window)
      else elim (allowed_sources policy author capabilities routes) [
        | inl e ↦ ([], inl e)
        | inr allowed ↦
            open_routes filters allowed
              (record { route_ids = []; subscriptions = []; seen = new_seen_events most })
      ]
