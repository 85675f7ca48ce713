-- ===== src/Live/Tests.antt =====
-- Runs of crates/nostr-pubsub/src/live_routes.rs on small inputs, where its theorems apply.
use nostr_pubsub.Prelude.{
  ℕ, ◌≡◌, refl, none, some, List, [], ◌∷◌, inl, inr, map, ℕ_discrete, if◌then◌else◌, ◌==◌,
}
use nostr_pubsub.Prelude.Map.{text_key, text_discrete, insert, replace, place, retain, remove, get}
use nostr_pubsub.Prelude.Int.{pos}
use nostr_pubsub.Routes.Types.{
  SourceKind, SourceRoute, QueryEvent, PolicyDecision, from_source, EventKey, SourcePolicy,
}
use nostr_pubsub.Live.{
  DeliveryStatus, EventSubscription, LiveSource, LiveAction, shrink, insert_seen, receive_event,
  allowed_sources, open_routes, close_all, close_subscriptions, subscribe_routes_with_policy,
  new_seen_events,
}
use nostr_pubsub.Live.Window.{deliveries, passing, deliveries-passing}
use nostr_pubsub.Live.Opening.{IsSettled, subscribe_routes_with_policy-IsSettled}

instance abbrev test_key : EventKey ℕ
test_key = record { id = λ e. e ∷ []; created_at = λ e. e }

-- A subscription is a number: the first lags and fails to close, the third reports nothing.
instance abbrev test_subscription : EventSubscription ℕ
test_subscription = record {
  delivery_status = λ s.
      if s == 1
      then some DeliveryStatus.lagged
      else (if s == 3 then none else some DeliveryStatus.active);
  close = λ s. if s == 1 then some (88 ∷ []) else none;
}

abbrev route : ℕ → SourceRoute
route n = from_source (record { id = n ∷ []; kind = SourceKind.peer; url = none })

abbrev event : ℕ → SourceRoute × QueryEvent ℕ
event n = (route 1, record { event = n; source = (route 1).source; priority = pos 5 })

abbrev live_sources : List (LiveSource (Unit {0}) ℕ)
live_sources =
    record { route = route 1; subscribe = λ filters. inr 1 }
    ∷ record { route = route 2; subscribe = λ filters. inr 2 }
    ∷ record { route = route 3; subscribe = λ filters. inl (99 ∷ []) }
    ∷ []

abbrev allow_all : SourcePolicy
allow_all candidate author capabilities = inr (PolicyDecision.allow (pos 0))

-- A window of two: the third copy of an event passes once two others have come.
passed_run :
    map
      (λ y. y.event)
      (deliveries
        (event 7 ∷ event 7 ∷ event 8 ∷ event 9 ∷ event 7 ∷ event 9 ∷ [])
        (new_seen_events 2))
    ≡ 7 ∷ 8 ∷ 9 ∷ 7 ∷ []
unfolding text_discrete ℕ_discrete get insert replace place retain remove shrink insert_seen
    receive_event deliveries
passed_run = refl

deliveries-passing_example :
    deliveries (event 7 ∷ event 7 ∷ event 8 ∷ []) (new_seen_events 1)
    ≡ passing 1 [] (event 7 ∷ event 7 ∷ event 8 ∷ [])
deliveries-passing_example = deliveries-passing 1 (event 7 ∷ event 7 ∷ event 8 ∷ [])

-- The third route fails, so that the first two are closed again, though the first fails to close.
opening_run :
    (subscribe_routes_with_policy live_sources [] allow_all none none 8).0
    ≡ LiveAction.opened 1 ∷ LiveAction.opened 2 ∷ LiveAction.shut 1 ∷ LiveAction.shut 2 ∷ []
unfolding allowed_sources open_routes subscribe_routes_with_policy close_all close_subscriptions
opening_run = refl

subscribe_routes_with_policy-IsSettled_example :
    let out = subscribe_routes_with_policy live_sources [] allow_all none none 8 in
    IsSettled [] out.0 out.1
subscribe_routes_with_policy-IsSettled_example =
    subscribe_routes_with_policy-IsSettled live_sources [] allow_all none none 8
