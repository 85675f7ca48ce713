-- ===== src/Live/Status.antt =====
-- What crates/nostr-pubsub/src/live_routes.rs reports of a subscription, over its routes.
use nostr_pubsub.Prelude.{
  ◌≡◌, refl, Bool, true, false, ◌||◌, Option, none, some, List, [], ◌∷◌, any, if◌then◌else◌, arith,
}
use nostr_pubsub.Live.{
  DeliveryStatus, EventSubscription, LiveSubscription, status_from, delivery_status,
}
use nostr_pubsub.Routes.Query.{or_else}

abbrev is_active : Option DeliveryStatus → Bool
is_active (some DeliveryStatus.active) = true
is_active (some DeliveryStatus.closed) = false
is_active (some DeliveryStatus.lagged) = false
is_active none = false

abbrev is_closed : Option DeliveryStatus → Bool
is_closed (some DeliveryStatus.closed) = true
is_closed (some DeliveryStatus.active) = false
is_closed (some DeliveryStatus.lagged) = false
is_closed none = false

abbrev is_lagged : Option DeliveryStatus → Bool
is_lagged (some DeliveryStatus.lagged) = true
is_lagged (some DeliveryStatus.active) = false
is_lagged (some DeliveryStatus.closed) = false
is_lagged none = false

abbrev is_unknown : Option DeliveryStatus → Bool
is_unknown none = true
is_unknown (some d) = false

-- Of the statuses that were seen: a lag counts first, then that one is unknown, then that one is
-- active, then that one is closed.
abbrev worst : Bool → Bool → Bool → Bool → Option DeliveryStatus
worst lags unknown active closed =
    if lags
    then some DeliveryStatus.lagged
    else (if unknown
        then none
        else (if active
            then some DeliveryStatus.active
            else (if closed then some DeliveryStatus.closed else none)))

kept :
    (known : Option DeliveryStatus)
    → is_lagged known ≡ false
    → is_lagged (some (or_else DeliveryStatus.closed known)) ≡ false
kept none h = refl
kept (some d) h = h

module _ {S : Type 0} ⦃subscription : EventSubscription S⦄ where
  abbrev has_status : (Option DeliveryStatus → Bool) → List S → Bool
  has_status p ss = any (λ s. p (subscription.delivery_status s)) ss

  status_from_lem :
      (known : Option DeliveryStatus) (unknown : Bool) (ss : List S)
      → is_lagged known ≡ false
      → status_from known unknown ss
        ≡ worst
            (has_status is_lagged ss)
            (unknown || has_status is_unknown ss)
            (is_active known || has_status is_active ss)
            (is_closed known || has_status is_closed ss)
  unfolding status_from
  status_from_lem none unknown [] h = ground arith
  status_from_lem (some DeliveryStatus.active) unknown [] h = ground arith
  status_from_lem (some DeliveryStatus.closed) unknown [] h = ground arith
  status_from_lem (some DeliveryStatus.lagged) unknown [] h = ground arith
  status_from_lem known unknown (s ∷ ss) h = ground (
    arith,
    h,
    status_from_lem known true ss h,
    status_from_lem (some DeliveryStatus.active) unknown ss refl,
    status_from_lem (some (or_else DeliveryStatus.closed known)) unknown ss (kept known h),
  )

  -- What a subscription reports depends on the statuses of its routes, and not on their order.
  delivery_status-worst :
      (r : LiveSubscription S)
      → let ss = r.subscriptions in
        delivery_status r
        ≡ worst
            (has_status is_lagged ss)
            (has_status is_unknown ss)
            (has_status is_active ss)
            (has_status is_closed ss)
  delivery_status-worst r = status_from_lem none false r.subscriptions refl
