-- ===== src/Subscriptions/Invariant/History.antt =====
-- Any sequence of client messages and departures of peers: the store of
-- crates/nostr-pubsub/src/subscriptions.rs stays within its limits, and its snapshot exact.
use nostr_pubsub.Prelude.{
  ℕ, ◌+◌, ◌≤◌, sum_by, ◌≡◌, refl, List, [], ◌∷◌, arith, Option-cases, inl, inr, u64_max,
}
use nostr_pubsub.Prelude.Map.{Text, text_key, get}
use nostr_pubsub.Prelude.Map.Queue.{Synced-empty}
use nostr_pubsub.Subscriptions.Types.{
  FilterJson, Limits, Subscription, SubscriptionStore, req, close, other, new_store, empty_snapshot,
  subscription_contribution,
}
use nostr_pubsub.Subscriptions.Store.{check_limits, upsert, apply_client_message}
use nostr_pubsub.Subscriptions.Accounts.{Measure, read, cost, store_total}
use nostr_pubsub.Subscriptions.Invariant.{IsStored, IsExact}
use nostr_pubsub.Subscriptions.Invariant.Steps.{
  admit_subscription-IsExact, admit_subscription-store_total-le,
}
use nostr_pubsub.Subscriptions.Invariant.Totals.{
  remove_peer-store_total-le, remove_subscription-store_total-le,
}
use nostr_pubsub.Subscriptions.Invariant.Removals.{
  remove_peer-IsStored, remove_peer-IsExact, remove_subscription-IsStored,
  remove_subscription-IsExact,
}
use nostr_pubsub.Subscriptions.Invariant.Run.{
  StoreCall, client_message, peer_gone, call, run_store, check_limits_room, upsert-IsStored,
}

read_empty : (n : Measure) → read n empty_snapshot ≡ 0
read_empty Measure.subscriptions = refl
read_empty Measure.filters = refl
read_empty Measure.filter_bytes = refl
read_empty Measure.req_bytes = refl

module _ {F : Type 0} ⦃json : FilterJson F⦄ where
  -- What a call may add to a measure.
  abbrev pub call_cost : Measure → StoreCall F → ℕ
  call_cost n (client_message peer (req id filters)) =
      cost n (record { subscription_id = id; filters = filters })
  call_cost n (client_message peer (close id)) = 0
  call_cost n (client_message peer other) = 0
  call_cost n (peer_gone peer) = 0

  upsert-store_total-le :
      (n : Measure) (peer : Text) (s : Subscription F) (m : SubscriptionStore F)
      → IsStored m
      → store_total (cost n) (upsert peer s m).0.peers ≤ store_total (cost n) m.peers + cost n s
  unfolding upsert
  upsert-store_total-le n peer s m i = elim (Option-cases (check_limits m.limits s)) [
    | inr (y, e) ↦ rw (e, upsert) (omega arith)
    | inl e ↦ elim (Option-cases (subscription_contribution s)) [
      | inl f ↦ rw (e, f, upsert) (omega arith)
      | inr (c, f) ↦
          let room = check_limits_room m.limits s e in
          rw (e, f, upsert)
            (admit_subscription-store_total-le peer s c m room.peers_pos room.subscriptions_pos i n)
    ]
  ]

  upsert-IsExact :
      (peer : Text) (s : Subscription F) (m : SubscriptionStore F)
      → ((n : Measure) → store_total (cost n) m.peers + cost n s ≤ u64_max)
      → IsStored m
      → IsExact m
      → IsExact (upsert peer s m).0
  unfolding upsert
  upsert-IsExact peer s m fits i x = elim (Option-cases (check_limits m.limits s)) [
    | inr (y, e) ↦ rw (e, upsert) x
    | inl e ↦ elim (Option-cases (subscription_contribution s)) [
      | inl f ↦ rw (e, f, upsert) x
      | inr (c, f) ↦
          let room = check_limits_room m.limits s e in
          rw (e, f, upsert)
            (admit_subscription-IsExact peer s c m room.peers_pos room.subscriptions_pos i f x (λ n.
              omega (
                arith,
                fits n,
                admit_subscription-store_total-le peer s c m room.peers_pos room.subscriptions_pos i
                    n,
              )))
    ]
  ]

  call-store_total-le :
      (n : Measure) (c : StoreCall F) (m : SubscriptionStore F)
      → IsStored m
      → store_total (cost n) (call c m).peers ≤ store_total (cost n) m.peers + call_cost n c
  unfolding call apply_client_message
  call-store_total-le n (client_message peer (req id filters)) m i =
      upsert-store_total-le n peer _ m i
  call-store_total-le n (client_message peer (close id)) m i =
      omega (arith, remove_subscription-store_total-le n peer id m i)
  call-store_total-le n (client_message peer other) m i = omega arith
  call-store_total-le n (peer_gone peer) m i =
      omega (arith, remove_peer-store_total-le n peer m i.synced.distinct)

  call-IsStored : (c : StoreCall F) (m : SubscriptionStore F) → IsStored m → IsStored (call c m)
  unfolding call apply_client_message
  call-IsStored (client_message peer (req id filters)) m i = upsert-IsStored peer _ m i
  call-IsStored (client_message peer (close id)) m i = remove_subscription-IsStored peer id m i
  call-IsStored (client_message peer other) m i = i
  call-IsStored (peer_gone peer) m i = remove_peer-IsStored peer m i

  call-IsExact :
      (c : StoreCall F) (m : SubscriptionStore F)
      → ((n : Measure) → store_total (cost n) m.peers + call_cost n c ≤ u64_max)
      → IsStored m
      → IsExact m
      → IsExact (call c m)
  unfolding call apply_client_message
  call-IsExact (client_message peer (req id filters)) m fits i x = upsert-IsExact peer _ m fits i x
  call-IsExact (client_message peer (close id)) m fits i x =
      remove_subscription-IsExact peer id m i x
  call-IsExact (client_message peer other) m fits i x = x
  call-IsExact (peer_gone peer) m fits i x = remove_peer-IsExact peer m i.synced.distinct x

  run_store-IsStored :
      (cs : List (StoreCall F)) (m : SubscriptionStore F) → IsStored m → IsStored (run_store cs m)
  unfolding run_store
  run_store-IsStored [] m i = i
  run_store-IsStored (c ∷ cs) m i = run_store-IsStored cs (call c m) (call-IsStored c m i)

  run_store-IsExact :
      (cs : List (StoreCall F)) (m : SubscriptionStore F)
      → ((n : Measure) → store_total (cost n) m.peers + sum_by (call_cost n) cs ≤ u64_max)
      → IsStored m
      → IsExact m
      → IsExact (run_store cs m)
  unfolding run_store
  run_store-IsExact [] m fits i x = x
  run_store-IsExact (c ∷ cs) m fits i x =
      run_store-IsExact cs (call c m) (λ n. omega (arith, fits n, call-store_total-le n c m i))
        (call-IsStored c m i) (call-IsExact c m (λ n. omega (arith, fits n)) i x)

  new_store-IsStored : (l : Limits) → IsStored (new_store {F = F} l)
  unfolding get
  new_store-IsStored l = record {
    synced = Synced-empty;
    within = omega arith;
    each = λ peer set e. absurd (ground arith);
  }

  new_store-IsExact : (l : Limits) → IsExact (new_store {F = F} l)
  new_store-IsExact l = record { peers_eq = refl; measures_eq = read_empty }

  -- After any list of client messages and departures on a new subscription store, each limit holds:
  -- peers, subscriptions of a peer, filters of a subscription; no peer is kept without
  -- subscriptions, each subscription stands under its own id and did serialise, and the queues hold
  -- exactly what is kept, each once.
  pub run_store-new-IsStored :
      (l : Limits) (cs : List (StoreCall F)) → IsStored (run_store cs (new_store l))
  run_store-new-IsStored l cs = run_store-IsStored cs (new_store l) (new_store-IsStored l)

  -- After any list of client messages and departures on a new subscription store, the snapshot that
  -- is kept incrementally equals a fresh count of peers, subscriptions, filters and encoded bytes,
  -- provided that what the list's own requests add up to, in each of these measures, fits 64 bits.
  pub run_store-new-IsExact :
      (l : Limits) (cs : List (StoreCall F))
      → ((n : Measure) → sum_by (call_cost n) cs ≤ u64_max)
      → IsExact (run_store cs (new_store l))
  run_store-new-IsExact l cs fits =
      run_store-IsExact cs (new_store l) (λ n. omega (arith, fits n)) (new_store-IsStored l)
        (new_store-IsExact l)
