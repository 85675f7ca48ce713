-- ===== src/Subscriptions/Invariant.antt =====
-- What the store of crates/nostr-pubsub/src/subscriptions.rs keeps true.
pub mod Sets
pub mod Steps
pub mod Removals
pub mod Totals
pub mod Run
pub mod History
use nostr_pubsub.Prelude.{ℕ, ◌≤◌, ◌<◌, ◌≡◌, Option, some, length}
use nostr_pubsub.Prelude.Map.{Text, text_key, Map, get}
use nostr_pubsub.Prelude.Map.Queue.{Synced}
use nostr_pubsub.Subscriptions.Types.{
  FilterJson, Limits, Subscription, SubscriptionSet, SubscriptionStore, Contribution,
  subscription_contribution,
}
use nostr_pubsub.Subscriptions.Accounts.{Measure, read, cost, store_total}

module _ {F : Type 0} ⦃json : FilterJson F⦄ where
  -- A subscription that was accepted under its id: it is within its limit, and it serialises.
  pub record IsAccepted (l : Limits) (id : Text) (s : Subscription F) : Type 0 where
    pub own_id : s.subscription_id ≡ id
    pub filters_le : length s.filters ≤ l.max_filters_per_subscription
    pub serialises : (c : Contribution) × (subscription_contribution s ≡ some c)

  -- The subscriptions of a peer: one at least, as many as the limit at most, each accepted, and each
  -- once in the queue.
  pub record IsKept (l : Limits) (set : SubscriptionSet F) : Type 0 where
    pub synced : Synced set.order set.subscriptions
    pub held : 0 < length set.subscriptions
    pub within : length set.subscriptions ≤ l.max_subscriptions_per_peer
    pub each :
        (id : Text) (s : Subscription F) → get id set.subscriptions ≡ some s → IsAccepted l id s

  -- The store: no more peers than the limit, each once in the queue, and each with a set as above.
  pub record IsStored (m : SubscriptionStore F) : Type 0 where
    pub synced : Synced m.peer_order m.peers
    pub within : length m.peers ≤ m.limits.max_peers
    pub each :
        (peer : Text) (set : SubscriptionSet F) → get peer m.peers ≡ some set → IsKept m.limits set

  -- The snapshot, which is kept incrementally, is what counting afresh gives.
  pub record IsExact (m : SubscriptionStore F) : Type 0 where
    pub peers_eq : m.retained.peer_count ≡ length m.peers
    pub measures_eq : (i : Measure) → read i m.retained ≡ store_total (cost i) m.peers
