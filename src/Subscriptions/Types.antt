-- ===== src/Subscriptions/Types.antt =====
-- The types of crates/nostr-pubsub/src/subscriptions.rs, and what a subscription matches and costs.
use nostr_pubsub.Prelude.{ℕ, ◌-◌, Bool, Option, none, some, List, [], ◌∷◌, any, length, sat_add_64}
use nostr_pubsub.Prelude.Map.{Text, Map}

-- What the component asks of the nostr crate: whether a filter matches an event.
pub record FilterMatch (F E : Type 0) : Type 0 where
  pub match_event : F → E → Bool

-- The lengths of the JSON texts of a filter and of a `REQ` frame, if they serialise.
pub record FilterJson (F : Type 0) : Type 0 where
  pub filter_len : F → Option ℕ
  pub req_len : Text → List F → Option ℕ

pub record Limits : Type 0 where
  pub max_peers : ℕ
  pub max_subscriptions_per_peer : ℕ
  pub max_filters_per_subscription : ℕ

abbrev pub default_limits : Limits
default_limits = record {
  max_peers = 1024;
  max_subscriptions_per_peer = 64;
  max_filters_per_subscription = 16;
}

pub record Subscription (F : Type 0) : Type 0 where
  pub subscription_id : Text
  pub filters : List F

-- `PeerSubscriptionSet`: the subscriptions by their id, and the ids, oldest first.
pub record SubscriptionSet (F : Type 0) : Type 0 where
  pub subscriptions : Map Text (Subscription F)
  pub order : List Text

abbrev pub empty_set : {F : Type 0} → SubscriptionSet F
empty_set = record { subscriptions = []; order = [] }

-- `PubsubPeerSubscriptionSnapshot`
pub record Snapshot : Type 0 where
  pub peer_count : ℕ
  pub subscription_count : ℕ
  pub filter_count : ℕ
  pub encoded_filter_bytes : ℕ
  pub encoded_req_bytes : ℕ

abbrev pub empty_snapshot : Snapshot
empty_snapshot = record {
  peer_count = 0;
  subscription_count = 0;
  filter_count = 0;
  encoded_filter_bytes = 0;
  encoded_req_bytes = 0;
}

-- `PubsubPeerSubscriptionStore`
pub record SubscriptionStore (F : Type 0) : Type 0 where
  pub limits : Limits
  pub peers : Map Text (SubscriptionSet F)
  pub peer_order : List Text
  pub retained : Snapshot

abbrev pub new_store : {F : Type 0} → Limits → SubscriptionStore F
new_store l = record { limits = l; peers = []; peer_order = []; retained = empty_snapshot }

pub record Contribution : Type 0 where
  pub filter_count : ℕ
  pub encoded_filter_bytes : ℕ
  pub encoded_req_bytes : ℕ

-- The errors of the component, one constructor for each message.
pub data SubscriptionError : Type 0 where
  zero_max_peers zero_max_subscriptions unencodable : SubscriptionError
  too_many_filters : Text → ℕ → ℕ → SubscriptionError

-- The messages of a client that the store reads, and the others.
pub data ClientMessage (F : Type 0) : Type 0 where
  req : Text → List F → ClientMessage F
  close : Text → ClientMessage F
  other : ClientMessage F

pub data SubscriptionUpdate : Type 0 where
  subscribed closed ignored : SubscriptionUpdate

abbrev zero_contribution : Contribution
zero_contribution = record { filter_count = 0; encoded_filter_bytes = 0; encoded_req_bytes = 0 }

module _ {F E : Type 0} ⦃nostr : FilterMatch F E⦄ where
  -- `subscription_filters_match` of lib.rs
  unfoldable pub subscription_filters_match : List F → E → Bool
  subscription_filters_match [] e = Bool.false
  subscription_filters_match (f ∷ fs) e = any (λ g. nostr.match_event g e) (f ∷ fs)

module _ {F : Type 0} ⦃json : FilterJson F⦄ where
  -- The lengths of the filters' JSON texts, if all serialise.
  unfoldable pub filters_len : ℕ → List F → Option ℕ
  filters_len total [] = some total
  filters_len total (f ∷ fs) = elim (json.filter_len f) [
    | none ↦ none
    | some n ↦ filters_len (sat_add_64 total n) fs
  ]

  unfoldable pub subscription_contribution : Subscription F → Option Contribution
  subscription_contribution s = elim (filters_len 0 s.filters) [
    | none ↦ none
    | some bytes ↦ elim (json.req_len s.subscription_id s.filters) [
      | none ↦ none
      | some req_bytes ↦ some (record {
        filter_count = length s.filters;
        encoded_filter_bytes = bytes;
        encoded_req_bytes = req_bytes;
      })
    ]
  ]

  -- `subscription_contribution_infallible`, whose panic stands as a contribution of 0: it is not
  -- reached, since what is retained did serialise.
  unfoldable pub subscription_contribution_infallible : Subscription F → Contribution
  subscription_contribution_infallible s = elim (subscription_contribution s) [
    | none ↦ zero_contribution
    | some c ↦ c
  ]

  -- `subtract_retained` and `add_retained`
  unfoldable pub subtract_retained : Subscription F → Snapshot → Snapshot
  subtract_retained s r =
      let c = subscription_contribution_infallible s in
      record r {
        subscription_count = r.subscription_count - 1;
        filter_count = r.filter_count - c.filter_count;
        encoded_filter_bytes = r.encoded_filter_bytes - c.encoded_filter_bytes;
        encoded_req_bytes = r.encoded_req_bytes - c.encoded_req_bytes;
      }

  unfoldable pub subtract_all : List (Subscription F) → Snapshot → Snapshot
  subtract_all [] r = r
  subtract_all (s ∷ xs) r = subtract_all xs (subtract_retained s r)

  unfoldable pub subtract_removed : Option (Subscription F) → Snapshot → Snapshot
  subtract_removed none r = r
  subtract_removed (some s) r = subtract_retained s r

unfoldable pub add_retained : Contribution → Snapshot → Snapshot
add_retained c r = record r {
  subscription_count = sat_add_64 r.subscription_count 1;
  filter_count = sat_add_64 r.filter_count c.filter_count;
  encoded_filter_bytes = sat_add_64 r.encoded_filter_bytes c.encoded_filter_bytes;
  encoded_req_bytes = sat_add_64 r.encoded_req_bytes c.encoded_req_bytes;
}
