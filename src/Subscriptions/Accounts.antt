-- ===== src/Subscriptions/Accounts.antt =====
-- What the snapshot of crates/nostr-pubsub/src/subscriptions.rs measures, one number at a time, and
-- how each operation on the sets and the store moves what is measured.
use nostr_pubsub.Prelude.{
  ℕ, suc, ◌+◌, ◌-◌, ◌≡◌, refl, ap, Option, none, some, List, [], ◌∷◌, ◌++◌, arith, Bool-cases,
  Option-cases, inl, inr, length, leb, sum_by, sat_add_64,
}
use nostr_pubsub.Prelude.Map.{
  Text, text_key, Map, get, contains, insert, remove, Distinct, Distinct-insert,
}
use nostr_pubsub.Prelude.Map.Size.{total, weight, total-insert, total-remove}
use nostr_pubsub.Prelude.Map.Queue.{drop_key}
use nostr_pubsub.Subscriptions.Types.{
  FilterJson, Limits, Subscription, SubscriptionSet, Snapshot, SubscriptionStore, Contribution,
  subscription_contribution, subscription_contribution_infallible, subtract_retained, subtract_all,
  subtract_removed, add_retained,
}
use nostr_pubsub.Subscriptions.Sets.{drop_oldest, upsert_set}
use nostr_pubsub.Subscriptions.Store.{values, removed_subscriptions, or_default, admit_peer}

-- The numbers that each subscription adds to.
pub data Measure : Type 0 where
  subscriptions filters filter_bytes req_bytes : Measure

abbrev pub read : Measure → Snapshot → ℕ
read Measure.subscriptions r = r.subscription_count
read Measure.filters r = r.filter_count
read Measure.filter_bytes r = r.encoded_filter_bytes
read Measure.req_bytes r = r.encoded_req_bytes

abbrev share : Measure → Contribution → ℕ
share Measure.subscriptions c = 1
share Measure.filters c = c.filter_count
share Measure.filter_bytes c = c.encoded_filter_bytes
share Measure.req_bytes c = c.encoded_req_bytes

pub read-add_retained :
    (i : Measure) (c : Contribution) (r : Snapshot)
    → read i (add_retained c r) ≡ sat_add_64 (read i r) (share i c)
unfolding add_retained
read-add_retained Measure.subscriptions c r = refl
read-add_retained Measure.filters c r = refl
read-add_retained Measure.filter_bytes c r = refl
read-add_retained Measure.req_bytes c r = refl

pub read-peer_count :
    (i : Measure) (n : ℕ) (r : Snapshot) → read i (record r { peer_count = n }) ≡ read i r
read-peer_count Measure.subscriptions n r = refl
read-peer_count Measure.filters n r = refl
read-peer_count Measure.filter_bytes n r = refl
read-peer_count Measure.req_bytes n r = refl

sum_by-values : {V : Type 0} (f : V → ℕ) (m : Map Text V) → sum_by f (values m) ≡ total f m
sum_by-values f [] = refl
sum_by-values f ((k, v) ∷ m) = omega (arith, sum_by-values f m)

module _ {F : Type 0} ⦃json : FilterJson F⦄ where
  -- What a subscription adds to a measure.
  abbrev pub cost : Measure → Subscription F → ℕ
  cost i s = share i (subscription_contribution_infallible s)

  infallible_eq :
      (s : Subscription F) (c : Contribution)
      → subscription_contribution s ≡ some c
      → subscription_contribution_infallible s ≡ c
  unfolding subscription_contribution_infallible
  infallible_eq s c h = rw (h, subscription_contribution_infallible)

  pub cost_eq :
      (i : Measure) (s : Subscription F) (c : Contribution)
      → subscription_contribution s ≡ some c
      → cost i s ≡ share i c
  cost_eq i s c h = ap (share i) (infallible_eq s c h)

  read-subtract_retained :
      (i : Measure) (s : Subscription F) (r : Snapshot)
      → read i (subtract_retained s r) ≡ read i r - cost i s
  unfolding subtract_retained
  read-subtract_retained Measure.subscriptions s r = refl
  read-subtract_retained Measure.filters s r = refl
  read-subtract_retained Measure.filter_bytes s r = refl
  read-subtract_retained Measure.req_bytes s r = refl

  pub read-subtract_all :
      (i : Measure) (xs : List (Subscription F)) (r : Snapshot)
      → read i (subtract_all xs r) ≡ read i r - sum_by (cost i) xs
  unfolding subtract_all
  read-subtract_all i [] r = omega arith
  read-subtract_all i (s ∷ xs) r =
      omega (arith, read-subtract_all i xs (subtract_retained s r), read-subtract_retained i s r)

  pub read-subtract_removed :
      (i : Measure) (s : Option (Subscription F)) (r : Snapshot)
      → read i (subtract_removed s r) ≡ read i r - weight (cost i) s
  unfolding subtract_removed
  read-subtract_removed i none r = omega arith
  read-subtract_removed i (some s) r = read-subtract_retained i s r

module _ {κ} {V : Type κ} where
  -- What the eviction loop drops leaves the total.
  total-drop_oldest :
      (f : V → ℕ) (limit : ℕ) (q : List Text) (m : Map Text V)
      → Distinct m
      → total f (drop_oldest limit q m).1 + weight f (drop_oldest limit q m).2 ≡ total f m
  unfolding drop_oldest
  total-drop_oldest f limit [] m d = omega arith
  total-drop_oldest f limit (k ∷ q) m d = elim (Bool-cases (leb limit (length m))) [
    | inr room ↦ rw (room, drop_oldest) (omega arith)
    | inl full ↦ elim (Option-cases (get k m)) [
      | inl e ↦ rw (full, e, drop_oldest) (total-drop_oldest f limit q m d)
      | inr (v, e) ↦ rw (full, e, drop_oldest) (ground (arith, total-remove f k m d))
    ]
  ]

module _ {F : Type 0} (f : Subscription F → ℕ) where
  abbrev pub set_total : SubscriptionSet F → ℕ
  set_total set = total f set.subscriptions

  abbrev pub store_total : Map Text (SubscriptionSet F) → ℕ
  store_total peers = total set_total peers

  pub total-upsert_set :
      (s : Subscription F) (l : Limits) (set : SubscriptionSet F)
      → Distinct set.subscriptions
      → let (set', replaced, evicted) = upsert_set s l set in
        set_total set' + weight f replaced + weight f evicted ≡ set_total set + f s
  unfolding upsert_set
  total-upsert_set s l set d =
      let id = s.subscription_id in
      let more = total-insert f id s set.subscriptions in
      elim (Option-cases (get id set.subscriptions)) [
        | inr (old, e) ↦ rw (e, upsert_set) (ground (arith, more))
        | inl e ↦
            rw (e, upsert_set)
              (ground (
                arith,
                more,
                total-drop_oldest f (suc l.max_subscriptions_per_peer)
                    (drop_key id set.order ++ id ∷ []) (insert id s set.subscriptions)
                    (Distinct-insert id s set.subscriptions d),
              ))
      ]

  sum_by-removed :
      (set : Option (SubscriptionSet F))
      → sum_by f (removed_subscriptions set) ≡ weight set_total set
  sum_by-removed none = refl
  sum_by-removed (some set) = sum_by-values f set.subscriptions

  pub total-admit_peer :
      (peer : Text) (m : SubscriptionStore F)
      → Distinct m.peers
      → let (order, peers, gone) = admit_peer peer m in
        store_total peers + sum_by f (removed_subscriptions gone) ≡ store_total m.peers
  unfolding admit_peer
  total-admit_peer peer m d = elim (Bool-cases (contains peer m.peers)) [
    | inl old ↦ rw (old, admit_peer) (omega arith)
    | inr new ↦
        rw (new, admit_peer)
          (ground (
            arith,
            total-drop_oldest set_total m.limits.max_peers (drop_key peer m.peer_order ++ peer ∷ [])
                m.peers d,
            sum_by-removed
                (drop_oldest m.limits.max_peers (drop_key peer m.peer_order ++ peer ∷ [])
                  m.peers).2,
          ))
  ]

  pub set_total-or_default :
      (set : Option (SubscriptionSet F)) → set_total (or_default set) ≡ weight set_total set
  set_total-or_default none = refl
  set_total-or_default (some set) = refl

  pub sum_by-gone :
      (peer : Text) (peers : Map Text (SubscriptionSet F))
      → Distinct peers
      → store_total (remove peer peers) + sum_by f (removed_subscriptions (get peer peers))
        ≡ store_total peers
  sum_by-gone peer peers d =
      omega (arith, sum_by-removed (get peer peers), total-remove set_total peer peers d)
