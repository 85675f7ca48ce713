-- ===== src/Subscriptions/Sets.antt =====
-- `PeerSubscriptionSet` of crates/nostr-pubsub/src/subscriptions.rs: the subscriptions of one peer,
-- the oldest of which makes room for a new one. The loop that drops an oldest entry is shared with
-- the store's.
use nostr_pubsub.Prelude.{
  ℕ, suc, Bool, true, false, Option, none, some, List, [], ◌∷◌, ◌++◌, length, leb, if◌then◌else◌,
}
use nostr_pubsub.Prelude.Map.{Key, Text, text_key, Map, get, insert, remove}
use nostr_pubsub.Prelude.Map.Queue.{drop_key}
use nostr_pubsub.Subscriptions.Types.{Limits, Subscription, SubscriptionSet}

-- `while map.len() >= limit { pop the oldest key, or stop; return what it holds, if anything }`
unfoldable pub drop_oldest {ℓ κ} :
    {K : Type ℓ} {V : Type κ} ⦃o : Key K⦄ → ℕ → List K → Map K V → List K × Map K V × Option V
drop_oldest limit [] m = ([], m, none)
drop_oldest limit (k ∷ q) m =
    let rest = drop_oldest limit q m in
    if leb limit (length m)
    then elim (get k m) [ none ↦ rest | some v ↦ (q, remove k m, some v) ]
    else (k ∷ q, m, none)

module _ {F : Type 0} where
  -- `upsert`: what was replaced and what was evicted, beside the new set.
  unfoldable pub upsert_set :
      Subscription F
      → Limits
      → SubscriptionSet F
      → SubscriptionSet F × Option (Subscription F) × Option (Subscription F)
  upsert_set s l set =
      let id = s.subscription_id in
      let order = drop_key id set.order ++ id ∷ [] in
      let subscriptions = insert id s set.subscriptions in
      elim (get id set.subscriptions) [
        | some old ↦ (record { subscriptions = subscriptions; order = order }, some old, none)
        | none ↦
            let (order', subscriptions', evicted) =
              drop_oldest (suc l.max_subscriptions_per_peer) order subscriptions in
            (record { subscriptions = subscriptions'; order = order' }, none, evicted)
      ]

  unfoldable pub remove_from_set :
      Text → SubscriptionSet F → SubscriptionSet F × Option (Subscription F)
  remove_from_set id set = (
    record { subscriptions = remove id set.subscriptions; order = drop_key id set.order },
    get id set.subscriptions,
  )

  abbrev pub is_empty : SubscriptionSet F → Bool
  is_empty set = elim set.subscriptions [ [] ↦ true | _ ∷ _ ↦ false ]
