-- ===== src/Subscriptions/Invariant/Totals.antt =====
-- Removals from the store of crates/nostr-pubsub/src/subscriptions.rs never add to what it measures.
use nostr_pubsub.Prelude.{◌≤◌, ◌≡◌, some, arith, Option-cases, inl, inr, if_both}
use nostr_pubsub.Prelude.Map.{Text, text_key, get, Distinct}
use nostr_pubsub.Prelude.Map.Size.{total-insert, total-remove}
use nostr_pubsub.Subscriptions.Types.{FilterJson, SubscriptionSet, SubscriptionStore}
use nostr_pubsub.Subscriptions.Sets.{remove_from_set, is_empty}
use nostr_pubsub.Subscriptions.Store.{remove_peer, drop_if_empty, remove_subscription}
use nostr_pubsub.Subscriptions.Accounts.{Measure, cost, set_total, store_total, sum_by-gone}
use nostr_pubsub.Subscriptions.Invariant.{IsStored}
use nostr_pubsub.Subscriptions.Invariant.Removals.{lessened, lessened-IsAlmost}

module _ {F : Type 0} ⦃json : FilterJson F⦄ where
  pub remove_peer-store_total-le :
      (n : Measure) (peer : Text) (m : SubscriptionStore F)
      → Distinct m.peers
      → store_total (cost n) (remove_peer peer m).0.peers ≤ store_total (cost n) m.peers
  unfolding remove_peer
  remove_peer-store_total-le n peer m d = omega (arith, sum_by-gone (cost n) peer m.peers d)

  drop_if_empty-store_total-le :
      (n : Measure) (peer : Text) (m : SubscriptionStore F)
      → Distinct m.peers
      → store_total (cost n) (drop_if_empty peer m).peers ≤ store_total (cost n) m.peers
  unfolding drop_if_empty
  drop_if_empty-store_total-le n peer m d = elim (Option-cases (get peer m.peers)) [
    | inl e ↦ rw (e, drop_if_empty) (omega arith)
    | inr (set, e) ↦
        rw (e, drop_if_empty)
          (if_both
            (λ (k : SubscriptionStore F).
              store_total (cost n) k.peers ≤ store_total (cost n) m.peers)
            (is_empty set) (λ f. remove_peer-store_total-le n peer m d) (λ f. omega arith))
  ]

  lessened-store_total-le :
      (n : Measure) (peer id : Text) (set : SubscriptionSet F) (m : SubscriptionStore F)
      → get peer m.peers ≡ some set
      → IsStored m
      → store_total (cost n) (lessened peer id set m).peers ≤ store_total (cost n) m.peers
  unfolding remove_from_set
  lessened-store_total-le n peer id set m e i = ground (
    arith,
    total-insert (set_total (cost n)) peer (remove_from_set id set).0 m.peers,
    total-remove (cost n) id set.subscriptions (i.each peer set e).synced.distinct,
    e,
  )

  pub remove_subscription-store_total-le :
      (n : Measure) (peer id : Text) (m : SubscriptionStore F)
      → IsStored m
      → store_total (cost n) (remove_subscription peer id m).0.peers ≤ store_total (cost n) m.peers
  unfolding remove_subscription
  remove_subscription-store_total-le n peer id m i = elim (Option-cases (get peer m.peers)) [
    | inl e ↦ rw (e, remove_subscription) (omega arith)
    | inr (set, e) ↦
        rw (e, remove_subscription)
          (omega (
            arith,
            drop_if_empty-store_total-le n peer (lessened peer id set m)
                (lessened-IsAlmost peer id set m e i).synced.distinct,
            lessened-store_total-le n peer id set m e i,
          ))
  ]
