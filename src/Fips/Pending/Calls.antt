-- ===== src/Fips/Pending/Calls.antt =====
-- Any calls on the requests of crates/nostr-pubsub-fips/src/pending_wants.rs keep them in bounds.
use nostr_pubsub.Prelude.{
  ℕ, ◌≤◌, ◌≡◌, refl, sym, subst, not, some, List, [], ◌∷◌, length, arith, length-keep-le, All,
}
use nostr_pubsub.Prelude.Map.{Text, text_key, eqb, get}
use nostr_pubsub.Prelude.Map.Queue.{Synced-empty}
use nostr_pubsub.Fips.Pending.{
  InventoryProvider, PendingInventory, PendingWants, new_pending, insert_pending, take_matching,
  retain_entries, rotate, withouts, promote, drop_subscription, remove_subscription, drop_peer,
  remove_peer, clear, judge, surviving, retry_due,
}
use nostr_pubsub.Fips.Pending.Bounds.{
  length_snoc, IsEntry, IsPending, insert_pending-IsPending, take_matching-IsPending,
  retain_entries-IsPending,
}

length-withouts-le :
    (subscription : Text) (ps : List InventoryProvider)
    → length (withouts subscription ps) ≤ length ps
length-withouts-le subscription [] = omega arith
length-withouts-le subscription (p ∷ ps) = ground (arith, length-withouts-le subscription ps)

promote-IsEntry :
    (most : ℕ) (p q : PendingInventory) → IsEntry most p → promote p ≡ some q → IsEntry most q
promote-IsEntry most p q i e = record {
  alternatives_le = ground (arith, i.alternatives_le);
  retries_le = ground (arith, i.retries_le);
}

drop_subscription-IsEntry :
    (subscription : Text) (most : ℕ) (p q : PendingInventory)
    → IsEntry most p
    → drop_subscription subscription p ≡ some q
    → IsEntry most q
unfolding drop_subscription
drop_subscription-IsEntry subscription most p q i e = record {
  alternatives_le =
      ground (arith, i.alternatives_le, length-withouts-le subscription p.alternatives);
  retries_le = ground (arith, i.retries_le);
}

drop_peer-IsEntry :
    (npub : Text) (now most : ℕ) (p q : PendingInventory)
    → IsEntry most p
    → drop_peer npub now p ≡ some q
    → IsEntry most q
unfolding drop_peer
drop_peer-IsEntry npub now most p q i e = record {
  alternatives_le =
      ground
        (arith, i.alternatives_le, length-keep-le (λ x. not (eqb x.peer_npub npub)) p.alternatives);
  retries_le = ground (arith, i.retries_le);
}

length_rotated :
    (p : PendingInventory) (qs : List InventoryProvider)
    → p.alternatives ≡ qs
    → length (rotate p).alternatives ≡ length p.alternatives
length_rotated p [] h = rw h refl
length_rotated p (q ∷ qs) h = rw h (length_snoc qs p.selected)

length-rotate : (p : PendingInventory) → length (rotate p).alternatives ≡ length p.alternatives
length-rotate p = length_rotated p p.alternatives refl

judge-IsEntry :
    (now after most : ℕ) (p q : PendingInventory)
    → IsEntry most p
    → surviving (judge now after p) p ≡ some q
    → IsEntry most q
unfolding judge
judge-IsEntry now after most p q i e = record {
  alternatives_le = ground (arith, i.alternatives_le, length-rotate p);
  retries_le = ground (arith, i.retries_le);
}

-- The calls that change the requests; each inventory comes from one peer, not yet retried.
pub data PendingCall : Type 0 where
  add : Text → PendingInventory → PendingCall
  take : Text → Text → Text → ℕ → ℕ → PendingCall
  subscription_closed : Text → PendingCall
  peer_gone : Text → ℕ → PendingCall
  retry : ℕ → ℕ → PendingCall
  clear_all : PendingCall

abbrev IsAllowed : ℕ → PendingCall → Type 0
IsAllowed most (add id p) = IsEntry most p
IsAllowed most _ = Unit

unfoldable pub call_pending : PendingCall → PendingWants → PendingWants
call_pending (add id p) w = (insert_pending id p w).0
call_pending (PendingCall.take id source subscription kind bytes) w =
    (take_matching id source subscription kind bytes w).0
call_pending (subscription_closed subscription) w = remove_subscription subscription w
call_pending (peer_gone npub now) w = remove_peer npub now w
call_pending (retry now after) w = (retry_due now after w).0
call_pending clear_all w = clear w

unfoldable pub run_pending : List PendingCall → PendingWants → PendingWants
run_pending [] w = w
run_pending (c ∷ cs) w = run_pending cs (call_pending c w)

clear-IsPending : (w : PendingWants) → IsPending (clear w)
unfolding get
clear-IsPending w = record {
  synced = Synced-empty;
  events_le = omega arith;
  each = λ id p e. absurd (ground arith);
}

call_pending-IsPending :
    (c : PendingCall) (w : PendingWants)
    → IsAllowed w.max_alternatives c
    → IsPending w
    → IsPending (call_pending c w)
unfolding call_pending retry_due
call_pending-IsPending (add id p) w h i = insert_pending-IsPending id p w h i
call_pending-IsPending (PendingCall.take id source subscription kind bytes) w h i =
    take_matching-IsPending id source subscription kind bytes w i
call_pending-IsPending (subscription_closed subscription) w h i =
    retain_entries-IsPending (drop_subscription subscription) w
      (λ p q. drop_subscription-IsEntry subscription w.max_alternatives p q) i
call_pending-IsPending (peer_gone npub now) w h i =
    retain_entries-IsPending (drop_peer npub now) w
      (λ p q. drop_peer-IsEntry npub now w.max_alternatives p q) i
call_pending-IsPending (retry now after) w h i =
    retain_entries-IsPending (λ p. surviving (judge now after p) p) w
      (λ p q. judge-IsEntry now after w.max_alternatives p q) i
call_pending-IsPending clear_all w h i = clear-IsPending w

alternatives-call_pending :
    (c : PendingCall) (w : PendingWants) → (call_pending c w).max_alternatives ≡ w.max_alternatives
unfolding call_pending insert_pending take_matching retain_entries retry_due
alternatives-call_pending (add id p) w = ground arith
alternatives-call_pending (PendingCall.take id source subscription kind bytes) w = ground arith
alternatives-call_pending (subscription_closed subscription) w = refl
alternatives-call_pending (peer_gone npub now) w = refl
alternatives-call_pending (retry now after) w = refl
alternatives-call_pending clear_all w = refl

run_pending-IsPending :
    (cs : List PendingCall) (w : PendingWants)
    → All (IsAllowed w.max_alternatives) cs
    → IsPending w
    → IsPending (run_pending cs w)
unfolding run_pending
run_pending-IsPending [] w h i = i
run_pending-IsPending (c ∷ cs) w h i =
    run_pending-IsPending cs (call_pending c w)
      (subst (λ n. All (IsAllowed n) cs) (sym (alternatives-call_pending c w)) h.1)
      (call_pending-IsPending c w h.0 i)

-- After any list of calls on no requests, where the inventories added are within the limits, the
-- requests are within them: events, alternatives of each, and at most 5 retries; and the order
-- holds exactly the events waited for, each once.
pub run_pending-new-IsPending :
    (events alternatives : ℕ) (cs : List PendingCall)
    → All (IsAllowed alternatives) cs
    → IsPending (run_pending cs (new_pending events alternatives))
run_pending-new-IsPending events alternatives cs h =
    run_pending-IsPending cs (new_pending events alternatives) h
      (clear-IsPending (new_pending events alternatives))
