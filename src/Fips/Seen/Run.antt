-- ===== src/Fips/Seen/Run.antt =====
-- Any sequence of calls of the observations of crates/nostr-pubsub-fips/src/seen_ids.rs.
use nostr_pubsub.Prelude.{
  ℕ, arith, ◌≤◌, ◌≡◌, refl, none, if_both, Option-cases, inl, inr, Bool, Option, some, List, [],
  ◌∷◌, length,
}
use nostr_pubsub.Prelude.Map.{Text, Map, text_key, pair_key, eqb, get}
use nostr_pubsub.Prelude.Map.Size.{total}
use nostr_pubsub.Fips.Seen.{
  Scope, IdWindow, Observation, ScopedSeenIds, new_seen, observe, observe_with_match,
  observe_response, clear_peer, clear_subscription, clear_scopes, window_at, evict_global,
  add_observation, observe_wire,
}
use nostr_pubsub.Fips.Seen.Counts.{size}
use nostr_pubsub.Fips.Seen.Eviction.{IsSeen}
use nostr_pubsub.Fips.Seen.Invariant.{
  new_seen-IsSeen, observe_with_match-IsSeen, observe_response-IsSeen, clear_scopes-IsSeen,
}

window_at-within :
    (scope : Scope) (m : Map Scope IdWindow) (n : ℕ)
    → ((w : IdWindow) → get scope m ≡ some w → size w ≤ n)
    → length (window_at scope m).ids ≤ n
window_at-within scope m n h = elim (Option-cases (get scope m)) [
  | inl e ↦ ground (arith, e)
  | inr (w, e) ↦ ground (arith, e, h w e)
]

pub data SeenCall : Type 0 where
  inventory : Text → Text → Text → SeenCall
  event : Text → Option Text → Text → Text → Bool → SeenCall
  peer_gone subscription_gone : Text → SeenCall

unfoldable pub make_call : SeenCall → ScopedSeenIds → ScopedSeenIds
make_call (SeenCall.inventory npub subscription id) s = (observe npub subscription id s).0
make_call (SeenCall.event npub wire subscription id matched) s =
    (observe_response npub wire subscription id matched s).0
make_call (SeenCall.peer_gone npub) s = clear_peer npub s
make_call (SeenCall.subscription_gone subscription) s = clear_subscription subscription s

-- What a call answers.
unfoldable pub answer : SeenCall → ScopedSeenIds → Option Observation
answer (SeenCall.inventory npub subscription id) s =
    some (observe_with_match (npub, subscription) id Bool.false s).1
answer (SeenCall.event npub wire subscription id matched) s =
    some (observe_response npub wire subscription id matched s).1
answer (SeenCall.peer_gone npub) s = none
answer (SeenCall.subscription_gone subscription) s = none

unfoldable pub make_calls : List SeenCall → ScopedSeenIds → ScopedSeenIds
make_calls [] s = s
make_calls (c ∷ cs) s = make_calls cs (make_call c s)

unfoldable pub answers : List SeenCall → ScopedSeenIds → List (Option Observation)
answers [] s = []
answers (c ∷ cs) s = answer c s ∷ answers cs (make_call c s)

pub make_call-IsSeen : (c : SeenCall) (s : ScopedSeenIds) → IsSeen s → IsSeen (make_call c s)
unfolding make_call observe
make_call-IsSeen (SeenCall.inventory npub subscription id) s i =
    observe_with_match-IsSeen (npub, subscription) id Bool.false s i
make_call-IsSeen (SeenCall.event npub wire subscription id matched) s i =
    observe_response-IsSeen npub wire subscription id matched s i
make_call-IsSeen (SeenCall.peer_gone npub) s i = clear_scopes-IsSeen _ s i
make_call-IsSeen (SeenCall.subscription_gone subscription) s i = clear_scopes-IsSeen _ s i

make_calls-IsSeen : (cs : List SeenCall) (s : ScopedSeenIds) → IsSeen s → IsSeen (make_calls cs s)
unfolding make_calls
make_calls-IsSeen [] s i = i
make_calls-IsSeen (c ∷ cs) s i = make_calls-IsSeen cs (make_call c s) (make_call-IsSeen c s i)

-- No call changes a limit.
abbrev HasLimits : ℕ → ℕ → ScopedSeenIds → Type 0
HasLimits per_scope all_scopes s = (s.max_per_scope ≡ per_scope) × (s.max_total ≡ all_scopes)

module _ (per_scope all_scopes : ℕ) where
  observe_with_match-HasLimits :
      (scope : Scope) (id : Text) (matched : Bool) (s : ScopedSeenIds)
      → HasLimits per_scope all_scopes s
      → HasLimits per_scope all_scopes (observe_with_match scope id matched s).0
  unfolding observe_with_match evict_global add_observation
  observe_with_match-HasLimits scope id matched s h =
      elim (Option-cases (get id (window_at scope s.scopes).ids)) [
        | inl e ↦ rw (e, observe_with_match) h
        | inr (o, e) ↦ rw (e, observe_with_match) h
      ]

  observe_wire-HasLimits :
      (npub : Text) (wire : Option Text) (response id : Text) (matched : Bool) (s : ScopedSeenIds)
      → HasLimits per_scope all_scopes s
      → HasLimits per_scope all_scopes (observe_wire npub wire response id matched s)
  unfolding observe_wire
  observe_wire-HasLimits npub none response id matched s h = h
  observe_wire-HasLimits npub (some subscription) response id matched s h =
      if_both (HasLimits per_scope all_scopes) (eqb subscription response) (λ _. h)
        (λ _. observe_with_match-HasLimits (npub, subscription) id matched s h)

  make_call-HasLimits :
      (c : SeenCall) (s : ScopedSeenIds)
      → HasLimits per_scope all_scopes s
      → HasLimits per_scope all_scopes (make_call c s)
  unfolding make_call observe clear_scopes
  make_call-HasLimits (SeenCall.inventory npub subscription id) s h =
      observe_with_match-HasLimits (npub, subscription) id Bool.false s h
  make_call-HasLimits (SeenCall.event npub wire subscription id matched) s h =
      observe_with_match-HasLimits (npub, subscription) id matched _
        (observe_wire-HasLimits npub wire subscription id matched s h)
  make_call-HasLimits (SeenCall.peer_gone npub) s h = h
  make_call-HasLimits (SeenCall.subscription_gone subscription) s h = h

  make_calls-HasLimits :
      (cs : List SeenCall) (s : ScopedSeenIds)
      → HasLimits per_scope all_scopes s
      → HasLimits per_scope all_scopes (make_calls cs s)
  unfolding make_calls
  make_calls-HasLimits [] s h = h
  make_calls-HasLimits (c ∷ cs) s h =
      make_calls-HasLimits cs (make_call c s) (make_call-HasLimits c s h)

  -- After any calls on no observations, the count of ids is the sum of the windows and at most the
  -- total limit, and no window of a peer and subscription holds more ids than its limit.
  pub make_calls-within :
      (cs : List SeenCall)
      → let s = make_calls cs (new_seen per_scope all_scopes) in
        (s.total_ids ≡ total size s.scopes)
        × (s.total_ids ≤ all_scopes)
        × ((scope : Scope) → length (window_at scope s.scopes).ids ≤ per_scope)
  make_calls-within cs =
      let start = new_seen per_scope all_scopes in
      let i = make_calls-IsSeen cs start (new_seen-IsSeen per_scope all_scopes) in
      let h = make_calls-HasLimits cs start (refl, refl) in
      (
        i.counted.counted,
        omega (arith, i.within, h.1),
        λ scope.
            window_at-within scope (make_calls cs start).scopes per_scope
              (λ w e. omega (arith, (i.counted.windows scope w e).within, h.0)),
      )
