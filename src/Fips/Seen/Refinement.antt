-- ===== src/Fips/Seen/Refinement.antt =====
-- What the observations of crates/nostr-pubsub-fips/src/seen_ids.rs promise, whatever they keep: a
-- memory of ids that may forget, but never takes one id, peer or subscription for another.
use nostr_pubsub.Prelude.{
  suc, ◌≡◌, refl, Bool, true, false, not, ◌&&◌, ◌++◌, Option, none, some, List, [], ◌∷◌, arith,
  if◌then◌else◌, Bool-cases, Option-cases, inl, inr,
}
use nostr_pubsub.Prelude.Map.{Text, text_key, pair_key, eqb, get, insert, get-insert, get-retain}
use nostr_pubsub.Fips.Seen.{
  Scope, IdObservation, window_at, Observation, ScopedSeenIds, trim_window, add_observation,
  observe_with_match, observe, observe_wire, observe_response, evict_global, clear_scopes,
}
use nostr_pubsub.Fips.Seen.Eviction.{IsSeen}
use nostr_pubsub.Fips.Seen.Scoping.{evict_oldest-HasNoMore, window_at_other}
use nostr_pubsub.Fips.Seen.Windows.{get-trim_window}
use nostr_pubsub.Fips.Seen.Run.{SeenCall, make_call, answer, answers, make_calls, make_call-IsSeen}

-- For each scope and id, whether it was seen, and whether it matched then.
abbrev View : Type 0
View = Scope → Text → Option Bool

abbrev pub view_of : ScopedSeenIds → View
view_of s scope id = elim (get id (window_at scope s.scopes).ids) [
  | none ↦ none
  | some o ↦ some o.matched_subscription
]

abbrev put : Scope → Text → Bool → View → View
put scope id matched v r j = if eqb r scope && eqb j id then some matched else v r j

-- The second view knows no more than the first.
abbrev Forgets : View → View → Type 0
Forgets v w = (r : Scope) (j : Text) (m : Bool) → w r j ≡ some m → v r j ≡ some m

-- One observation: its answer, and what may be known after it.
pub data Observes (v : View) (scope : Scope) (id : Text) (matched : Bool)
    : Observation → View → Type 0 where
  repeated :
      (m : Bool)
      → v scope id ≡ some m
      → Observes v scope id matched (record { first = false; previously_matched = m }) v
  fresh :
      (w : View)
      → v scope id ≡ none
      → Forgets (put scope id matched v) w
      → Observes v scope id matched (record { first = true; previously_matched = false }) w

-- Whether an answer came by another subscription than the one that it is for.
abbrev is_late : Option Text → Text → Bool
is_late none subscription = false
is_late (some wire) subscription = not (eqb wire subscription)

-- Calls, their answers, and what may be known after them.
pub data SpecRun : View → List SeenCall → List (Option Observation) → View → Type 0 where
  stop : (v : View) → SpecRun v [] [] v
  announced :
      (v w u : View) (o : Observation) (npub subscription id : Text) (cs : List SeenCall)
      (as' : List (Option Observation))
      → Observes v (npub, subscription) id false o w
      → SpecRun w cs as' u
      → SpecRun v (SeenCall.inventory npub subscription id ∷ cs) (some o ∷ as') u
  answered :
      (v w u : View) (o : Observation) (npub subscription id : Text) (wire : Option Text)
      (matched : Bool) (cs : List SeenCall) (as' : List (Option Observation))
      → is_late wire subscription ≡ false
      → Observes v (npub, subscription) id matched o w
      → SpecRun w cs as' u
      → SpecRun v (SeenCall.event npub wire subscription id matched ∷ cs) (some o ∷ as') u
  answered_late :
      (v x w u : View) (o p : Observation) (npub late subscription id : Text) (matched : Bool)
      (cs : List SeenCall) (as' : List (Option Observation))
      → is_late (some late) subscription ≡ true
      → Observes v (npub, late) id matched p x
      → Observes x (npub, subscription) id matched o w
      → SpecRun w cs as' u
      → SpecRun v (SeenCall.event npub (some late) subscription id matched ∷ cs) (some o ∷ as') u
  left :
      (v w u : View) (npub : Text) (cs : List SeenCall) (as' : List (Option Observation))
      → ((r : Scope) (j : Text) → w r j ≡ (if eqb r.0 npub then none else v r j))
      → SpecRun w cs as' u
      → SpecRun v (SeenCall.peer_gone npub ∷ cs) (none ∷ as') u
  closed :
      (v w u : View) (subscription : Text) (cs : List SeenCall) (as' : List (Option Observation))
      → ((r : Scope) (j : Text) → w r j ≡ (if eqb r.1 subscription then none else v r j))
      → SpecRun w cs as' u
      → SpecRun v (SeenCall.subscription_gone subscription ∷ cs) (none ∷ as') u

-- What is known before the eviction.
add_observation-known :
    (scope : Scope) (id : Text) (matched : Bool) (s : ScopedSeenIds) (r : Scope) (j : Text)
    (o : IdObservation)
    → get j (window_at r (add_observation scope id matched (window_at scope s.scopes) s).scopes).ids
      ≡ some o
    → put scope id matched (view_of s) r j ≡ some o.matched_subscription
unfolding add_observation
add_observation-known scope id matched s r j o e =
    let w = window_at scope s.scopes in
    let new : IdObservation = record {
      generation = s.next_generation;
      matched_subscription = matched;
    } in
    let queue = w.order ++ (id, s.next_generation) ∷ [] in
    let ids = insert id new w.ids in
    let window = (trim_window s.max_per_scope queue ids (suc s.total_ids)).0 in
    elim (Bool-cases (eqb r scope)) [
      | inr other ↦ ground (arith, window_at_other scope r window s.scopes other)
      | inl same ↦ ground (
        arith,
        get-insert r scope window s.scopes,
        get-trim_window s.max_per_scope (suc s.total_ids) queue ids j o,
        get-insert j id new w.ids,
      )
    ]

evict_global-Forgets :
    (scope : Scope) (id : Text) (matched : Bool) (s : ScopedSeenIds)
    → Forgets
        (put scope id matched (view_of s))
        (view_of (evict_global (add_observation scope id matched (window_at scope s.scopes) s)))
unfolding evict_global
evict_global-Forgets scope id matched s r j m h =
    let before = add_observation scope id matched (window_at scope s.scopes) s in
    elim (Option-cases (get j (window_at r (evict_global before).scopes).ids)) [
      | inl f ↦ absurd (ground arith)
      | inr (o, f) ↦ ground (
        arith,
        add_observation-known scope id matched s r j o (
            evict_oldest-HasNoMore before.max_total before.global_order before.scopes
              before.total_ids r j o f),
      )
    ]

observe_with_match-Observes :
    (scope : Scope) (id : Text) (matched : Bool) (s : ScopedSeenIds)
    → Observes
        (view_of s)
        scope
        id
        matched
        (observe_with_match scope id matched s).1
        (view_of (observe_with_match scope id matched s).0)
unfolding observe_with_match
observe_with_match-Observes scope id matched s =
    elim (Option-cases (get id (window_at scope s.scopes).ids)) [
      | inr (o, e) ↦
          rw (e, observe_with_match) (Observes.repeated o.matched_subscription (ground arith))
      | inl e ↦
          rw (e, observe_with_match)
            (Observes.fresh _ (ground arith) (evict_global-Forgets scope id matched s))
    ]

view_of-clear_scopes :
    (p : Scope → Bool) (s : ScopedSeenIds)
    → IsSeen s
    → (r : Scope) (j : Text)
    → view_of (clear_scopes p s) r j ≡ (if p r then none else view_of s r j)
unfolding clear_scopes get
view_of-clear_scopes p s i r j =
    ground (arith, get-retain r (λ scope _. not (p scope)) s.scopes i.counted.distinct)

-- An answer, by the subscription that it is for or late by another.
event-SpecRun :
    (npub subscription id : Text) (wire : Option Text) (matched : Bool) (cs : List SeenCall)
    (as' : List (Option Observation)) (u : View) (s : ScopedSeenIds)
    → SpecRun (view_of (observe_response npub wire subscription id matched s).0) cs as' u
    → SpecRun
        (view_of s)
        (SeenCall.event npub wire subscription id matched ∷ cs)
        (some (observe_response npub wire subscription id matched s).1 ∷ as')
        u
unfolding observe_wire
event-SpecRun npub subscription id none matched cs as' u s run =
    SpecRun.answered _ _ u _ npub subscription id none matched cs as' refl
      (observe_with_match-Observes (npub, subscription) id matched s) run
event-SpecRun npub subscription id (some wire) matched cs as' u s run =
    elim (Bool-cases (eqb wire subscription)) [
      | inl same ↦ rw same (
          SpecRun.answered _ _ u _ npub subscription id (some wire) matched cs as' (ground arith)
            (observe_with_match-Observes (npub, subscription) id matched s) (rw same at run))
      | inr other ↦
          let middle = (observe_with_match (npub, wire) id matched s).0 in
          rw other (
            SpecRun.answered_late _ (view_of middle) _ u _ _ npub wire subscription id matched cs
              as' (ground arith) (observe_with_match-Observes (npub, wire) id matched s)
              (observe_with_match-Observes (npub, subscription) id matched middle)
              (rw other at run))
    ]

-- Whatever calls are made on observations within their limits, their answers and what they leave
-- are a run of the abstract memory of seen ids: an id is new for a peer and subscription exactly if
-- the memory lacks it, and else it is answered with what it matched then; an observation adds only
-- itself, and may make the memory forget; the departure of a peer or a subscription takes exactly
-- its own ids away.
pub make_calls-SpecRun :
    (cs : List SeenCall) (s : ScopedSeenIds)
    → IsSeen s
    → SpecRun (view_of s) cs (answers cs s) (view_of (make_calls cs s))
unfolding make_calls make_call observe answers answer
make_calls-SpecRun [] s i = SpecRun.stop _
make_calls-SpecRun (SeenCall.inventory npub subscription id ∷ cs) s i =
    let c = SeenCall.inventory npub subscription id in
    SpecRun.announced _ _ _ _ npub subscription id cs _
      (observe_with_match-Observes (npub, subscription) id false s)
      (make_calls-SpecRun cs (make_call c s) (make_call-IsSeen c s i))
make_calls-SpecRun (SeenCall.event npub wire subscription id matched ∷ cs) s i =
    let c = SeenCall.event npub wire subscription id matched in
    event-SpecRun npub subscription id wire matched cs _ _ s
      (make_calls-SpecRun cs (make_call c s) (make_call-IsSeen c s i))
make_calls-SpecRun (SeenCall.peer_gone npub ∷ cs) s i =
    let c = SeenCall.peer_gone npub in
    SpecRun.left _ _ _ npub cs _ (view_of-clear_scopes (λ r. eqb r.0 npub) s i)
      (make_calls-SpecRun cs (make_call c s) (make_call-IsSeen c s i))
make_calls-SpecRun (SeenCall.subscription_gone subscription ∷ cs) s i =
    let c = SeenCall.subscription_gone subscription in
    SpecRun.closed _ _ _ subscription cs _ (view_of-clear_scopes (λ r. eqb r.1 subscription) s i)
      (make_calls-SpecRun cs (make_call c s) (make_call-IsSeen c s i))
