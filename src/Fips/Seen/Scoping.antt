-- ===== src/Fips/Seen/Scoping.antt =====
-- An observation of crates/nostr-pubsub-fips/src/seen_ids.rs is about its own scope: what was sent
-- by one peer, or under one subscription, hides nothing that comes by another.
use nostr_pubsub.Prelude.{
  ℕ, ◌-◌, ◌≡◌, Bool, true, false, not, ◌&&◌, none, some, List, [], ◌∷◌, arith, ltb, if◌then◌else◌,
  Bool-cases, Option-cases, List-cases, inl, inr,
}
use nostr_pubsub.Prelude.Map.{
  Text, Map, text_key, pair_key, eqb, get, insert, remove, get-insert, get-remove, get-retain_never,
}
use nostr_pubsub.Fips.Seen.{
  Scope, IdObservation, IdWindow, window_at, is_live, drop_stale, forget, evict_oldest,
  evict_global, ScopedSeenIds, add_observation, observe_with_match, clear_scopes, clear_peer,
  clear_subscription,
}

-- What a window has after an operation, it had before it.
abbrev HasNoMore : Map Scope IdWindow → Map Scope IdWindow → Type 0
HasNoMore m n =
    (scope : Scope) (id : Text) (o : IdObservation)
    → get id (window_at scope n).ids ≡ some o
    → get id (window_at scope m).ids ≡ some o

-- Exactly one observation goes.
get-forget :
    (scope : Scope) (id : Text) (w : IdWindow) (m : Map Scope IdWindow)
    → get scope m ≡ some w
    → (r : Scope) (j : Text)
    → get j (window_at r (forget scope id w m)).ids
      ≡ (if eqb r scope && eqb j id then none else get j (window_at r m).ids)
unfolding forget get
get-forget scope id w m here r j = elim (List-cases (remove id w.ids)) [
  | inl e ↦ rw (e, forget) (ground (arith, get-remove r scope m, get-remove j id w.ids))
  | inr (x, xs, e) ↦
      let left : IdWindow = record { ids = x ∷ xs; order = drop_stale (x ∷ xs) w.order } in
      rw (e, forget) (ground (arith, get-insert r scope left m, get-remove j id w.ids))
]

forget-HasNoMore :
    (scope : Scope) (id : Text) (w : IdWindow) (m : Map Scope IdWindow)
    → get scope m ≡ some w
    → HasNoMore m (forget scope id w m)
forget-HasNoMore scope id w m here r j o e = ground (arith, get-forget scope id w m here r j)

pub evict_oldest-HasNoMore :
    (limit : ℕ) (q : List (Scope × (Text × ℕ))) (m : Map Scope IdWindow) (n : ℕ)
    → HasNoMore m (evict_oldest limit q m n).scopes
unfolding evict_oldest
evict_oldest-HasNoMore limit [] m n r j o e = e
evict_oldest-HasNoMore limit ((scope, (id, g)) ∷ q) m n r j o e = elim (Bool-cases (ltb limit n)) [
  | inr b ↦ rw (b, evict_oldest) at e
  | inl b ↦ elim (Option-cases (get scope m)) [
    | inl f ↦ evict_oldest-HasNoMore limit q m n r j o (rw (b, f, evict_oldest) at e)
    | inr (w, f) ↦ elim (Bool-cases (is_live id g w.ids)) [
      | inr stale ↦ evict_oldest-HasNoMore limit q m n r j o (rw (b, f, stale, evict_oldest) at e)
      | inl live ↦ forget-HasNoMore scope id w m f r j o (
          evict_oldest-HasNoMore limit q (forget scope id w m) (n - 1) r j o
            (rw (b, f, live, evict_oldest) at e))
    ]
  ]
]

pub window_at_other :
    (scope r : Scope) (w : IdWindow) (m : Map Scope IdWindow)
    → eqb r scope ≡ false
    → window_at r (insert scope w m) ≡ window_at r m
window_at_other scope r w m other = ground (arith, get-insert r scope w m)

-- An observation adds to its own window only.
add_observation_other :
    (scope : Scope) (id : Text) (matched : Bool) (w : IdWindow) (s : ScopedSeenIds) (r : Scope)
    → eqb r scope ≡ false
    → window_at r (add_observation scope id matched w s).scopes ≡ window_at r s.scopes
unfolding add_observation
add_observation_other scope id matched w s r other = window_at_other scope r _ s.scopes other

observe_with_match_other :
    (scope : Scope) (id : Text) (matched : Bool) (s : ScopedSeenIds) (r : Scope) (j : Text)
    (o : IdObservation)
    → eqb r scope ≡ false
    → get j (window_at r (observe_with_match scope id matched s).0.scopes).ids ≡ some o
    → get j (window_at r s.scopes).ids ≡ some o
unfolding observe_with_match evict_global
observe_with_match_other scope id matched s r j o other e =
    elim (Option-cases (get id (window_at scope s.scopes).ids)) [
      | inr (p, f) ↦ rw (f, observe_with_match) at e
      | inl f ↦
          let w = window_at scope s.scopes in
          let before = add_observation scope id matched w s in
          rw (add_observation_other scope id matched w s r other) at (
            evict_oldest-HasNoMore before.max_total before.global_order before.scopes
              before.total_ids r j o (rw (f, observe_with_match) at e))
    ]

observe_with_match-first_other :
    (scope r : Scope) (id j : Text) (matched m : Bool) (s : ScopedSeenIds)
    → eqb r scope ≡ false
    → (observe_with_match r j m s).1.first ≡ true
    → (observe_with_match r j m (observe_with_match scope id matched s).0).1.first ≡ true
unfolding observe_with_match
observe_with_match-first_other scope r id j matched m s other fresh =
    let after = (observe_with_match scope id matched s).0 in
    elim (Option-cases (get j (window_at r after.scopes).ids)) [
      | inl e ↦ ground arith
      | inr (o, e) ↦ ground (arith, observe_with_match_other scope id matched s r j o other e)
    ]

clear_scopes-first :
    (p : Scope → Bool) (s : ScopedSeenIds) (r : Scope) (j : Text) (m : Bool)
    → p r ≡ true
    → (observe_with_match r j m (clear_scopes p s)).1.first ≡ true
unfolding clear_scopes observe_with_match get
clear_scopes-first p s r j m h =
    ground (arith, get-retain_never r (λ scope _. not (p scope)) s.scopes (λ _. ground arith))

clear_peer-first :
    (npub subscription id : Text) (matched : Bool) (s : ScopedSeenIds)
    → (observe_with_match (npub, subscription) id matched (clear_peer npub s)).1.first ≡ true
clear_peer-first npub subscription id matched s = clear_scopes-first _ s _ id matched (ground arith)

clear_subscription-first :
    (npub subscription id : Text) (matched : Bool) (s : ScopedSeenIds)
    → (observe_with_match
        (npub, subscription)
        id
        matched
        (clear_subscription subscription s)).1.first
      ≡ true
clear_subscription-first npub subscription id matched s =
    clear_scopes-first _ s _ id matched (ground arith)
