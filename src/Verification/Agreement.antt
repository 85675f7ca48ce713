-- ===== src/Verification/Agreement.antt =====
-- The cache of crates/nostr-pubsub/src/lib.rs accepts what the full check accepts.
use nostr_pubsub.Prelude.{
  ◌==◌, ◌≤◌, ◌≡◌, ap, subst, Bool, true, false, ◌&&◌, some, List, [], ◌∷◌, ◌⊎◌, inl, inr, length,
  length-append, arith, Bool-cases, List-cases, Option-cases,
}
use nostr_pubsub.Prelude.Map.{
  Text, text_key, Map, eqb, get, contains, insert, remove, get-insert, get-remove,
}
use nostr_pubsub.Prelude.Map.Queue.{Synced, Synced-empty, Synced-push, Synced-set, Synced-pop}
use nostr_pubsub.Verification.{
  SignedEvent, verification_cache_capacity, VerificationCache, empty_cache, make_place, remember,
  is_cached, verify_event, verify_events,
}

-- The full check is that of the id and that of the signature; an id, being a hash, has one author.
pub record IsSigned (E : Type 0) ⦃event : SignedEvent E⦄ : Type 0 where
  pub verify_both :
      (e : E)
      → event.verify e
        ≡ (event.verify_id e && event.verify_signature (event.id e) (event.pubkey e) (event.sig e))
  pub same_author :
      (a b : E)
      → event.verify_id a ≡ true
      → event.verify_id b ≡ true
      → event.id a ≡ event.id b
      → event.pubkey a ≡ event.pubkey b

abbrev pub is_ok : {A B : Type 0} → A ⊎ B → Bool
is_ok (inl a) = false
is_ok (inr b) = true

module _ (E : Type 0) ⦃event : SignedEvent E⦄ where
  -- The queue holds the cached ids, as many as the capacity at most, and each entry is of an event that
  -- was checked.
  record IsCache (c : VerificationCache) : Type 0 where
    pub synced : Synced c.order c.signatures
    pub within : length c.order ≤ verification_cache_capacity
    pub checked :
        (id sig : Text)
        → get id c.signatures ≡ some sig
        → (e : E) × (event.verify e ≡ true) × (event.id e ≡ id) × (event.sig e ≡ sig)

  empty_cache-IsCache : IsCache empty_cache
  unfolding get
  empty_cache-IsCache = record {
    synced = Synced-empty;
    within = omega arith;
    checked = λ id sig e. absurd (ground arith);
  }

  checked_insert :
      (e : E) (m : Map Text Text)
      → event.verify e ≡ true
      → ((id sig : Text)
          → get id m ≡ some sig
          → (d : E) × (event.verify d ≡ true) × (event.id d ≡ id) × (event.sig d ≡ sig))
      → (id sig : Text) → get id (insert (event.id e) (event.sig e) m) ≡ some sig
      → (d : E) × (event.verify d ≡ true) × (event.id d ≡ id) × (event.sig d ≡ sig)
  checked_insert e m v h id sig g = elim (Bool-cases (eqb id (event.id e))) [
    | inl same ↦ (e, v, ground arith, ground (arith, get-insert id (event.id e) (event.sig e) m))
    | inr other ↦ h id sig (ground (arith, get-insert id (event.id e) (event.sig e) m))
  ]

  remember-IsCache :
      (e : E) (c : VerificationCache)
      → event.verify e ≡ true
      → IsCache c
      → IsCache (remember (event.id e) (event.sig e) c)
  unfolding remember make_place
  remember-IsCache e c v i = elim (Bool-cases (contains (event.id e) c.signatures)) [
    | inl old ↦
        rw (old, remember)
          (record {
            synced = Synced-set (event.id e) (event.sig e) old i.synced;
            within = i.within;
            checked = checked_insert e c.signatures v i.checked;
          })
    | inr new ↦ elim (Bool-cases (length c.order == verification_cache_capacity)) [
      | inr room ↦
          rw (new, room, remember, make_place)
            (record {
              synced = Synced-push (event.id e) (event.sig e) new i.synced;
              within = ground (arith, length-append c.order (event.id e ∷ []), i.within);
              checked = checked_insert e c.signatures v i.checked;
            })
      | inl full ↦ elim (List-cases c.order) [
        | inl nil ↦ absurd (ground (arith, rw nil at full))
        | inr (oldest, order, q) ↦
            let popped = Synced-pop oldest (subst (λ o. Synced o c.signatures) q i.synced) in
            let absent : contains (event.id e) (remove oldest c.signatures) ≡ false =
              ground (arith, get-remove (event.id e) oldest c.signatures) in
            rw (new, full, q, remember, make_place)
              (record {
                synced = Synced-push (event.id e) (event.sig e) absent popped;
                within =
                    ground (arith, length-append order (event.id e ∷ []), i.within, ap length q);
                checked = checked_insert e (remove oldest c.signatures) v (λ id sig g.
                    i.checked id sig (ground (arith, get-remove id oldest c.signatures)));
              })
      ]
    ]
  ]

  verify_event-IsCache : (e : E) (c : VerificationCache) → IsCache c → IsCache (verify_event e c).0
  unfolding verify_event
  verify_event-IsCache e c i = elim (Bool-cases (is_cached (event.id e) (event.sig e) c)) [
    | inl b ↦ rw (b, verify_event) i
    | inr b ↦ elim (Bool-cases (event.verify e)) [
      | inl v ↦ rw (b, v, verify_event) (remember-IsCache e c v i)
      | inr v ↦ rw (b, v, verify_event) i
    ]
  ]

  verify_events-IsCache :
      (es : List E) (c : VerificationCache) → IsCache c → IsCache (verify_events es c)
  unfolding verify_events
  verify_events-IsCache [] c i = i
  verify_events-IsCache (e ∷ es) c i =
      verify_events-IsCache es (verify_event e c).0 (verify_event-IsCache e c i)

  -- A hit is as good as the full check.
  verify_cached :
      (e : E) (c : VerificationCache)
      → IsSigned E
      → IsCache c
      → is_cached (event.id e) (event.sig e) c ≡ true
      → event.verify_id e ≡ event.verify e
  verify_cached e c s i b = elim (Option-cases (get (event.id e) c.signatures)) [
    | inl f ↦ absurd (ground arith)
    | inr (sig, f) ↦
        let (d, v, same_id, same_sig) = i.checked (event.id e) sig f in
        let same : sig ≡ event.sig e = ground arith in
        elim (Bool-cases (event.verify_id e)) [
          | inr w ↦ ground (arith, s.verify_both e)
          | inl w ↦
              let author = s.same_author d e (ground (arith, s.verify_both d)) w same_id in
              let checked : event.verify_signature (event.id e) (event.pubkey e) (event.sig e)
                  ≡ true =
                rw (← same_id, ← author, ← same, ← same_sig) (ground (arith, s.verify_both d)) in
              ground (arith, s.verify_both e)
        ]
  ]

  verify_event-agrees :
      (e : E) (c : VerificationCache)
      → IsSigned E
      → IsCache c
      → is_ok (verify_event e c).1 ≡ event.verify e
  unfolding verify_event
  verify_event-agrees e c s i = elim (Bool-cases (is_cached (event.id e) (event.sig e) c)) [
    | inl b ↦ ground (arith, verify_cached e c s i b)
    | inr b ↦ ground arith
  ]

  -- If the full check of an event is that of its id and that of its signature, and events of the
  -- same valid id have the same author, then after any events the cache accepts an event exactly if
  -- the full check does.
  pub verify_events-agrees :
      (es : List E) (e : E)
      → IsSigned E
      → is_ok (verify_event e (verify_events es empty_cache)).1 ≡ event.verify e
  verify_events-agrees es e s =
      verify_event-agrees e (verify_events es empty_cache) s
        (verify_events-IsCache es empty_cache empty_cache-IsCache)
