-- ===== src/Fips/Recent/Bounds.antt =====
-- The windows of crates/nostr-pubsub-fips/src/recent_events.rs stay within their limits, and an
-- event comes through once.
use nostr_pubsub.Prelude.{
  ℕ, suc, ◌≤◌, ◌<◌, ◌≡◌, ap, true, false, ◌&&◌, List, [], ◌∷◌, ◌++◌, length, leb, Bool-cases, inl,
  inr, arith,
}
use nostr_pubsub.Prelude.Map.{Text, text_key, Map, contains, insert, remove, get-insert, get-remove}
use nostr_pubsub.Prelude.Map.Size.{length-remove}
use nostr_pubsub.Prelude.Map.Queue.{
  evict, evict_room, Synced, Synced-push, Synced-drop, Synced-pop, Synced-nil, Synced-empty,
  elem-append,
}
use nostr_pubsub.Fips.Recent.{
  EventIds, RecentEvents, new_recent, trim, insert_recent, recent_event, is_none, forgotten,
  insert_for_publish,
}

length-trim-le : {A : Type 0} (n : ℕ) (xs : List A) → length (trim n xs) ≤ n
unfolding trim
length-trim-le n [] = omega arith
length-trim-le n (x ∷ xs) = ground (arith, length-trim-le n xs)

-- The newest identifier survives the eviction.
evict_newest :
    (limit : ℕ) (q : List Text) (m : Map Text (Unit {0})) (new : Text)
    → 1 < limit
    → Synced (q ++ new ∷ []) m
    → contains new m ≡ true
    → contains new (evict limit (q ++ new ∷ []) m).1 ≡ true
unfolding evict
evict_newest limit [] m new h s e =
    let nothing = ap length (Synced-nil (remove new m) (Synced-pop new s)) in
    let room : leb limit (length m) ≡ false =
      ground (arith, nothing, length-remove new m s.distinct) in
    rw (room, evict) e
evict_newest limit (k ∷ q) m new h s e = elim (Bool-cases (leb limit (length m))) [
  | inr room ↦ rw (room, evict) e
  | inl full ↦
      rw (full, evict)
        (evict_newest limit q (remove k m) new h (Synced-pop k s)
          (ground (arith, get-remove new k m, elem-append k new q, s.once.0)))
]

module _ {E S : Type 0} where
  pub record IsRecent (r : RecentEvents E S) : Type 0 where
    pub synced : Synced r.event_id_order r.event_ids
    pub ids_le : length r.event_ids ≤ r.max_seen_ids
    pub entries_le : length r.entries ≤ r.max_payload_events

  new_recent-IsRecent : (payloads ids : ℕ) → IsRecent (new_recent payloads ids)
  new_recent-IsRecent payloads ids = record {
    synced = Synced-empty;
    ids_le = omega arith;
    entries_le = omega arith;
  }

-- What the application and the network bring.
pub data RecentCall (E S : Type 0) : Type 0 where
  arrive publish : E → S → ℕ → RecentCall E S

module _ {E S : Type 0} ⦃nostr : EventIds E⦄ where
  unfoldable pub call_recent : RecentCall E S → RecentEvents E S → RecentEvents E S
  call_recent (arrive e s hops) r = (insert_recent e s hops r).0
  call_recent (publish e s hops) r = (insert_for_publish e s hops r).0

  unfoldable pub run_recent : List (RecentCall E S) → RecentEvents E S → RecentEvents E S
  run_recent [] r = r
  run_recent (c ∷ cs) r = run_recent cs (call_recent c r)

  insert_recent-IsRecent :
      (e : E) (s : S) (hops : ℕ) (r : RecentEvents E S)
      → IsRecent r
      → IsRecent (insert_recent e s hops r).0
  unfolding insert_recent
  insert_recent-IsRecent e s hops r i =
      let id = nostr.id_hex e in
      elim (Bool-cases (contains id r.event_ids)) [
        | inl b ↦ rw (b, insert_recent) i
        | inr b ↦
            let (synced, room) =
              evict_room (suc r.max_seen_ids) (r.event_id_order ++ id ∷ [])
                (insert id tt r.event_ids) (omega arith) (Synced-push id tt b i.synced) in
            rw (b, insert_recent)
              (record {
                synced = synced;
                ids_le = omega (arith, room);
                entries_le = length-trim-le r.max_payload_events _;
              })
      ]

  forgotten-IsRecent : (id : Text) (r : RecentEvents E S) → IsRecent r → IsRecent (forgotten id r)
  forgotten-IsRecent id r i =
      elim (Bool-cases (is_none (recent_event id r) && contains id r.event_ids)) [
        | inr b ↦ rw b i
        | inl b ↦ rw b (record {
          synced = Synced-drop id i.synced;
          ids_le = ground (arith, i.ids_le, length-remove id r.event_ids i.synced.distinct);
          entries_le = i.entries_le;
        })
      ]

  call_recent-IsRecent :
      (c : RecentCall E S) (r : RecentEvents E S) → IsRecent r → IsRecent (call_recent c r)
  unfolding call_recent insert_for_publish
  call_recent-IsRecent (arrive e s hops) r i = insert_recent-IsRecent e s hops r i
  call_recent-IsRecent (publish e s hops) r i =
      insert_recent-IsRecent e s hops (forgotten (nostr.id_hex e) r)
        (forgotten-IsRecent (nostr.id_hex e) r i)

  run_recent-IsRecent :
      (cs : List (RecentCall E S)) (r : RecentEvents E S) → IsRecent r → IsRecent (run_recent cs r)
  unfolding run_recent
  run_recent-IsRecent [] r i = i
  run_recent-IsRecent (c ∷ cs) r i =
      run_recent-IsRecent cs (call_recent c r) (call_recent-IsRecent c r i)

  -- After any list of arrivals and publications on empty windows, both windows are within their
  -- limits, and the order of the identifiers holds exactly the identifiers seen, each once.
  pub run_recent-new-IsRecent :
      (payloads ids : ℕ) (cs : List (RecentCall E S))
      → IsRecent (run_recent cs (new_recent payloads ids))
  run_recent-new-IsRecent payloads ids cs =
      run_recent-IsRecent cs (new_recent payloads ids) (new_recent-IsRecent payloads ids)

  insert_recent_seen :
      (e : E) (s : S) (hops : ℕ) (r : RecentEvents E S)
      → contains (nostr.id_hex e) r.event_ids ≡ true
      → insert_recent e s hops r ≡ (r, false)
  unfolding insert_recent
  insert_recent_seen e s hops r h = rw (h, insert_recent)

  contains-insert_recent :
      (e : E) (s : S) (hops : ℕ) (r : RecentEvents E S)
      → 0 < r.max_seen_ids
      → IsRecent r
      → contains (nostr.id_hex e) (insert_recent e s hops r).0.event_ids ≡ true
  unfolding insert_recent
  contains-insert_recent e s hops r h i =
      let id = nostr.id_hex e in
      elim (Bool-cases (contains id r.event_ids)) [
        | inl b ↦ rw (b, insert_recent) b
        | inr b ↦
            rw (b, insert_recent)
              (evict_newest (suc r.max_seen_ids) r.event_id_order (insert id tt r.event_ids) id
                (omega arith) (Synced-push id tt b i.synced)
                (ground (arith, get-insert id id tt r.event_ids)))
      ]

  -- Where at least one identifier may be kept and the windows are within their limits, an event
  -- that arrives again just after it arrived is refused and changes nothing.
  insert_recent_twice :
      (e : E) (s s' : S) (hops hops' : ℕ) (r : RecentEvents E S)
      → 0 < r.max_seen_ids
      → IsRecent r
      → let once = (insert_recent e s hops r).0 in insert_recent e s' hops' once ≡ (once, false)
  insert_recent_twice e s s' hops hops' r h i =
      insert_recent_seen e s' hops' (insert_recent e s hops r).0
        (contains-insert_recent e s hops r h i)
