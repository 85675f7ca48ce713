-- ===== src/Mesh/Cache/Invariant.antt =====
-- The bounds of the event cache.
use nostr_pubsub.Prelude.{
  ℕ, ◌+◌, ◌-◌, ◌≤◌, ◌≡◌, false, none, some, List, [], ◌∷◌, length, ltb, sat_add_64, arith, u64_max,
  Bool-cases, Option-cases, inl, inr, ◌⊎◌,
}
use nostr_pubsub.Prelude.Map.{
  Text, Map, text_key, get, remove, retain, get-insert, get-remove, length-retain-le,
}
use nostr_pubsub.Prelude.Map.Size.{
  total, length-insert, total-insert, total-remove, total-retain-le, weight-le-total,
}
use nostr_pubsub.Prelude.Map.Queue.{
  Synced, Synced-push, Synced-set, Synced-pop, Synced-retain, Synced-nil,
}
use nostr_pubsub.Mesh.Types.{MeshOptions, AreUsable}
use nostr_pubsub.Mesh.Cache.{
  CachedEvent, Cache, is_full, make_room, append_event, store, sum_payloads, prune_cache,
}

module _ {E : Type 0} where
  abbrev pub payload : CachedEvent E → ℕ
  payload c = c.payload_bytes

  -- What every cache operation keeps, the caps apart.
  pub record IsAccounted (k : Cache E) : Type 0 where
    pub synced : Synced k.cache_order k.cached_events
    pub bytes : k.cached_event_bytes ≡ total payload k.cached_events

  -- The two caps.
  pub record IsBounded (o : MeshOptions) (k : Cache E) : Type 0 where
    pub accounted : IsAccounted k
    pub count_le : length k.cached_events ≤ o.max_cached_events
    pub bytes_le : k.cached_event_bytes ≤ o.max_cached_event_bytes

  make_room_lem :
      (o : MeshOptions) (p : ℕ) (q : List Text) (m : Map Text (CachedEvent E)) (b : ℕ)
      → AreUsable o
      → p ≤ o.max_event_bytes
      → Synced q m
      → b ≡ total payload m
      → IsAccounted (make_room o p q m b)
        × (is_full o p (make_room o p q m b).cached_events (make_room o p q m b).cached_event_bytes
            ≡ false)
  unfolding make_room
  make_room_lem o p [] m b u h s e = ground (arith, Synced-nil m s)
  make_room_lem o p (k ∷ q) m b u h s e = elim (Bool-cases (is_full o p m b)) [
    | inl full ↦ elim (Option-cases (get k m)) [
      | inl gone ↦ absurd (ground (arith, s.same k))
      | inr (c, here) ↦
          rw (full, here, make_room)
            (make_room_lem o p q (remove k m) (b - c.payload_bytes) u h (Synced-pop k s)
              (ground (arith, total-remove payload k m s.distinct)))
    ]
    | inr room ↦ rw (room, make_room) (record { synced = s; bytes = e }, room)
  ]

  -- Nothing is added while room is made.
  get-make_room :
      (o : MeshOptions) (p : ℕ) (q : List Text) (m : Map Text (CachedEvent E)) (b : ℕ) (j : Text)
      → {d : CachedEvent E} → get j (make_room o p q m b).cached_events ≡ some d
      → get j m ≡ some d
  unfolding make_room
  get-make_room o p [] m b j h = h
  get-make_room o p (k ∷ q) m b j h = elim (Bool-cases (is_full o p m b)) [
    | inr room ↦ rw (room, make_room) at h
    | inl full ↦ elim (Option-cases (get k m)) [
      | inl gone ↦ get-make_room o p q m b j (rw (full, gone, make_room) at h)
      | inr (c, here) ↦
          let rest =
            get-make_room o p q (remove k m) (b - c.payload_bytes) j
              (rw (full, here, make_room) at h) in
          ground (arith, get-remove j k m, rest)
    ]
  ]

  make_room_absent :
      (o : MeshOptions) (p : ℕ) (q : List Text) (m : Map Text (CachedEvent E)) (b : ℕ) (j : Text)
      → get j m ≡ none
      → get j (make_room o p q m b).cached_events ≡ none
  make_room_absent o p q m b j h = elim (Option-cases (get j (make_room o p q m b).cached_events)) [
    | inl e ↦ e
    | inr (d, e) ↦ absurd (ground (arith, get-make_room o p q m b j e))
  ]

  -- What is cached after a store: the stored event, and some of what was cached before.
  pub get-store :
      (o : MeshOptions) (id : Text) (c : CachedEvent E) (k : Cache E) (j : Text) (d : CachedEvent E)
      → get j (store o id c k).cached_events ≡ some d
      → ((j ≡ id) × (d ≡ c)) ⊎ (get j k.cached_events ≡ some d)
  unfolding store append_event
  get-store o id c k j d h = elim (Option-cases (get id k.cached_events)) [
    | inl new ↦
        let room = make_room o c.payload_bytes k.cache_order k.cached_events k.cached_event_bytes in
        ground (
          arith,
          get-insert j id c room.cached_events,
          get-make_room o c.payload_bytes k.cache_order k.cached_events k.cached_event_bytes j
              {d = d},
        )
    | inr (old, here) ↦ ground (arith, get-insert j id c k.cached_events)
  ]

  pub get-store_self :
      (o : MeshOptions) (id : Text) (c : CachedEvent E) (k : Cache E)
      → get id (store o id c k).cached_events ≡ some c
  unfolding store append_event
  get-store_self o id c k = elim (Option-cases (get id k.cached_events)) [
    | inl new ↦
        let room = make_room o c.payload_bytes k.cache_order k.cached_events k.cached_event_bytes in
        ground (arith, get-insert id id c room.cached_events)
    | inr (old, here) ↦ ground (arith, get-insert id id c k.cached_events)
  ]

  append_event-IsBounded :
      (o : MeshOptions) (id : Text) (c : CachedEvent E) (k : Cache E)
      → AreUsable o
      → IsAccounted k
      → is_full o c.payload_bytes k.cached_events k.cached_event_bytes ≡ false
      → get id k.cached_events ≡ none
      → IsBounded o (append_event id c k)
  unfolding append_event
  append_event-IsBounded o id c k u a room new = record {
    accounted = record {
      synced = Synced-push id c (ground arith) a.synced;
      bytes = ground (arith, total-insert payload id c k.cached_events, a.bytes, u.cache_fits);
    };
    count_le = ground (arith, length-insert id c k.cached_events);
    bytes_le = ground arith;
  }

  -- Under usable options, storing an event within the size limit, of the same length as a cached
  -- event of its id, keeps a bounded cache bounded: both caps hold, the byte count is the sum of
  -- the lengths, and the queue holds the cached ids, each once.
  pub store-IsBounded :
      (o : MeshOptions) (id : Text) (c : CachedEvent E) (k : Cache E)
      → AreUsable o
      → c.payload_bytes ≤ o.max_event_bytes
      → ((old : CachedEvent E)
          → get id k.cached_events ≡ some old
          → old.payload_bytes ≡ c.payload_bytes)
      → IsBounded o k
      → IsBounded o (store o id c k)
  unfolding store
  store-IsBounded o id c k u h same b = elim (Option-cases (get id k.cached_events)) [
    | inl new ↦
        rw (new, store)
          (let (a, room) =
              make_room_lem o c.payload_bytes k.cache_order k.cached_events k.cached_event_bytes u h
                b.accounted.synced b.accounted.bytes in
            append_event-IsBounded o id c _ u a room (
              make_room_absent o c.payload_bytes k.cache_order k.cached_events k.cached_event_bytes
                id new))
    | inr (old, here) ↦
        rw (here, store)
          (record {
            accounted = record {
              synced = Synced-set id c (ground arith) b.accounted.synced;
              bytes = ground (
                arith,
                total-insert payload id c k.cached_events,
                weight-le-total payload id k.cached_events,
                same old here,
                u.cache_fits,
                b.accounted.bytes,
                b.bytes_le,
              );
            };
            count_le = ground (arith, length-insert id c k.cached_events);
            bytes_le = ground (
              arith,
              same old here,
              weight-le-total payload id k.cached_events,
              b.accounted.bytes,
              b.bytes_le,
            );
          })
  ]

  sum_payloads_lem :
      (acc : ℕ) (m : Map Text (CachedEvent E))
      → acc + total payload m ≤ u64_max
      → sum_payloads acc m ≡ acc + total payload m
  unfolding sum_payloads
  sum_payloads_lem acc [] h = omega arith
  sum_payloads_lem acc ((_, c) ∷ m) h =
      omega (arith, sum_payloads_lem (sat_add_64 acc c.payload_bytes) m (omega arith))

  prune_cache_bytes :
      (now : ℕ) (k : Cache E)
      → k.cached_event_bytes ≡ total payload k.cached_events
      → k.cached_event_bytes ≤ u64_max
      → ((prune_cache now k).cached_event_bytes ≡ total payload (prune_cache now k).cached_events)
        × ((prune_cache now k).cached_event_bytes ≤ k.cached_event_bytes)
  unfolding prune_cache
  prune_cache_bytes now k e h =
      let live = retain (λ _ (c : CachedEvent E). ltb now c.expires_at_ms) k.cached_events in
      let le =
        total-retain-le payload (λ _ (c : CachedEvent E). ltb now c.expires_at_ms)
          k.cached_events in
      let sum = sum_payloads_lem 0 live (omega (arith, le)) in
      (omega (arith, sum), omega (arith, sum, le))

  pub prune_cache-IsBounded :
      (o : MeshOptions) (now : ℕ) (k : Cache E)
      → AreUsable o
      → IsBounded o k
      → IsBounded o (prune_cache now k)
  unfolding prune_cache
  prune_cache-IsBounded o now k u b =
      let (e, le) = prune_cache_bytes now k b.accounted.bytes (omega arith) in
      record {
        accounted = record { synced = Synced-retain _ b.accounted.synced; bytes = e };
        count_le = omega (
          arith,
          length-retain-le (λ _ (c : CachedEvent E). ltb now c.expires_at_ms) k.cached_events,
        );
        bytes_le = omega (arith, le);
      }
