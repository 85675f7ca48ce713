-- ===== src/Mesh/Invariant/Windows.antt =====
-- The windows of seen inventories and delivered events keep their bounds.
use nostr_pubsub.Prelude.{
  ℕ, ◌≤◌, ◌<◌, ◌≡◌, true, false, some, List, [], ◌∷◌, arith, length, ltb, leb, Bool-cases, inl, inr,
  sat_add_64, u64_max,
}
use nostr_pubsub.Prelude.Map.{
  Text, Map, text_key, get, contains, remove, get-insert, get-remove, length-retain-le,
}
use nostr_pubsub.Prelude.Map.Size.{length-insert}
use nostr_pubsub.Prelude.Map.Queue.{
  Synced, Synced-push, Synced-set, Synced-pop, Synced-nil, Synced-retain, evict_push,
}
use nostr_pubsub.Mesh.Types.{NostrEvent, MeshOptions}
use nostr_pubsub.Mesh.State.{
  Routes, Window, Mesh, forget_event, evict_seen, is_remembered, admit_seen, stamp_seen,
  remember_inventory, remember_delivered,
}
use nostr_pubsub.Mesh.Prune.{prune_window}
use nostr_pubsub.Mesh.Invariant.{AreTracked, IsWindow, IsWellFormed}
use nostr_pubsub.Mesh.Invariant.Tracking.{forget_event-AreTracked, stamp-AreTracked}

pub prune_window-IsWindow :
    (limit now : ℕ) (w : Window) → IsWindow limit w → IsWindow limit (prune_window now w)
unfolding prune_window
prune_window-IsWindow limit now w v = record {
  synced = Synced-retain _ v.synced;
  count_le = omega (arith, length-retain-le (λ _ t. ltb now t) w.expiries, v.count_le);
}

evict_seen_lem :
    (o : MeshOptions) (q : List Text) (m : Map Text ℕ) (r : Routes)
    → 0 < o.max_seen_events
    → Synced q m
    → AreTracked o m r
    → let (w, r') = evict_seen o.max_seen_events q m r in
      Synced w.order w.expiries
      × (length w.expiries < o.max_seen_events)
      × AreTracked o w.expiries r'
unfolding evict_seen
evict_seen_lem o [] m r h s t = ground (arith, Synced-nil m s)
evict_seen_lem o (k ∷ q) m r h s t = elim (Bool-cases (leb o.max_seen_events (length m))) [
  | inl full ↦
      rw (full, evict_seen)
        (evict_seen_lem o q (remove k m) (forget_event k r) h (Synced-pop k s)
          (forget_event-AreTracked o m r t k))
  | inr room ↦ rw (room, evict_seen) (s, ground arith, t)
]

evict_seen_absent :
    (limit : ℕ) (q : List Text) (m : Map Text ℕ) (r : Routes) (j : Text)
    → contains j m ≡ false
    → contains j (evict_seen limit q m r).0.expiries ≡ false
unfolding evict_seen
evict_seen_absent limit [] m r j h = h
evict_seen_absent limit (k ∷ q) m r j h = elim (Bool-cases (leb limit (length m))) [
  | inl full ↦
      rw (full, evict_seen)
        (evict_seen_absent limit q (remove k m) (forget_event k r) j
          (ground (arith, get-remove j k m)))
  | inr room ↦ rw (room, evict_seen) h
]

module _ {E : Type 0} ⦃nostr : NostrEvent E⦄ (m : Mesh E) (v : IsWellFormed m) (id : Text)
    (expires : ℕ) where
  -- A known inventory gets a new time, no earlier than its old one.
  restamp-IsWellFormed :
      contains id m.seen.expiries ≡ true
      → ((s : ℕ) → get id m.seen.expiries ≡ some s → s ≤ expires)
      → IsWellFormed (stamp_seen id expires m)
  unfolding stamp_seen
  restamp-IsWellFormed here later = record {
    usable = v.usable;
    cache = v.cache;
    content = v.content;
    seen = record {
      synced = Synced-set id expires here v.seen.synced;
      count_le = ground (arith, length-insert id expires m.seen.expiries, v.seen.count_le);
    };
    delivered = v.delivered;
    routes = stamp-AreTracked m.options m.seen.expiries m.routes v.routes id expires later;
    behaviors = v.behaviors;
  }

  -- A new one evicts the oldest, with all that hangs on them.
  admit-IsWellFormed :
      contains id m.seen.expiries ≡ false → IsWellFormed (stamp_seen id expires (admit_seen id m))
  unfolding stamp_seen admit_seen
  admit-IsWellFormed new =
      let limit = m.options.max_seen_events in
      let evicted = evict_seen limit m.seen.order m.seen.expiries m.routes in
      let (synced, room, tracked) =
        evict_seen_lem m.options m.seen.order m.seen.expiries m.routes v.usable.seen_pos
          v.seen.synced v.routes in
      let absent = evict_seen_absent limit m.seen.order m.seen.expiries m.routes id new in
      rw (new, admit_seen)
        (record {
          usable = v.usable;
          cache = v.cache;
          content = v.content;
          seen = record {
            synced = Synced-push id expires absent synced;
            count_le = ground (arith, length-insert id expires evicted.0.expiries);
          };
          delivered = v.delivered;
          routes =
              stamp-AreTracked m.options evicted.0.expiries evicted.1 tracked id expires
                (λ s e. ground arith);
          behaviors = v.behaviors;
        })

module _ {E : Type 0} ⦃nostr : NostrEvent E⦄ (m : Mesh E) (v : IsWellFormed m) where
  old_time :
      (id : Text) (now s : ℕ)
      → is_remembered id now m ≡ false
      → get id m.seen.expiries ≡ some s
      → s ≤ now
  unfolding is_remembered
  old_time id now s h e = ground arith

  -- A new or renewed inventory keeps the window within its limit, and the routes tracked.
  pub remember_inventory-IsWellFormed :
      (id : Text) (now : ℕ) → now ≤ u64_max → IsWellFormed (remember_inventory id now m).0
  unfolding remember_inventory admit_seen stamp_seen
  remember_inventory-IsWellFormed id now h = elim (Bool-cases (is_remembered id now m)) [
    | inl old ↦ rw (old, remember_inventory) v
    | inr fresh ↦
        let expires = sat_add_64 now m.options.route_ttl_ms in
        elim (Bool-cases (contains id m.seen.expiries)) [
          | inl here ↦
              rw (fresh, remember_inventory, here, admit_seen)
                (restamp-IsWellFormed m v id expires here
                  (λ s e. omega (arith, old_time id now s fresh e)))
          | inr new ↦ rw (fresh, remember_inventory) (admit-IsWellFormed m v id expires new)
        ]
  ]

  pub remember_delivered-IsWellFormed :
      (id : Text) (now : ℕ) → IsWellFormed (remember_delivered id now m).0
  unfolding remember_delivered
  remember_delivered-IsWellFormed id now = elim (Bool-cases (contains id m.delivered.expiries)) [
    | inl old ↦ rw (old, remember_delivered) v
    | inr new ↦
        let (synced, le) =
          evict_push m.options.max_seen_events m.delivered.order m.delivered.expiries id
            (sat_add_64 now m.options.event_ttl_ms) v.usable.seen_pos new v.delivered.synced in
        rw (new, remember_delivered)
          (record {
            usable = v.usable;
            cache = v.cache;
            content = v.content;
            seen = v.seen;
            delivered = record { synced = synced; count_le = le };
            routes = v.routes;
            behaviors = v.behaviors;
          })
  ]

module _ {E : Type 0} (id : Text) (now : ℕ) (m : Mesh E) where
  pub options-remember_inventory : (remember_inventory id now m).0.options ≡ m.options
  unfolding remember_inventory stamp_seen admit_seen
  options-remember_inventory = ground arith

  -- An inventory that is new gets its time.
  pub time-remember_inventory :
      (remember_inventory id now m).1 ≡ true
      → get id (remember_inventory id now m).0.seen.expiries
        ≡ some (sat_add_64 now m.options.route_ttl_ms)
  unfolding remember_inventory stamp_seen
  time-remember_inventory h = ground (
    arith,
    get-insert id id (sat_add_64 now m.options.route_ttl_ms) (admit_seen id m).seen.expiries,
  )
