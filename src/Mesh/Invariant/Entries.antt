-- ===== src/Mesh/Invariant/Entries.antt =====
-- Pruning and storing keep the mesh well formed; a new mesh is well formed.
use nostr_pubsub.Prelude.{
  ℕ, ◌*◌, ◌≤◌, ◌<◌, ◌≡◌, refl, true, some, List, [], ◌∷◌, arith, u64_max, max, Option-cases,
  Bool-cases, inl, inr, ltb, sat_add_64,
}
use nostr_pubsub.Prelude.Map.{Text, text_key, get, get-retain-some}
use nostr_pubsub.Prelude.Map.Queue.{Synced-empty}
use nostr_pubsub.Mesh.Types.{NostrEvent, MeshOptions, adjust_options, AreUsable, ok}
use nostr_pubsub.Mesh.Cache.{CachedEvent, Cache, prune_cache}
use nostr_pubsub.Mesh.Cache.Invariant.{
  IsAccounted, store-IsBounded, prune_cache-IsBounded, get-store,
}
use nostr_pubsub.Mesh.Behavior.{Evidence, Behaviors, unserved_inventory_penalty}
use nostr_pubsub.Mesh.Behavior.Bounds.{AreTallied, record_peer_behavior-AreTallied}
use nostr_pubsub.Mesh.State.{
  Mesh, new, store_event, validate_verified_event, validate_event, validate_kind,
  validate_event_len, to_u32,
}
use nostr_pubsub.Mesh.Prune.{expired_peers, record_unserved, prune_window, prune_due, prune}
use nostr_pubsub.Mesh.Invariant.{IsWellFormed, HoldsEvents, IdFixesLength}
use nostr_pubsub.Mesh.Invariant.Pruned.{prune_routes-AreTracked}
use nostr_pubsub.Mesh.Invariant.Windows.{prune_window-IsWindow}

-- The limits that a caller gives fit their machine words.
pub record AreRepresentable (o : MeshOptions) : Type 0 where
  pub event_le : o.max_event_bytes < u64_max
  pub cache_le : o.max_cached_event_bytes < u64_max
  pub product_le : max o.max_seen_events 1 * max o.max_pending_peers_per_event 1 < u64_max

adjust_options-AreUsable : (o : MeshOptions) → AreRepresentable o → AreUsable (adjust_options o)
unfolding adjust_options
adjust_options-AreUsable o h = omega arith

record_unserved-AreTallied :
    (peers : List Text) (b : Behaviors) → AreTallied b → AreTallied (record_unserved peers b)
unfolding record_unserved
record_unserved-AreTallied [] b t = t
record_unserved-AreTallied (p ∷ ps) b t =
    record_unserved-AreTallied ps _
      (record_peer_behavior-AreTallied p b t unserved_inventory_penalty Evidence.unserved_inventory)

module _ {E : Type 0} ⦃nostr : NostrEvent E⦄ where
  -- `new` yields a well-formed mesh, whatever the limits given.
  pub new-IsWellFormed : (o : MeshOptions) → AreRepresentable o → IsWellFormed {E = E} (new o)
  unfolding new get
  new-IsWellFormed o h = record {
    usable = adjust_options-AreUsable o h;
    cache = record {
      accounted = record { synced = Synced-empty; bytes = refl };
      count_le = omega arith;
      bytes_le = omega arith;
    };
    content = λ id c e. cc;
    seen = record { synced = Synced-empty; count_le = omega arith };
    delivered = record { synced = Synced-empty; count_le = omega arith };
    routes = record {
      routes_distinct = tt;
      pending_distinct = tt;
      wants_distinct = tt;
      route = λ id u e. cc;
      covered = λ id u e. absurd (cc);
      pending_le = λ id p e. absurd (cc);
      pending_routed = λ id e. cc;
      wants_routed = λ id e. cc;
      pending_count = refl;
    };
    behaviors = record {
      synced = Synced-empty;
      count_le = omega arith;
      each = λ p r e. absurd (cc);
    };
  }

  prune_content :
      (now : ℕ) (k : Cache E)
      → IsAccounted k
      → HoldsEvents k.cached_events
      → HoldsEvents (prune_cache now k).cached_events
  unfolding prune_cache
  prune_content now k a h id c e =
      h id c
        (get-retain-some id (λ _ (c : CachedEvent E). ltb now c.expires_at_ms) k.cached_events
          a.synced.distinct e).0

  prune_due-IsWellFormed : (now : ℕ) (m : Mesh E) → IsWellFormed m → IsWellFormed (prune_due now m)
  unfolding prune_due prune_window
  prune_due-IsWellFormed now m v = record {
    usable = v.usable;
    cache = prune_cache-IsBounded m.options now m.cache v.usable v.cache;
    content = prune_content now m.cache v.cache.accounted v.content;
    seen = prune_window-IsWindow m.options.max_seen_events now m.seen v.seen;
    delivered = prune_window-IsWindow m.options.max_seen_events now m.delivered v.delivered;
    routes =
        prune_routes-AreTracked m.options m.seen.expiries m.routes v.routes now
          v.seen.synced.distinct;
    behaviors =
        record_unserved-AreTallied (expired_peers now m.routes.upstream_routes) m.behaviors
          v.behaviors;
  }

  -- Pruning keeps the mesh well formed.
  pub prune-IsWellFormed : (now : ℕ) (m : Mesh E) → IsWellFormed m → IsWellFormed (prune now m)
  unfolding prune
  prune-IsWellFormed now m v = elim (Option-cases m.next_prune_at_ms) [
    | inl e ↦ rw (e, prune) v
    | inr (due, e) ↦ elim (Bool-cases (ltb now due)) [
      | inl early ↦ rw (e, early, prune) v
      | inr late ↦ rw (e, late, prune) (prune_due-IsWellFormed now m v)
    ]
  ]

  -- What the validation of an event establishes.
  pub record IsValidated (o : MeshOptions) (e : E) (id : Text) (bytes : ℕ) : Type 0 where
    pub same_id : nostr.id_hex e ≡ id
    pub length_eq : nostr.json_len e ≡ some bytes
    pub bytes_le : bytes ≤ o.max_event_bytes

  pub validate_verified_event-IsValidated :
      (o : MeshOptions) (e : E) {id : Text} {bytes : ℕ}
      → validate_verified_event o e ≡ ok (id, bytes)
      → IsValidated o e id bytes
  unfolding validate_verified_event validate_kind validate_event_len to_u32
  validate_verified_event-IsValidated o e h = ground arith

  pub validate_event-IsValidated :
      (o : MeshOptions) (e : E) {id : Text} {bytes : ℕ}
      → validate_event o e ≡ ok (id, bytes)
      → (nostr.verify e ≡ true) × IsValidated o e id bytes
  unfolding validate_event
  validate_event-IsValidated o e {id} {bytes} h =
      ground (arith, validate_verified_event-IsValidated o e {id = id} {bytes = bytes})

  -- Storing a validated event keeps the mesh well formed.
  pub store_event-IsWellFormed :
      (e : E) (bytes now : ℕ) (m : Mesh E)
      → IdFixesLength nostr
      → nostr.verify e ≡ true
      → IsValidated m.options e (nostr.id_hex e) bytes
      → IsWellFormed m
      → IsWellFormed (store_event e bytes now m)
  unfolding store_event
  store_event-IsWellFormed e bytes now m fixes signed valid v = record {
    usable = v.usable;
    cache =
        store-IsBounded m.options (nostr.id_hex e) stored m.cache v.usable valid.bytes_le same_size
          v.cache;
    content = λ j d h. elim (get-store m.options (nostr.id_hex e) stored m.cache j d h) [
      | inl (here, it) ↦ rw (it, here) (signed, refl, valid.length_eq)
      | inr old ↦ v.content j d old
    ];
    seen = v.seen;
    delivered = v.delivered;
    routes = v.routes;
    behaviors = v.behaviors;
  }
    where
      stored : CachedEvent E
      stored = record {
        event = e;
        expires_at_ms = sat_add_64 now m.options.event_ttl_ms;
        payload_bytes = bytes;
      }

      same_size :
          (old : CachedEvent E)
          → get (nostr.id_hex e) m.cache.cached_events ≡ some old
          → old.payload_bytes ≡ bytes
      same_size old h =
          let (verified, same, size) = v.content (nostr.id_hex e) old h in
          ground (arith, size, valid.length_eq, fixes old.event e verified signed same)
