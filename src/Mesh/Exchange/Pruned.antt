-- ===== src/Mesh/Exchange/Pruned.antt =====
-- What is not expired survives `prune` of crates/nostr-pubsub/src/mesh.rs, which `receive` begins with.
use nostr_pubsub.Prelude.{
  ℕ, ◌<◌, ◌≡◌, refl, none, some, arith, Option-cases, Bool-cases, inl, inr, ltb, ◌&&◌,
}
use nostr_pubsub.Prelude.Map.{
  Text, text_key, get, contains, retain, get-retain-live, get-retain-none,
}
use nostr_pubsub.Mesh.Types.{UpstreamRoute}
use nostr_pubsub.Mesh.Cache.{CachedEvent, prune_cache}
use nostr_pubsub.Mesh.State.{Mesh}
use nostr_pubsub.Mesh.Prune.{prune, prune_due, prune_routes, prune_window}

module _ {E : Type 0} (now : ℕ) (m : Mesh E) where
  -- What holds of the mesh and of the pruned mesh holds after `prune`, due or not.
  prune_both : (P : Mesh E → Type 0) → P m → P (prune_due now m) → P (prune now m)
  unfolding prune
  prune_both P here there = elim (Option-cases m.next_prune_at_ms) [
    | inl e ↦ rw (e, prune) here
    | inr (due, e) ↦ elim (Bool-cases (ltb now due)) [
      | inl early ↦ rw (e, early, prune) here
      | inr late ↦ rw (e, late, prune) there
    ]
  ]

  pub options-prune : (prune now m).options ≡ m.options
  unfolding prune_due
  options-prune = prune_both (λ k. k.options ≡ m.options) refl refl

  pub get-prune_cached :
      (id : Text) (c : CachedEvent E)
      → get id m.cache.cached_events ≡ some c
      → now < c.expires_at_ms
      → get id (prune now m).cache.cached_events ≡ some c
  unfolding prune_due prune_cache
  get-prune_cached id c h live =
      prune_both (λ k. get id k.cache.cached_events ≡ some c) h
        (get-retain-live id (λ _ (c : CachedEvent E). ltb now c.expires_at_ms) m.cache.cached_events
          c h (ground (arith, live)))

  pub get-prune_route :
      (id : Text) (r : UpstreamRoute)
      → get id m.routes.upstream_routes ≡ some r
      → now < r.expires_at_ms
      → get id (prune now m).routes.upstream_routes ≡ some r
  unfolding prune_due prune_routes
  get-prune_route id r h live =
      prune_both (λ k. get id k.routes.upstream_routes ≡ some r) h
        (get-retain-live id (λ _ (u : UpstreamRoute). ltb now u.expires_at_ms)
          m.routes.upstream_routes r h (ground (arith, live)))

  pub get-prune_want :
      (id : Text) (r : UpstreamRoute) (t : ℕ)
      → get id m.routes.upstream_routes ≡ some r
      → now < r.expires_at_ms
      → get id m.routes.want_forwarded ≡ some t
      → now < t
      → get id (prune now m).routes.want_forwarded ≡ some t
  unfolding prune_due prune_routes
  get-prune_want id r t h live w fresh =
      let upstream =
        retain (λ _ (u : UpstreamRoute). ltb now u.expires_at_ms) m.routes.upstream_routes in
      let stays : get id upstream ≡ some r =
        get-retain-live id (λ _ (u : UpstreamRoute). ltb now u.expires_at_ms)
          m.routes.upstream_routes r h (ground (arith, live)) in
      prune_both (λ k. get id k.routes.want_forwarded ≡ some t) w
        (get-retain-live id (λ j (s : ℕ). ltb now s && contains j upstream) m.routes.want_forwarded
          t w (ground (arith, fresh, stays)))

  pub get-prune_undelivered :
      (id : Text)
      → get id m.delivered.expiries ≡ none
      → get id (prune now m).delivered.expiries ≡ none
  unfolding prune_due prune_window
  get-prune_undelivered id h =
      prune_both (λ k. get id k.delivered.expiries ≡ none) h
        (get-retain-none id (λ _ (t : ℕ). ltb now t) m.delivered.expiries h)
