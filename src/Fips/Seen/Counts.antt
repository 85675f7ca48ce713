-- ===== src/Fips/Seen/Counts.antt =====
-- The scopes of crates/nostr-pubsub-fips/src/seen_ids.rs: the count is the sum of the windows, and
-- the global queue has a record of each observation, so its loop brings the count within its limit.
use nostr_pubsub.Prelude.{
  ℕ, ◌-◌, ◌≤◌, ◌≡◌, subst, true, false, some, List, [], ◌∷◌, arith, length, Bool-cases, inl, inr,
}
use nostr_pubsub.Prelude.Map.{
  Text, Map, text_key, nat_key, pair_key, eqb, get, insert, remove, Distinct, get-insert,
  get-remove, Distinct-insert, Distinct-remove,
}
use nostr_pubsub.Prelude.Map.Size.{total, total-remove, total-insert, length-remove}
use nostr_pubsub.Prelude.Map.Queue.{elem}
use nostr_pubsub.Fips.Seen.{Scope, IdObservation, IdWindow, is_live, is_current}
use nostr_pubsub.Fips.Seen.Windows.{eqb_pair, IsWindow, IsCovered}

abbrev pub size : IdWindow → ℕ
size w = length w.ids

pub record IsBounded (most : ℕ) (w : IdWindow) : Type 0 where
  pub window : IsWindow w
  pub within : size w ≤ most

-- The record of an observation.
abbrev pub record_of : Scope → Text → IdObservation → Scope × (Text × ℕ)
record_of scope id o = (scope, (id, o.generation))

pub record IsCounted (most : ℕ) (m : Map Scope IdWindow) (q : List (Scope × (Text × ℕ))) (n : ℕ)
    : Type 0 where
  pub distinct : Distinct m
  pub windows : (scope : Scope) (w : IdWindow) → get scope m ≡ some w → IsBounded most w
  pub counted : n ≡ total size m
  pub covered :
      (scope : Scope) (w : IdWindow)
      → get scope m ≡ some w
      → (id : Text) (o : IdObservation) → get id w.ids ≡ some o
      → elem (record_of scope id o) q ≡ true

-- A value at a key: what the other keys have stays.
pub each_set :
    (P : Scope → IdWindow → Type 0) (scope : Scope) (w : IdWindow) (m : Map Scope IdWindow)
    → P scope w
    → ((s : Scope) (v : IdWindow) → (eqb s scope ≡ false) → get s m ≡ some v → P s v)
    → (s : Scope) (v : IdWindow) → get s (insert scope w m) ≡ some v
    → P s v
each_set P scope w m h f s v e = elim (Bool-cases (eqb s scope)) [
  | inl same ↦
      let here : w ≡ v = ground (arith, get-insert s scope w m) in
      let there : scope ≡ s = ground arith in subst (λ k. P k v) there (subst (P scope) here h)
  | inr other ↦ f s v other (ground (arith, get-insert s scope w m))
]

module _ (most : ℕ) (scope : Scope) (id : Text) (g : ℕ) (m : Map Scope IdWindow)
    (q : List (Scope × (Text × ℕ))) (n : ℕ) where
  -- A record that is not of an observation may leave.
  pub IsCounted-stale :
      is_current m (scope, (id, g)) ≡ false
      → IsCounted most m ((scope, (id, g)) ∷ q) n
      → IsCounted most m q n
  IsCounted-stale stale c = record {
    distinct = c.distinct;
    windows = c.windows;
    counted = c.counted;
    covered = λ s w e j o f. ground (
      arith,
      c.covered s w e j o f,
      eqb_pair (record_of s j o) (scope, (id, g)),
      eqb_pair (j, o.generation) (id, g),
    );
  }

  module _ (w : IdWindow) (here : get scope m ≡ some w) (live : is_live id g w.ids ≡ true)
      (c : IsCounted most m ((scope, (id, g)) ∷ q) n) where
    pub IsCounted-remove : remove id w.ids ≡ [] → IsCounted most (remove scope m) q (n - 1)
    IsCounted-remove last = record {
      distinct = Distinct-remove scope m c.distinct;
      windows = λ s v e. c.windows s v (ground (arith, get-remove s scope m));
      counted = ground (
        arith,
        c.counted,
        total-remove size scope m c.distinct,
        length-remove id w.ids (c.windows scope w here).window.distinct,
      );
      covered = λ s v e j o f. ground (
        arith,
        get-remove s scope m,
        c.covered s v (ground (arith, get-remove s scope m)) j o,
        eqb_pair (record_of s j o) (scope, (id, g)),
      );
    }

    pub IsCounted-set :
        (order : List (Text × ℕ))
        → IsCovered order (remove id w.ids)
        → IsCounted most
            (insert scope (record { ids = remove id w.ids; order = order }) m)
            q
            (n - 1)
    IsCounted-set order d =
        let left : IdWindow = record { ids = remove id w.ids; order = order } in
        let one = length-remove id w.ids (c.windows scope w here).window.distinct in
        record {
          distinct = Distinct-insert scope left m c.distinct;
          windows =
              each_set (λ _. IsBounded most) scope left m
                (record {
                  window = record {
                    distinct = Distinct-remove id w.ids (c.windows scope w here).window.distinct;
                    covered = d;
                  };
                  within = ground (arith, (c.windows scope w here).within, one);
                })
                (λ s v _. c.windows s v);
          counted = ground (arith, c.counted, total-insert size scope left m, one);
          covered =
              each_set
                (λ s v.
                  (j : Text) (o : IdObservation)
                  → get j v.ids ≡ some o
                  → elem (record_of s j o) q ≡ true)
                scope left m
                (λ j o f. ground (
                  arith,
                  get-remove j id w.ids,
                  c.covered scope w here j o,
                  eqb_pair (record_of scope j o) (scope, (id, g)),
                  eqb_pair (j, o.generation) (id, g),
                ))
                (λ s v other e j o f.
                  ground
                    (arith, c.covered s v e j o f, eqb_pair (record_of s j o) (scope, (id, g))));
        }
