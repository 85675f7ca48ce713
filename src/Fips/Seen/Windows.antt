-- ===== src/Fips/Seen/Windows.antt =====
-- The windows of crates/nostr-pubsub-fips/src/seen_ids.rs: the queue of a window has a record of
-- each observation that the window holds, so its loop brings the window within its limit.
use nostr_pubsub.Prelude.{
  ℕ, ◌+◌, ◌-◌, ◌≤◌, ◌≡◌, refl, true, false, ◌&&◌, some, List, [], ◌∷◌, ◌++◌, arith, length, ltb,
  Bool-cases, inl, inr,
}
use nostr_pubsub.Prelude.Map.{
  Key, Text, Map, text_key, nat_key, pair_key, pair_discrete, eqb, get, insert, remove, Distinct,
  get-insert, get-remove, Distinct-remove,
}
use nostr_pubsub.Prelude.Map.Size.{length-remove}
use nostr_pubsub.Prelude.Map.Queue.{elem, elem-append}
use nostr_pubsub.Fips.Seen.{IdObservation, IdWindow, empty_window, is_live, trim_window, drop_stale}

pub eqb_pair {ℓ κ} :
    {A : Type ℓ} {B : Type κ} ⦃oa : Key A⦄ ⦃ob : Key B⦄ (p q : A × B)
    → eqb p q ≡ (eqb p.0 q.0 && eqb p.1 q.1)
unfolding pair_discrete
eqb_pair p q = ground arith

-- Each observation has its record in the queue.
abbrev pub IsCovered : List (Text × ℕ) → Map Text IdObservation → Type 0
IsCovered q ids =
    (id : Text) (o : IdObservation) → get id ids ≡ some o → elem (id, o.generation) q ≡ true

pub record IsWindow (w : IdWindow) : Type 0 where
  pub distinct : Distinct w.ids
  pub covered : IsCovered w.order w.ids

pub empty_window-IsWindow : IsWindow empty_window
unfolding get
empty_window-IsWindow = record { distinct = tt; covered = λ id o e. ground arith }

IsCovered-nil : (ids : Map Text IdObservation) → IsCovered [] ids → ids ≡ []
unfolding get
IsCovered-nil [] h = refl
IsCovered-nil ((id, o) ∷ ids) h = ground (arith, h id o)

-- A stale record may leave the queue.
IsCovered-stale :
    (id : Text) (g : ℕ) (q : List (Text × ℕ)) (ids : Map Text IdObservation)
    → is_live id g ids ≡ false
    → IsCovered ((id, g) ∷ q) ids
    → IsCovered q ids
IsCovered-stale id g q ids h c j o e = ground (arith, c j o e, eqb_pair (j, o.generation) (id, g))

IsCovered-pop :
    (id : Text) (g : ℕ) (q : List (Text × ℕ)) (ids : Map Text IdObservation)
    → IsCovered ((id, g) ∷ q) ids
    → IsCovered q (remove id ids)
IsCovered-pop id g q ids c j o e =
    ground (arith, c j o, get-remove j id ids, eqb_pair (j, o.generation) (id, g))

-- What the loop over a window's queue ends with.
pub record IsTrimmed (most n : ℕ) (ids : Map Text IdObservation) (w : IdWindow) (count : ℕ)
    : Type 0 where
  pub window : IsWindow w
  pub within : length w.ids ≤ most
  pub counted : count + length ids ≡ n + length w.ids
  pub kept : (id : Text) (o : IdObservation) → get id w.ids ≡ some o → get id ids ≡ some o

IsTrimmed-pop :
    (most n : ℕ) (id : Text) (g : ℕ) (ids : Map Text IdObservation) (w : IdWindow) (count : ℕ)
    → Distinct ids
    → is_live id g ids ≡ true
    → length ids ≤ n
    → IsTrimmed most (n - 1) (remove id ids) w count
    → IsTrimmed most n ids w count
IsTrimmed-pop most n id g ids w count d live h t = record {
  window = t.window;
  within = t.within;
  counted = ground (arith, t.counted, length-remove id ids d);
  kept = λ j o e. ground (arith, t.kept j o e, get-remove j id ids);
}

pub trim_window-IsTrimmed :
    (most n : ℕ) (q : List (Text × ℕ)) (ids : Map Text IdObservation)
    → Distinct ids
    → IsCovered q ids
    → length ids ≤ n
    → IsTrimmed most n ids (trim_window most q ids n).0 (trim_window most q ids n).1
unfolding trim_window
trim_window-IsTrimmed most n [] ids d c h = record {
  window = record { distinct = d; covered = c };
  within = ground (arith, IsCovered-nil ids c);
  counted = refl;
  kept = λ id o e. e;
}
trim_window-IsTrimmed most n ((id, g) ∷ q) ids d c h = elim (Bool-cases (ltb most (length ids))) [
  | inr b ↦
      rw (b, trim_window)
        (record {
          window = record { distinct = d; covered = c };
          within = ground arith;
          counted = refl;
          kept = λ id o e. e;
        })
  | inl b ↦ elim (Bool-cases (is_live id g ids)) [
    | inl live ↦
        rw (b, live, trim_window)
          (IsTrimmed-pop most n id g ids _ _ d live h (
            trim_window-IsTrimmed most (n - 1) q (remove id ids) (Distinct-remove id ids d)
              (IsCovered-pop id g q ids c) (ground (arith, length-remove id ids d))))
    | inr stale ↦
        rw (b, stale, trim_window)
          (trim_window-IsTrimmed most n q ids d (IsCovered-stale id g q ids stale c) h)
  ]
]

-- A new observation and its record, before the loop.
pub IsCovered-push :
    (id : Text) (o : IdObservation) (q : List (Text × ℕ)) (ids : Map Text IdObservation)
    → IsCovered q ids
    → IsCovered (q ++ (id, o.generation) ∷ []) (insert id o ids)
IsCovered-push id o q ids c j p e = elim (Bool-cases (eqb j id)) [
  | inl same ↦ ground (
    arith,
    get-insert j id o ids,
    elem-append (j, p.generation) (id, o.generation) q,
    eqb_pair (j, p.generation) (id, o.generation),
  )
  | inr other ↦
      ground
        (arith, c j p, get-insert j id o ids, elem-append (j, p.generation) (id, o.generation) q)
]

pub drop_stale-IsCovered :
    (q : List (Text × ℕ)) (ids : Map Text IdObservation)
    → IsCovered q ids
    → IsCovered (drop_stale ids q) ids
unfolding drop_stale
drop_stale-IsCovered [] ids c = c
drop_stale-IsCovered ((id, g) ∷ q) ids c = elim (Bool-cases (is_live id g ids)) [
  | inl live ↦ rw (live, drop_stale) c
  | inr stale ↦
      rw (stale, drop_stale) (drop_stale-IsCovered q ids (IsCovered-stale id g q ids stale c))
]

pub IsCovered-remove :
    (id : Text) (q : List (Text × ℕ)) (ids : Map Text IdObservation)
    → IsCovered q ids
    → IsCovered q (remove id ids)
IsCovered-remove id q ids c j o e = c j o (ground (arith, get-remove j id ids))

-- The loop keeps what it keeps.
pub get-trim_window :
    (most n : ℕ) (q : List (Text × ℕ)) (ids : Map Text IdObservation) (id : Text)
    (o : IdObservation)
    → get id (trim_window most q ids n).0.ids ≡ some o
    → get id ids ≡ some o
unfolding trim_window
get-trim_window most n [] ids id o e = e
get-trim_window most n ((j, g) ∷ q) ids id o e = elim (Bool-cases (ltb most (length ids))) [
  | inr b ↦ rw (b, trim_window) at e
  | inl b ↦ elim (Bool-cases (is_live j g ids)) [
    | inl live ↦ ground (
      arith,
      get-trim_window most (n - 1) q (remove j ids) id o (rw (b, live, trim_window) at e),
      get-remove id j ids,
    )
    | inr stale ↦ get-trim_window most n q ids id o (rw (b, stale, trim_window) at e)
  ]
]
