-- ===== src/Prelude/Map/Queue.antt =====
-- A map beside the queue of its keys, oldest first: what keeps the two in step.
use nostr_pubsub.Prelude.{
  ℕ, ◌≤◌, ◌≡◌, refl, Bool, true, false, not, ◌||◌, some, List, [], ◌∷◌, ◌++◌, ◌∙◌, arith, length,
  keep, any, if◌then◌else◌, leb, ◌<◌, Option-cases, inl, inr,
}
use nostr_pubsub.Prelude.Map.{
  Key, eqb, Map, get, contains, insert, retain, remove, Distinct, get-remove, get-insert,
  contains-retain, Distinct-insert, Distinct-remove, Distinct-retain,
}
use nostr_pubsub.Prelude.Map.Size.{length-insert}

module _ {ℓ} {K : Type ℓ} ⦃o : Key K⦄ where
  abbrev pub elem : K → List K → Bool
  elem k q = any (eqb k) q

  -- `order.retain(|id| id != k)`
  abbrev pub drop_key : K → List K → List K
  drop_key k q = keep (λ j. not (eqb k j)) q

  -- No key waits twice.
  abbrev pub Unrepeated : List K → Type 0
  Unrepeated [] = Unit
  Unrepeated (k ∷ q) = (elem k q ≡ false) × Unrepeated q

  pub elem-append : (j k : K) (q : List K) → elem j (q ++ k ∷ []) ≡ (elem j q || eqb j k)
  elem-append j k [] = ground arith
  elem-append j k (i ∷ q) = ground (arith, elem-append j k q)

  pub elem-keep :
      (k : K) (p : K → Bool) (q : List K) → elem k (keep p q) ≡ (if p k then elem k q else false)
  elem-keep k p [] = ground arith
  elem-keep k p (i ∷ q) = ground (arith, elem-keep k p q)

  pub drop_key_absent : (k : K) (q : List K) → elem k q ≡ false → drop_key k q ≡ q
  drop_key_absent k [] h = refl
  drop_key_absent k (i ∷ q) h = ground (arith, drop_key_absent k q)

  Unrepeated-append :
      (k : K) (q : List K) → elem k q ≡ false → Unrepeated q → Unrepeated (q ++ k ∷ [])
  Unrepeated-append k [] h u = (refl, tt)
  Unrepeated-append k (i ∷ q) h u = ground (arith, elem-append i k q, Unrepeated-append k q)

  pub Unrepeated-keep : (p : K → Bool) (q : List K) → Unrepeated q → Unrepeated (keep p q)
  Unrepeated-keep p [] u = tt
  Unrepeated-keep p (i ∷ q) u = ground (arith, elem-keep i p q, Unrepeated-keep p q u.1)

module _ {ℓ κ} {K : Type ℓ} {V : Type κ} ⦃o : Key K⦄ where
  -- The queue holds exactly the keys of the map, each once.
  pub record Synced (q : List K) (m : Map K V) : Type (ℓ ⊔ κ) where
    pub once : Unrepeated q
    pub distinct : Distinct m
    pub same : (k : K) → elem k q ≡ contains k m

  pub Synced-empty : Synced [] []
  unfolding get
  Synced-empty = record { once = tt; distinct = tt; same = λ k. refl }

  -- A new key joins the end of the queue.
  pub Synced-push :
      (k : K) (v : V) {q : List K} {m : Map K V}
      → contains k m ≡ false
      → Synced q m
      → Synced (q ++ k ∷ []) (insert k v m)
  Synced-push k v {q} {m} new s = record {
    once = Unrepeated-append k q (s.same k ∙ new) s.once;
    distinct = Distinct-insert k v m s.distinct;
    same = λ j. ground (arith, elem-append j k q, get-insert j k v m, s.same j);
  }

  -- A new value at a known key leaves the queue alone.
  pub Synced-set :
      (k : K) (v : V) {q : List K} {m : Map K V}
      → contains k m ≡ true
      → Synced q m
      → Synced q (insert k v m)
  Synced-set k v {q} {m} old s = record {
    once = s.once;
    distinct = Distinct-insert k v m s.distinct;
    same = λ j. ground (arith, get-insert j k v m, s.same j);
  }

  -- The oldest key leaves both.
  pub Synced-pop : (k : K) {q : List K} {m : Map K V} → Synced (k ∷ q) m → Synced q (remove k m)
  Synced-pop k {q} {m} s = record {
    once = s.once.1;
    distinct = Distinct-remove k m s.distinct;
    same = λ j. ground (arith, get-remove j k m, s.same j, s.once.0);
  }

  pub Synced-drop :
      (k : K) {q : List K} {m : Map K V} → Synced q m → Synced (drop_key k q) (remove k m)
  Synced-drop k {q} {m} s = record {
    once = Unrepeated-keep _ q s.once;
    distinct = Distinct-remove k m s.distinct;
    same = λ j. ground (arith, get-remove j k m, s.same j, elem-keep j (λ i. not (eqb k i)) q);
  }

  pub Synced-touch :
      (k : K) (v : V) {q : List K} {m : Map K V}
      → Synced q m
      → Synced (drop_key k q ++ k ∷ []) (insert k v m)
  Synced-touch k v {q} {m} s = record {
    once =
        Unrepeated-append k (drop_key k q) (ground (arith, elem-keep k (λ i. not (eqb k i)) q))
          (Unrepeated-keep _ q s.once);
    distinct = Distinct-insert k v m s.distinct;
    same = λ j. ground (
      arith,
      get-insert j k v m,
      s.same j,
      elem-append j k (drop_key k q),
      elem-keep j (λ i. not (eqb k i)) q,
    );
  }

  -- Both are filtered: the map by a test, the queue by what the map still has.
  pub Synced-retain :
      (p : K → V → Bool) {q : List K} {m : Map K V}
      → Synced q m
      → Synced (keep (λ k. contains k (retain p m)) q) (retain p m)
  Synced-retain p {q} {m} s = record {
    once = Unrepeated-keep _ q s.once;
    distinct = Distinct-retain p m s.distinct;
    same = λ j.
        ground
          (arith, elem-keep j (λ k. contains k (retain p m)) q, s.same j, contains-retain j p m);
  }

  -- An empty queue has an empty map beside it.
  pub Synced-nil : (m : Map K V) → Synced [] m → m ≡ []
  unfolding get
  Synced-nil [] s = refl
  Synced-nil ((j, w) ∷ m) s = ground (arith, s.same j)

  -- `while len >= max { pop the oldest key, or stop; remove it }`, by recursion on the queue.
  unfoldable pub evict : ℕ → List K → Map K V → List K × Map K V
  evict limit [] m = ([], m)
  evict limit (k ∷ q) m = elim (leb limit (length m)) [
    | true ↦ evict limit q (remove k m)
    | false ↦ (k ∷ q, m)
  ]

  -- The loop ends below the limit, with queue and map in step.
  pub evict_room :
      (limit : ℕ) (q : List K) (m : Map K V)
      → 0 < limit
      → Synced q m
      → Synced (evict limit q m).0 (evict limit q m).1 × (length (evict limit q m).1 < limit)
  unfolding evict
  evict_room limit [] m h s = ground (arith, Synced-nil m s)
  evict_room limit (k ∷ q) m h s =
      ground (arith, evict_room limit q (remove k m) h (Synced-pop k s))

  -- It keeps what it keeps.
  pub get-evict :
      (limit : ℕ) (q : List K) (m : Map K V) (j : K) (v : V)
      → get j (evict limit q m).1 ≡ some v
      → get j m ≡ some v
  unfolding evict
  get-evict limit [] m j v h = h
  get-evict limit (k ∷ q) m j v h =
      ground (arith, get-evict limit q (remove k m) j v, get-remove j k m)

  evict_absent :
      (limit : ℕ) (q : List K) (m : Map K V) (j : K)
      → contains j m ≡ false
      → contains j (evict limit q m).1 ≡ false
  evict_absent limit q m j h = elim (Option-cases (get j (evict limit q m).1)) [
    | inl e ↦ rw e
    | inr (v, e) ↦ ground (arith, get-evict limit q m j v e)
  ]

  -- A new key with a value, after the loop: in step, and within the limit.
  pub evict_push :
      (limit : ℕ) (q : List K) (m : Map K V) (k : K) (v : V)
      → 0 < limit
      → contains k m ≡ false
      → Synced q m
      → Synced ((evict limit q m).0 ++ k ∷ []) (insert k v (evict limit q m).1)
        × (length (insert k v (evict limit q m).1) ≤ limit)
  evict_push limit q m k v h new s =
      let (synced, room) = evict_room limit q m h s in
      let absent = evict_absent limit q m k new in
      (Synced-push k v absent synced, ground (arith, length-insert k v (evict limit q m).1))
