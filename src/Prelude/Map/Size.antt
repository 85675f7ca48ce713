-- ===== src/Prelude/Map/Size.antt =====
-- How many entries a map has, and what its values sum to, after each operation.
use nostr_pubsub.Prelude.{
  ℕ, suc, ◌+◌, ◌*◌, ◌≤◌, ◌≡◌, refl, Bool, true, Option, none, some, [], ◌∷◌, arith, length,
  if◌then◌else◌, Option-cases, inl, inr,
}
use nostr_pubsub.Prelude.Map.{
  Key, Map, get, contains, replace, place, insert, retain, remove, Distinct, get-remove,
  Distinct-remove,
}

-- The weight of the value at a key; 0 where there is none.
abbrev pub weight {κ} : {V : Type κ} → (V → ℕ) → Option V → ℕ
weight f none = 0
weight f (some v) = f v

module _ {ℓ κ} {K : Type ℓ} {V : Type κ} ⦃o : Key K⦄ where
  length-replace : (k : K) (v : V) (m : Map K V) → length (replace k v m) ≡ length m
  unfolding replace
  length-replace k v [] = refl
  length-replace k v ((i, w) ∷ m) = ground (arith, length-replace k v m)

  length-place : (k : K) (v : V) (m : Map K V) → length (place k v m) ≡ suc (length m)
  unfolding place
  length-place k v [] = refl
  length-place k v ((i, w) ∷ m) = ground (arith, length-place k v m)

  pub length-insert :
      (k : K) (v : V) (m : Map K V)
      → length (insert k v m) ≡ (if contains k m then length m else suc (length m))
  unfolding insert
  length-insert k v m = ground (arith, length-replace k v m, length-place k v m)

  remove_absent : (k : K) (m : Map K V) → get k m ≡ none → remove k m ≡ m
  unfolding get remove retain
  remove_absent k [] h = refl
  remove_absent k ((i, w) ∷ m) h = ground (arith, remove_absent k m)

  pub length-remove :
      (k : K) (m : Map K V)
      → Distinct m
      → length m ≡ (if contains k m then suc (length (remove k m)) else length (remove k m))
  unfolding get remove retain
  length-remove k [] d = refl
  length-remove k ((i, w) ∷ m) d = ground (arith, length-remove k m d.1, remove_absent k m)

  -- What the values sum to under a weight.
  abbrev pub total : (V → ℕ) → Map K V → ℕ
  total f [] = 0
  total f ((j, w) ∷ m) = f w + total f m

  total-replace :
      (f : V → ℕ) (k : K) (v w : V) (m : Map K V)
      → get k m ≡ some w
      → total f (replace k v m) + f w ≡ total f m + f v
  unfolding get replace
  total-replace f k v w [] h = ground arith
  total-replace f k v w ((i, u) ∷ m) h = ground (arith, total-replace f k v w m)

  total-place : (f : V → ℕ) (k : K) (v : V) (m : Map K V) → total f (place k v m) ≡ total f m + f v
  unfolding place
  total-place f k v [] = omega arith
  total-place f k v ((i, u) ∷ m) = ground (arith, total-place f k v m)

  pub total-insert :
      (f : V → ℕ) (k : K) (v : V) (m : Map K V)
      → total f (insert k v m) + weight f (get k m) ≡ total f m + f v
  unfolding insert
  total-insert f k v m = elim (Option-cases (get k m)) [
    | inl e ↦ rw e (omega (arith, total-place f k v m))
    | inr (w, e) ↦ rw e (total-replace f k v w m e)
  ]

  pub total-remove :
      (f : V → ℕ) (k : K) (m : Map K V)
      → Distinct m
      → total f (remove k m) + weight f (get k m) ≡ total f m
  unfolding get remove retain
  total-remove f k [] d = omega arith
  total-remove f k ((i, w) ∷ m) d = ground (arith, total-remove f k m d.1, remove_absent k m)

  pub weight-le-total : (f : V → ℕ) (k : K) (m : Map K V) → weight f (get k m) ≤ total f m
  unfolding get
  weight-le-total f k [] = omega arith
  weight-le-total f k ((i, w) ∷ m) = ground (arith, weight-le-total f k m)

  pub total-retain-le :
      (f : V → ℕ) (p : K → V → Bool) (m : Map K V) → total f (retain p m) ≤ total f m
  unfolding retain
  total-retain-le f p [] = omega arith
  total-retain-le f p ((i, w) ∷ m) = ground (arith, total-retain-le f p m)

  -- A predicate on every entry.
  abbrev Every {μ} : (K → V → Type μ) → Map K V → Type μ
  Every P [] = Unit
  Every P ((j, w) ∷ m) = P j w × Every P m

  -- A bound on each value bounds the total.
  pub total-le-mul :
      (f : V → ℕ) (b : ℕ) (m : Map K V)
      → ((k : K) (v : V) → get k m ≡ some v → f v ≤ b)
      → Distinct m
      → total f m ≤ length m * b
  unfolding get
  total-le-mul f b [] h d = omega arith
  total-le-mul f b ((j, w) ∷ m) h d =
      grind (arith, h j w (ground arith), total-le-mul f b m (λ k v e. h k v (ground arith)) d.1)

module _ {ℓ κ μ} {K : Type ℓ} {V : Type κ} {W : Type μ} ⦃o : Key K⦄ where
  -- A map whose keys all stand in another one has no more entries.
  pub length-le_of_keys :
      (m : Map K V) (n : Map K W)
      → ((k : K) → contains k m ≡ true → contains k n ≡ true)
      → Distinct m
      → Distinct n
      → length m ≤ length n
  unfolding get
  length-le_of_keys [] n h d e = omega arith
  length-le_of_keys ((j, w) ∷ m) n h d e =
      let rest =
        length-le_of_keys m (remove j n) (λ k c. ground (arith, h k, get-remove k j n)) d.1
          (Distinct-remove j n e) in
      ground (arith, rest, h j, length-remove j n e)
