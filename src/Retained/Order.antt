-- ===== src/Retained/Order.antt =====
-- What the sort and the loop of `insert` in crates/nostr-pubsub/src/retained.rs keep.
use nostr_pubsub.Prelude.{
  ℕ, zero, suc, ◌+◌, ◌-◌, ◌≤◌, ◌≡◌, refl, ◌||◌, none, some, List, [], ◌∷◌, keep, length, All,
  All-imp, ltb, arith, Bool-cases, Option-cases, List-cases, inl, inr, subst,
}
use nostr_pubsub.Prelude.Sort.{place, sort_by, Pairwise, All-place}
use nostr_pubsub.Retained.{EventView, max_retained_snapshot_bytes, precedes, pop, shed, sum_sizes}

module _ {E : Type 0} where
  All-pop {ℓ} :
      (P : E × ℕ → Type ℓ) (xs ys : List (E × ℕ)) (n : ℕ)
      → pop xs ≡ some (ys, n)
      → All P xs
      → All P ys
  unfolding pop
  All-pop P [] ys n e h = absurd (ground arith)
  All-pop P (x ∷ xs) ys n e h = elim (Option-cases (pop xs)) [
    | inl f ↦ let nil : [] ≡ ys = ground arith in subst (All P) nil tt
    | inr (p, f) ↦
        let cons : x ∷ p.0 ≡ ys = ground arith in
        subst (All P) cons (h.0, All-pop P xs p.0 p.1 f h.1)
  ]

  Pairwise-pop {ℓ} :
      (R : E × ℕ → E × ℕ → Type ℓ) (xs ys : List (E × ℕ)) (n : ℕ)
      → pop xs ≡ some (ys, n)
      → Pairwise R xs
      → Pairwise R ys
  unfolding pop
  Pairwise-pop R [] ys n e h = absurd (ground arith)
  Pairwise-pop R (x ∷ xs) ys n e h = elim (Option-cases (pop xs)) [
    | inl f ↦ let nil : [] ≡ ys = ground arith in subst (Pairwise R) nil tt
    | inr (p, f) ↦
        let cons : x ∷ p.0 ≡ ys = ground arith in
        subst (Pairwise R) cons (All-pop (R x) xs p.0 p.1 f h.0, Pairwise-pop R xs p.0 p.1 f h.1)
  ]

  pop_counts :
      (xs ys : List (E × ℕ)) (n : ℕ)
      → pop xs ≡ some (ys, n)
      → (length xs ≡ suc (length ys)) × (sum_sizes xs ≡ sum_sizes ys + (n + 1))
  unfolding pop
  pop_counts [] ys n e = absurd (ground arith)
  pop_counts (x ∷ xs) ys n e = elim (Option-cases (pop xs)) [
    | inl f ↦ elim (List-cases xs) [
      | inl g ↦ ground arith
      | inr (y, zs, g) ↦ absurd (ground (arith, rw g at f))
    ]
    | inr (p, f) ↦ ground (arith, pop_counts xs p.0 p.1 f)
  ]

  -- A loop that only pops keeps what a pop keeps.
  shed_keeps {ℓ} :
      (Q : List (E × ℕ) → Type ℓ)
      → ((xs ys : List (E × ℕ)) (n : ℕ) → pop xs ≡ some (ys, n) → Q xs → Q ys)
      → (fuel most : ℕ) (xs : List (E × ℕ)) (bytes : ℕ) → Q xs
      → Q (shed fuel most xs bytes).0
  unfolding shed
  shed_keeps Q keep zero most xs bytes q = q
  shed_keeps Q keep (suc fuel) most xs bytes q = elim (Option-cases (pop xs)) [
    | inl e ↦ rw (e, shed) q
    | inr ((ys, n), e) ↦
        elim (Bool-cases (ltb most (length xs) || ltb max_retained_snapshot_bytes (bytes + 128))) [
          | inr b ↦ rw (e, b, shed) q
          | inl b ↦
              rw (e, b, shed) (shed_keeps Q keep fuel most ys (bytes - (n + 1)) (keep xs ys n e q))
        ]
  ]

  pub All-shed {ℓ} :
      (P : E × ℕ → Type ℓ) (fuel most : ℕ) (xs : List (E × ℕ)) (bytes : ℕ)
      → All P xs
      → All P (shed fuel most xs bytes).0
  All-shed P = shed_keeps (All P) (All-pop P)

  pub Pairwise-shed {ℓ} :
      (R : E × ℕ → E × ℕ → Type ℓ) (fuel most : ℕ) (xs : List (E × ℕ)) (bytes : ℕ)
      → Pairwise R xs
      → Pairwise R (shed fuel most xs bytes).0
  Pairwise-shed R = shed_keeps (Pairwise R) (Pairwise-pop R)

  -- Within both limits, with the bytes of what is left.
  pub record IsShed (most : ℕ) (xs : List (E × ℕ)) (bytes : ℕ) : Type 0 where
    pub within : length xs ≤ most
    pub counted : bytes ≡ sum_sizes xs
    pub fits : bytes + 128 ≤ max_retained_snapshot_bytes

  pop_nil : (xs : List (E × ℕ)) → pop xs ≡ none → xs ≡ []
  unfolding pop
  pop_nil [] e = refl
  pop_nil (x ∷ xs) e = absurd (ground arith)

  -- The events are fuel enough.
  pub shed-IsShed :
      (fuel most : ℕ) (xs : List (E × ℕ)) (bytes : ℕ)
      → length xs ≤ fuel
      → bytes ≡ sum_sizes xs
      → IsShed most (shed fuel most xs bytes).0 (shed fuel most xs bytes).1
  unfolding shed
  shed-IsShed zero most [] bytes h e = record {
    within = omega arith;
    counted = e;
    fits = omega (arith, e);
  }
  shed-IsShed zero most (x ∷ xs) bytes h e = absurd (omega (arith, h))
  shed-IsShed (suc fuel) most xs bytes h e = elim (Option-cases (pop xs)) [
    | inl f ↦
        let nil = pop_nil xs f in
        rw (f, shed)
          (record { within = ground (arith, nil); counted = e; fits = ground (arith, nil, e) })
    | inr ((ys, n), f) ↦
        let counts = pop_counts xs ys n f in
        elim (Bool-cases (ltb most (length xs) || ltb max_retained_snapshot_bytes (bytes + 128))) [
          | inr b ↦
              rw (f, b, shed) (record { within = ground arith; counted = e; fits = ground arith })
          | inl b ↦
              rw (f, b, shed)
                (shed-IsShed fuel most ys (bytes - (n + 1)) (omega (arith, counts, h))
                  (omega (arith, counts, e)))
        ]
  ]

module _ {E : Type 0} ⦃view : EventView E⦄ where
  -- The newer event stands first.
  abbrev pub IsNewer : E × ℕ → E × ℕ → Type 0
  IsNewer x y = view.created_at y.0 ≤ view.created_at x.0

  place_newest :
      (x : E × ℕ) (ys : List (E × ℕ)) → Pairwise IsNewer ys → Pairwise IsNewer (place precedes x ys)
  unfolding place
  place_newest x [] w = (tt, tt)
  place_newest x (y ∷ ys) w = elim (Bool-cases (precedes y x)) [
    | inl b ↦
        rw (b, place)
          (All-place precedes (IsNewer y) x ys (ground arith) w.0, place_newest x ys w.1)
    | inr b ↦
        let first : IsNewer x y = ground arith in
        rw (b, place)
          ((first, All-imp (IsNewer y) (IsNewer x) ys (λ z h. omega (arith, h, first)) w.0), w)
  ]

  pub sort_newest : (xs : List (E × ℕ)) → Pairwise IsNewer (sort_by precedes xs)
  unfolding sort_by
  sort_newest [] = tt
  sort_newest (x ∷ xs) = place_newest x (sort_by precedes xs) (sort_newest xs)
