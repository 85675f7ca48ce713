-- ===== src/Prelude/Sort.antt =====
-- `sort_by`, which is stable, and relations between each item of a list and those after it.
use Prim.Native.Nat.{ℕ, zero, suc}
use mathlib.Core.Path.{◌≡◌, refl}
use mathlib.Core.Bool.{Bool, ◌||◌}
use mathlib.Core.List.{List, [], ◌∷◌, ◌++◌}
use native.Mathlib.Omega.{arith}
use nostr_pubsub.Prelude.Tests.{if◌then◌else◌, if_both}
use nostr_pubsub.Prelude.Lists.{length, any, keep, take, All, All-take, All-append, All-keep}

module _ {ℓ} {A : Type ℓ} where
  -- An item goes before the first one that does not precede it.
  unfoldable pub place : (A → A → Bool) → A → List A → List A
  place before x [] = x ∷ []
  place before x (y ∷ ys) = if before y x then y ∷ place before x ys else x ∷ y ∷ ys

  unfoldable pub sort_by : (A → A → Bool) → List A → List A
  sort_by before [] = []
  sort_by before (x ∷ xs) = place before x (sort_by before xs)

  abbrev pub Pairwise {κ} : (A → A → Type κ) → List A → Type κ
  Pairwise R [] = Unit
  Pairwise R (x ∷ xs) = All (R x) xs × Pairwise R xs

  pub Pairwise-keep {κ} :
      (R : A → A → Type κ) (p : A → Bool) (xs : List A) → Pairwise R xs → Pairwise R (keep p xs)
  Pairwise-keep R p [] h = tt
  Pairwise-keep R p (x ∷ xs) h =
      if_both (Pairwise R) (p x) (λ _. (All-keep (R x) p xs h.0, Pairwise-keep R p xs h.1))
        (λ _. Pairwise-keep R p xs h.1)

  pub Pairwise-snoc {κ} :
      (R : A → A → Type κ) (x : A) (xs : List A)
      → All (λ y. R y x) xs
      → Pairwise R xs
      → Pairwise R (xs ++ x ∷ [])
  Pairwise-snoc R x [] h w = (tt, tt)
  Pairwise-snoc R x (y ∷ ys) h w =
      (All-append (R y) ys (x ∷ []) w.0 (h.0, tt), Pairwise-snoc R x ys h.1 w.1)

  pub Pairwise-take {κ} :
      (R : A → A → Type κ) (n : ℕ) (xs : List A) → Pairwise R xs → Pairwise R (take n xs)
  Pairwise-take R zero xs w = tt
  Pairwise-take R (suc n) [] w = tt
  Pairwise-take R (suc n) (x ∷ xs) w = (All-take (R x) n xs w.0, Pairwise-take R n xs w.1)

  module _ (before : A → A → Bool) where
    pub All-place {κ} :
        (P : A → Type κ) (x : A) (ys : List A) → P x → All P ys → All P (place before x ys)
    unfolding place
    All-place P x [] p h = (p, tt)
    All-place P x (y ∷ ys) p h =
        if_both (All P) (before y x) (λ _. (h.0, All-place P x ys p h.1)) (λ _. (p, h))

    pub All-sort {κ} : (P : A → Type κ) (xs : List A) → All P xs → All P (sort_by before xs)
    unfolding sort_by
    All-sort P [] h = tt
    All-sort P (x ∷ xs) h = All-place P x (sort_by before xs) h.0 (All-sort P xs h.1)

    module _ {κ} (R : A → A → Type κ) (swap : (x y : A) → R x y → R y x) where
      Pairwise-place :
          (x : A) (ys : List A) → All (R x) ys → Pairwise R ys → Pairwise R (place before x ys)
      unfolding place
      Pairwise-place x [] h w = (tt, tt)
      Pairwise-place x (y ∷ ys) h w =
          if_both (Pairwise R) (before y x)
            (λ _. (All-place (R y) x ys (swap x y h.0) w.0, Pairwise-place x ys h.1 w.1))
            (λ _. (h, w))

      -- A relation in both directions holds in any order.
      pub Pairwise-sort : (xs : List A) → Pairwise R xs → Pairwise R (sort_by before xs)
      unfolding sort_by
      Pairwise-sort [] w = tt
      Pairwise-sort (x ∷ xs) w =
          Pairwise-place x (sort_by before xs) (All-sort (R x) xs w.0) (Pairwise-sort xs w.1)

    length-place : (x : A) (ys : List A) → length (place before x ys) ≡ suc (length ys)
    unfolding place
    length-place x [] = refl
    length-place x (y ∷ ys) = ground (arith, length-place x ys)

    length-sort : (xs : List A) → length (sort_by before xs) ≡ length xs
    unfolding sort_by
    length-sort [] = refl
    length-sort (x ∷ xs) = omega (arith, length-place x (sort_by before xs), length-sort xs)

    any-place : (p : A → Bool) (x : A) (ys : List A) → any p (place before x ys) ≡ (p x || any p ys)
    unfolding place
    any-place p x [] = refl
    any-place p x (y ∷ ys) = ground (arith, any-place p x ys)

    pub any-sort : (p : A → Bool) (xs : List A) → any p (sort_by before xs) ≡ any p xs
    unfolding sort_by
    any-sort p [] = refl
    any-sort p (x ∷ xs) = ground (arith, any-place p x (sort_by before xs), any-sort p xs)
