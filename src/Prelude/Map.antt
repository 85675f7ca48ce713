-- ===== src/Prelude/Map.antt =====
-- `HashMap`, `BTreeMap` and `BTreeSet` as association lists. An entry is replaced in place, and a
-- new key is placed before the first greater one: the iteration order of a `BTreeMap`, and one of
-- the orders that a `HashMap` may have. A set is a map to the unit type's place, a list of keys.
pub mod Size
pub mod Queue
use Prim.Native.Nat.{ℕ, zero, suc, ◌+◌, ◌-◌, ◌≤◌, ◌<◌}
use mathlib.Core.Path.{◌≡◌, refl, ap, sym}
use mathlib.Core.Bool.{Bool, true, false, not, ◌&&◌, ◌||◌}
use mathlib.Core.Logic.{◌≢◌, ◌⊎◌, inl, inr}
use mathlib.Core.Option.{Option, none, some}
use mathlib.Core.List.{List, [], ◌∷◌, ◌++◌, map}
use native.Mathlib.Omega.{arith}
use native.Mathlib.Decide.{ℕ_discrete}
use nostr_pubsub.Prelude.Tests.{if◌then◌else◌, is_some, ltb, Bool-cases, Option-cases}
use nostr_pubsub.Prelude.Lists.{length, sum_by, keep, All}

-- A key type: its decidable equality, and the strict order of `Ord`.
pub record Key {ℓ} (K : Type ℓ) : Type ℓ where
  pub dec : Discrete K
  pub lt : K → K → Bool

abbrev pub eqb {ℓ} : {K : Type ℓ} ⦃o : Key K⦄ → K → K → Bool
eqb ⦃o⦄ a b = elim (o.dec a b) [ yes _ ↦ true | no _ ↦ false ]

-- Text is its UTF-8 bytes, which Rust compares lexicographically.
abbrev pub Text : Type 0
Text = List ℕ

unfoldable pub text_discrete : Discrete Text
text_discrete = hlevel ℕ_discrete

abbrev pub lt_bytes : Text → Text → Bool
lt_bytes [] [] = false
lt_bytes [] (b ∷ bs) = true
lt_bytes (a ∷ as') [] = false
lt_bytes (a ∷ as') (b ∷ bs) = ltb a b || (not (ltb b a) && lt_bytes as' bs)

instance abbrev pub text_key : Key Text
text_key = record { dec = text_discrete; lt = lt_bytes }

instance abbrev pub nat_key : Key ℕ
nat_key = record { dec = ℕ_discrete; lt = ltb }

-- Pairs, compared in lexicographic order.
unfoldable pub pair_discrete {ℓ κ} :
    {A : Type ℓ} {B : Type κ} → Discrete A → Discrete B → Discrete (A × B)
pair_discrete da db = hlevel (da, db)

instance abbrev pub pair_key {ℓ κ} :
    {A : Type ℓ} {B : Type κ} ⦃oa : Key A⦄ ⦃ob : Key B⦄ → Key (A × B)
pair_key ⦃oa⦄ ⦃ob⦄ = record {
  dec = pair_discrete oa.dec ob.dec;
  lt = λ p q. oa.lt p.0 q.0 || (not (oa.lt q.0 p.0) && ob.lt p.1 q.1);
}

abbrev pub Map {ℓ κ} : Type ℓ → Type κ → Type (ℓ ⊔ κ)
Map K V = List (K × V)

module _ {ℓ κ} {K : Type ℓ} {V : Type κ} ⦃o : Key K⦄ where
  unfoldable pub get : K → Map K V → Option V
  get k [] = none
  get k ((j, v) ∷ m) = if eqb k j then some v else get k m

  abbrev pub contains : K → Map K V → Bool
  contains k m = is_some (get k m)

  unfoldable pub replace : K → V → Map K V → Map K V
  replace k v [] = []
  replace k v ((j, w) ∷ m) = if eqb k j then (j, v) ∷ m else (j, w) ∷ replace k v m

  unfoldable pub place : K → V → Map K V → Map K V
  place k v [] = (k, v) ∷ []
  place k v ((j, w) ∷ m) = if o.lt k j then (k, v) ∷ (j, w) ∷ m else (j, w) ∷ place k v m

  unfoldable pub insert : K → V → Map K V → Map K V
  insert k v m = if contains k m then replace k v m else place k v m

  unfoldable pub retain : (K → V → Bool) → Map K V → Map K V
  retain p [] = []
  retain p ((j, w) ∷ m) = if p j w then (j, w) ∷ retain p m else retain p m

  unfoldable pub remove : K → Map K V → Map K V
  remove k m = retain (λ j _. not (eqb k j)) m

  -- No key stands twice.
  abbrev pub Distinct : Map K V → Type κ
  Distinct [] = Unit
  Distinct ((j, w) ∷ m) = (get j m ≡ none) × Distinct m

  get-replace :
      (j k : K) (v : V) (m : Map K V)
      → get j (replace k v m)
        ≡ (if eqb j k then (if contains k m then some v else none) else get j m)
  unfolding get replace
  get-replace j k v [] = ground arith
  get-replace j k v ((i, w) ∷ m) = ground (arith, get-replace j k v m)

  get-place :
      (j k : K) (v : V) (m : Map K V)
      → get k m ≡ none
      → get j (place k v m) ≡ (if eqb j k then some v else get j m)
  unfolding get place
  get-place j k v [] h = refl
  get-place j k v ((i, w) ∷ m) h = ground (arith, get-place j k v m)

  pub get-insert :
      (j k : K) (v : V) (m : Map K V) → get j (insert k v m) ≡ (if eqb j k then some v else get j m)
  unfolding insert
  get-insert j k v m = ground (arith, get-replace j k v m, get-place j k v m)

  pub get-remove :
      (j k : K) (m : Map K V) → get j (remove k m) ≡ (if eqb j k then none else get j m)
  unfolding get remove retain
  get-remove j k [] = ground arith
  get-remove j k ((i, w) ∷ m) = ground (arith, get-remove j k m)

  pub get-retain-none :
      (k : K) (p : K → V → Bool) (m : Map K V) → get k m ≡ none → get k (retain p m) ≡ none
  unfolding get retain
  get-retain-none k p [] h = refl
  get-retain-none k p ((i, w) ∷ m) h = ground (arith, get-retain-none k p m)

  -- An entry that passes the test stays.
  pub get-retain-live :
      (k : K) (p : K → V → Bool) (m : Map K V) (v : V)
      → get k m ≡ some v
      → p k v ≡ true
      → get k (retain p m) ≡ some v
  unfolding get retain
  get-retain-live k p [] v h l = cc
  get-retain-live k p ((i, w) ∷ m) v h l = ground (arith, get-retain-live k p m v)

  pub Distinct-retain : (p : K → V → Bool) (m : Map K V) → Distinct m → Distinct (retain p m)
  unfolding retain
  Distinct-retain p [] d = tt
  Distinct-retain p ((i, w) ∷ m) d = ground (arith, get-retain-none i p m, Distinct-retain p m d.1)

  pub length-retain-le : (p : K → V → Bool) (m : Map K V) → length (retain p m) ≤ length m
  unfolding retain
  length-retain-le p [] = omega arith
  length-retain-le p ((i, w) ∷ m) = ground (arith, length-retain-le p m)

  pub get-retain :
      (k : K) (p : K → V → Bool) (m : Map K V)
      → Distinct m
      → get k (retain p m)
        ≡ elim (get k m) [ none ↦ none | some v ↦ if p k v then some v else none ]
  unfolding get retain
  get-retain k p [] d = refl
  get-retain k p ((i, w) ∷ m) d = ground (arith, get-retain k p m d.1, get-retain-none k p m)

  -- A key that fails the test with every value is not kept.
  pub get-retain_never :
      (k : K) (p : K → V → Bool) (m : Map K V)
      → ((v : V) → p k v ≡ false)
      → get k (retain p m) ≡ none
  unfolding get retain
  get-retain_never k p [] h = refl
  get-retain_never k p ((i, w) ∷ m) h = ground (arith, h w, get-retain_never k p m h)

  -- What a filter keeps was there, and passes the test.
  pub get-retain-some :
      (k : K) (p : K → V → Bool) (m : Map K V) {v : V}
      → Distinct m
      → get k (retain p m) ≡ some v
      → (get k m ≡ some v) × (p k v ≡ true)
  get-retain-some k p m d h = ground (arith, get-retain k p m d)

  pub contains-retain :
      (k : K) (p : K → V → Bool) (m : Map K V)
      → contains k (retain p m) ≡ true
      → contains k m ≡ true
  contains-retain k p m h = ground (arith, get-retain-none k p m)

  Distinct-replace : (k : K) (v : V) (m : Map K V) → Distinct m → Distinct (replace k v m)
  unfolding replace
  Distinct-replace k v [] d = tt
  Distinct-replace k v ((i, w) ∷ m) d =
      ground (arith, get-replace i k v m, Distinct-replace k v m d.1)

  Distinct-place :
      (k : K) (v : V) (m : Map K V) → get k m ≡ none → Distinct m → Distinct (place k v m)
  unfolding place get
  Distinct-place k v [] h d = (refl, tt)
  Distinct-place k v ((i, w) ∷ m) h d = ground (arith, get-place i k v m, Distinct-place k v m)

  pub Distinct-insert : (k : K) (v : V) (m : Map K V) → Distinct m → Distinct (insert k v m)
  unfolding insert
  Distinct-insert k v m d = ground (arith, Distinct-replace k v m d, Distinct-place k v m)

  pub Distinct-remove : (k : K) (m : Map K V) → Distinct m → Distinct (remove k m)
  unfolding remove
  Distinct-remove k m d = Distinct-retain _ m d
