-- ===== src/Fips/Pending/Retain.antt =====
-- A `retain` that changes values: what is left at a key, and the order beside it.
use nostr_pubsub.Prelude.{◌≤◌, ◌≡◌, refl, Option, none, some, List, [], ◌∷◌, keep, length, arith}
use nostr_pubsub.Prelude.Map.{Text, text_key, Map, get, contains, Distinct}
use nostr_pubsub.Prelude.Map.Queue.{elem-keep, Unrepeated-keep, Synced}
use nostr_pubsub.Fips.Pending.{retain_map}

module _ {V : Type 0} (f : V → Option V) where
  get-retain_map-none : (k : Text) (m : Map Text V) → get k m ≡ none → get k (retain_map f m) ≡ none
  unfolding get retain_map
  get-retain_map-none k [] h = refl
  get-retain_map-none k ((j, v) ∷ m) h = ground (arith, get-retain_map-none k m)

  pub get-retain_map :
      (k : Text) (m : Map Text V)
      → Distinct m
      → get k (retain_map f m) ≡ elim (get k m) [ none ↦ none | some v ↦ f v ]
  unfolding get retain_map
  get-retain_map k [] d = refl
  get-retain_map k ((j, v) ∷ m) d = ground (arith, get-retain_map k m d.1, get-retain_map-none k m)

  Distinct-retain_map : (m : Map Text V) → Distinct m → Distinct (retain_map f m)
  unfolding retain_map
  Distinct-retain_map [] d = tt
  Distinct-retain_map ((j, v) ∷ m) d =
      ground (arith, get-retain_map-none j m, Distinct-retain_map m d.1)

  pub length-retain_map-le : (m : Map Text V) → length (retain_map f m) ≤ length m
  unfolding retain_map
  length-retain_map-le [] = omega arith
  length-retain_map-le ((j, v) ∷ m) = ground (arith, length-retain_map-le m)

  pub Synced-retain_map :
      {q : List Text} {m : Map Text V}
      → Synced q m
      → Synced (keep (λ k. contains k (retain_map f m)) q) (retain_map f m)
  Synced-retain_map {q} {m} s = record {
    once = Unrepeated-keep _ q s.once;
    distinct = Distinct-retain_map m s.distinct;
    same = λ j. ground (
      arith,
      elem-keep j (λ k. contains k (retain_map f m)) q,
      s.same j,
      get-retain_map-none j m,
    );
  }
