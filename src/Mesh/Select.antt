-- ===== src/Mesh/Select.antt =====
-- `select_mesh_peers` of crates/nostr-pubsub/src/mesh.rs: which peers an inventory goes to.
pub mod Members
pub mod Unknowns
use nostr_pubsub.Prelude.{
  ℕ, ◌≡◌, Bool, true, false, not, ◌&&◌, ◌||◌, Option, none, some, List, [], ◌∷◌, map, min,
  if◌then◌else◌, ltb, leb, keep, length, take, drop,
}
use nostr_pubsub.Prelude.Int.{ltb_ℤ}
use nostr_pubsub.Prelude.Map.{Text, Map, text_key, eqb, lt_bytes, get, insert}
use nostr_pubsub.Mesh.Types.{MeshPeer, is_unknown, effective_score}

-- `excluded_peer != Some(peer.id)`
abbrev pub is_allowed : Option Text → MeshPeer → Bool
is_allowed none p = true
is_allowed (some x) p = not (eqb x p.id)

-- One turn of the loop that keeps the first entry of each id, or the first scored one.
unfoldable pub dedup_step : Map Text MeshPeer → MeshPeer → Map Text MeshPeer
dedup_step m p = elim (get p.id m) [
  | none ↦ insert p.id p m
  | some existing ↦ if is_unknown existing && not (is_unknown p) then insert p.id p m else m
]

unfoldable pub dedup : Map Text MeshPeer → List MeshPeer → Map Text MeshPeer
dedup m [] = m
dedup m (p ∷ peers) = dedup (dedup_step m p) peers

-- `into_values`
abbrev pub values : Map Text MeshPeer → List MeshPeer
values = map (λ e. e.1)

-- The comparison of the sort: higher score first, known before unknown, then the id.
unfoldable pub precedes : MeshPeer → MeshPeer → Bool
precedes l r =
    if ltb_ℤ (effective_score r) (effective_score l)
    then true
    else (if ltb_ℤ (effective_score l) (effective_score r)
        then false
        else (if not (is_unknown l) && is_unknown r
            then true
            else (if is_unknown l && not (is_unknown r) then false else lt_bytes l.id r.id)))

-- A stable sort: an item goes before the first one that does not precede it.
unfoldable pub insert_sorted : MeshPeer → List MeshPeer → List MeshPeer
insert_sorted p [] = p ∷ []
insert_sorted p (q ∷ qs) = if precedes q p then q ∷ insert_sorted p qs else p ∷ q ∷ qs

unfoldable pub sort_peers : List MeshPeer → List MeshPeer
sort_peers [] = []
sort_peers (p ∷ ps) = insert_sorted p (sort_peers ps)

abbrev pub count_unknown : List MeshPeer → ℕ
count_unknown ps = length (keep is_unknown ps)

-- `rposition` of a known peer and the assignment at that index.
unfoldable pub replace_last_known : MeshPeer → List MeshPeer → Option (List MeshPeer)
replace_last_known r [] = none
replace_last_known r (x ∷ xs) = elim (replace_last_known r xs) [
  | some ys ↦ some (x ∷ ys)
  | none ↦ if is_unknown x then none else some (r ∷ xs)
]

-- The loop that puts unknown peers in place of the last known ones.
unfoldable pub reserve_unknown : ℕ → List MeshPeer → List MeshPeer → List MeshPeer
reserve_unknown required [] selected = selected
reserve_unknown required (r ∷ rs) selected = elim (ltb (count_unknown selected) required) [
  | false ↦ selected
  | true ↦ elim (replace_last_known r selected) [
    | none ↦ selected
    | some selected' ↦ reserve_unknown required rs selected'
  ]
]

-- The candidates in order, and the cut to `fanout`.
unfoldable pub candidates : List MeshPeer → Option Text → List MeshPeer
candidates peers excluded = sort_peers (values (dedup [] (keep (is_allowed excluded) peers)))

unfoldable pub cut : List MeshPeer → ℕ → ℕ → List MeshPeer
cut cs fanout reserve =
    if leb (length cs) fanout
    then cs
    else reserve_unknown (min (min reserve (min fanout (length cs))) (count_unknown cs))
        (keep is_unknown (drop (min fanout (length cs)) cs)) (take (min fanout (length cs)) cs)

unfoldable pub select_mesh_peers : List MeshPeer → Option Text → ℕ → ℕ → List MeshPeer
unfolding candidates cut
select_mesh_peers peers excluded fanout reserve = cut (candidates peers excluded) fanout reserve
