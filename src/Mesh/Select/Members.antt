-- ===== src/Mesh/Select/Members.antt =====
-- Which peers are selected: those that were offered and not excluded, each id once.
use nostr_pubsub.Prelude.{
  ℕ, zero, suc, ◌+◌, ◌≤◌, ◌<◌, ◌≡◌, ◌⊎◌, refl, Bool, true, Option, some, List, [], ◌∷◌, min, arith,
  if◌then◌else◌, ltb, leb, keep, any, length, take, drop, Bool-cases, Option-cases, inl, inr,
}
use nostr_pubsub.Prelude.Map.{
  Text, Map, text_key, eqb, get, contains, insert, replace, place, Distinct, Distinct-insert,
  get-insert,
}
use nostr_pubsub.Mesh.Types.{MeshPeer, is_unknown}
use nostr_pubsub.Mesh.Select.{
  is_allowed, dedup_step, dedup, values, precedes, insert_sorted, sort_peers, count_unknown,
  replace_last_known, reserve_unknown, candidates, cut, select_mesh_peers,
}

-- How often an id stands in a list of peers.
abbrev pub occurs : Text → List MeshPeer → ℕ
occurs i [] = 0
occurs i (p ∷ ps) = (if eqb i p.id then 1 else 0) + occurs i ps

occurs-insert_sorted :
    (i : Text) (p : MeshPeer) (ps : List MeshPeer)
    → occurs i (insert_sorted p ps) ≡ occurs i (p ∷ ps)
unfolding insert_sorted
occurs-insert_sorted i p [] = refl
occurs-insert_sorted i p (q ∷ qs) = elim (Bool-cases (precedes q p)) [
  | inl e ↦ rw (e, insert_sorted) (omega (arith, occurs-insert_sorted i p qs))
  | inr e ↦ rw (e, insert_sorted)
]

occurs-sort : (i : Text) (ps : List MeshPeer) → occurs i (sort_peers ps) ≡ occurs i ps
unfolding sort_peers
occurs-sort i [] = refl
occurs-sort i (p ∷ ps) = omega (arith, occurs-insert_sorted i p (sort_peers ps), occurs-sort i ps)

-- The map of the deduplication: each peer under its own id.
abbrev Keyed : Map Text MeshPeer → Type 0
Keyed [] = Unit
Keyed ((k, p) ∷ m) = (p.id ≡ k) × Keyed m

Keyed-replace : (p : MeshPeer) (m : Map Text MeshPeer) → Keyed m → Keyed (replace p.id p m)
unfolding replace
Keyed-replace p [] h = tt
Keyed-replace p ((k, q) ∷ m) h = ground (arith, Keyed-replace p m h.1)

Keyed-place : (p : MeshPeer) (m : Map Text MeshPeer) → Keyed m → Keyed (place p.id p m)
unfolding place
Keyed-place p [] h = (refl, tt)
Keyed-place p ((k, q) ∷ m) h = ground (arith, Keyed-place p m h.1)

Keyed-insert : (p : MeshPeer) (m : Map Text MeshPeer) → Keyed m → Keyed (insert p.id p m)
unfolding insert
Keyed-insert p m h = ground (arith, Keyed-replace p m h, Keyed-place p m h)

occurs-values :
    (i : Text) (m : Map Text MeshPeer)
    → Keyed m
    → Distinct m
    → occurs i (values m) ≡ (if contains i m then 1 else 0)
unfolding get
occurs-values i [] h d = refl
occurs-values i ((k, p) ∷ m) h d = ground (arith, occurs-values i m h.1 d.1)

dedup_step-Keyed :
    (p : MeshPeer) (m : Map Text MeshPeer)
    → Keyed m
    → Distinct m
    → Keyed (dedup_step m p) × Distinct (dedup_step m p)
unfolding dedup_step
dedup_step-Keyed p m h d = ground (arith, Keyed-insert p m h, Distinct-insert p.id p m d)

contains-dedup_step :
    (i : Text) (p : MeshPeer) (m : Map Text MeshPeer)
    → contains i (dedup_step m p) ≡ (if eqb i p.id then true else contains i m)
unfolding dedup_step
contains-dedup_step i p m = ground (arith, get-insert i p.id p m)

-- Whether some peer of the list has the id.
abbrev pub is_offered : Text → List MeshPeer → Bool
is_offered i = any (λ p. eqb i p.id)

occurs-dedup :
    (i : Text) (ps : List MeshPeer) (m : Map Text MeshPeer)
    → Keyed m
    → Distinct m
    → occurs i (values (dedup m ps))
      ≡ (if is_offered i ps then 1 else (if contains i m then 1 else 0))
unfolding dedup
occurs-dedup i [] m h d = occurs-values i m h d
occurs-dedup i (p ∷ ps) m h d =
    let (h', d') = dedup_step-Keyed p m h d in
    ground (arith, occurs-dedup i ps (dedup_step m p) h' d', contains-dedup_step i p m)

occurs-candidates :
    (i : Text) (peers : List MeshPeer) (excluded : Option Text)
    → occurs i (candidates peers excluded)
      ≡ (if is_offered i (keep (is_allowed excluded) peers) then 1 else 0)
unfolding candidates get
occurs-candidates i peers excluded = ground (
  arith,
  occurs-sort i (values (dedup [] (keep (is_allowed excluded) peers))),
  occurs-dedup i (keep (is_allowed excluded) peers) [] tt tt,
)

occurs-take-drop :
    (i : Text) (n : ℕ) (ps : List MeshPeer)
    → occurs i (take n ps) + occurs i (drop n ps) ≡ occurs i ps
occurs-take-drop i zero ps = omega arith
occurs-take-drop i (suc n) [] = omega arith
occurs-take-drop i (suc n) (p ∷ ps) = omega (arith, occurs-take-drop i n ps)

occurs-keep-le :
    (i : Text) (t : MeshPeer → Bool) (ps : List MeshPeer) → occurs i (keep t ps) ≤ occurs i ps
occurs-keep-le i t [] = omega arith
occurs-keep-le i t (p ∷ ps) = ground (arith, occurs-keep-le i t ps)

occurs-replace :
    (i : Text) (r : MeshPeer) (xs ys : List MeshPeer)
    → replace_last_known r xs ≡ some ys
    → occurs i ys ≤ occurs i xs + (if eqb i r.id then 1 else 0)
unfolding replace_last_known
occurs-replace i r [] ys h = cc
occurs-replace i r (x ∷ xs) ys h = elim (Option-cases (replace_last_known r xs)) [
  | inl e ↦ ground arith
  | inr (zs, e) ↦ ground (arith, occurs-replace i r xs zs e)
]

occurs-reserve :
    (i : Text) (required : ℕ) (rs selected : List MeshPeer)
    → occurs i (reserve_unknown required rs selected) ≤ occurs i selected + occurs i rs
unfolding reserve_unknown
occurs-reserve i required [] selected = omega arith
occurs-reserve i required (r ∷ rs) selected =
    elim (Bool-cases (ltb (count_unknown selected) required)) [
      | inr e ↦ rw (e, reserve_unknown) (omega arith)
      | inl e ↦ elim (Option-cases (replace_last_known r selected)) [
        | inl f ↦ rw (e, f, reserve_unknown) (omega arith)
        | inr (s', f) ↦
            rw (e, f, reserve_unknown)
              (omega (arith, occurs-replace i r selected s' f, occurs-reserve i required rs s'))
      ]
    ]

occurs-cut :
    (i : Text) (cs : List MeshPeer) (fanout reserve : ℕ)
    → occurs i (cut cs fanout reserve) ≤ occurs i cs
unfolding cut
occurs-cut i cs fanout reserve = elim (Bool-cases (leb (length cs) fanout)) [
  | inl e ↦ rw (e, cut) (omega arith)
  | inr e ↦
      let n = min fanout (length cs) in
      rw (e, cut)
        (omega (
          arith,
          occurs-reserve i (min (min reserve n) (count_unknown cs)) (keep is_unknown (drop n cs))
              (take n cs),
          occurs-take-drop i n cs,
          occurs-keep-le i is_unknown (drop n cs),
        ))
]

-- An id is selected at most once, and only if an allowed peer was offered under it; unless there
-- are more candidates than the fanout, it is selected exactly then.
pub occurs-select_mesh_peers :
    (i : Text) (peers : List MeshPeer) (excluded : Option Text) (fanout reserve : ℕ)
    → let offered : ℕ = if is_offered i (keep (is_allowed excluded) peers) then 1 else 0 in
      let selected = select_mesh_peers peers excluded fanout reserve in
      (occurs i selected ≤ offered)
      × ((fanout < length (candidates peers excluded)) ⊎ (occurs i selected ≡ offered))
unfolding select_mesh_peers cut
occurs-select_mesh_peers i peers excluded fanout reserve = (
  ground (
    arith,
    occurs-cut i (candidates peers excluded) fanout reserve,
    occurs-candidates i peers excluded,
  ),
  elim (Bool-cases (ltb fanout (length (candidates peers excluded)))) [
    | inl b ↦ inl (ground (arith, b))
    | inr b ↦ inr (ground (arith, b, occurs-candidates i peers excluded))
  ],
)
