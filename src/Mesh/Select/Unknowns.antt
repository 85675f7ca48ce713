-- ===== src/Mesh/Select/Unknowns.antt =====
-- How many peers are selected, and how many of them are unknown.
use nostr_pubsub.Prelude.{
  ℕ, zero, suc, ◌+◌, ◌≤◌, ◌≡◌, refl, true, Option, none, some, List, [], ◌∷◌, min, arith, ltb, leb,
  keep, length, take, drop, All, Bool-cases, Option-cases, inl, inr,
}
use nostr_pubsub.Prelude.Map.{Text}
use nostr_pubsub.Mesh.Types.{MeshPeer, is_unknown}
use nostr_pubsub.Mesh.Select.{
  count_unknown, replace_last_known, reserve_unknown, cut, candidates, select_mesh_peers,
}

abbrev Unknown : MeshPeer → Type 0
Unknown p = is_unknown p ≡ true

All-keep-is_unknown : (ps : List MeshPeer) → All Unknown (keep is_unknown ps)
All-keep-is_unknown [] = tt
All-keep-is_unknown (p ∷ ps) = ground (arith, All-keep-is_unknown ps)

-- One replacement keeps the length and adds one unknown peer.
replace_last_known_lem :
    (r : MeshPeer) (xs ys : List MeshPeer)
    → Unknown r
    → replace_last_known r xs ≡ some ys
    → (length ys ≡ length xs) × (count_unknown ys ≡ count_unknown xs + 1)
unfolding replace_last_known
replace_last_known_lem r [] ys u h = cc
replace_last_known_lem r (x ∷ xs) ys u h = elim (Option-cases (replace_last_known r xs)) [
  | inl e ↦ ground arith
  | inr (zs, e) ↦ ground (arith, replace_last_known_lem r xs zs u e)
]

-- It fails only where every peer is unknown.
replace_last_known-none :
    (r : MeshPeer) (xs : List MeshPeer)
    → replace_last_known r xs ≡ none
    → count_unknown xs ≡ length xs
unfolding replace_last_known
replace_last_known-none r [] h = refl
replace_last_known-none r (x ∷ xs) h = elim (Option-cases (replace_last_known r xs)) [
  | inl e ↦ ground (arith, replace_last_known-none r xs e)
  | inr (zs, e) ↦ ground arith
]

reserve_unknown_lem :
    (required : ℕ) (rs selected : List MeshPeer)
    → All Unknown rs
    → required ≤ length selected
    → required ≤ count_unknown selected + length rs
    → (length (reserve_unknown required rs selected) ≡ length selected)
      × (required ≤ count_unknown (reserve_unknown required rs selected))
unfolding reserve_unknown
reserve_unknown_lem required [] selected u h k = omega arith
reserve_unknown_lem required (r ∷ rs) selected u h k =
    elim (Bool-cases (ltb (count_unknown selected) required)) [
      | inr enough ↦ rw (enough, reserve_unknown) (ground arith)
      | inl short ↦ elim (Option-cases (replace_last_known r selected)) [
        | inl e ↦
            rw (short, e, reserve_unknown)
              (refl, ground (arith, replace_last_known-none r selected e))
        | inr (s', e) ↦
            let (len, more) = replace_last_known_lem r selected s' u.0 e in
            let (len', enough) =
              reserve_unknown_lem required rs s' u.1 (omega arith) (omega arith) in
            rw (short, e, reserve_unknown) (omega arith, enough)
      ]
    ]

length-take_min : (n : ℕ) (xs : List MeshPeer) → n ≤ length xs → length (take n xs) ≡ n
length-take_min zero xs h = refl
length-take_min (suc n) [] h = absurd (omega arith)
length-take_min (suc n) (x ∷ xs) h = omega (arith, length-take_min n xs (omega arith))

count_unknown-take-drop :
    (n : ℕ) (xs : List MeshPeer)
    → count_unknown (take n xs) + count_unknown (drop n xs) ≡ count_unknown xs
count_unknown-take-drop zero xs = omega arith
count_unknown-take-drop (suc n) [] = omega arith
count_unknown-take-drop (suc n) (x ∷ xs) = ground (arith, count_unknown-take-drop n xs)

cut_lem :
    (cs : List MeshPeer) (fanout reserve : ℕ)
    → (length (cut cs fanout reserve) ≡ min fanout (length cs))
      × (min (min reserve fanout) (count_unknown cs) ≤ count_unknown (cut cs fanout reserve))
unfolding cut
cut_lem cs fanout reserve = elim (Bool-cases (leb (length cs) fanout)) [
  | inl all ↦ rw (all, cut) (ground arith)
  | inr more ↦
      let n = min fanout (length cs) in
      let (len, enough) =
        reserve_unknown_lem (min (min reserve n) (count_unknown cs)) (keep is_unknown (drop n cs))
          (take n cs) (All-keep-is_unknown (drop n cs))
          (omega (arith, length-take_min n cs (omega arith)))
          (omega (arith, count_unknown-take-drop n cs)) in
      rw (more, cut)
        (omega (arith, len, length-take_min n cs (omega arith)), ground (arith, enough))
]

-- Exactly as many peers are selected as the fanout and the candidates allow, and among them are as
-- many unknown ones as the reserve, the fanout and the candidates allow.
pub select_mesh_peers_counts :
    (peers : List MeshPeer) (excluded : Option Text) (fanout reserve : ℕ)
    → let cs = candidates peers excluded in
      let selected = select_mesh_peers peers excluded fanout reserve in
      (length selected ≡ min fanout (length cs))
      × (min (min reserve fanout) (count_unknown cs) ≤ count_unknown selected)
unfolding select_mesh_peers
select_mesh_peers_counts peers excluded fanout reserve =
    cut_lem (candidates peers excluded) fanout reserve
