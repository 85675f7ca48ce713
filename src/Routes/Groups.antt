-- ===== src/Routes/Groups.antt =====
-- The groups of crates/nostr-pubsub/src/routes.rs: the candidates of a dataset, in their order.
use nostr_pubsub.Prelude.{
  ◌≡◌, refl, ◌∙◌, Bool, List, [], ◌∷◌, ◌++◌, keep, append_assoc, append-nil, sym, arith,
  if◌then◌else◌, Bool-cases, inl, inr,
}
use nostr_pubsub.Prelude.Map.{Text, text_key, eqb}
use nostr_pubsub.Routes.Types.{Candidate}
use nostr_pubsub.Routes.Query.{dataset_of, join_group, join_groups, group_by_dataset}

module _ {F E : Type 0} where
  -- The replicas of a dataset.
  abbrev pub find_group : Text → List (Text × List (Candidate F E)) → List (Candidate F E)
  find_group d [] = []
  find_group d ((g, replicas) ∷ groups) = if eqb d g then replicas else find_group d groups

  abbrev of_dataset : Text → Candidate F E → Bool
  of_dataset d c = eqb d (dataset_of c)

  find_group-join_group :
      (d : Text) (c : Candidate F E) (groups : List (Text × List (Candidate F E)))
      → find_group d (join_group c groups) ≡ find_group d groups ++ keep (of_dataset d) (c ∷ [])
  unfolding join_group
  find_group-join_group d c [] = ground arith
  find_group-join_group d c ((g, replicas) ∷ groups) = ground (
    arith,
    find_group-join_group d c groups,
    append-nil replicas,
    append-nil (find_group d groups),
  )

  find_group-join_groups :
      (d : Text) (cs : List (Candidate F E)) (groups : List (Text × List (Candidate F E)))
      → find_group d (join_groups cs groups) ≡ find_group d groups ++ keep (of_dataset d) cs
  unfolding join_groups
  find_group-join_groups d [] groups = sym (append-nil (find_group d groups))
  find_group-join_groups d (c ∷ cs) groups =
      find_group-join_groups d cs (join_group c groups) ∙ elim (Bool-cases (of_dataset d c)) [
        | inl b ↦
            rw (find_group-join_group d c groups, b)
              (append_assoc (find_group d groups) (c ∷ []) (keep (of_dataset d) cs))
        | inr b ↦ rw (find_group-join_group d c groups, b, append-nil (find_group d groups)) refl
      ]

  -- The replicas of a dataset are the candidates of this dataset, all of them, in their order.
  pub find_group-group_by_dataset :
      (d : Text) (cs : List (Candidate F E))
      → find_group d (group_by_dataset cs) ≡ keep (λ c. eqb d (dataset_of c)) cs
  find_group-group_by_dataset d cs = find_group-join_groups d cs []
