-- ===== src/Routes/Router.antt =====
-- `publish_to_routes` of crates/nostr-pubsub/src/router.rs, which publishes an event by every route that
-- the policy allows.
use nostr_pubsub.Prelude.{
  ℕ, suc, ◌==◌, Bool, true, false, not, ◌&&◌, ◌||◌, ◌≡◌, arith, any, Bool-cases, Sum-cases, Option,
  none, some, List, [], ◌∷◌, ◌++◌, ◌⊎◌, inl, inr, length, ltb, if◌then◌else◌,
}
use nostr_pubsub.Prelude.Map.{Text}
use nostr_pubsub.Prelude.Int.{ℤ, pos, ltb_ℤ, i32_min}
use nostr_pubsub.Routes.Types.{EventSource, is_drop, SourceRoute, SourcePolicy}
use nostr_pubsub.Routes.Query.{candidate_of}

pub record PublishReport : Type 0 where
  pub accepted : Bool
  pub priority : ℤ
  pub reason : Option Text

-- A target with its publisher: an error's text, or its report.
pub record PublishSource (E : Type 0) : Type 0 where
  pub route : SourceRoute
  pub publish : E → EventSource → Text ⊎ PublishReport

-- The variables of the loop.
pub record Tally : Type 0 where
  pub accepted : ℕ
  pub attempted : ℕ
  pub priority : ℤ
  pub failures : List Text

abbrev new_tally : Tally
new_tally = record { accepted = 0; attempted = 0; priority = i32_min; failures = [] }

-- "rejected"
abbrev rejected_text : Text
rejected_text = 114 ∷ 101 ∷ 106 ∷ 101 ∷ 99 ∷ 116 ∷ 101 ∷ 100 ∷ []

-- "no publish route was selected"
abbrev no_route_text : Text
no_route_text =
    110 ∷ 111 ∷ 32 ∷ 112 ∷ 117 ∷ 98 ∷ 108 ∷ 105 ∷ 115 ∷ 104 ∷ 32 ∷ 114 ∷ 111 ∷ 117 ∷ 116 ∷ 101 ∷ 32
    ∷ 119 ∷ 97 ∷ 115 ∷ 32 ∷ 115 ∷ 101 ∷ 108 ∷ 101 ∷ 99 ∷ 116 ∷ 101 ∷ 100 ∷ []

-- `format!("{}: {}", id, text)`
abbrev failure_text : Text → Text → Text
failure_text id text = id ++ (58 ∷ 32 ∷ text)

-- `join("; ")`
abbrev pub join_failures : List Text → Text
join_failures [] = []
join_failures (t ∷ []) = t
join_failures (t ∷ u ∷ us) = t ++ (59 ∷ 32 ∷ join_failures (u ∷ us))

abbrev max_ℤ : ℤ → ℤ → ℤ
max_ℤ a b = if ltb_ℤ b a then a else b

-- One target's result.
unfoldable pub count_result : Text → Text ⊎ PublishReport → Tally → Tally
count_result id (inl e) t = record t {
  attempted = suc t.attempted;
  failures = t.failures ++ failure_text id e ∷ [];
}
count_result id (inr r) t =
    if r.accepted
    then record t {
      accepted = suc t.accepted;
      attempted = suc t.attempted;
      priority = max_ℤ t.priority r.priority;
    }
    else record t {
      attempted = suc t.attempted;
      failures =
          t.failures
          ++ failure_text id (elim r.reason as (λ _. Text) [ none ↦ rejected_text | some x ↦ x ])
            ∷ [];
    }

-- The loop over the targets; an error of the policy ends it.
unfoldable pub publish_all :
    {E : Type 0} → SourcePolicy → E → EventSource → List (PublishSource E) → Tally → Text ⊎ Tally
publish_all policy e source [] t = inr t
publish_all policy e source (p ∷ ps) t =
    elim (policy (candidate_of p.route) none p.route.capabilities) [
      | inl x ↦ inl x
      | inr decision ↦ elim (is_drop decision) [
        | true ↦ publish_all policy e source ps t
        | false ↦ publish_all policy e source ps (count_result p.route.id (p.publish e source) t)
      ]
    ]

unfoldable pub report_of : Tally → PublishReport
report_of t = record {
  accepted = ltb 0 t.accepted;
  priority = if ltb 0 t.accepted then t.priority else pos 0;
  reason =
      if length t.failures == 0
      then (if t.attempted == 0 then some no_route_text else none)
      else some (join_failures t.failures);
}

unfoldable pub publish_to_routes :
    {E : Type 0} → SourcePolicy → E → EventSource → List (PublishSource E) → Text ⊎ PublishReport
publish_to_routes policy e source targets = elim (publish_all policy e source targets new_tally) [
  | inl x ↦ inl x
  | inr t ↦ inr (report_of t)
]

-- Whether a target that the policy allows accepts the event.
abbrev is_accepted : {E : Type 0} → SourcePolicy → E → EventSource → PublishSource E → Bool
is_accepted policy e source p = elim (policy (candidate_of p.route) none p.route.capabilities) [
  | inl x ↦ false
  | inr decision ↦
      not (is_drop decision)
      && elim (p.publish e source) as (λ _. Bool) [ inl x ↦ false | inr r ↦ r.accepted ]
]

count_result-accepted :
    (id : Text) (r : Text ⊎ PublishReport) (t : Tally)
    → ltb 0 (count_result id r t).accepted
      ≡ (ltb 0 t.accepted || elim r as (λ _. Bool) [ inl x ↦ false | inr p ↦ p.accepted ])
unfolding count_result
count_result-accepted id (inl e) t = ground arith
count_result-accepted id (inr r) t = ground arith

publish_all-accepted :
    {E : Type 0} (policy : SourcePolicy) (e : E) (source : EventSource)
    (ps : List (PublishSource E)) (t u : Tally)
    → publish_all policy e source ps t ≡ inr u
    → ltb 0 u.accepted ≡ (ltb 0 t.accepted || any (is_accepted policy e source) ps)
unfolding publish_all
publish_all-accepted policy e source [] t u h = ground arith
publish_all-accepted policy e source (p ∷ ps) t u h =
    elim (Sum-cases (policy (candidate_of p.route) none p.route.capabilities)) [
      | inl (x, f) ↦ absurd (ground (arith, rw (f, publish_all) at h))
      | inr (decision, f) ↦ elim (Bool-cases (is_drop decision)) [
        | inl b ↦
            ground
              (arith, publish_all-accepted policy e source ps t u (rw (f, b, publish_all) at h))
        | inr b ↦ ground (
          arith,
          publish_all-accepted policy e source ps (count_result p.route.id (p.publish e source) t) u
              (rw (f, b, publish_all) at h),
          count_result-accepted p.route.id (p.publish e source) t,
        )
      ]
    ]

publish_to_routes-accepted :
    {E : Type 0} (policy : SourcePolicy) (e : E) (source : EventSource)
    (ps : List (PublishSource E)) (r : PublishReport)
    → publish_to_routes policy e source ps ≡ inr r
    → r.accepted ≡ any (is_accepted policy e source) ps
unfolding publish_to_routes report_of
publish_to_routes-accepted policy e source ps r h =
    elim (Sum-cases (publish_all policy e source ps new_tally)) [
      | inl (x, f) ↦ absurd (ground (arith, rw (f, publish_to_routes) at h))
      | inr (u, f) ↦ ground (
        arith,
        rw (f, publish_to_routes) at h,
        publish_all-accepted policy e source ps new_tally u f,
      )
    ]
