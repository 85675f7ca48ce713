-- ===== src/Pagination/Invariant.antt =====
-- What the cursor of crates/nostr-pubsub/src/pagination.rs keeps true.
use nostr_pubsub.Prelude.{
  ℕ, ◌-◌, ◌*◌, ◌≤◌, ◌<◌, ◌≡◌, ◌==◌, refl, false, ◌||◌, none, some, List, [], ◌∷◌, ◌⊎◌, inl, inr,
  arith, length, ltb, leb, min, u64_max, subst, Bool-cases, if_both,
}
use nostr_pubsub.Prelude.Map.{Text, text_key}
use nostr_pubsub.Prelude.Map.Queue.{Unrepeated}
use nostr_pubsub.Pagination.Cursor.{
  Filter, unwrap_or, expect, exceeds, is_active, at_end, HistoryEvent, PageToken, PageCompletion,
  complete, partial, PageStatus, retry, exhausted, ActivePage, HistoryCursor, new_cursor,
  begin_page, observe, move_to, stop, advance, close_page, finish_page, cancel,
}

-- The page in progress: the newest token, and distinct events within the limit.
pub record IsPage {R : Type 0} (c : HistoryCursor R) (p : ActivePage) : Type 0 where
  pub own_cursor : p.token.cursor ≡ c.identity
  pub own_page : p.token.page ≡ c.generation
  pub once : Unrepeated p.seen
  pub seen_le : length p.seen ≤ c.max_limit
  pub running : c.stopped ≡ false

-- Both fields of the filter are set, and the limits are in order.
pub record IsWindow {R : Type 0} (c : HistoryCursor R) : Type 0 where
  pub until_set : (u : ℕ) × (c.filter.until ≡ some u)
  pub limit_set : (l : ℕ) × (c.filter.limit ≡ some l) × (0 < l) × (l ≤ c.max_limit)
  pub initial_pos : 0 < c.initial_limit
  pub initial_le : c.initial_limit ≤ c.max_limit
  pub max_le : c.max_limit ≤ 65536

-- The cursor, with its page in progress.
pub record IsCursor {R : Type 0} (c : HistoryCursor R) : Type 0 where
  pub window : IsWindow c
  pub generation_le : c.generation ≤ u64_max
  pub page : (p : ActivePage) → c.active ≡ some p → IsPage c p

-- The calls of a cursor.
pub data CursorCall (E : Type 0) : Type 0 where
  begin abort : CursorCall E
  see : PageToken → Text → E → CursorCall E
  finish : PageToken → PageCompletion → CursorCall E

module _ {R E : Type 0} ⦃nostr : HistoryEvent R E⦄ where
  unfoldable pub call_cursor : CursorCall E → HistoryCursor R → HistoryCursor R
  call_cursor begin c = (begin_page c).0
  call_cursor abort c = cancel c
  call_cursor (see token source e) c = (observe token source e c).0
  call_cursor (finish token completion) c = (finish_page token completion c).0

  unfoldable pub run_cursor : List (CursorCall E) → HistoryCursor R → HistoryCursor R
  run_cursor [] c = c
  run_cursor (k ∷ ks) c = run_cursor ks (call_cursor k c)

inr_of : {A B : Type 0} (x y : B) → Path (A ⊎ B) (inr x) (inr y) → x ≡ y
inr_of x y h = cc

pub some_of : {A : Type 0} (x y : A) → some x ≡ some y → x ≡ y
some_of x y h = cc

module _ {R : Type 0} where
  pub new_cursor-IsCursor :
      (source : Text) (filter : Filter R) (now max_limit next_id : ℕ) (c : HistoryCursor R)
      → (new_cursor source filter now max_limit next_id).1 ≡ inr c
      → IsCursor c
  unfolding new_cursor
  new_cursor-IsCursor source filter now max_limit next_id c h =
      let limit = unwrap_or filter.limit 100 in
      let until = unwrap_or filter.until now in
      elim (Bool-cases ((limit == 0) || (ltb max_limit limit || ltb 65536 max_limit))) [
        | inl b ↦ absurd (ground arith)
        | inr b ↦ elim (Bool-cases (exceeds filter.since until)) [
          | inl d ↦ absurd (ground arith)
          | inr d ↦ elim (Bool-cases (next_id == u64_max)) [
            | inl f ↦ absurd (ground arith)
            | inr f ↦ subst IsCursor (inr_of _ c (rw (b, d, f, new_cursor) at h)) (record {
              window = record {
                until_set = (until, refl);
                limit_set = (limit, refl, ground arith, ground arith);
                initial_pos = ground arith;
                initial_le = ground arith;
                max_le = ground arith;
              };
              generation_le = omega arith;
              page = λ p e. absurd (ground arith);
            })
          ]
        ]
      ]

  pub begin_page-IsCursor : (c : HistoryCursor R) → IsCursor c → IsCursor (begin_page c).0
  unfolding begin_page
  begin_page-IsCursor c i = elim (Bool-cases (c.stopped || is_active c)) [
    | inl b ↦ rw (b, begin_page) i
    | inr b ↦ elim (Bool-cases (c.generation == u64_max)) [
      | inl d ↦ rw (b, d, begin_page) i
      | inr d ↦
          rw (b, d, begin_page)
            (record {
              window = record {
                until_set = i.window.until_set;
                limit_set = i.window.limit_set;
                initial_pos = i.window.initial_pos;
                initial_le = i.window.initial_le;
                max_le = i.window.max_le;
              };
              generation_le = ground (arith, i.generation_le);
              page = λ p e. subst (IsPage _) (some_of _ p e) (record {
                own_cursor = refl;
                own_page = refl;
                once = tt;
                seen_le = omega arith;
                running = ground arith;
              });
            })
    ]
  ]

  -- Windows move within the limits.
  move_to-IsWindow :
      (until limit : ℕ) (c : HistoryCursor R)
      → 0 < limit
      → limit ≤ c.max_limit
      → IsWindow c
      → IsWindow (move_to until limit c)
  move_to-IsWindow until limit c h h' w = record {
    until_set = (until, refl);
    limit_set = (limit, refl, h, h');
    initial_pos = w.initial_pos;
    initial_le = w.initial_le;
    max_le = w.max_le;
  }

  stop-IsWindow : (c : HistoryCursor R) → IsWindow c → IsWindow (stop c)
  stop-IsWindow c w = record {
    until_set = w.until_set;
    limit_set = w.limit_set;
    initial_pos = w.initial_pos;
    initial_le = w.initial_le;
    max_le = w.max_le;
  }

  abbrev WindowOf : HistoryCursor R × PageStatus → Type 0
  WindowOf x = IsWindow x.0

  advance-IsWindow :
      (oldest until limit unique : ℕ) (c : HistoryCursor R)
      → 0 < limit
      → IsWindow c
      → IsWindow (advance oldest until limit unique c).0
  unfolding advance
  advance-IsWindow oldest until limit unique c h w =
      if_both WindowOf (ltb oldest until)
        (λ b. move_to-IsWindow oldest c.initial_limit c w.initial_pos w.initial_le w)
        (λ b.
          if_both WindowOf (leb limit unique)
            (λ d.
              if_both WindowOf (limit == c.max_limit) (λ f. stop-IsWindow c w)
                (λ f.
                  move_to-IsWindow until (min (min (limit * 2) u64_max) c.max_limit) c
                    (ground (arith, w.initial_pos, w.initial_le)) (ground arith) w))
            (λ d.
              if_both WindowOf (at_end c.filter.since until) (λ f. stop-IsWindow c w)
                (λ f. move_to-IsWindow (until - 1) c.initial_limit c w.initial_pos w.initial_le w)))

  pub limit_pos : (c : HistoryCursor R) → IsWindow c → 0 < expect c.filter.limit
  limit_pos c w = let (l, e, pos, le) = w.limit_set in rw e pos

  pub close_page-IsWindow :
      (completion : PageCompletion) (p : ActivePage) (c : HistoryCursor R)
      → IsWindow c
      → IsWindow (close_page completion p c).0
  unfolding close_page
  close_page-IsWindow completion p c w =
      if_both WindowOf p.overflow (λ b. stop-IsWindow c w)
        (λ b.
          elim completion
            as (λ k. WindowOf (elim k [
              | partial ↦ (c, retry)
              | complete ↦ elim p.oldest [
                | none ↦ (stop c, exhausted)
                | some oldest ↦
                    advance oldest (expect c.filter.until) (expect c.filter.limit) (length p.seen) c
              ]
            ])) [
              | partial ↦ w
              | complete ↦
                  elim p.oldest
                    as (λ o. WindowOf (elim o [
                      | none ↦ (stop c, exhausted)
                      | some oldest ↦
                          advance oldest (expect c.filter.until) (expect c.filter.limit)
                            (length p.seen) c
                    ])) [
                      | none ↦ stop-IsWindow c w
                      | some oldest ↦
                          advance-IsWindow oldest (expect c.filter.until) (expect c.filter.limit)
                            (length p.seen) c (limit_pos c w) w
                    ]
            ])

  -- Closing a page moves the filter or stops: the rest stays.
  pub kept-close_page :
      (completion : PageCompletion) (p : ActivePage) (c : HistoryCursor R)
      → let c' = (close_page completion p c).0 in
        (c'.active ≡ c.active)
        × (c'.generation ≡ c.generation)
        × (c'.identity ≡ c.identity)
        × (c'.max_limit ≡ c.max_limit)
  unfolding close_page advance
  kept-close_page completion p c = ground arith
