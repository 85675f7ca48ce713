-- ===== src/Pagination/Progress.antt =====
-- Paging back with crates/nostr-pubsub/src/pagination.rs comes to an end.
use nostr_pubsub.Prelude.{
  ℕ, suc, ◌+◌, ◌-◌, ◌*◌, ◌≤◌, ◌<◌, ◌≡◌, refl, none, List, [], ◌∷◌, inl, inr, arith, length,
  Bool-cases, Option-cases,
}
use nostr_pubsub.Prelude.Map.{Text, text_key}
use nostr_pubsub.Pagination.Invariant.{
  IsWindow, IsCursor, CursorCall, begin, abort, see, finish, call_cursor, run_cursor, limit_pos,
}
use nostr_pubsub.Pagination.Calls.{call_cursor-IsCursor}
use nostr_pubsub.Pagination.Cursor.{
  expect, HistoryEvent, PageToken, PageCompletion, complete, partial, PageStatus, advanced,
  ActivePage, HistoryCursor, begin_page, page_of, observe_in, observe, advance, close_page,
  finish_page, cancel,
}

-- What is left: the time to page through, and the limits still to try at this time.
unfoldable pub remaining : {R : Type 0} → HistoryCursor R → ℕ
remaining c = expect c.filter.until * (c.max_limit + 1) + (c.max_limit - expect c.filter.limit)

abbrev spent : PageStatus → ℕ
spent advanced = 1
spent _ = 0

mul_mono : (a b c : ℕ) → a ≤ b → a * c ≤ b * c
mul_mono a b c h = grind arith

earlier_window :
    (t u n l l' : ℕ) → t < u → l' ≤ n → t * (n + 1) + (n - l') + 1 ≤ u * (n + 1) + (n - l)
earlier_window t u n l l' h h' = grind (arith, mul_mono (suc t) u (n + 1))

module _ {R : Type 0} where
  abbrev Spends : ℕ → HistoryCursor R × PageStatus → Type 0
  Spends n x = remaining x.0 + spent x.1 ≤ n

  advance-Spends :
      (oldest unique : ℕ) (c : HistoryCursor R)
      → expect c.filter.limit ≤ c.max_limit
      → IsWindow c
      → Spends
          (remaining c)
          (advance oldest (expect c.filter.until) (expect c.filter.limit) unique c)
  unfolding advance remaining
  advance-Spends oldest unique c le w =
      let u = expect c.filter.until in
      let l = expect c.filter.limit in
      ground (
        arith,
        le,
        limit_pos c w,
        w.initial_pos,
        w.initial_le,
        earlier_window oldest u c.max_limit l c.initial_limit,
        earlier_window (u - 1) u c.max_limit l c.initial_limit,
      )

  limit_le : (c : HistoryCursor R) → IsWindow c → expect c.filter.limit ≤ c.max_limit
  limit_le c w = let (l, e, pos, le) = w.limit_set in rw e le

  close_page-Spends :
      (completion : PageCompletion) (p : ActivePage) (c : HistoryCursor R)
      → IsWindow c
      → Spends (remaining c) (close_page completion p c)
  unfolding close_page remaining
  close_page-Spends completion p c w = elim (Bool-cases p.overflow) [
    | inl b ↦ rw (b, close_page) (ground arith)
    | inr b ↦ elim completion as (λ k. Spends (remaining c) (close_page k p c)) [
      | partial ↦ rw (b, close_page) (ground arith)
      | complete ↦ elim (Option-cases p.oldest) [
        | inl g ↦ rw (b, g, close_page) (ground arith)
        | inr (oldest, g) ↦
            rw (b, g, close_page) (advance-Spends oldest (length p.seen) c (limit_le c w) w)
      ]
    ]
  ]

  idle-IsWindow : (c : HistoryCursor R) → IsWindow c → IsWindow (record c { active = none })
  idle-IsWindow c w = record {
    until_set = w.until_set;
    limit_set = w.limit_set;
    initial_pos = w.initial_pos;
    initial_le = w.initial_le;
    max_le = w.max_le;
  }

  finish_page-spent :
      (token : PageToken) (completion : PageCompletion) (c : HistoryCursor R)
      → IsCursor c
      → remaining (finish_page token completion c).0
          + spent (finish_page token completion c).1.status
        ≤ remaining c
  unfolding finish_page remaining
  finish_page-spent token completion c i = elim (Option-cases (page_of token c)) [
    | inl e ↦ rw (e, finish_page) (omega arith)
    | inr (p, e) ↦
        rw (e, finish_page)
          (close_page-Spends completion p (record c { active = none }) (idle-IsWindow c i.window))
  ]

  remaining-begin : (c : HistoryCursor R) → remaining (begin_page c).0 ≡ remaining c
  unfolding begin_page remaining
  remaining-begin c = ground arith

  remaining-abort : (c : HistoryCursor R) → remaining (cancel c) ≡ remaining c
  unfolding cancel remaining
  remaining-abort c = refl

module _ {R E : Type 0} ⦃nostr : HistoryEvent R E⦄ where
  -- How many pages moved the window.
  unfoldable pub advances : List (CursorCall E) → HistoryCursor R → ℕ
  advances [] c = 0
  advances (begin ∷ ks) c = advances ks (begin_page c).0
  advances (abort ∷ ks) c = advances ks (cancel c)
  advances (see token source e ∷ ks) c = advances ks (observe token source e c).0
  advances (finish token completion ∷ ks) c =
      spent (finish_page token completion c).1.status
      + advances ks (finish_page token completion c).0

  remaining-see :
      (token : PageToken) (source : Text) (e : E) (c : HistoryCursor R)
      → remaining (call_cursor (see token source e) c) ≡ remaining c
  unfolding call_cursor observe observe_in remaining
  remaining-see token source e c = ground arith

  -- Whatever a source sends, the pages of a well-formed cursor that move its window, together with
  -- what remains after the calls, are no more than what remained before, where what remains is the
  -- time to page through times one more than the maximal limit, and the limits still to try.
  pub advances-le :
      (ks : List (CursorCall E)) (c : HistoryCursor R)
      → IsCursor c
      → remaining (run_cursor ks c) + advances ks c ≤ remaining c
  unfolding run_cursor advances call_cursor
  advances-le [] c i = omega arith
  advances-le (begin ∷ ks) c i = omega (
    arith,
    remaining-begin c,
    advances-le ks (begin_page c).0 (call_cursor-IsCursor {E = E} begin c i),
  )
  advances-le (abort ∷ ks) c i =
      omega (
        arith,
        remaining-abort c,
        advances-le ks (cancel c) (call_cursor-IsCursor {E = E} abort c i),
      )
  advances-le (see token source e ∷ ks) c i =
      let k = see token source e in
      omega (
        arith,
        remaining-see token source e c,
        advances-le ks (call_cursor k c) (call_cursor-IsCursor k c i),
      )
  advances-le (finish token completion ∷ ks) c i = omega (
    arith,
    finish_page-spent token completion c i,
    advances-le ks (finish_page token completion c).0
        (call_cursor-IsCursor {E = E} (finish token completion) c i),
  )
