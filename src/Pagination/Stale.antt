-- ===== src/Pagination/Stale.antt =====
-- A page of crates/nostr-pubsub/src/pagination.rs that is over stays over.
use nostr_pubsub.Prelude.{
  ◌≤◌, ◌≡◌, refl, false, none, some, List, [], ◌∷◌, inl, inr, arith, Option-cases,
}
use nostr_pubsub.Prelude.Map.{Text, text_key}
use nostr_pubsub.Pagination.Invariant.{
  IsCursor, CursorCall, begin, abort, see, finish, call_cursor, run_cursor, kept-close_page,
}
use nostr_pubsub.Pagination.Cursor.{
  HistoryEvent, PageToken, PageCompletion, stale, ActivePage, HistoryCursor, begin_page, page_of,
  observe_in, observe, close_page, finish_page, cancel,
}

module _ {R : Type 0} where
  -- The token is not that of the page in progress, and no page to come will have it.
  record IsOver (token : PageToken) (c : HistoryCursor R) : Type 0 where
    pub past : token.page ≤ c.generation
    pub other : page_of token c ≡ none

  page_of_idle :
      (token : PageToken) (c : HistoryCursor R) → c.active ≡ none → page_of token c ≡ none
  page_of_idle token c h = ground arith

  close_page-IsOver :
      (token : PageToken) (completion : PageCompletion) (p : ActivePage) (c : HistoryCursor R)
      → IsOver token c
      → IsOver token (close_page completion p (record c { active = none })).0
  close_page-IsOver token completion p c o =
      let (act, gen, ident, most) = kept-close_page completion p (record c { active = none }) in
      record {
        past = ground (arith, gen, o.past);
        other = page_of_idle token (close_page completion p (record c { active = none })).0 act;
      }

  finish_page-IsOver :
      (token : PageToken) (completion : PageCompletion) (c : HistoryCursor R)
      → IsCursor c
      → (p : ActivePage) → page_of token c ≡ some p
      → IsOver token (finish_page token completion c).0
  unfolding finish_page
  finish_page-IsOver token completion c i p e =
      let (act, gen, ident, most) = kept-close_page completion p (record c { active = none }) in
      let q = i.page p (ground arith) in
      rw (e, finish_page)
        (record {
          past = ground (arith, gen, q.own_page);
          other = page_of_idle token (close_page completion p (record c { active = none })).0 act;
        })

module _ {R E : Type 0} ⦃nostr : HistoryEvent R E⦄ where
  call_cursor-IsOver :
      (token : PageToken) (k : CursorCall E) (c : HistoryCursor R)
      → IsOver token c
      → IsOver token (call_cursor k c)
  unfolding call_cursor begin_page cancel observe observe_in finish_page
  call_cursor-IsOver token begin c o = record {
    past = ground (arith, o.past, o.other);
    other = ground (arith, o.past, o.other);
  }
  call_cursor-IsOver token abort c o = record { past = o.past; other = refl }
  call_cursor-IsOver token (see other source e) c o = record {
    past = ground (arith, o.past, o.other);
    other = ground (arith, o.past, o.other);
  }
  call_cursor-IsOver token (finish other completion) c o = elim (Option-cases (page_of other c)) [
    | inl e ↦ rw (e, call_cursor, finish_page) o
    | inr (p, e) ↦ rw (e, call_cursor, finish_page) (close_page-IsOver token completion p c o)
  ]

  run_cursor-IsOver :
      (token : PageToken) (ks : List (CursorCall E)) (c : HistoryCursor R)
      → IsOver token c
      → IsOver token (run_cursor ks c)
  unfolding run_cursor
  run_cursor-IsOver token [] c o = o
  run_cursor-IsOver token (k ∷ ks) c o =
      run_cursor-IsOver token ks (call_cursor k c) (call_cursor-IsOver token k c o)

  -- After the page of a token of a well-formed cursor is finished, and whatever calls come in
  -- between, an observation under the token is refused and a second end is stale, and neither
  -- changes the cursor.
  pub finish_page_final :
      (token : PageToken) (completion again : PageCompletion) (c : HistoryCursor R) (p : ActivePage)
      (ks : List (CursorCall E)) (source : Text) (e : E)
      → IsCursor c
      → page_of token c ≡ some p
      → let later = run_cursor ks (finish_page token completion c).0 in
        (observe token source e later ≡ (later, false))
        × ((finish_page token again later).0 ≡ later)
        × ((finish_page token again later).1.status ≡ stale)
  unfolding finish_page observe
  finish_page_final token completion again c p ks source e i h =
      let later = run_cursor ks (finish_page token completion c).0 in
      let over =
        run_cursor-IsOver token ks (finish_page token completion c).0
          (finish_page-IsOver token completion c i p h) in
      (
        rw (over.other, observe) refl,
        rw (over.other, finish_page) refl,
        rw (over.other, finish_page) refl,
      )
