-- ===== src/Pagination/Calls.antt =====
-- Every call keeps the invariant of the cursor of crates/nostr-pubsub/src/pagination.rs.
use nostr_pubsub.Prelude.{
  ℕ, ◌≡◌, ◌==◌, refl, not, ◌||◌, Option, none, some, List, [], ◌∷◌, inl, inr, arith, length, subst,
  Bool-cases, Option-cases,
}
use nostr_pubsub.Prelude.Map.{Text, text_key, eqb}
use nostr_pubsub.Prelude.Map.Queue.{elem}
use nostr_pubsub.Pagination.Invariant.{
  IsPage, IsWindow, IsCursor, CursorCall, begin, abort, see, finish, call_cursor, run_cursor,
  some_of, new_cursor-IsCursor, begin_page-IsCursor, close_page-IsWindow, kept-close_page,
}
use nostr_pubsub.Pagination.Cursor.{
  Filter, HistoryEvent, PageToken, PageCompletion, ActivePage, HistoryCursor, new_cursor, page_of,
  observe_in, observe, close_page, finish_page, cancel,
}

none_some : {A : Type 0} {x : Option A} {y : A} (C : Type 0) → x ≡ none → x ≡ some y → C
none_some C h e = absurd (ground arith)

module _ {R : Type 0} where
  abbrev idle : HistoryCursor R → HistoryCursor R
  idle c = record c { active = none }

  idle-IsWindow : (c : HistoryCursor R) → IsWindow c → IsWindow (idle c)
  idle-IsWindow c w = record {
    until_set = w.until_set;
    limit_set = w.limit_set;
    initial_pos = w.initial_pos;
    initial_le = w.initial_le;
    max_le = w.max_le;
  }

  close_page-IsCursor :
      (completion : PageCompletion) (p : ActivePage) (c : HistoryCursor R)
      → IsCursor c
      → IsCursor (close_page completion p (idle c)).0
  close_page-IsCursor completion p c i =
      let (act, gen, ident, most) = kept-close_page completion p (idle c) in
      record {
        window = close_page-IsWindow completion p (idle c) (idle-IsWindow c i.window);
        generation_le = ground (arith, gen, i.generation_le);
        page = λ q e. none_some _ act e;
      }

  finish_page-IsCursor :
      (token : PageToken) (completion : PageCompletion) (c : HistoryCursor R)
      → IsCursor c
      → IsCursor (finish_page token completion c).0
  unfolding finish_page
  finish_page-IsCursor token completion c i = elim (Option-cases (page_of token c)) [
    | inl e ↦ rw (e, finish_page) i
    | inr (p, e) ↦ rw (e, finish_page) (close_page-IsCursor completion p c i)
  ]

  cancel-IsCursor : (c : HistoryCursor R) → IsCursor c → IsCursor (cancel c)
  unfolding cancel
  cancel-IsCursor c i = record {
    window = record {
      until_set = i.window.until_set;
      limit_set = i.window.limit_set;
      initial_pos = i.window.initial_pos;
      initial_le = i.window.initial_le;
      max_le = i.window.max_le;
    };
    generation_le = i.generation_le;
    page = λ q e. none_some _ refl e;
  }

  -- A new state of the page in progress.
  set_page-IsCursor :
      (p : ActivePage) (c : HistoryCursor R)
      → IsCursor c
      → IsPage c p
      → IsCursor (record c { active = some p })
  set_page-IsCursor p c i h = record {
    window = record {
      until_set = i.window.until_set;
      limit_set = i.window.limit_set;
      initial_pos = i.window.initial_pos;
      initial_le = i.window.initial_le;
      max_le = i.window.max_le;
    };
    generation_le = i.generation_le;
    page = λ q e. subst (IsPage _) (some_of p q e) (record {
      own_cursor = h.own_cursor;
      own_page = h.own_page;
      once = h.once;
      seen_le = h.seen_le;
      running = h.running;
    });
  }

  page_of_active :
      (token : PageToken) (c : HistoryCursor R) (p : ActivePage)
      → page_of token c ≡ some p
      → c.active ≡ some p
  page_of_active token c p h = ground arith

module _ {R E : Type 0} ⦃nostr : HistoryEvent R E⦄ where
  observe_in-IsCursor :
      (source : Text) (e : E) (p : ActivePage) (c : HistoryCursor R)
      → IsCursor c
      → IsPage c p
      → IsCursor (observe_in source e p c).0
  unfolding observe_in
  observe_in-IsCursor source e p c i h =
      elim (Bool-cases (
        not (eqb source c.source)
        || (not (nostr.match_event c.filter e) || elem (nostr.event_id e) p.seen))) [
          | inl b ↦ rw (b, observe_in) i
          | inr b ↦ elim (Bool-cases (length p.seen == c.max_limit)) [
            | inl d ↦
                rw (b, d, observe_in)
                  (set_page-IsCursor _ c i (record {
                    own_cursor = h.own_cursor;
                    own_page = h.own_page;
                    once = h.once;
                    seen_le = h.seen_le;
                    running = h.running;
                  }))
            | inr d ↦
                rw (b, d, observe_in)
                  (set_page-IsCursor _ c i (record {
                    own_cursor = h.own_cursor;
                    own_page = h.own_page;
                    once = (ground arith, h.once);
                    seen_le = ground (arith, h.seen_le);
                    running = h.running;
                  }))
          ]
        ]

  observe-IsCursor :
      (token : PageToken) (source : Text) (e : E) (c : HistoryCursor R)
      → IsCursor c
      → IsCursor (observe token source e c).0
  unfolding observe
  observe-IsCursor token source e c i = elim (Option-cases (page_of token c)) [
    | inl f ↦ rw (f, observe) i
    | inr (p, f) ↦
        rw (f, observe) (observe_in-IsCursor source e p c i (i.page p (page_of_active token c p f)))
  ]

  pub call_cursor-IsCursor :
      (k : CursorCall E) (c : HistoryCursor R) → IsCursor c → IsCursor (call_cursor k c)
  unfolding call_cursor
  call_cursor-IsCursor begin c i = begin_page-IsCursor c i
  call_cursor-IsCursor abort c i = cancel-IsCursor c i
  call_cursor-IsCursor (see token source e) c i = observe-IsCursor token source e c i
  call_cursor-IsCursor (finish token completion) c i = finish_page-IsCursor token completion c i

  run_cursor-IsCursor :
      (ks : List (CursorCall E)) (c : HistoryCursor R) → IsCursor c → IsCursor (run_cursor ks c)
  unfolding run_cursor
  run_cursor-IsCursor [] c i = i
  run_cursor-IsCursor (k ∷ ks) c i =
      run_cursor-IsCursor ks (call_cursor k c) (call_cursor-IsCursor k c i)

  -- After any list of calls on a cursor that `new` accepts, its filter has an end time and a
  -- positive limit of at most the maximal one, which is at most 65536, and a page in progress has
  -- the newest token of the cursor, which is not stopped, and distinct events, no more than the
  -- maximal limit.
  pub run_cursor-new-IsCursor :
      (source : Text) (filter : Filter R) (now max_limit next_id : ℕ) (c : HistoryCursor R)
      (ks : List (CursorCall E))
      → (new_cursor source filter now max_limit next_id).1 ≡ inr c
      → IsCursor (run_cursor ks c)
  run_cursor-new-IsCursor source filter now max_limit next_id c ks h =
      run_cursor-IsCursor ks c (new_cursor-IsCursor source filter now max_limit next_id c h)
