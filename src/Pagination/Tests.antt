-- ===== src/Pagination/Tests.antt =====
-- Runs of the cursor of crates/nostr-pubsub/src/pagination.rs on small inputs, where its theorems
-- apply.
use nostr_pubsub.Prelude.{
  arith, ℕ, ◌+◌, ◌≤◌, ◌≡◌, refl, true, false, none, some, List, [], ◌∷◌, inr, ℕ_discrete,
}
use nostr_pubsub.Prelude.Map.{Text, text_key, text_discrete}
use nostr_pubsub.Pagination.Cursor.{
  Filter, HistoryEvent, PageToken, complete, partial, stale, ActivePage, HistoryCursor, new_cursor,
  begin_page, observe_in, observe, advance, close_page, finish_page, cancel,
}
use nostr_pubsub.Pagination.Invariant.{
  IsCursor, CursorCall, begin, abort, see, finish, call_cursor, run_cursor,
}
use nostr_pubsub.Pagination.Calls.{run_cursor-new-IsCursor}
use nostr_pubsub.Pagination.Progress.{remaining, advances, advances-le}
use nostr_pubsub.Pagination.Coverage.{Reaches, finish_page-Reaches}
use nostr_pubsub.Pagination.Stale.{finish_page_final}

-- Events of a test network are their times, and every one matches.
instance abbrev test_events : HistoryEvent (Unit {0}) ℕ
test_events = record { event_id = λ n. n ∷ []; created_at = λ n. n; match_event = λ f n. true }

abbrev relay : Text
relay = 82 ∷ []

abbrev everything : Filter (Unit {0})
everything = record { since = none; until = none; limit = some 2; conditions = tt }

abbrev start : HistoryCursor (Unit {0})
start = record {
  source = relay;
  filter = record everything { limit = some 2; until = some 100 };
  initial_limit = 2;
  max_limit = 4;
  identity = 1;
  generation = 0;
  active = none;
  stopped = false;
}

abbrev first_token : PageToken
first_token = record { cursor = 1; page = 1 }

abbrev calls : List (CursorCall ℕ)
calls =
    begin
    ∷ see first_token relay 90
    ∷ see first_token relay 80
    ∷ finish first_token complete
    ∷ begin
    ∷ see first_token relay 70
    ∷ abort
    ∷ []

program : Unit {0}
unfolding text_discrete ℕ_discrete new_cursor begin_page observe_in observe advance close_page
    finish_page cancel call_cursor run_cursor remaining advances
program = tt

test_new : new_cursor relay everything 100 4 1 ≡ (2, inr start)
unfolding program
test_new = refl

test_advances : advances calls start ≡ 1
unfolding program
test_advances = refl

run_cursor-new-IsCursor_example : IsCursor (run_cursor calls start)
unfolding program
run_cursor-new-IsCursor_example = run_cursor-new-IsCursor relay everything 100 4 1 start calls refl

start-IsCursor : IsCursor start
unfolding new_cursor run_cursor
start-IsCursor = run_cursor-new-IsCursor {E = ℕ} relay everything 100 4 1 start [] refl

advances-le_example : remaining (run_cursor calls start) + advances calls start ≤ remaining start
advances-le_example = advances-le calls start start-IsCursor

abbrev reading : HistoryCursor (Unit {0})
reading = run_cursor {E = ℕ} (begin ∷ see first_token relay 90 ∷ []) start

abbrev first_page : ActivePage
first_page = record {
  token = first_token;
  seen = (90 ∷ []) ∷ [];
  oldest = some 90;
  overflow = false;
}

abbrev late_event : ℕ
late_event = 60

finish_page_final_example :
    let later = run_cursor {E = ℕ} (begin ∷ []) (finish_page first_token partial reading).0 in
    (observe first_token relay late_event later ≡ (later, false))
    × ((finish_page first_token complete later).0 ≡ later)
    × ((finish_page first_token complete later).1.status ≡ stale)
unfolding program
finish_page_final_example =
    finish_page_final first_token partial complete reading first_page (begin ∷ []) relay late_event
      (run_cursor-new-IsCursor {E = ℕ} relay everything 100 4 1 start
        (begin ∷ see first_token relay 90 ∷ []) refl)
      refl

abbrev read_page : HistoryCursor (Unit {0})
read_page =
    run_cursor {E = ℕ} (begin ∷ see first_token relay 90 ∷ see first_token relay 80 ∷ []) start

abbrev full_page : ActivePage
full_page = record {
  token = first_token;
  seen = (80 ∷ []) ∷ (90 ∷ []) ∷ [];
  oldest = some 80;
  overflow = false;
}

finish_page-Reaches_example :
    (complete ≡ complete) × (o : ℕ) × (full_page.oldest ≡ some o) × Reaches o 2 2 95
unfolding program
finish_page-Reaches_example =
    finish_page-Reaches first_token complete read_page full_page 95 refl (omega arith) (omega arith)
