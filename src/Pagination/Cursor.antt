-- ===== src/Pagination/Cursor.antt =====
-- `HistoryCursor` of crates/nostr-pubsub/src/pagination.rs: its state and operations. The counter of
-- identities, an atomic in the source, is passed along. Timestamps are seconds.
use nostr_pubsub.Prelude.{
  ℕ, ◌+◌, ◌-◌, ◌*◌, ◌==◌, Bool, true, false, not, ◌&&◌, ◌||◌, Option, none, some, List, [], ◌∷◌,
  ◌⊎◌, inl, inr, length, ltb, leb, min, if◌then◌else◌, u64_max,
}
use nostr_pubsub.Prelude.Map.{Text, text_key, eqb}
use nostr_pubsub.Prelude.Map.Queue.{elem}

-- The nostr crate's `Filter`: the fields that the cursor moves, and the rest.
pub record Filter (R : Type 0) : Type 0 where
  pub since : Option ℕ
  pub until : Option ℕ
  pub limit : Option ℕ
  pub conditions : R

-- What the cursor asks of the nostr crate's `Event` and of `Filter::match_event`.
pub record HistoryEvent (R E : Type 0) : Type 0 where
  pub event_id : E → Text
  pub created_at : E → ℕ
  pub match_event : Filter R → E → Bool

pub record PageToken : Type 0 where
  pub cursor : ℕ
  pub page : ℕ

abbrev same_token : PageToken → PageToken → Bool
same_token a b = (a.cursor == b.cursor) && (a.page == b.page)

pub record HistoryPage (R : Type 0) : Type 0 where
  pub token : PageToken
  pub source : Text
  pub filter : Filter R

pub data PageCompletion : Type 0 where
  complete partial : PageCompletion

pub data PageStatus : Type 0 where
  advanced retry exhausted limited stale : PageStatus

pub record PageOutcome : Type 0 where
  pub status : PageStatus
  pub oldest : Option ℕ
  pub unique_events : ℕ

pub record ActivePage : Type 0 where
  pub token : PageToken
  pub seen : List Text
  pub oldest : Option ℕ
  pub overflow : Bool

pub record HistoryCursor (R : Type 0) : Type 0 where
  pub source : Text
  pub filter : Filter R
  pub initial_limit : ℕ
  pub max_limit : ℕ
  pub identity : ℕ
  pub generation : ℕ
  pub active : Option ActivePage
  pub stopped : Bool

-- The errors of `new`, one constructor for each message.
pub data CursorError : Type 0 where
  invalid_limits since_exceeds_until identity_exhausted : CursorError

abbrev pub unwrap_or : Option ℕ → ℕ → ℕ
unwrap_or none d = d
unwrap_or (some n) d = n

-- `expect`, whose panic stands as 0: it is not reached, since `new` sets both fields.
abbrev pub expect : Option ℕ → ℕ
expect o = unwrap_or o 0

abbrev pub exceeds : Option ℕ → ℕ → Bool
exceeds none n = false
exceeds (some s) n = ltb n s

-- `HistoryCursor::new`, with the next identity.
unfoldable pub new_cursor :
    {R : Type 0} → Text → Filter R → ℕ → ℕ → ℕ → ℕ × (CursorError ⊎ HistoryCursor R)
new_cursor source filter now max_limit next_id =
    let limit = unwrap_or filter.limit 100 in
    let until = unwrap_or filter.until now in
    if (limit == 0) || (ltb max_limit limit || ltb 65536 max_limit)
    then (next_id, inl invalid_limits)
    else (if exceeds filter.since until
        then (next_id, inl since_exceeds_until)
        else (if next_id == u64_max then (next_id, inl identity_exhausted) else (
          next_id + 1,
          inr (record {
            source = source;
            filter = record filter { limit = some limit; until = some until };
            initial_limit = limit;
            max_limit = max_limit;
            identity = next_id;
            generation = 0;
            active = none;
            stopped = false;
          }),
        )))

abbrev pub is_active : {R : Type 0} → HistoryCursor R → Bool
is_active c = elim c.active [ none ↦ false | some p ↦ true ]

unfoldable pub begin_page :
    {R : Type 0} → HistoryCursor R → HistoryCursor R × Option (HistoryPage R)
begin_page c =
    if c.stopped || is_active c
    then (c, none)
    else (if c.generation == u64_max
        then (c, none)
        else (let token : PageToken = record { cursor = c.identity; page = c.generation + 1 } in
            (
              record c {
                generation = c.generation + 1;
                active =
                    some (record { token = token; seen = []; oldest = none; overflow = false });
              },
              some (record { token = token; source = c.source; filter = c.filter }),
            )))

abbrev older : Option ℕ → ℕ → ℕ
older none t = t
older (some o) t = min o t

-- The active page, if the token is its own.
abbrev pub page_of : {R : Type 0} → PageToken → HistoryCursor R → Option ActivePage
page_of token c = elim c.active [
  | none ↦ none
  | some p ↦ if same_token p.token token then some p else none
]

module _ {R E : Type 0} ⦃nostr : HistoryEvent R E⦄ where
  -- A page's part of `observe`: a new event in scope is recorded, up to the limit.
  unfoldable pub observe_in : Text → E → ActivePage → HistoryCursor R → HistoryCursor R × Bool
  observe_in source e p c =
      if not (eqb source c.source)
        || (not (nostr.match_event c.filter e) || elem (nostr.event_id e) p.seen)
      then (c, false)
      else (if length p.seen == c.max_limit
          then (record c { active = some (record p { overflow = true }) }, false)
          else (
            record c {
              active = some (record p {
                seen = nostr.event_id e ∷ p.seen;
                oldest = some (older p.oldest (nostr.created_at e));
              });
            },
            true,
          ))

  unfoldable pub observe : PageToken → Text → E → HistoryCursor R → HistoryCursor R × Bool
  observe token source e c = elim (page_of token c) [
    | none ↦ (c, false)
    | some p ↦ observe_in source e p c
  ]

-- Whether the window cannot move further back.
abbrev pub at_end : Option ℕ → ℕ → Bool
at_end since until = (until == 0) || elim since [ none ↦ false | some s ↦ leb until s ]

module _ {R : Type 0} where
  abbrev pub move_to : ℕ → ℕ → HistoryCursor R → HistoryCursor R
  move_to until limit c = record c {
    filter = record (c.filter) { until = some until; limit = some limit };
  }

  abbrev pub stop : HistoryCursor R → HistoryCursor R
  stop c = record c { stopped = true }

  -- A page that the source completed, with its oldest event.
  unfoldable pub advance : ℕ → ℕ → ℕ → ℕ → HistoryCursor R → HistoryCursor R × PageStatus
  advance oldest until limit unique c =
      if ltb oldest until
      then (move_to oldest c.initial_limit c, advanced)
      else (if leb limit unique
          then (if limit == c.max_limit
              then (stop c, limited)
              else (move_to until (min (min (limit * 2) u64_max) c.max_limit) c, advanced))
          else (if at_end c.filter.since until
              then (stop c, exhausted)
              else (move_to (until - 1) c.initial_limit c, advanced)))

  unfoldable pub close_page :
      PageCompletion → ActivePage → HistoryCursor R → HistoryCursor R × PageStatus
  close_page completion p c = if p.overflow then (stop c, limited) else elim completion [
    | partial ↦ (c, retry)
    | complete ↦ elim p.oldest [
      | none ↦ (stop c, exhausted)
      | some oldest ↦
          advance oldest (expect c.filter.until) (expect c.filter.limit) (length p.seen) c
    ]
  ]

  unfoldable pub finish_page :
      PageToken → PageCompletion → HistoryCursor R → HistoryCursor R × PageOutcome
  finish_page token completion c = elim (page_of token c) [
    | none ↦ (c, record { status = stale; oldest = none; unique_events = 0 })
    | some p ↦
        let (c', status) = close_page completion p (record c { active = none }) in
        (c', record { status = status; oldest = p.oldest; unique_events = length p.seen })
  ]

  unfoldable pub cancel : HistoryCursor R → HistoryCursor R
  cancel c = record c { active = none; stopped = true }
