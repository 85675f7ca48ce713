-- ===== src/Reconcile/Tests.antt =====
-- Runs of crates/nostr-pubsub-reconcile on small inputs, where its theorems apply.
use nostr_pubsub.Prelude.{
  ℕ, ◌+◌, ◌≤◌, ◌≡◌, ◌≢◌, ◌↔◌, refl, true, false, none, some, List, [], ◌∷◌, inr, length, arith,
  ℕ_discrete,
}
use nostr_pubsub.Prelude.Map.{Text, text_key, text_discrete, Map, get, insert, replace, place}
use nostr_pubsub.Reconcile.Frames.{
  Bytes, FrameError, good, bad, take_bytes, shift_in, varint_loop, varint, next_timestamp,
  check_ids, check_mode, read_bound, check_range, check_ranges, validate, first_bound,
}
use nostr_pubsub.Reconcile.Frames.Varint.{put_high}
use nostr_pubsub.Reconcile.Frames.Ranges.{
  Payload, Range, put_ranges, AreRanges, validate-put_ranges,
}
use nostr_pubsub.Reconcile.Frames.Total.{validate-ne-none}
use nostr_pubsub.Reconcile.Session.{
  Record, Filter, default_limits, Engine, Session, Step, add_record, collect, start, new_session,
  tick, check_frame, accept, initiate, respond, reconcile,
}
use nostr_pubsub.Reconcile.Session.Snapshot.{has_record, collect-snapshot}
use nostr_pubsub.Reconcile.Session.Rounds.{SessionCall, make_call, successes, successes-le}

program_frames : Unit {0}
unfolding take_bytes shift_in varint_loop next_timestamp check_ids check_mode read_bound check_range
    check_ranges validate put_high
program_frames = tt

-- Two ranges: one with two ids up to a time, and the rest of time, without a payload.
abbrev id_of : ℕ → Bytes
id_of b =
    b ∷ b ∷ b ∷ b ∷ b ∷ b ∷ b ∷ b ∷ b ∷ b ∷ b ∷ b ∷ b ∷ b ∷ b ∷ b ∷ b ∷ b ∷ b ∷ b ∷ b ∷ b ∷ b ∷ b
    ∷ b ∷ b ∷ b ∷ b ∷ b ∷ b ∷ b ∷ b ∷ []

abbrev ranges : List Range
ranges =
    record { timestamp = 300; prefix = 7 ∷ []; payload = Payload.id_list (id_of 1 ∷ id_of 2 ∷ []) }
    ∷ record { timestamp = 18446744073709551615; prefix = []; payload = Payload.skip }
    ∷ []

ranges-AreRanges : AreRanges first_bound ranges
ranges-AreRanges = (
  refl,
  omega arith,
  omega arith,
  ((refl, (refl, tt)), omega arith),
  (refl, omega arith, omega arith, tt, tt),
)

validate-put_ranges_example : validate (97 ∷ put_ranges 0 ranges) ≡ some (good tt)
validate-put_ranges_example = validate-put_ranges ranges ranges-AreRanges

varint_300 : varint (130 ∷ 44 ∷ []) ≡ good (300, [])
unfolding program_frames
varint_300 = refl

unordered :
    validate (97 ∷ 5 ∷ 0 ∷ 0 ∷ 1 ∷ 1 ∷ 9 ∷ 0 ∷ 1 ∷ 0 ∷ 0 ∷ [])
    ≡ some (bad FrameError.unordered_ranges)
unfolding program_frames
unordered = refl

validate-ne-none_example : validate (97 ∷ 5 ∷ 200 ∷ []) ≢ none
validate-ne-none_example = validate-ne-none (97 ∷ 5 ∷ 200 ∷ [])

abbrev records : List Record
records =
    record { timestamp = 10; id = id_of 1 }
    ∷ record { timestamp = 99; id = id_of 2 }
    ∷ record { timestamp = 12; id = id_of 3 }
    ∷ record { timestamp = 10; id = id_of 1 }
    ∷ []

abbrev window : Filter
window = record { since = 0; until = 50 }

abbrev snapshot : Map Text ℕ
snapshot = (id_of 1, 10) ∷ (id_of 3, 12) ∷ []

program_session : Unit {0}
unfolding text_discrete ℕ_discrete get insert replace place add_record collect start new_session
    tick check_frame accept initiate respond reconcile make_call successes
program_session = tt

collected : collect window 2 records [] ≡ inr snapshot
unfolding program_session
collected = refl

collect-snapshot_example :
    (length snapshot ≤ 2)
    × ((id : Text) (t : ℕ) → (get id snapshot ≡ some t) ↔ (has_record window id t records ≡ true))
collect-snapshot_example = collect-snapshot window 2 records snapshot collected

-- An engine that counts its frames, and ends after the first.
instance abbrev test_engine : Engine ℕ
test_engine = record {
  owned = λ items limit. inr (length items);
  initiate = λ g. (g, inr (97 ∷ []));
  reconcile = λ frame g. (g, inr (97 ∷ []));
  reconcile_with_ids = λ frame g. (g, inr (none, (id_of 3 ∷ [], [])));
}

abbrev session : Session ℕ
session = record {
  engine = 2;
  limits = record default_limits { max_rounds = 2 };
  rounds = 0;
  finished = false;
}

abbrev talk : List SessionCall
talk =
    SessionCall.initiating
    ∷ SessionCall.responding (97 ∷ [])
    ∷ SessionCall.responding (97 ∷ [])
    ∷ []

talk_succeeds : successes talk session ≡ 2
unfolding program_session program_frames
talk_succeeds = refl

successes-le_example : successes talk session + 0 ≤ 2
successes-le_example = successes-le talk session (omega arith)

abbrev last_step : Step
last_step = record { next = none; have = id_of 3 ∷ []; need = [] }
