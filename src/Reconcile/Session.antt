-- ===== src/Reconcile/Session.antt =====
-- `Session` of crates/nostr-pubsub-reconcile/src/lib.rs: the snapshot of the records in a window, and
-- the rounds of a conversation. The engine and its storage, adapted from the negentropy library, are
-- parameters.
pub mod Snapshot
pub mod Rounds
use nostr_pubsub.Prelude.{
  ℕ, suc, ◌+◌, ◌==◌, Bool, true, false, not, ◌&&◌, ◌||◌, Option, none, some, List, [], ◌∷◌, ◌⊎◌,
  inl, inr, length, ltb, leb, if◌then◌else◌, u64_max,
}
use nostr_pubsub.Prelude.Map.{Text, text_key, Map, get, insert}
use nostr_pubsub.Reconcile.Frames.{Bytes, FrameError, Checked, good, bad, validate}

pub record Record : Type 0 where
  pub timestamp : ℕ
  pub id : Bytes

pub record Filter : Type 0 where
  pub since : ℕ
  pub until : ℕ

abbrev pub contains_time : Filter → ℕ → Bool
contains_time f t = leb f.since t && leb t f.until

pub record Limits : Type 0 where
  pub max_records : ℕ
  pub max_frame_bytes : ℕ
  pub max_rounds : ℕ

abbrev pub default_limits : Limits
default_limits = record { max_records = 100000; max_frame_bytes = 16384; max_rounds = 256 }

-- The errors, one constructor for each message; `diverged` is no error of the code's.
pub data SessionError : Type 0 where
  invalid_window invalid_limits conflicting_timestamps too_many_records : SessionError
  round_limit frame_too_large diverged : SessionError
  invalid_frame : FrameError → SessionError
  engine_error : ℕ → SessionError

-- The sealed storage with its engine, and the engine's calls; an error is a number.
pub record Engine (G : Type 0) : Type 0 where
  pub owned : List (Bytes × ℕ) → ℕ → ℕ ⊎ G
  pub initiate : G → G × (ℕ ⊎ Bytes)
  pub reconcile : Bytes → G → G × (ℕ ⊎ Bytes)
  pub reconcile_with_ids : Bytes → G → G × (ℕ ⊎ (Option Bytes × (List Bytes × List Bytes)))

pub record Step : Type 0 where
  pub next : Option Bytes
  pub have : List Bytes
  pub need : List Bytes

pub record Session (G : Type 0) : Type 0 where
  pub engine : G
  pub limits : Limits
  pub rounds : ℕ
  pub finished : Bool

-- A record of the window joins the snapshot.
unfoldable pub add_record : ℕ → Record → Map Text ℕ → SessionError ⊎ Map Text ℕ
add_record most r unique =
    let larger = insert r.id r.timestamp unique in
    let room = if ltb most (length larger) then inl SessionError.too_many_records else inr larger in
    elim (get r.id unique) [
      | none ↦ room
      | some previous ↦
          if previous == r.timestamp then room else inl SessionError.conflicting_timestamps
    ]

-- The loop over the records.
unfoldable pub collect : Filter → ℕ → List Record → Map Text ℕ → SessionError ⊎ Map Text ℕ
collect f most [] unique = inr unique
collect f most (r ∷ rs) unique = elim (contains_time f r.timestamp) [
  | false ↦ collect f most rs unique
  | true ↦ elim (add_record most r unique) [ inl e ↦ inl e | inr larger ↦ collect f most rs larger ]
]

abbrev are_invalid : Limits → Bool
are_invalid l =
    l.max_records == 0
    || (ltb 1000000 l.max_records
        || (not (leb 4096 l.max_frame_bytes && leb l.max_frame_bytes 65536) || l.max_rounds == 0))

module _ {G : Type 0} ⦃engine : Engine G⦄ where
  unfoldable pub start : Limits → Map Text ℕ → SessionError ⊎ Session G
  start l unique = elim (engine.owned unique l.max_frame_bytes) [
    | inl e ↦ inl (SessionError.engine_error e)
    | inr g ↦ inr (record { engine = g; limits = l; rounds = 0; finished = false })
  ]

  unfoldable pub new_session : List Record → Filter → Limits → SessionError ⊎ Session G
  new_session records f l =
      let begun = elim (collect f l.max_records records []) as (λ _. SessionError ⊎ Session G) [
        | inl e ↦ inl e
        | inr unique ↦ start l unique
      ] in
      if ltb f.until f.since || f.until == u64_max
      then inl SessionError.invalid_window
      else (if are_invalid l then inl SessionError.invalid_limits else begun)

-- `tick`, which counts a round, or refuses it.
unfoldable pub tick : {G : Type 0} → Session G → Session G × Option SessionError
tick s =
    if s.finished || leb s.limits.max_rounds s.rounds
    then (s, some SessionError.round_limit)
    else (record s { rounds = suc s.rounds }, none)

unfoldable pub check_frame : Limits → Bytes → Option SessionError
check_frame l frame =
    if ltb l.max_frame_bytes (length frame)
    then some SessionError.frame_too_large
    else elim (validate frame) as (λ _. Option SessionError) [
      | none ↦ some SessionError.diverged
      | some c ↦ elim c [ good _ ↦ none | bad e ↦ some (SessionError.invalid_frame e) ]
    ]

unfoldable pub accept : {G : Type 0} → Bytes → Session G → Session G × Option SessionError
accept frame s =
    let (t, refused) = tick s in
    (t, elim refused [ some e ↦ some e | none ↦ check_frame t.limits frame ])

-- What the engine answers, with its new state.
abbrev answered : {G A : Type 0} → Session G → G × (ℕ ⊎ A) → Session G × (SessionError ⊎ A)
answered s (g, inl e) = (record s { engine = g }, inl (SessionError.engine_error e))
answered s (g, inr a) = (record s { engine = g }, inr a)

abbrev step_of :
    {G : Type 0}
    → Session G
    → G × (ℕ ⊎ (Option Bytes × (List Bytes × List Bytes)))
    → Session G × (SessionError ⊎ Step)
step_of s (g, inl e) = (record s { engine = g }, inl (SessionError.engine_error e))
step_of s (g, inr (none, (have, need))) = (
  record s { engine = g; finished = true },
  inr (record { next = none; have = have; need = need }),
)
step_of s (g, inr (some n, (have, need))) = (
  record s { engine = g; finished = false },
  inr (record { next = some n; have = have; need = need }),
)

module _ {G : Type 0} ⦃engine : Engine G⦄ where
  unfoldable pub initiate : Session G → Session G × (SessionError ⊎ Bytes)
  initiate s =
      let (t, refused) = tick s in
      elim refused [ some e ↦ (t, inl e) | none ↦ answered t (engine.initiate t.engine) ]

  unfoldable pub respond : Bytes → Session G → Session G × (SessionError ⊎ Bytes)
  respond frame s =
      let (t, refused) = accept frame s in
      elim refused [ some e ↦ (t, inl e) | none ↦ answered t (engine.reconcile frame t.engine) ]

  unfoldable pub reconcile : Bytes → Session G → Session G × (SessionError ⊎ Step)
  reconcile frame s =
      let (t, refused) = accept frame s in
      elim refused [
        | some e ↦ (t, inl e)
        | none ↦ step_of t (engine.reconcile_with_ids frame t.engine)
      ]
