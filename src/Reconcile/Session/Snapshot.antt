-- ===== src/Reconcile/Session/Snapshot.antt =====
-- The snapshot that `Session::new` of crates/nostr-pubsub-reconcile/src/lib.rs takes.
use nostr_pubsub.Prelude.{
  ℕ, ◌==◌, ◌≤◌, ◌≡◌, Bool, true, some, List, [], ◌∷◌, ◌⊎◌, ◌↔◌, inl, inr, any, ◌&&◌, arith, length,
}
use nostr_pubsub.Prelude.Map.{Text, text_key, Map, eqb, get, insert, get-insert}
use nostr_pubsub.Reconcile.Session.{Record, Filter, contains_time, add_record, collect}

-- Whether the records hold an id at a time of the window.
abbrev pub has_record : Filter → Text → ℕ → List Record → Bool
has_record f id t records =
    any (λ r. eqb id r.id && (t == r.timestamp && contains_time f r.timestamp)) records

collect-within :
    (f : Filter) (most : ℕ) (records : List Record) (m unique : Map Text ℕ)
    → length m ≤ most
    → collect f most records m ≡ inr unique
    → length unique ≤ most
unfolding collect add_record
collect-within f most [] m unique h e = ground arith
collect-within f most (r ∷ rs) m unique h e = ground (
  arith,
  collect-within f most rs m unique,
  collect-within f most rs (insert r.id r.timestamp m) unique,
)

collect-get :
    (f : Filter) (most : ℕ) (records : List Record) (m unique : Map Text ℕ) (id : Text) (t : ℕ)
    → collect f most records m ≡ inr unique
    → (get id unique ≡ some t)
    → ((get id m ≡ some t) ⊎ (has_record f id t records ≡ true))
unfolding collect add_record
collect-get f most [] m unique id t e g = inl (ground arith)
collect-get f most (r ∷ rs) m unique id t e g = ground (
  arith,
  collect-get f most rs m unique id t,
  collect-get f most rs (insert r.id r.timestamp m) unique id t,
  get-insert id r.id r.timestamp m,
)

collect-keeps :
    (f : Filter) (most : ℕ) (records : List Record) (m unique : Map Text ℕ) (id : Text) (t : ℕ)
    → collect f most records m ≡ inr unique
    → ((get id m ≡ some t) ⊎ (has_record f id t records ≡ true))
    → (get id unique ≡ some t)
unfolding collect add_record
collect-keeps f most [] m unique id t e g = ground arith
collect-keeps f most (r ∷ rs) m unique id t e g = ground (
  arith,
  collect-keeps f most rs m unique id t,
  collect-keeps f most rs (insert r.id r.timestamp m) unique id t,
  get-insert id r.id r.timestamp m,
)

-- If the records of a window are collected without an error, the snapshot has no more entries than
-- the limit, and it has a time for an id exactly if the records hold this id at this time, which
-- lies in the window.
pub collect-snapshot :
    (f : Filter) (most : ℕ) (records : List Record) (unique : Map Text ℕ)
    → collect f most records [] ≡ inr unique
    → (length unique ≤ most)
      × ((id : Text) (t : ℕ) → (get id unique ≡ some t) ↔ (has_record f id t records ≡ true))
unfolding get
collect-snapshot f most records unique e = (
  collect-within f most records [] unique (omega arith) e,
  λ id t. (
    λ g. ground (arith, collect-get f most records [] unique id t e g),
    λ g. collect-keeps f most records [] unique id t e (inr g),
  ),
)
