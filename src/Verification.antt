-- ===== src/Verification.antt =====
-- `EventVerificationCache` of crates/nostr-pubsub/src/lib.rs: the signatures that were checked once.
pub mod Agreement
mod Tests
use nostr_pubsub.Prelude.{
  ℕ, ◌==◌, ◌&&◌, Bool, true, false, Option, none, some, List, [], ◌∷◌, ◌++◌, ◌⊎◌, inl, inr, length,
  if◌then◌else◌,
}
use nostr_pubsub.Prelude.Map.{Text, text_key, Map, eqb, get, contains, insert, remove}

-- What the cache asks of the nostr crate's `Event`: id, author and signature, the check that the id is
-- the hash of author and payload, the check of a signature, and the full check.
pub record SignedEvent (E : Type 0) : Type 0 where
  pub id : E → Text
  pub pubkey : E → Text
  pub sig : E → Text
  pub verify_id : E → Bool
  pub verify_signature : Text → Text → Text → Bool
  pub verify : E → Bool

pub data VerificationError : Type 0 where
  invalid_event invalid_event_id : VerificationError

abbrev pub verification_cache_capacity : ℕ
verification_cache_capacity = 512

pub record VerificationCache : Type 0 where
  pub signatures : Map Text Text
  pub order : List Text

abbrev pub empty_cache : VerificationCache
empty_cache = record { signatures = []; order = [] }

-- A place in the queue for a new id: at capacity, the oldest goes.
unfoldable pub make_place : Text → VerificationCache → VerificationCache
make_place id c = elim (length c.order == verification_cache_capacity) as (λ _. VerificationCache) [
  | false ↦ record c { order = c.order ++ id ∷ [] }
  | true ↦ elim c.order [
    | [] ↦ record c { order = id ∷ [] }
    | oldest ∷ order ↦ record { signatures = remove oldest c.signatures; order = order ++ id ∷ [] }
  ]
]

unfoldable pub remember : Text → Text → VerificationCache → VerificationCache
remember id sig c =
    let d = if contains id c.signatures then c else make_place id c in
    record d { signatures = insert id sig d.signatures }

abbrev pub is_cached : Text → Text → VerificationCache → Bool
is_cached id sig c = elim (get id c.signatures) [ none ↦ false | some s ↦ eqb s sig ]

module _ {E : Type 0} ⦃event : SignedEvent E⦄ where
  -- `verify`; what it returns, if it succeeds, is the event itself.
  unfoldable pub verify_event : E → VerificationCache → VerificationCache × (VerificationError ⊎ E)
  verify_event e c =
      if is_cached (event.id e) (event.sig e) c
      then (c, if event.verify_id e then inr e else inl VerificationError.invalid_event_id)
      else (if event.verify e
          then (remember (event.id e) (event.sig e) c, inr e)
          else (c, inl VerificationError.invalid_event))

  unfoldable pub verify_events : List E → VerificationCache → VerificationCache
  verify_events [] c = c
  verify_events (e ∷ es) c = verify_events es (verify_event e c).0
