-- ===== src/Verification/Tests.antt =====
-- Runs of the cache of crates/nostr-pubsub/src/lib.rs on small events, where its theorem applies.
use nostr_pubsub.Prelude.{ℕ, ◌&&◌, ◌≡◌, refl, ap, sym, ◌∙◌, Bool, [], ◌∷◌, inl, arith, ℕ_discrete}
use nostr_pubsub.Prelude.Map.{
  Text, text_key, text_discrete, eqb, get, insert, replace, place, retain, remove,
}
use nostr_pubsub.Verification.{
  SignedEvent, VerificationError, empty_cache, make_place, remember, verify_event, verify_events,
}
use nostr_pubsub.Verification.Agreement.{IsSigned, is_ok, verify_events-agrees}

-- An event of author, payload and signature; the id names author and payload, and a signature is good
-- if it is the author's name.
pub record Note : Type 0 where
  pub id : Text
  pub author : Text
  pub payload : ℕ
  pub sig : Text

abbrev has_id : Note → Bool
has_id e = eqb e.id (e.payload ∷ e.author)

instance abbrev test_event : SignedEvent Note
test_event = record {
  id = λ e. e.id;
  pubkey = λ e. e.author;
  sig = λ e. e.sig;
  verify_id = has_id;
  verify_signature = λ id pubkey sig. eqb pubkey sig;
  verify = λ e. has_id e && eqb e.author e.sig;
}

tail : Text → Text
tail [] = []
tail (b ∷ t) = t

test_event-IsSigned : IsSigned Note
unfolding tail
test_event-IsSigned = record {
  verify_both = λ e. refl;
  same_author = λ a b p q h.
      let first : a.id ≡ a.payload ∷ a.author = ground arith in
      let second : b.id ≡ b.payload ∷ b.author = ground arith in ap tail (sym first ∙ h ∙ second);
}

abbrev note : Note
note = record { id = 5 ∷ 65 ∷ []; author = 65 ∷ []; payload = 5; sig = 65 ∷ [] }

-- The same id and signature, but another payload.
abbrev forged : Note
forged = record note { payload = 6 }

program : Unit {0}
unfolding text_discrete ℕ_discrete get insert replace place retain remove make_place remember
    verify_event verify_events
program = tt

forged_refused :
    (verify_event forged (verify_events (note ∷ []) empty_cache)).1
    ≡ inl VerificationError.invalid_event_id
unfolding program
forged_refused = refl

verify_events-agrees_example :
    is_ok (verify_event forged (verify_events (note ∷ []) empty_cache)).1 ≡ test_event.verify forged
verify_events-agrees_example = verify_events-agrees Note (note ∷ []) forged test_event-IsSigned
