-- ===== src/Wire/Types.antt =====
-- The messages of crates/nostr-pubsub/src/wire.rs, and what the codec asks of the serde_json and nostr
-- crates. Text is its bytes.
use nostr_pubsub.Prelude.{ℕ, Bool, Option, none, some, List, [], ◌∷◌}
use nostr_pubsub.Prelude.Map.{Text}
use nostr_pubsub.Subscriptions.Types.{SubscriptionError}

-- `FipsPubsubWireMessage`, for filters, events and event ids of any kind.
pub data WireMessage (F E I : Type 0) : Type 0 where
  req : Text → List F → WireMessage F E I
  close : Text → WireMessage F E I
  event : Option Text → E → WireMessage F E I
  receipt : I → Bool → Text → WireMessage F E I
  inv : List Text → I → ℕ → ℕ → ℕ → WireMessage F E I
  want : I → WireMessage F E I

-- The messages of the nostr crate that the codec reads, and the others.
pub data NostrMessage (F E I : Type 0) : Type 0 where
  client_req : Text → List F → NostrMessage F E I
  client_close : Text → NostrMessage F E I
  client_event : E → NostrMessage F E I
  relay_event : Text → E → NostrMessage F E I
  relay_ok : I → Bool → Text → NostrMessage F E I
  other : NostrMessage F E I

-- `serde_json`: the values that the codec builds and looks into, their text, and its parser.
pub record Json (V : Type 0) : Type 0 where
  pub array : List V → V
  pub string : Text → V
  pub number : ℕ → V
  pub as_array : V → Option (List V)
  pub as_str : V → Option Text
  pub as_u64 : V → Option ℕ
  pub print : V → Text
  pub parse : Text → Option V

-- The nostr crate: event ids in hexadecimal, the check that makes a `VerifiedEvent`, the value of a
-- message, and the message that a client's or a relay's value is.
pub record Nostr (F E I V : Type 0) : Type 0 where
  pub to_hex : I → Text
  pub from_hex : Text → Option I
  pub verify : E → Bool
  pub to_value : NostrMessage F E I → V
  pub client_from_value : V → Option (NostrMessage F E I)
  pub relay_from_value : V → Option (NostrMessage F E I)

abbrev pub req_text : Text
req_text = 82 ∷ 69 ∷ 81 ∷ []

abbrev pub close_text : Text
close_text = 67 ∷ 76 ∷ 79 ∷ 83 ∷ 69 ∷ []

abbrev pub event_text : Text
event_text = 69 ∷ 86 ∷ 69 ∷ 78 ∷ 84 ∷ []

abbrev pub ok_text : Text
ok_text = 79 ∷ 75 ∷ []

abbrev pub inv_text : Text
inv_text = 73 ∷ 78 ∷ 86 ∷ []

abbrev pub want_text : Text
want_text = 87 ∷ 65 ∷ 78 ∷ 84 ∷ []

-- The errors; messages that differ only in the name of a field or of a frame share a constructor.
pub data WireError : Type 0 where
  zero_frame_limit empty_frame invalid_json not_array type_not_string : WireError
  invalid_message unexpected_message unverified_event : WireError
  req_shape close_shape event_shape inv_shape want_shape : WireError
  unsupported_type : Text → WireError
  frame_too_large : ℕ → WireError
  subscription_ids_not_array no_subscription_ids subscription_id_not_string : WireError
  repeated_subscription_id event_id_not_string invalid_event_id : WireError
  not_unsigned out_of_range zero_hop_limit : WireError
  subscription_refused : SubscriptionError → WireError

pub data Result {ℓ} (A : Type ℓ) : Type ℓ where
  ok : A → Result A
  err : WireError → Result A

infixl 5 ◌>>=◌
abbrev pub ◌>>=◌ {ℓ κ} : {A : Type ℓ} {B : Type κ} → Result A → (A → Result B) → Result B
ok a >>= f = f a
err e >>= f = err e

-- `ok_or_else`
abbrev pub ok_or {ℓ} : {A : Type ℓ} → WireError → Option A → Result A
ok_or e none = err e
ok_or e (some a) = ok a
