-- ===== src/Wire/Tests.antt =====
-- Runs of the codec and the adapter of crates/nostr-pubsub/src/wire.rs, over values that are messages
-- or tagged text, where their theorems apply.
use nostr_pubsub.Prelude.{
  ℕ, zero, suc, ◌≤◌, ◌≡◌, refl, ap, true, false, Option, none, some, List, [], ◌∷◌, ◌++◌, ◌⊎◌, inl,
  inr, length, take, drop, take-append, drop-append, arith, ℕ_discrete, ◌==◌, length-append, ap,
}
use nostr_pubsub.Prelude.Map.{
  Text, text_key, text_discrete, get, insert, replace, place, retain, remove,
}
use nostr_pubsub.Subscriptions.Types.{
  FilterJson, SubscriptionSet, new_store, default_limits, subscribed, filters_len,
  subscription_contribution, subtract_retained, subtract_all, subtract_removed, add_retained,
}
use nostr_pubsub.Subscriptions.Sets.{drop_oldest, upsert_set}
use nostr_pubsub.Subscriptions.Store.{check_limits, admit_peer, admit_subscription, upsert}
use nostr_pubsub.Subscriptions.Invariant.Run.{run_store}
use nostr_pubsub.Subscriptions.Invariant.History.{run_store-new-IsStored}
use nostr_pubsub.Wire.Adapter.{Adapter, update, inbound, decode_inbound}
use nostr_pubsub.Wire.Inbound.{decode_inbound-req, decode_inbound-IsStored}
use nostr_pubsub.Subscriptions.Invariant.{IsStored}
use nostr_pubsub.Wire.Types.{
  WireMessage, NostrMessage, Json, Nostr, req_text, close_text, event_text, ok_text, WireError, ok,
  err,
}
use nostr_pubsub.Wire.Codec.{
  default_codec, check_frame_size, message_value, encode_frame, decode_frame, decode_value,
  decode_fields, decode_inv, decode_want, decode_subscription_ids, decode_ids, decode_event_id,
  decode_unsigned, decode_req,
}
use nostr_pubsub.Wire.Roundtrip.{IsJson, IsNostr, IsMessage, layout, decode_frame-encode_frame}

abbrev Message : Type 0
Message = NostrMessage ℕ ℕ ℕ

abbrev Value : Type 0
Value = Message ⊎ Text

abbrev code : Message → Text
code (NostrMessage.client_req id filters) = 0 ∷ length id ∷ (id ++ filters)
code (NostrMessage.client_close id) = 1 ∷ id
code (NostrMessage.client_event e) = 2 ∷ e ∷ []
code (NostrMessage.relay_event id e) = 3 ∷ e ∷ id
code (NostrMessage.relay_ok i true t) = 4 ∷ i ∷ t
code (NostrMessage.relay_ok i false t) = 5 ∷ i ∷ t
code NostrMessage.other = []

abbrev message_of : Text → Message
message_of (zero ∷ n ∷ t) = NostrMessage.client_req (take n t) (drop n t)
message_of ((suc zero) ∷ t) = NostrMessage.client_close t
message_of ((suc (suc zero)) ∷ e ∷ t) = NostrMessage.client_event e
message_of ((suc (suc (suc zero))) ∷ e ∷ t) = NostrMessage.relay_event t e
message_of ((suc (suc (suc (suc zero)))) ∷ i ∷ t) = NostrMessage.relay_ok i true t
message_of ((suc (suc (suc (suc (suc zero))))) ∷ i ∷ t) = NostrMessage.relay_ok i false t
message_of _ = NostrMessage.other

message_of-code : (m : Message) → message_of (code m) ≡ m
message_of-code (NostrMessage.client_req id filters) =
    rw (take-append (length id) id filters refl, drop-append (length id) id filters refl) refl
message_of-code (NostrMessage.client_close id) = refl
message_of-code (NostrMessage.client_event e) = refl
message_of-code (NostrMessage.relay_event id e) = refl
message_of-code (NostrMessage.relay_ok i true t) = refl
message_of-code (NostrMessage.relay_ok i false t) = refl
message_of-code NostrMessage.other = refl

abbrev text_of : Value → Text
text_of (inl m) = 0 ∷ code m
text_of (inr t) = 1 ∷ t

abbrev value_of : Text → Value
value_of (zero ∷ t) = inl (message_of t)
value_of ((suc zero) ∷ t) = inr t
value_of _ = inr []

value_of-text_of : (v : Value) → value_of (text_of v) ≡ v
value_of-text_of (inl m) = ap inl (message_of-code m)
value_of-text_of (inr t) = refl

abbrev join : List Value → Text
join [] = []
join (v ∷ vs) = length (text_of v) ∷ (text_of v ++ join vs)

abbrev split : ℕ → Text → List Value
split zero t = []
split (suc fuel) [] = []
split (suc fuel) (n ∷ t) = value_of (take n t) ∷ split fuel (drop n t)

split-join : (fuel : ℕ) (vs : List Value) → length (join vs) ≤ fuel → split fuel (join vs) ≡ vs
split-join zero [] h = refl
split-join (suc fuel) [] h = refl
split-join zero (v ∷ vs) h = absurd (omega (arith, h))
split-join (suc fuel) (v ∷ vs) h =
    rw
      (
        take-append (length (text_of v)) (text_of v) (join vs) refl,
        drop-append (length (text_of v)) (text_of v) (join vs) refl,
        value_of-text_of v,
        split-join fuel vs (omega (arith, h, length-append (text_of v) (join vs))),
      )
      refl

abbrev blanks : ℕ → List Value
blanks zero = []
blanks (suc n) = inr [] ∷ blanks n

length-blanks : (n : ℕ) → length (blanks n) ≡ n
length-blanks zero = refl
length-blanks (suc n) = omega (arith, length-blanks n)

-- The fields of a message, of which the codec reads the first.
abbrev fields_of : Message → Option (List Value)
fields_of (NostrMessage.client_req id filters) =
    some (inr (1 ∷ req_text) ∷ blanks (suc (length filters)))
fields_of (NostrMessage.client_close id) = some (inr (1 ∷ close_text) ∷ blanks 1)
fields_of (NostrMessage.client_event e) = some (inr (1 ∷ event_text) ∷ blanks 1)
fields_of (NostrMessage.relay_event id e) = some (inr (1 ∷ event_text) ∷ blanks 2)
fields_of (NostrMessage.relay_ok i accepted t) = some (inr (1 ∷ ok_text) ∷ blanks 3)
fields_of NostrMessage.other = none

abbrev array_of : Value → Option (List Value)
array_of (inl m) = fields_of m
array_of (inr ((suc (suc zero)) ∷ t)) = some (split (length t) t)
array_of _ = none

abbrev string_of : Value → Option Text
string_of (inr ((suc zero) ∷ t)) = some t
string_of _ = none

abbrev number_of : Value → Option ℕ
number_of (inr ((suc (suc (suc zero))) ∷ n ∷ [])) = some n
number_of _ = none

abbrev test_json : Json Value
test_json = record {
  array = λ vs. inr (2 ∷ join vs);
  string = λ t. inr (1 ∷ t);
  number = λ n. inr (3 ∷ n ∷ []);
  as_array = array_of;
  as_str = string_of;
  as_u64 = number_of;
  print = λ v. 7 ∷ text_of v;
  parse = λ t. elim t [ [] ↦ none | b ∷ bs ↦ some (value_of bs) ];
}

test_json-IsJson : IsJson test_json
test_json-IsJson = record {
  as_array-array = λ vs. ap some (split-join (length (join vs)) vs (omega arith));
  as_str-string = λ t. refl;
  as_u64-number = λ n h. refl;
  parse-print = λ v. ap some (value_of-text_of v);
  parse_empty = refl;
}

abbrev id_of : Text → Option ℕ
id_of (n ∷ []) = some n
id_of _ = none

abbrev message_in : Value → Option Message
message_in (inl m) = some m
message_in (inr t) = none

abbrev test_nostr : Nostr ℕ ℕ ℕ Value
test_nostr = record {
  to_hex = λ i. i ∷ [];
  from_hex = id_of;
  verify = λ e. e == 1;
  to_value = inl;
  client_from_value = message_in;
  relay_from_value = message_in;
}

test_nostr-IsNostr : IsNostr test_json test_nostr
test_nostr-IsNostr = record {
  from_hex-to_hex = λ i. refl;
  laid_out = laid;
  client_read = λ m c. refl;
  relay_read = λ m c. refl;
}
  where
    laid :
        (m : Message) (kind : Text) (n : ℕ)
        → layout m ≡ some (kind, n)
        → (fields : List Value) × (array_of (inl m) ≡ some (inr (1 ∷ kind) ∷ fields))
          × (length fields ≡ n)
    laid (NostrMessage.client_req id filters) kind n e = (
      blanks (suc (length filters)),
      ground arith,
      ground (arith, length-blanks (suc (length filters))),
    )
    laid (NostrMessage.client_close id) kind n e = (blanks 1, ground arith, ground arith)
    laid (NostrMessage.client_event d) kind n e = (blanks 1, ground arith, ground arith)
    laid (NostrMessage.relay_event id d) kind n e = (blanks 2, ground arith, ground arith)
    laid (NostrMessage.relay_ok i accepted t) kind n e = (blanks 3, ground arith, ground arith)
    laid NostrMessage.other kind n e = absurd (ground arith)

abbrev live : Text
live = 76 ∷ []

abbrev inventory : WireMessage ℕ ℕ ℕ
inventory = WireMessage.inv (live ∷ (65 ∷ []) ∷ []) 7 1 4096 4

program : Unit {0}
unfolding text_discrete ℕ_discrete encode_frame check_frame_size message_value decode_frame
    decode_value decode_fields decode_inv decode_want decode_subscription_ids decode_ids
    decode_event_id decode_unsigned decode_req
program = tt

inventory-IsMessage : IsMessage test_json test_nostr inventory
unfolding program
inventory-IsMessage =
    (omega arith, (refl, (refl, tt)), omega arith, omega arith, omega arith, omega arith)

abbrev inventory_frame : Text
inventory_frame = 7 ∷ text_of (message_value test_json test_nostr inventory)

inventory_encodes : encode_frame test_json test_nostr default_codec inventory ≡ ok inventory_frame
unfolding program
inventory_encodes = refl

decode_frame-encode_frame_example :
    decode_frame test_json test_nostr default_codec inventory_frame ≡ ok inventory
decode_frame-encode_frame_example =
    decode_frame-encode_frame test_json test_nostr test_json-IsJson test_nostr-IsNostr default_codec
      inventory inventory_frame inventory-IsMessage inventory_encodes

instance abbrev test_lengths : FilterJson ℕ
test_lengths = record { filter_len = λ f. some 1; req_len = λ id fs. some 10 }

abbrev adapter : Adapter ℕ
adapter = record { codec = default_codec; subscriptions = new_store default_limits }

adapter-IsStored : IsStored adapter.subscriptions
unfolding run_store
adapter-IsStored = run_store-new-IsStored default_limits []

program_adapter : Unit {0}
unfolding program decode_inbound update inbound upsert check_limits admit_subscription admit_peer
    upsert_set drop_oldest subscription_contribution filters_len add_retained subtract_retained
    subtract_all subtract_removed get insert replace place remove retain
program_adapter = tt

abbrev request : WireMessage ℕ ℕ ℕ
request = WireMessage.req live (1 ∷ [])

abbrev request_frame : Text
request_frame = 7 ∷ text_of (message_value test_json test_nostr request)

request_encodes : encode_frame test_json test_nostr default_codec request ≡ ok request_frame
unfolding program
request_encodes = refl

request-IsMessage : IsMessage test_json test_nostr request
request-IsMessage = omega arith

request_accepted :
    (decode_inbound test_json test_nostr live request_frame adapter).1
    ≡ ok (record { message = request; subscription_update = subscribed })
unfolding program_adapter
request_accepted = refl

decode_inbound-req_example :
    (set : SubscriptionSet ℕ) × (get live
        (decode_inbound test_json test_nostr live request_frame adapter).0.subscriptions.peers
      ≡ some set)
    × (get live set.subscriptions ≡ some (record { subscription_id = live; filters = 1 ∷ [] }))
decode_inbound-req_example =
    decode_inbound-req test_json test_nostr live live request_frame (1 ∷ []) adapter
      (record { message = request; subscription_update = subscribed }) test_json-IsJson
      test_nostr-IsNostr request-IsMessage adapter-IsStored request_encodes request_accepted

decode_inbound-IsStored_example :
    IsStored (decode_inbound test_json test_nostr live request_frame adapter).0.subscriptions
decode_inbound-IsStored_example =
    decode_inbound-IsStored test_json test_nostr live request_frame adapter adapter-IsStored

abbrev unreadable : Text
unreadable = []

unreadable_refused :
    (decode_inbound test_json test_nostr live unreadable adapter).1 ≡ err WireError.empty_frame
unfolding program_adapter
unreadable_refused = refl
