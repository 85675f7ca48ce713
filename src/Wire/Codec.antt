-- ===== src/Wire/Codec.antt =====
-- `FipsPubsubWireCodec` of crates/nostr-pubsub/src/wire.rs.
use nostr_pubsub.Prelude.{
  ℕ, zero, suc, ◌==◌, ◌&&◌, Option, none, some, List, [], ◌∷◌, map, length, ltb, leb, if◌then◌else◌,
  u8_max, u16_max, u32_max,
}
use nostr_pubsub.Prelude.Map.{Text, text_key, eqb}
use nostr_pubsub.Prelude.Map.Queue.{elem}
use nostr_pubsub.Wire.Types.{
  WireMessage, NostrMessage, Json, Nostr, req_text, close_text, event_text, ok_text, inv_text,
  want_text, WireError, Result, ok, err, ◌>>=◌, ok_or,
}

pub record Codec : Type 0 where
  pub max_frame_bytes : ℕ

abbrev pub default_codec : Codec
default_codec = record { max_frame_bytes = 65536 }

unfoldable new_codec : ℕ → Result Codec
new_codec most =
    if most == 0 then err WireError.zero_frame_limit else ok (record { max_frame_bytes = most })

unfoldable pub check_frame_size : Codec → Text → Result Text
check_frame_size c frame =
    if ltb c.max_frame_bytes (length frame)
    then err (WireError.frame_too_large (length frame))
    else ok frame

-- `fields.get(index)`
abbrev pub field : {V : Type 0} → ℕ → List V → Option V
field n [] = none
field zero (v ∷ vs) = some v
field (suc n) (v ∷ vs) = field n vs

abbrev and_then : {A B : Type 0} → Option A → (A → Option B) → Option B
and_then none f = none
and_then (some a) f = f a

module _ {F E I V : Type 0} (json : Json V) (nostr : Nostr F E I V) where
  -- The value whose text is the frame.
  unfoldable pub message_value : WireMessage F E I → V
  message_value (WireMessage.req id filters) = nostr.to_value (NostrMessage.client_req id filters)
  message_value (WireMessage.close id) = nostr.to_value (NostrMessage.client_close id)
  message_value (WireMessage.event none e) = nostr.to_value (NostrMessage.client_event e)
  message_value (WireMessage.event (some id) e) = nostr.to_value (NostrMessage.relay_event id e)
  message_value (WireMessage.receipt id accepted message) =
      nostr.to_value (NostrMessage.relay_ok id accepted message)
  message_value (WireMessage.inv ids id kind bytes hops) = json.array (
      json.string inv_text
      ∷ json.array (map json.string ids)
      ∷ json.string (nostr.to_hex id)
      ∷ json.number kind
      ∷ json.number bytes
      ∷ json.number hops
      ∷ [])
  message_value (WireMessage.want id) =
      json.array (json.string want_text ∷ json.string (nostr.to_hex id) ∷ [])

  unfoldable pub encode_frame : Codec → WireMessage F E I → Result Text
  encode_frame c m = check_frame_size c (json.print (message_value m))

  -- `VerifiedEvent::try_from`
  abbrev verified : E → Result E
  verified e = if nostr.verify e then ok e else err WireError.unverified_event

  unfoldable pub decode_req : V → Result (WireMessage F E I)
  decode_req v = ok_or WireError.invalid_message (nostr.client_from_value v) >>= λ m. elim m [
    | NostrMessage.client_req id filters ↦ ok (WireMessage.req id filters)
    | _ ↦ err WireError.unexpected_message
  ]

  unfoldable pub decode_close : V → Result (WireMessage F E I)
  decode_close v = ok_or WireError.invalid_message (nostr.client_from_value v) >>= λ m. elim m [
    | NostrMessage.client_close id ↦ ok (WireMessage.close id)
    | _ ↦ err WireError.unexpected_message
  ]

  unfoldable pub decode_published_event : V → Result (WireMessage F E I)
  decode_published_event v = ok_or WireError.invalid_message (nostr.client_from_value v) >>= λ m.
      elim m [
        | NostrMessage.client_event e ↦ (verified e >>= λ d. ok (WireMessage.event none d))
        | _ ↦ err WireError.unexpected_message
      ]

  unfoldable pub decode_delivered_event : V → Result (WireMessage F E I)
  decode_delivered_event v = ok_or WireError.invalid_message (nostr.relay_from_value v) >>= λ m.
      elim m [
        | NostrMessage.relay_event id e ↦ (verified e >>= λ d. ok (WireMessage.event (some id) d))
        | _ ↦ err WireError.unexpected_message
      ]

  unfoldable pub decode_ok : V → Result (WireMessage F E I)
  decode_ok v = ok_or WireError.invalid_message (nostr.relay_from_value v) >>= λ m. elim m [
    | NostrMessage.relay_ok id accepted message ↦ ok (WireMessage.receipt id accepted message)
    | _ ↦ err WireError.unexpected_message
  ]

  -- The loop over the subscription ids, with those seen.
  unfoldable pub decode_ids : List Text → List V → Result (List Text)
  decode_ids seen [] = ok []
  decode_ids seen (v ∷ vs) = do
    id ← ok_or WireError.subscription_id_not_string (json.as_str v)
    rest ←
        (if elem id seen then err WireError.repeated_subscription_id else decode_ids (id ∷ seen) vs)
    ok (id ∷ rest)

  unfoldable pub decode_subscription_ids : List V → ℕ → Result (List Text)
  decode_subscription_ids fields index = do
    values ←
        ok_or WireError.subscription_ids_not_array (and_then (field index fields) json.as_array)
    elim values [ [] ↦ err WireError.no_subscription_ids | v ∷ vs ↦ decode_ids [] (v ∷ vs) ]

  unfoldable pub decode_event_id : List V → ℕ → Result I
  decode_event_id fields index = do
    hex ← ok_or WireError.event_id_not_string (and_then (field index fields) json.as_str)
    ok_or WireError.invalid_event_id (nostr.from_hex hex)

  -- `decode_unsigned`, for the type whose greatest number is given.
  unfoldable pub decode_unsigned : ℕ → List V → ℕ → Result ℕ
  decode_unsigned most fields index = do
    n ← ok_or WireError.not_unsigned (and_then (field index fields) json.as_u64)
    if ltb most n then err WireError.out_of_range else ok n

  unfoldable pub decode_inv : V → Result (WireMessage F E I)
  decode_inv v = do
    fields ← ok_or WireError.not_array (json.as_array v)
    ids ← decode_subscription_ids fields 1
    id ← decode_event_id fields 2
    kind ← decode_unsigned u16_max fields 3
    bytes ← decode_unsigned u32_max fields 4
    hops ← decode_unsigned u8_max fields 5
    if hops == 0 then err WireError.zero_hop_limit else ok (WireMessage.inv ids id kind bytes hops)

  unfoldable pub decode_want : V → Result (WireMessage F E I)
  decode_want v = do
    fields ← ok_or WireError.not_array (json.as_array v)
    id ← decode_event_id fields 1
    ok (WireMessage.want id)

  -- The `match` on the message's type and its number of fields.
  unfoldable pub decode_fields : Text → ℕ → V → Result (WireMessage F E I)
  decode_fields kind count v =
      if eqb kind req_text
      then (if leb 3 count then decode_req v else err WireError.req_shape)
      else (if eqb kind close_text
          then (if count == 2 then decode_close v else err WireError.close_shape)
          else (if eqb kind event_text
              then (if count == 2
                  then decode_published_event v
                  else (if count == 3 then decode_delivered_event v else err WireError.event_shape))
              else (if eqb kind ok_text && count == 4
                  then decode_ok v
                  else (if eqb kind inv_text
                      then (if count == 6 then decode_inv v else err WireError.inv_shape)
                      else (if eqb kind want_text
                          then (if count == 2 then decode_want v else err WireError.want_shape)
                          else err (WireError.unsupported_type kind))))))

  unfoldable pub decode_value : V → Result (WireMessage F E I)
  decode_value v = do
    fields ← ok_or WireError.not_array (json.as_array v)
    kind ← ok_or WireError.type_not_string (and_then (field 0 fields) json.as_str)
    decode_fields kind (length fields) v

  unfoldable pub decode_frame : Codec → Text → Result (WireMessage F E I)
  decode_frame c frame = do
    _ ← check_frame_size c frame
    _ ← (if length frame == 0 then err WireError.empty_frame else ok frame)
    v ← ok_or WireError.invalid_json (json.parse frame)
    decode_value v
