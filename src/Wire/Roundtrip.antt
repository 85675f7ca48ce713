-- ===== src/Wire/Roundtrip.antt =====
-- What the codec of crates/nostr-pubsub/src/wire.rs writes it reads back, given what the serde_json
-- and nostr crates document.
use nostr_pubsub.Prelude.{
  ℕ, suc, ◌==◌, ◌≤◌, ◌<◌, ◌≡◌, refl, ap, sym, subst, ◌∙◌, Bool, true, false, Option, none, some,
  List, [], ◌∷◌, map, length, All, ltb, leb, arith, u8_max, u16_max, u32_max, u64_max, List-cases,
  inl, inr, ℕ_discrete,
}
use nostr_pubsub.Prelude.Map.{Text, text_key, text_discrete}
use nostr_pubsub.Prelude.Map.Queue.{elem, Unrepeated}
use nostr_pubsub.Wire.Types.{
  WireMessage, NostrMessage, Json, Nostr, req_text, close_text, event_text, ok_text, inv_text,
  want_text, ok,
}
use nostr_pubsub.Wire.Codec.{
  Codec, field, check_frame_size, message_value, encode_frame, decode_req, decode_close,
  decode_published_event, decode_delivered_event, decode_ok, decode_ids, decode_subscription_ids,
  decode_event_id, decode_unsigned, decode_inv, decode_want, decode_fields, decode_value,
  decode_frame,
}

-- A value is read as what it was built from, and the parser reads what was printed.
pub record IsJson {V : Type 0} (json : Json V) : Type 0 where
  pub as_array-array : (vs : List V) → json.as_array (json.array vs) ≡ some vs
  pub as_str-string : (t : Text) → json.as_str (json.string t) ≡ some t
  pub as_u64-number : (n : ℕ) → n ≤ u64_max → json.as_u64 (json.number n) ≡ some n
  pub parse-print : (v : V) → json.parse (json.print v) ≡ some v
  pub parse_empty : json.parse [] ≡ none

-- NIP-01: the first field of a message, and the number of the others.
abbrev pub layout : {F E I : Type 0} → NostrMessage F E I → Option (Text × ℕ)
layout (NostrMessage.client_req id filters) = some (req_text, suc (length filters))
layout (NostrMessage.client_close id) = some (close_text, 1)
layout (NostrMessage.client_event e) = some (event_text, 1)
layout (NostrMessage.relay_event id e) = some (event_text, 2)
layout (NostrMessage.relay_ok id accepted message) = some (ok_text, 3)
layout NostrMessage.other = none

abbrev is_client : {F E I : Type 0} → NostrMessage F E I → Bool
is_client (NostrMessage.client_req id filters) = true
is_client (NostrMessage.client_close id) = true
is_client (NostrMessage.client_event e) = true
is_client _ = false

-- A message's value has that layout, and is read back by the crate.
pub record IsNostr {F E I V : Type 0} (json : Json V) (nostr : Nostr F E I V) : Type 0 where
  pub from_hex-to_hex : (i : I) → nostr.from_hex (nostr.to_hex i) ≡ some i
  pub laid_out :
      (m : NostrMessage F E I) (kind : Text) (n : ℕ)
      → layout m ≡ some (kind, n)
      → (fields : List V) × (json.as_array (nostr.to_value m) ≡ some (json.string kind ∷ fields))
        × (length fields ≡ n)
  pub client_read :
      (m : NostrMessage F E I)
      → is_client m ≡ true
      → nostr.client_from_value (nostr.to_value m) ≡ some m
  pub relay_read :
      (m : NostrMessage F E I)
      → is_client m ≡ false
      → nostr.relay_from_value (nostr.to_value m) ≡ some m

module _ {F E I V : Type 0} (json : Json V) (nostr : Nostr F E I V) where
  -- What a sender may send: a filter at least, verified events, different subscription ids, and
  -- numbers of their types.
  abbrev pub IsMessage : WireMessage F E I → Type 0
  IsMessage (WireMessage.req id filters) = 0 < length filters
  IsMessage (WireMessage.event id e) = nostr.verify e ≡ true
  IsMessage (WireMessage.inv ids id kind bytes hops) =
      (0 < length ids)
      × Unrepeated ids
      × (kind ≤ u16_max)
      × (bytes ≤ u32_max)
      × (0 < hops)
      × (hops ≤ u8_max)
  IsMessage m = Unit

  module _ (j : IsJson json) (n : IsNostr json nostr) where
    unseen :
        (id : Text) (seen ids : List Text)
        → elem id ids ≡ false
        → All (λ i. elem i seen ≡ false) ids
        → All (λ i. elem i (id ∷ seen) ≡ false) ids
    unseen id seen [] h a = tt
    unseen id seen (i ∷ ids) h a = ground (arith, unseen id seen ids)

    decode_ids-map :
        (seen ids : List Text)
        → Unrepeated ids
        → All (λ i. elem i seen ≡ false) ids
        → decode_ids json nostr seen (map json.string ids) ≡ ok ids
    unfolding decode_ids
    decode_ids-map seen [] u a = refl
    decode_ids-map seen (id ∷ ids) u a =
        rw
          (j.as_str-string id, a.0, decode_ids-map (id ∷ seen) ids u.1 (unseen id seen ids u.0 a.1))
          refl

    none_seen : (ids : List Text) → All (λ i. elem i [] ≡ false) ids
    none_seen [] = tt
    none_seen (i ∷ ids) = (refl, none_seen ids)

    decode_subscription_ids-map :
        (ids : List Text) (head : V) (rest : List V)
        → 0 < length ids
        → Unrepeated ids
        → decode_subscription_ids json nostr (head ∷ json.array (map json.string ids) ∷ rest) 1
          ≡ ok ids
    unfolding decode_subscription_ids
    decode_subscription_ids-map [] head rest h u = absurd (omega (arith, h))
    decode_subscription_ids-map (id ∷ ids) head rest h u =
        rw (j.as_array-array (json.string id ∷ map json.string ids))
          (decode_ids-map [] (id ∷ ids) u (none_seen (id ∷ ids)))

    decode_unsigned_at :
        (most k index : ℕ) (fields : List V)
        → field index fields ≡ some (json.number k)
        → k ≤ most
        → most ≤ u64_max
        → decode_unsigned json nostr most fields index ≡ ok k
    unfolding decode_unsigned
    decode_unsigned_at most k index fields e h le =
        let fits : ltb most k ≡ false = ground arith in
        rw (e, j.as_u64-number k (omega arith), fits) refl

    decode_event_id_at :
        (i : I) (index : ℕ) (fields : List V)
        → field index fields ≡ some (json.string (nostr.to_hex i))
        → decode_event_id json nostr fields index ≡ ok i
    unfolding decode_event_id
    decode_event_id_at i index fields e =
        rw (e, j.as_str-string (nostr.to_hex i), n.from_hex-to_hex i) refl

    decode_inv-value :
        (ids : List Text) (i : I) (kind bytes hops : ℕ)
        → IsMessage (WireMessage.inv ids i kind bytes hops)
        → decode_inv json nostr (message_value json nostr (WireMessage.inv ids i kind bytes hops))
          ≡ ok (WireMessage.inv ids i kind bytes hops)
    unfolding decode_inv message_value
    decode_inv-value ids i kind bytes hops (held, once, k, b, pos, h) =
        let fields : List V =
          json.string inv_text
          ∷ json.array (map json.string ids)
          ∷ json.string (nostr.to_hex i)
          ∷ json.number kind
          ∷ json.number bytes
          ∷ json.number hops
          ∷ [] in
        let some_hops : (hops == 0) ≡ false = ground arith in
        rw
          (
            j.as_array-array fields,
            decode_subscription_ids-map ids _ _ held once,
            decode_event_id_at i 2 fields refl,
            decode_unsigned_at u16_max kind 3 fields refl k (omega arith),
            decode_unsigned_at u32_max bytes 4 fields refl b (omega arith),
            decode_unsigned_at u8_max hops 5 fields refl h (omega arith),
            some_hops,
          )
          refl

    decode_want-value :
        (i : I)
        → decode_want json nostr (message_value json nostr (WireMessage.want i))
          ≡ ok (WireMessage.want i)
    unfolding decode_want message_value
    decode_want-value i =
        let fields : List V = json.string want_text ∷ json.string (nostr.to_hex i) ∷ [] in
        rw (j.as_array-array fields, decode_event_id_at i 1 fields refl) refl

    -- The layout of a value leads to the branch of its type.
    decode_value_laid_out :
        (v : V) (kind : Text) (fields : List V)
        → json.as_array v ≡ some (json.string kind ∷ fields)
        → decode_value json nostr v ≡ decode_fields json nostr kind (suc (length fields)) v
    unfolding decode_value
    decode_value_laid_out v kind fields e = rw (e, j.as_str-string kind) refl

    decode_value_nostr :
        (m : NostrMessage F E I) (kind : Text) (count : ℕ)
        → layout m ≡ some (kind, count)
        → decode_value json nostr (nostr.to_value m)
          ≡ decode_fields json nostr kind (suc count) (nostr.to_value m)
    decode_value_nostr m kind count h =
        let (fields, e, l) = n.laid_out m kind count h in
        rw (← l) (decode_value_laid_out (nostr.to_value m) kind fields e)

    decode_value-message :
        (m : WireMessage F E I)
        → IsMessage m
        → decode_value json nostr (message_value json nostr m) ≡ ok m
    unfolding message_value decode_fields text_discrete ℕ_discrete decode_req decode_close
        decode_published_event decode_delivered_event decode_ok
    decode_value-message (WireMessage.req id filters) h =
        let m = NostrMessage.client_req id filters in
        decode_value_nostr m req_text (suc (length filters)) refl
        ∙ (let long : leb 3 (suc (suc (length filters))) ≡ true = ground arith in
            rw (long, n.client_read m refl) refl)
    decode_value-message (WireMessage.close id) h =
        let m = NostrMessage.client_close id in
        decode_value_nostr m close_text 1 refl ∙ rw (n.client_read m refl) refl
    decode_value-message (WireMessage.event none e) h =
        let m = NostrMessage.client_event e in
        decode_value_nostr m event_text 1 refl ∙ rw (n.client_read m refl, h) refl
    decode_value-message (WireMessage.event (some id) e) h =
        let m = NostrMessage.relay_event id e in
        decode_value_nostr m event_text 2 refl ∙ rw (n.relay_read m refl, h) refl
    decode_value-message (WireMessage.receipt id accepted message) h =
        let m = NostrMessage.relay_ok id accepted message in
        decode_value_nostr m ok_text 3 refl ∙ rw (n.relay_read m refl) refl
    decode_value-message (WireMessage.inv ids i kind bytes hops) h =
        decode_value_laid_out _ inv_text _ (j.as_array-array _)
        ∙ decode_inv-value ids i kind bytes hops h
    decode_value-message (WireMessage.want i) h =
        decode_value_laid_out _ want_text _ (j.as_array-array _) ∙ decode_want-value i

    -- A value's text is not empty.
    length-print : (v : V) → (length (json.print v) == 0) ≡ false
    length-print v = elim (List-cases (json.print v)) [
      | inr (x, xs, e) ↦ rw e (ground arith)
      | inl e ↦ absurd (ground (arith, j.parse-print v, j.parse_empty))
    ]

    check_frame_size-ok :
        (c : Codec) (text frame : Text) → check_frame_size c text ≡ ok frame → text ≡ frame
    unfolding check_frame_size
    check_frame_size-ok c text frame e = ground arith

    decode_frame-print :
        (c : Codec) (v : V)
        → check_frame_size c (json.print v) ≡ ok (json.print v)
        → decode_frame json nostr c (json.print v) ≡ decode_value json nostr v
    unfolding decode_frame
    decode_frame-print c v e = rw (e, length-print v, j.parse-print v) refl

    -- If the JSON values and the messages of the nostr crate are read back as they were written,
    -- and a message has what a sender must give it (a filter, a verified event, different
    -- subscription ids, numbers of their types), then its frame, if it fits the limit, is decoded
    -- to this message.
    pub decode_frame-encode_frame :
        (c : Codec) (m : WireMessage F E I) (frame : Text)
        → IsMessage m
        → encode_frame json nostr c m ≡ ok frame
        → decode_frame json nostr c frame ≡ ok m
    unfolding encode_frame
    decode_frame-encode_frame c m frame h e =
        let same = check_frame_size-ok c (json.print (message_value json nostr m)) frame e in
        subst (λ f. decode_frame json nostr c f ≡ ok m) same
          (decode_frame-print c (message_value json nostr m) (e ∙ ap ok (sym same))
            ∙ decode_value-message m h)
