-- ===== src/Reconcile/Frames/Ranges.antt =====
-- The frames that crates/nostr-pubsub-reconcile/src/validation.rs is to let pass: the ranges of the
-- Negentropy protocol, as a sender writes them.
use nostr_pubsub.Prelude.{
  ℕ, zero, suc, ◌+◌, ◌-◌, ◌*◌, ◌==◌, ◌≤◌, ◌≡◌, refl, ap, sym, ◌∙◌, false, some, List, [], ◌∷◌, ◌++◌,
  length, All, ltb, if◌then◌else◌, u64_max, arith, length-append, take-append, drop-append,
  append_assoc,
}
use nostr_pubsub.Prelude.Map.{text_key}
use nostr_pubsub.Reconcile.Frames.{
  Bytes, Checked, good, bad, ◌>>=◌, take_bytes, varint, Bound, precedes, pad_id, next_timestamp,
  check_ids, check_mode, read_bound, check_range, check_ranges, validate, first_bound,
}
use nostr_pubsub.Reconcile.Frames.Varint.{put_varint, varint-put_varint}
use nostr_pubsub.Reconcile.Frames.Total.{check_range-lt}

pub data Payload : Type 0 where
  skip : Payload
  fingerprint : Bytes → Payload
  id_list : List Bytes → Payload

pub record Range : Type 0 where
  pub timestamp : ℕ
  pub prefix : Bytes
  pub payload : Payload

abbrev bound_of : Range → Bound
bound_of r = record { timestamp = r.timestamp; id = pad_id r.prefix }

abbrev join : List Bytes → Bytes → Bytes
join [] bytes = bytes
join (id ∷ ids) bytes = id ++ join ids bytes

abbrev put_payload : Payload → Bytes → Bytes
put_payload Payload.skip bytes = put_varint 0 bytes
put_payload (Payload.fingerprint f) bytes = put_varint 1 (f ++ bytes)
put_payload (Payload.id_list ids) bytes = put_varint 2 (put_varint (length ids) (join ids bytes))

-- The step to a timestamp; 0 stands for the end of time.
abbrev step_to : ℕ → ℕ → ℕ
step_to before timestamp = if timestamp == u64_max then 0 else timestamp + 1 - before

abbrev pub put_ranges : ℕ → List Range → Bytes
put_ranges before [] = []
put_ranges before (r ∷ rs) =
    put_varint (step_to before r.timestamp)
      (put_varint (length r.prefix) (r.prefix ++ put_payload r.payload (put_ranges r.timestamp rs)))

abbrev IsPayload : Payload → Type 0
IsPayload Payload.skip = Unit
IsPayload (Payload.fingerprint f) = length f ≡ 16
IsPayload (Payload.id_list ids) = All (λ id. length id ≡ 32) ids × (length ids * 32 ≤ u64_max)

-- Each bound is none below the one before it.
abbrev pub AreRanges : Bound → List Range → Type 0
AreRanges previous [] = Unit
AreRanges previous (r ∷ rs) =
    (precedes (bound_of r) previous ≡ false)
    × (r.timestamp ≤ u64_max)
    × (length r.prefix ≤ 32)
    × IsPayload r.payload
    × AreRanges (bound_of r) rs

take_bytes-append :
    (n : ℕ) (xs ys : Bytes) → length xs ≡ n → take_bytes n (xs ++ ys) ≡ good (xs, ys)
unfolding take_bytes
take_bytes-append n xs ys h =
    ground (arith, length-append xs ys, take-append n xs ys h, drop-append n xs ys h)

join-append : (ids : List Bytes) (bytes : Bytes) → join ids bytes ≡ join ids [] ++ bytes
join-append [] bytes = refl
join-append (id ∷ ids) bytes =
    ap (λ zs. id ++ zs) (join-append ids bytes) ∙ sym (append_assoc id (join ids []) bytes)

length-join :
    (ids : List Bytes) → All (λ id. length id ≡ 32) ids → length (join ids []) ≡ length ids * 32
length-join [] h = refl
length-join (id ∷ ids) h = omega (arith, length-append id (join ids []), length-join ids h.1, h.0)

-- The payload is read past.
check_payload :
    (p : Payload) (bytes : Bytes)
    → IsPayload p
    → (varint (put_payload p bytes) >>= λ q. check_mode q.0 q.1) ≡ good bytes
unfolding check_mode check_ids
check_payload Payload.skip bytes h = rw (varint-put_varint 0 bytes (omega arith)) refl
check_payload (Payload.fingerprint f) bytes h =
    rw (varint-put_varint 1 (f ++ bytes) (omega arith), take_bytes-append 16 f bytes h) refl
check_payload (Payload.id_list ids) bytes h =
    rw
      (
        varint-put_varint 2 (put_varint (length ids) (join ids bytes)) (omega arith),
        check_mode,
        check_ids,
        varint-put_varint (length ids) (join ids bytes) (omega (arith, h.1)),
        join-append ids bytes,
      )
      (ground
        (arith, h.1, take_bytes-append (length ids * 32) (join ids []) bytes (length-join ids h.0)))

next_timestamp-step_to :
    (before timestamp : ℕ)
    → before ≤ timestamp
    → timestamp ≤ u64_max
    → next_timestamp (step_to before timestamp) before ≡ good timestamp
unfolding next_timestamp
next_timestamp-step_to before timestamp h k = ground arith

>>=_assoc {ℓ κ μ} :
    {A : Type ℓ} {B : Type κ} {C : Type μ} (r : Checked A) (f : A → Checked B) (g : B → Checked C)
    → (r >>= λ a. f a >>= g) ≡ (r >>= f >>= g)
>>=_assoc (good a) f g = refl
>>=_assoc (bad e) f g = refl

-- A range is read past, and its bound is the one that was written.
check_range-put :
    (previous : Bound) (r : Range) (rs : List Range)
    → AreRanges previous (r ∷ rs)
    → check_range previous (put_ranges previous.timestamp (r ∷ rs))
      ≡ good (bound_of r, put_ranges r.timestamp rs)
unfolding check_range read_bound
check_range-put previous r rs (ordered, in_time, short, payload, _) =
    let rest = put_ranges r.timestamp rs in
    let body = put_payload r.payload rest in
    let after = put_varint (length r.prefix) (r.prefix ++ body) in
    let fits : ltb 32 (length r.prefix) ≡ false = ground arith in
    rw
      (
        varint-put_varint (step_to previous.timestamp r.timestamp) after (ground arith),
        next_timestamp-step_to previous.timestamp r.timestamp (ground arith) in_time,
        varint-put_varint (length r.prefix) (r.prefix ++ body) (omega arith),
        fits,
        take_bytes-append (length r.prefix) r.prefix body refl,
        ordered,
      )
      (>>=_assoc (varint body) (λ q. check_mode q.0 q.1) (λ left. good (bound_of r, left))
        ∙ ap (λ c. c >>= λ left. good (bound_of r, left)) (check_payload r.payload rest payload))

-- One round of the loop, on bytes that hold a range.
check_ranges_next :
    (fuel : ℕ) (previous bound : Bound) (bytes rest : Bytes)
    → check_range previous bytes ≡ good (bound, rest)
    → check_ranges (suc fuel) previous bytes ≡ check_ranges fuel bound rest
unfolding check_ranges
check_ranges_next fuel previous bound [] rest e =
    absurd (omega (arith, check_range-lt previous bound [] rest e))
check_ranges_next fuel previous bound (b ∷ bytes) rest e = rw (e, check_ranges) refl

check_ranges-put_ranges :
    (fuel : ℕ) (previous : Bound) (rs : List Range)
    → AreRanges previous rs
    → length (put_ranges previous.timestamp rs) ≤ fuel
    → check_ranges fuel previous (put_ranges previous.timestamp rs) ≡ some (good tt)
unfolding check_ranges
check_ranges-put_ranges fuel previous [] h k = ground arith
check_ranges-put_ranges zero previous (r ∷ rs) h k =
    let lt = check_range-lt previous (bound_of r) _ _ (check_range-put previous r rs h) in
    absurd (omega (arith, lt, k))
check_ranges-put_ranges (suc fuel) previous (r ∷ rs) h k =
    let (_, _, _, _, more) = h in
    let e = check_range-put previous r rs h in
    let lt = check_range-lt previous (bound_of r) _ _ e in
    check_ranges_next fuel previous (bound_of r) _ _ e
    ∙ check_ranges-put_ranges fuel (bound_of r) rs more (omega (arith, lt, k))

-- A frame of ranges whose bounds do not decrease, with ids of at most 32 bytes and whole payloads,
-- written as the protocol says, passes the check.
pub validate-put_ranges :
    (rs : List Range) → AreRanges first_bound rs → validate (97 ∷ put_ranges 0 rs) ≡ some (good tt)
unfolding validate
validate-put_ranges rs h =
    check_ranges-put_ranges (length (put_ranges 0 rs)) first_bound rs h (omega arith)
