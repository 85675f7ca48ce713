-- ===== src/Reconcile/Frames.antt =====
-- crates/nostr-pubsub-reconcile/src/validation.rs: what a frame must look like before the engine
-- reads it. A byte is a number below 256; `usize` is 64 bits wide, so that its conversions succeed.
pub mod Varint
pub mod Total
pub mod Ranges
use nostr_pubsub.Prelude.{
  ℕ, zero, suc, ◌+◌, ◌-◌, ◌*◌, ◌%◌, ◌/◌, ◌==◌, ◌≡◌, refl, ◌⊎◌, inl, inr, Bool, true, false, not,
  ◌&&◌, ◌||◌, Option, none, some, List, [], ◌∷◌, ◌++◌, length, take, drop, ltb, leb, if◌then◌else◌,
  u64_max,
}
use nostr_pubsub.Prelude.Map.{eqb, text_key, lt_bytes}

abbrev pub Bytes : Type 0
Bytes = List ℕ

pub data FrameError : Type 0 where
  unsupported_version timestamp_overflow bad_bound_length unordered_ranges : FrameError
  count_overflow bad_mode truncated varint_overflow varint_too_long : FrameError

pub data Checked {ℓ} (A : Type ℓ) : Type ℓ where
  good : A → Checked A
  bad : FrameError → Checked A

-- `?`
infixl 5 ◌>>=◌
abbrev pub ◌>>=◌ {ℓ κ} : {A : Type ℓ} {B : Type κ} → Checked A → (A → Checked B) → Checked B
good a >>= f = f a
bad e >>= f = bad e

pub Checked-cases {ℓ} :
    {A : Type ℓ} (r : Checked A) → ((a : A) × (r ≡ good a)) ⊎ ((e : FrameError) × (r ≡ bad e))
Checked-cases (good a) = inl (a, refl)
Checked-cases (bad e) = inr (e, refl)

-- `take`: the first bytes, and those after them.
unfoldable pub take_bytes : ℕ → Bytes → Checked (Bytes × Bytes)
take_bytes n bytes =
    if ltb (length bytes) n then bad FrameError.truncated else good (take n bytes, drop n bytes)

-- `checked_mul(128)` and `checked_add(byte & 127)`
unfoldable pub shift_in : ℕ → ℕ → Checked ℕ
shift_in value byte =
    if ltb u64_max (value * 128 + byte % 128)
    then bad FrameError.varint_overflow
    else good (value * 128 + byte % 128)

-- The loop of `varint`, with the rounds that are left.
unfoldable pub varint_loop : ℕ → ℕ → Bytes → Checked (ℕ × Bytes)
varint_loop zero value bytes = bad FrameError.varint_too_long
varint_loop (suc rounds) value [] = bad FrameError.truncated
varint_loop (suc rounds) value (byte ∷ bytes) = elim (shift_in value byte) [
  | bad e ↦ bad e
  | good v ↦ elim (byte / 128 % 2 == 0) [
    | true ↦ good (v, bytes)
    | false ↦ varint_loop rounds v bytes
  ]
]

abbrev pub varint : Bytes → Checked (ℕ × Bytes)
varint bytes = varint_loop 10 0 bytes

-- `[0; 32]` with the first bytes copied in.
abbrev zeros : ℕ → Bytes
zeros zero = []
zeros (suc n) = 0 ∷ zeros n

abbrev pub pad_id : Bytes → Bytes
pad_id prefix = prefix ++ zeros (32 - length prefix)

-- The bound of the range before, and its timestamp.
pub record Bound : Type 0 where
  pub timestamp : ℕ
  pub id : Bytes

abbrev pub first_bound : Bound
first_bound = record { timestamp = 0; id = zeros 32 }

-- The order of pairs.
abbrev pub precedes : Bound → Bound → Bool
precedes a b = ltb a.timestamp b.timestamp || (a.timestamp == b.timestamp && lt_bytes a.id b.id)

unfoldable pub next_timestamp : ℕ → ℕ → Checked ℕ
next_timestamp delta timestamp =
    if delta == 0 || timestamp == u64_max
    then good u64_max
    else (if ltb u64_max (timestamp + (delta - 1))
        then bad FrameError.timestamp_overflow
        else good (timestamp + (delta - 1)))

-- The ids of a list, 32 bytes each.
unfoldable pub check_ids : Bytes → Checked Bytes
check_ids bytes = do
  (count, rest) ← varint bytes
  ids ←
      (if ltb u64_max (count * 32)
        then bad FrameError.count_overflow
        else take_bytes (count * 32) rest)
  good ids.1

-- The payload that the mode announces: none, a fingerprint, or a list of ids.
unfoldable pub check_mode : ℕ → Bytes → Checked Bytes
check_mode zero bytes = good bytes
check_mode (suc zero) bytes = take_bytes 16 bytes >>= λ p. good p.1
check_mode (suc (suc zero)) bytes = check_ids bytes
check_mode (suc (suc (suc m))) bytes = bad FrameError.bad_mode

unfoldable pub read_bound : Bound → Bytes → Checked (Bound × Bytes)
read_bound previous bytes = do
  (delta, after_delta) ← varint bytes
  timestamp ← next_timestamp delta previous.timestamp
  (len, after_len) ← varint after_delta
  (prefix, after_prefix) ←
      (if ltb 32 len then bad FrameError.bad_bound_length else take_bytes len after_len)
  let bound : Bound = record { timestamp = timestamp; id = pad_id prefix } in
      if precedes bound previous
      then bad FrameError.unordered_ranges
      else good (bound, after_prefix)

-- One round of the loop.
unfoldable pub check_range : Bound → Bytes → Checked (Bound × Bytes)
check_range previous bytes = do
  (bound, after_bound) ← read_bound previous bytes
  (mode, after_mode) ← varint after_bound
  rest ← check_mode mode after_mode
  good (bound, rest)

-- The loop, on fuel; `none` when the fuel runs out.
unfoldable pub check_ranges : ℕ → Bound → Bytes → Option (Checked (Unit {0}))
check_ranges fuel previous [] = some (good tt)
check_ranges zero previous (b ∷ bytes) = none
check_ranges (suc fuel) previous (b ∷ bytes) = elim (check_range previous (b ∷ bytes)) [
  | bad e ↦ some (bad e)
  | good p ↦ check_ranges fuel p.0 p.1
]

-- `validate`: a range has a byte at least, so the bytes are fuel enough.
unfoldable pub validate : Bytes → Option (Checked (Unit {0}))
validate [] = some (bad FrameError.truncated)
validate (version ∷ bytes) =
    if version == 97
    then check_ranges (length bytes) first_bound bytes
    else some (bad FrameError.unsupported_version)
