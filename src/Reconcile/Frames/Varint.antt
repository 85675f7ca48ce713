-- ===== src/Reconcile/Frames/Varint.antt =====
-- The variable-length numbers of crates/nostr-pubsub-reconcile/src/validation.rs, against the
-- encoding that they are to read: base 128, the highest digit first, a set high bit on all but the
-- last.
use nostr_pubsub.Prelude.{
  ℕ, zero, suc, ◌+◌, ◌-◌, ◌*◌, ◌%◌, ◌/◌, ◌==◌, ◌≤◌, ◌<◌, ◌≡◌, refl, ◌∙◌, false, [], ◌∷◌, length,
  if◌then◌else◌, u64_max, arith, Bool-cases, inl, inr,
}
use nostr_pubsub.Reconcile.Frames.{Bytes, good, shift_in, varint_loop, varint}

-- The digits of a number above the last, in front of what follows.
unfoldable pub put_high : ℕ → ℕ → Bytes → Bytes
put_high zero n bytes = bytes
put_high (suc fuel) n bytes =
    if n == 0 then bytes else put_high fuel (n / 128) ((128 + n % 128) ∷ bytes)

-- A number and what follows it. Nine digits hold 63 bits, and the last one seven.
abbrev pub put_varint : ℕ → Bytes → Bytes
put_varint n bytes = put_high 9 (n / 128) (n % 128 ∷ bytes)

unfoldable digits : ℕ → ℕ → ℕ
digits zero n = 0
digits (suc fuel) n = if n == 0 then 0 else suc (digits fuel (n / 128))

digits-le : (fuel n : ℕ) → digits fuel n ≤ fuel
unfolding digits
digits-le zero n = omega arith
digits-le (suc fuel) n = ground (arith, digits-le fuel (n / 128))

abbrev pow128 : ℕ → ℕ
pow128 zero = 1
pow128 (suc k) = 128 * pow128 k

shift_in_high : (n : ℕ) → n ≤ u64_max → shift_in (n / 128) (128 + n % 128) ≡ good n
unfolding shift_in
shift_in_high n h = ground arith

-- A digit that is not the last is read, and the loop goes on.
varint_loop_high :
    (rounds n : ℕ) (bytes : Bytes)
    → n ≤ u64_max
    → varint_loop (suc rounds) (n / 128) ((128 + n % 128) ∷ bytes) ≡ varint_loop rounds n bytes
unfolding varint_loop
varint_loop_high rounds n bytes h =
    let more : ((128 + n % 128) / 128 % 2 == 0) ≡ false = ground arith in
    rw (shift_in_high n h, more, varint_loop) refl

varint_loop-put_high :
    (fuel n total rounds : ℕ) (bytes : Bytes)
    → n < pow128 fuel
    → n ≤ u64_max
    → total ≡ digits fuel n + rounds
    → varint_loop total 0 (put_high fuel n bytes) ≡ varint_loop rounds n bytes
unfolding put_high digits
varint_loop-put_high zero n total rounds bytes h k e = ground arith
varint_loop-put_high (suc fuel) n total rounds bytes h k e = elim (Bool-cases (n == 0)) [
  | inl b ↦ rw (b, put_high) (ground arith)
  | inr b ↦
      rw (b, put_high)
        (varint_loop-put_high fuel (n / 128) total (suc rounds) ((128 + n % 128) ∷ bytes)
            (omega arith) (omega arith) (ground arith)
          ∙ varint_loop_high rounds n bytes k)
]

-- The last digit is read.
varint_loop_last :
    (rounds n : ℕ) (bytes : Bytes)
    → n ≤ u64_max
    → varint_loop (suc rounds) (n / 128) (n % 128 ∷ bytes) ≡ good (n, bytes)
unfolding varint_loop shift_in
varint_loop_last rounds n bytes h = ground arith

-- What is written is read back, with what follows it.
pub varint-put_varint :
    (n : ℕ) (bytes : Bytes) → n ≤ u64_max → varint (put_varint n bytes) ≡ good (n, bytes)
varint-put_varint n bytes h =
    let few = digits-le 9 (n / 128) in
    varint_loop-put_high 9 (n / 128) 10 (suc (9 - digits 9 (n / 128))) (n % 128 ∷ bytes)
      (omega arith) (omega arith) (omega arith)
    ∙ varint_loop_last (9 - digits 9 (n / 128)) n bytes h

-- A number that is read is one of 64 bits, and takes a byte at least.
pub varint_loop_bounds :
    (rounds value : ℕ) (bytes : Bytes) (n : ℕ) (rest : Bytes)
    → varint_loop rounds value bytes ≡ good (n, rest)
    → (n ≤ u64_max) × (length rest < length bytes)
unfolding varint_loop shift_in
varint_loop_bounds zero value bytes n rest e = ground arith
varint_loop_bounds (suc rounds) value [] n rest e = ground arith
varint_loop_bounds (suc rounds) value (byte ∷ bytes) n rest e =
    ground (arith, varint_loop_bounds rounds (value * 128 + byte % 128) bytes n rest)
