-- ===== src/Reconcile/Frames/Total.antt =====
-- The loop of `validate` in crates/nostr-pubsub-reconcile/src/validation.rs ends: every range takes a
-- byte at least.
use nostr_pubsub.Prelude.{
  ℕ, zero, suc, ◌*◌, ◌≤◌, ◌<◌, ◌≡◌, ◌≢◌, refl, none, [], ◌∷◌, length, drop, arith, inl, inr,
}
use nostr_pubsub.Reconcile.Frames.{
  Bytes, Checked, Checked-cases, good, bad, ◌>>=◌, take_bytes, varint, Bound, next_timestamp,
  check_ids, check_mode, read_bound, check_range, check_ranges, validate, first_bound,
}
use nostr_pubsub.Reconcile.Frames.Varint.{varint_loop_bounds}

-- A chain that succeeds has a first step that does.
>>=-good {ℓ κ} :
    {A : Type ℓ} {B : Type κ} (r : Checked A) (f : A → Checked B) {b : B}
    → (r >>= f) ≡ good b
    → (a : A) × (r ≡ good a) × (f a ≡ good b)
>>=-good (good a) f e = (a, refl, e)
>>=-good (bad x) f e = absurd (ground arith)

length-drop-le : (n : ℕ) (bytes : Bytes) → length (drop n bytes) ≤ length bytes
length-drop-le zero bytes = omega arith
length-drop-le (suc n) [] = omega arith
length-drop-le (suc n) (b ∷ bytes) = omega (arith, length-drop-le n bytes)

take_bytes-le :
    (n : ℕ) (bytes head rest : Bytes)
    → take_bytes n bytes ≡ good (head, rest)
    → length rest ≤ length bytes
unfolding take_bytes
take_bytes-le n bytes head rest e = ground (arith, length-drop-le n bytes)

check_ids-le : (bytes rest : Bytes) → check_ids bytes ≡ good rest → length rest ≤ length bytes
unfolding check_ids take_bytes
check_ids-le bytes rest e =
    let ((count, after), p, q) = >>=-good (varint bytes) _ e in
    ground (arith, varint_loop_bounds 10 0 bytes count after p, length-drop-le (count * 32) after)

check_mode-le :
    (mode : ℕ) (bytes rest : Bytes) → check_mode mode bytes ≡ good rest → length rest ≤ length bytes
unfolding check_mode take_bytes
check_mode-le zero bytes rest e = ground arith
check_mode-le (suc zero) bytes rest e = ground (arith, length-drop-le 16 bytes)
check_mode-le (suc (suc zero)) bytes rest e = check_ids-le bytes rest e
check_mode-le (suc (suc (suc m))) bytes rest e = ground arith

read_bound-lt :
    (previous bound : Bound) (bytes rest : Bytes)
    → read_bound previous bytes ≡ good (bound, rest)
    → length rest < length bytes
unfolding read_bound take_bytes
read_bound-lt previous bound bytes rest e =
    let ((delta, after_delta), p, e1) = >>=-good (varint bytes) _ e in
    let (timestamp, _, e2) = >>=-good (next_timestamp delta previous.timestamp) _ e1 in
    let ((len, after_len), q, e3) = >>=-good (varint after_delta) _ e2 in
    ground (
      arith,
      varint_loop_bounds 10 0 bytes delta after_delta p,
      varint_loop_bounds 10 0 after_delta len after_len q,
      length-drop-le len after_len,
    )

pub check_range-lt :
    (previous bound : Bound) (bytes rest : Bytes)
    → check_range previous bytes ≡ good (bound, rest)
    → length rest < length bytes
unfolding check_range
check_range-lt previous bound bytes rest e =
    let ((b, after_bound), p, e1) = >>=-good (read_bound previous bytes) _ e in
    let ((mode, after_mode), q, e2) = >>=-good (varint after_bound) _ e1 in
    let (left, r, e3) = >>=-good (check_mode mode after_mode) _ e2 in
    ground (
      arith,
      read_bound-lt previous b bytes after_bound p,
      varint_loop_bounds 10 0 after_bound mode after_mode q,
      check_mode-le mode after_mode left r,
    )

check_ranges-ne-none :
    (fuel : ℕ) (previous : Bound) (bytes : Bytes)
    → length bytes ≤ fuel
    → check_ranges fuel previous bytes ≢ none
unfolding check_ranges
check_ranges-ne-none fuel previous [] h = ground arith
check_ranges-ne-none zero previous (b ∷ bytes) h = absurd (omega arith)
check_ranges-ne-none (suc fuel) previous (b ∷ bytes) h =
    elim (Checked-cases (check_range previous (b ∷ bytes))) [
      | inr (x, e) ↦ rw (e, check_ranges) (ground arith)
      | inl ((bound, rest), e) ↦
          rw (e, check_ranges)
            (check_ranges-ne-none fuel bound rest
              (omega (arith, check_range-lt previous bound (b ∷ bytes) rest e)))
    ]

-- The check of a frame comes to a verdict on any bytes: its loop has at most as many rounds as the
-- frame has bytes.
pub validate-ne-none : (bytes : Bytes) → validate bytes ≢ none
unfolding validate
validate-ne-none [] = ground arith
validate-ne-none (version ∷ bytes) =
    ground (arith, check_ranges-ne-none (length bytes) first_bound bytes)
