-- ===== src/Prelude/Words.antt =====
-- Machine words: the saturating operations of Rust's unsigned integers.
use Prim.Native.Nat.{ℕ, ◌+◌, ◌-◌, min}

abbrev pub u8_max : ℕ
u8_max = 255

abbrev pub u16_max : ℕ
u16_max = 65535

abbrev pub u32_max : ℕ
u32_max = 4294967295

abbrev pub u64_max : ℕ
u64_max = 18446744073709551615

-- `a.saturating_add(b)` at 64 bits; `usize` is taken as 64 bits wide.
abbrev pub sat_add_64 : ℕ → ℕ → ℕ
sat_add_64 a b = min (a + b) u64_max

abbrev pub sat_add_32 : ℕ → ℕ → ℕ
sat_add_32 a b = min (a + b) u32_max

-- `a.saturating_sub(b)`: subtraction on ℕ stops at 0.
abbrev pub sat_sub : ℕ → ℕ → ℕ
sat_sub a b = a - b
