-- ===== src/Base/Words.antt =====
-- Rust's fixed-width unsigned arithmetic. A `u8`, `u32`, `u64` or `usize` is its value; an `i32` or
-- `i64` is its two's complement bit pattern, below 2 ^ 32 or 2 ^ 64.
use Prim.Native.Nat.{ℕ, ◌+◌, ◌-◌, ◌*◌, ◌/◌, ◌%◌, ◌^◌, min}
use mathlib.Core.Option.{Option, none, some}
use armx.Base.Tests.{ltb, if◌then◌else◌}

-- `as u8`, `as u32`, `as u64`.
abbrev pub u8 : ℕ → ℕ
u8 n = n % 2 ^ 8

abbrev pub u32 : ℕ → ℕ
u32 n = n % 2 ^ 32

abbrev pub u64 : ℕ → ℕ
u64 n = n % 2 ^ 64

abbrev pub u32_max : ℕ
u32_max = 2 ^ 32 - 1

abbrev pub u64_max : ℕ
u64_max = 2 ^ 64 - 1

abbrev pub saturating_add32 : ℕ → ℕ → ℕ
saturating_add32 a b = min (a + b) u32_max

abbrev pub saturating_add64 : ℕ → ℕ → ℕ
saturating_add64 a b = min (a + b) u64_max

-- `a.wrapping_add(b)` and `a.wrapping_sub(b)` of `u64`.
abbrev pub wrapping_add64 : ℕ → ℕ → ℕ
wrapping_add64 a b = u64 (a + b)

abbrev pub wrapping_sub64 : ℕ → ℕ → ℕ
wrapping_sub64 a b = u64 (a + 2 ^ 64 - b)

-- `a.checked_add(b)` of `u64` or of a 64-bit `usize`.
abbrev pub checked_add64 : ℕ → ℕ → Option ℕ
checked_add64 a b = if ltb (a + b) (2 ^ 64) then some (a + b) else none

-- `value >> shift` of an integer of `2 ^ n` bit patterns: the sign bit comes in from above.
abbrev pub arithmetic_shift : ℕ → ℕ → ℕ → ℕ
arithmetic_shift n value shift =
    if ltb value (2 ^ (n - 1))
    then value / 2 ^ shift
    else 2 ^ n - 1 - (2 ^ n - 1 - value) / 2 ^ shift

-- `rotate_right` of an `n`-bit word, `shift < n`.
abbrev pub rotate_right : ℕ → ℕ → ℕ → ℕ
rotate_right n value shift = value / 2 ^ shift + (value % 2 ^ shift) * 2 ^ (n - shift)
