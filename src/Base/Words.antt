-- ===== src/Base/Words.antt =====
-- Machine words: a `uint32_t` or an `int` is its bit pattern below 2 ^ 32, an `unsigned long` or a
-- `uint64_t` a number below 2 ^ 64.
use Prim.Native.Nat.{ℕ, ◌+◌, ◌-◌, ◌%◌, ◌^◌}
use mathlib.Core.Bool.{Bool}
use os_sim.Base.Tests.{ltb, if◌then◌else◌}

abbrev pub u32 : ℕ → ℕ
u32 n = n % 2 ^ 32

abbrev pub u64 : ℕ → ℕ
u64 n = n % 2 ^ 64

-- `a + b` and `a - b` of two `unsigned long`.
abbrev pub add64 : ℕ → ℕ → ℕ
add64 a b = u64 (a + b)

abbrev pub sub64 : ℕ → ℕ → ℕ
sub64 a b = u64 (a + 2 ^ 64 - b)

-- The conversion of an `int` to `unsigned long`, which extends the sign.
abbrev pub sign_extend : ℕ → ℕ
sign_extend w = if ltb w (2 ^ 31) then w else w + (2 ^ 64 - 2 ^ 32)

-- An `int` that is below zero.
abbrev pub is_negative : ℕ → Bool
is_negative w = ltb (2 ^ 31 - 1) w

-- The `int` -1.
abbrev pub minus_one : ℕ
minus_one = 2 ^ 32 - 1
