-- ===== src/Pte/Fields.antt =====
-- The bit operations on an entry as arithmetic on its fields.
use os_sim.Base.{ℕ, ◌+◌, ◌-◌, ◌*◌, ◌/◌, ◌%◌, ◌^◌, ◌<◌, ◌≡◌, bit_and, bit_or, arith}
use os_sim.Base.Bits.{or_lowest, and_cut, or_cut, and_zero, or_zero, and_ones, zero_or}
use native.Mathlib.Nat.{one-le-pow}

-- Both operations on an entry that is cut below bit `k`.
pub and_parts :
    (k v a s : ℕ)
    → s < 2 ^ k
    → bit_and v (a * 2 ^ k + s) ≡ bit_and (v / 2 ^ k) a * 2 ^ k + bit_and (v % 2 ^ k) s
and_parts k v a s h = ground (arith, one-le-pow k 2, and_cut (v / 2 ^ k) a k (v % 2 ^ k) s)

or_parts :
    (k v a s : ℕ)
    → s < 2 ^ k
    → bit_or v (a * 2 ^ k + s) ≡ bit_or (v / 2 ^ k) a * 2 ^ k + bit_or (v % 2 ^ k) s
or_parts k v a s h = ground (arith, one-le-pow k 2, or_cut (v / 2 ^ k) a k (v % 2 ^ k) s)

-- A mask of the low `k` bits.
pub low : (k v : ℕ) → v < 2 ^ 32 → bit_and v (2 ^ k - 1) ≡ v % 2 ^ k
low k v h = ground (
  arith,
  one-le-pow k 2,
  and_parts k v 0 (2 ^ k - 1),
  and_zero 32 (v / 2 ^ k),
  and_ones k (v % 2 ^ k),
)

-- The lowest bit is set.
or_one : (v : ℕ) → v < 2 ^ 32 → bit_or v 1 ≡ v / 2 * 2 + 1
or_one v h = omega (arith, or_lowest v 1, or_zero 31 (v / 2) (omega arith))

module _ (v : ℕ) (h : v < 2 ^ 32) where
  pub fpn_read : bit_and v 0x1fff ≡ v % 2 ^ 13
  fpn_read = low 13 v h

  pub fpn_clear : bit_and v 0xffff_e000 ≡ v / 2 ^ 13 * 2 ^ 13
  fpn_clear = omega (
    arith,
    and_parts 13 v (2 ^ 19 - 1) 0 (omega arith),
    and_ones 19 (v / 2 ^ 13) (omega arith),
    and_zero 13 (v % 2 ^ 13) (omega arith),
  )

  pub typ_read : bit_and v 0x1f ≡ v % 2 ^ 5
  typ_read = low 5 v h

  pub typ_clear : bit_and v 0xffff_ffe0 ≡ v / 2 ^ 5 * 2 ^ 5
  typ_clear = omega (
    arith,
    and_parts 5 v (2 ^ 27 - 1) 0 (omega arith),
    and_ones 27 (v / 2 ^ 5) (omega arith),
    and_zero 5 (v % 2 ^ 5) (omega arith),
  )

  pub off_read : bit_and v 0x3ff_ffe0 ≡ v / 2 ^ 5 % 2 ^ 21 * 2 ^ 5
  off_read = omega (
    arith,
    and_parts 5 v (2 ^ 21 - 1) 0 (omega arith),
    low 21 (v / 2 ^ 5) (omega arith),
    and_zero 5 (v % 2 ^ 5) (omega arith),
  )

  pub off_clear : bit_and v 0xfc00_001f ≡ v / 2 ^ 26 * 2 ^ 26 + v % 2 ^ 5
  off_clear = omega (
    arith,
    and_parts 26 v (2 ^ 6 - 1) 0x1f (omega arith),
    and_ones 6 (v / 2 ^ 26) (omega arith),
    low 5 (v % 2 ^ 26) (omega arith),
  )

  pub present_read : bit_and v 0x8000_0000 ≡ v / 2 ^ 31 * 2 ^ 31
  present_read = omega (
    arith,
    and_parts 31 v 1 0 (omega arith),
    and_ones 1 (v / 2 ^ 31) (omega arith),
    and_zero 31 (v % 2 ^ 31) (omega arith),
  )

  pub present_set : bit_or v 0x8000_0000 ≡ 2 ^ 31 + v % 2 ^ 31
  present_set = omega (
    arith,
    or_parts 31 v 1 0 (omega arith),
    or_one (v / 2 ^ 31) (omega arith),
    or_zero 31 (v % 2 ^ 31) (omega arith),
  )

  pub present_clear : bit_and v 0x7fff_ffff ≡ v % 2 ^ 31
  present_clear = low 31 v h

  pub swapped_read : bit_and v 0x4000_0000 ≡ v / 2 ^ 30 % 2 * 2 ^ 30
  swapped_read = omega (
    arith,
    and_parts 30 v 1 0 (omega arith),
    low 1 (v / 2 ^ 30) (omega arith),
    and_zero 30 (v % 2 ^ 30) (omega arith),
  )

  pub swapped_set : bit_or v 0x4000_0000 ≡ v / 2 ^ 31 * 2 ^ 31 + 2 ^ 30 + v % 2 ^ 30
  swapped_set = omega (
    arith,
    or_parts 30 v 1 0 (omega arith),
    or_one (v / 2 ^ 30) (omega arith),
    or_zero 30 (v % 2 ^ 30) (omega arith),
  )

  pub swapped_clear : bit_and v 0xbfff_ffff ≡ v / 2 ^ 31 * 2 ^ 31 + v % 2 ^ 30
  swapped_clear = omega (
    arith,
    and_parts 31 v 1 0x3fff_ffff (omega arith),
    and_ones 1 (v / 2 ^ 31) (omega arith),
    low 30 (v % 2 ^ 31) (omega arith),
  )

  pub dirty_read : bit_and v 0x1000_0000 ≡ v / 2 ^ 28 % 2 * 2 ^ 28
  dirty_read = omega (
    arith,
    and_parts 28 v 1 0 (omega arith),
    low 1 (v / 2 ^ 28) (omega arith),
    and_zero 28 (v % 2 ^ 28) (omega arith),
  )

  pub dirty_clear : bit_and v 0xefff_ffff ≡ v / 2 ^ 29 * 2 ^ 29 + v % 2 ^ 28
  dirty_clear = omega (
    arith,
    and_parts 29 v 7 0xfff_ffff (omega arith),
    and_ones 3 (v / 2 ^ 29) (omega arith),
    low 28 (v % 2 ^ 29) (omega arith),
  )

-- A value put into a field that has been cleared.
pub fpn_put : (a f : ℕ) → f < 2 ^ 13 → a < 2 ^ 19 → bit_or (a * 2 ^ 13) f ≡ a * 2 ^ 13 + f
fpn_put a f h g = ground (arith, or_cut a 0 13 0 f (omega arith) h, or_zero 19 a g, zero_or f)

pub typ_put : (a t : ℕ) → t < 2 ^ 5 → a < 2 ^ 27 → bit_or (a * 2 ^ 5) t ≡ a * 2 ^ 5 + t
typ_put a t h g = ground (arith, or_cut a 0 5 0 t (omega arith) h, or_zero 27 a g, zero_or t)

pub off_put :
    (a t o : ℕ)
    → a < 2 ^ 6
    → t < 2 ^ 5
    → o < 2 ^ 21
    → bit_or (a * 2 ^ 26 + t) (o * 2 ^ 5) ≡ a * 2 ^ 26 + o * 2 ^ 5 + t
off_put a t o h g l = ground (
  arith,
  or_cut (a * 2 ^ 21) o 5 t 0 g (omega arith),
  or_zero 5 t g,
  or_cut a 0 21 0 o (omega arith) l,
  or_zero 6 a h,
  zero_or o,
)
