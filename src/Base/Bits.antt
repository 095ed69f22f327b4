-- ===== src/Base/Bits.antt =====
-- `&` and `|` on words cut at a bit: the laws by which a field under a mask becomes arithmetic.
use Prim.Native.Nat.{
  ℕ, zero, suc, ◌+◌, ◌-◌, ◌*◌, ◌/◌, ◌%◌, ◌^◌, ◌≤◌, ◌<◌, min, max, bit_and, bit_or, bitwise, digits,
  bit_and-bitwise, bit_or-bitwise,
}
use mathlib.Core.Path.{◌≡◌, refl, ap}
use native.Mathlib.Nat.{pow-suc, one-le-pow}
use native.Mathlib.Omega.{arith}

-- Any two counts of digits that reach the end of the first number give the same result.
module _ (z : ℕ → ℕ) (f : ℕ → ℕ → ℕ) where
  count_free : (a b m n : ℕ) → a ≤ m → a ≤ n → digits z f m a b ≡ digits z f n a b
  count_free zero b zero zero hm hn = refl
  count_free zero b zero (suc n) hm hn = refl
  count_free zero b (suc m) zero hm hn = refl
  count_free zero b (suc m) (suc n) hm hn = refl
  count_free (suc a) b zero n hm hn = elim hm [ ]
  count_free (suc a) b (suc m) zero hm hn = elim hn [ ]
  count_free (suc a) b (suc m) (suc n) hm hn =
      ap (λ t. t * 2 + f (suc a % 2) (b % 2))
        (count_free (suc a / 2) (b / 2) m n (omega arith) (omega arith))

  lowest :
      (a b : ℕ)
      → bitwise z f (suc a) b ≡ bitwise z f (suc a / 2) (b / 2) * 2 + f (suc a % 2) (b % 2)
  lowest a b =
      ap (λ t. t * 2 + f (suc a % 2) (b % 2))
        (count_free (suc a / 2) (b / 2) a (suc a / 2) (omega arith) (omega arith))

pub and_lowest : (a b : ℕ) → bit_and a b ≡ bit_and (a / 2) (b / 2) * 2 + min (a % 2) (b % 2)
and_lowest zero b = simp bit_and-bitwise (omega arith)
and_lowest (suc a) b = simp bit_and-bitwise (lowest (λ y. 0) min a b)

pub or_lowest : (a b : ℕ) → bit_or a b ≡ bit_or (a / 2) (b / 2) * 2 + max (a % 2) (b % 2)
or_lowest zero b = simp bit_or-bitwise (omega arith)
or_lowest (suc a) b = simp bit_or-bitwise (lowest (λ y. y) max a b)

-- Both operations work on the parts above and below bit `k` apart.
module _ (a b : ℕ) where
  pub and_cut :
      (k r s : ℕ)
      → r < 2 ^ k
      → s < 2 ^ k
      → bit_and (a * 2 ^ k + r) (b * 2 ^ k + s) ≡ bit_and a b * 2 ^ k + bit_and r s
  and_cut zero zero zero h g = ground arith
  and_cut zero (suc r) s h g = absurd (omega arith)
  and_cut zero zero (suc s) h g = absurd (omega arith)
  and_cut (suc k) r s h g = ground (
    arith,
    pow-suc 2 k,
    ap (λ t. a * t) (pow-suc 2 k),
    ap (λ t. b * t) (pow-suc 2 k),
    ap (λ t. bit_and a b * t) (pow-suc 2 k),
    and_lowest (a * 2 ^ suc k + r) (b * 2 ^ suc k + s),
    and_lowest r s,
    and_cut k (r / 2) (s / 2),
  )

  pub or_cut :
      (k r s : ℕ)
      → r < 2 ^ k
      → s < 2 ^ k
      → bit_or (a * 2 ^ k + r) (b * 2 ^ k + s) ≡ bit_or a b * 2 ^ k + bit_or r s
  or_cut zero zero zero h g = ground arith
  or_cut zero (suc r) s h g = absurd (omega arith)
  or_cut zero zero (suc s) h g = absurd (omega arith)
  or_cut (suc k) r s h g = ground (
    arith,
    pow-suc 2 k,
    ap (λ t. a * t) (pow-suc 2 k),
    ap (λ t. b * t) (pow-suc 2 k),
    ap (λ t. bit_or a b * t) (pow-suc 2 k),
    or_lowest (a * 2 ^ suc k + r) (b * 2 ^ suc k + s),
    or_lowest r s,
    or_cut k (r / 2) (s / 2),
  )

-- Zero, and the mask of `k` ones.
pub and_zero : (k a : ℕ) → a < 2 ^ k → bit_and a 0 ≡ 0
and_zero zero a h = ground arith
and_zero (suc k) a h = ground (arith, pow-suc 2 k, and_lowest a 0, and_zero k (a / 2))

pub or_zero : (k a : ℕ) → a < 2 ^ k → bit_or a 0 ≡ a
or_zero zero a h = ground arith
or_zero (suc k) a h = ground (arith, pow-suc 2 k, or_lowest a 0, or_zero k (a / 2))

pub zero_and : (a : ℕ) → bit_and 0 a ≡ 0
zero_and a = bit_and-bitwise 0 a

pub zero_or : (a : ℕ) → bit_or 0 a ≡ a
zero_or a = bit_or-bitwise 0 a

pub and_ones : (k a : ℕ) → a < 2 ^ k → bit_and a (2 ^ k - 1) ≡ a
and_ones zero a h = ground arith
and_ones (suc k) a h =
    ground (arith, pow-suc 2 k, and_lowest a (2 ^ suc k - 1), and_ones k (a / 2), one-le-pow k 2)
