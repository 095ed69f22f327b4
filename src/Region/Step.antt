-- ===== src/Region/Step.antt =====
-- One round of the loop of `get_free_vmrg_area` of src/mm-vm.c, for either direction of growth.
use os_sim.Base.{ℕ, ◌+◌, ◌-◌, ◌^◌, ◌≤◌, ◌<◌, ◌≡◌, ◌≢◌, ◌⊎◌, inl, inr, true, false, arith}
use os_sim.Region.{Region, block_end, fits, leaves_space, left_space}

-- The byte lies in the region. A region whose ends meet is empty.
abbrev pub Holds : Region → ℕ → Type 0
Holds r b =
    (r.rg_start ≢ r.rg_end) × ((r.rg_start ≤ b × b ≤ r.rg_end) ⊎ (r.rg_end ≤ b × b ≤ r.rg_start))

-- The region runs in the direction of its area and in 32 bits. On the heap it also ends at
-- `size - 1` or above: below, `rg_start - size` wraps around.
abbrev pub InRange : (vmaid size : ℕ) → Region → Type 0
InRange vmaid size r =
    ((vmaid ≡ 0) × (r.rg_start ≤ r.rg_end) × (r.rg_end < 2 ^ 32))
    ⊎ ((vmaid ≡ 1) × (r.rg_end ≤ r.rg_start) × (r.rg_start < 2 ^ 32) × (size ≤ r.rg_end + 1))

abbrev pub weight : Region → ℕ
weight r = (r.rg_end - r.rg_start) + (r.rg_start - r.rg_end) + 2

-- The block that is cut off the front of a region that fits.
abbrev pub found : (vmaid size : ℕ) → Region → (newrg : Region) → Region
found vmaid size r newrg = record newrg {
  rg_start = r.rg_start;
  rg_end = block_end vmaid size r.rg_start;
}

-- The empty region that stays at the end of the list.
abbrev pub emptied : Region → Region
emptied r = record r { rg_start = r.rg_end }

-- A block of `size` bytes.
abbrev pub IsBlock : (vmaid size : ℕ) → Region → Type 0
IsBlock vmaid size r =
    (((vmaid ≡ 0) × (r.rg_end + 1 ≡ r.rg_start + size))
      ⊎ ((vmaid ≡ 1) × (r.rg_end + size ≡ r.rg_start + 1)))
    × (r.rg_start < 2 ^ 32)

module _ (size : ℕ) (lower : 2 ≤ size) (upper : size < 2 ^ 31) where
  block_end_up : (s : ℕ) → s < 2 ^ 32 → block_end 0 size s ≡ s + size - 1
  unfolding block_end
  block_end_up s h = ground arith

  block_end_down : (s : ℕ) → s < 2 ^ 32 → size ≤ s + 1 → block_end 1 size s ≡ s + 1 - size
  unfolding block_end
  block_end_down s h g = ground arith

  left_up : (r : Region) → r.rg_start < 2 ^ 32 → (left_space 0 size r).rg_start ≡ r.rg_start + size
  unfolding left_space
  left_up r h = ground arith

  left_down :
      (r : Region)
      → r.rg_start < 2 ^ 32
      → size ≤ r.rg_start
      → (left_space 1 size r).rg_start ≡ r.rg_start - size
  unfolding left_space
  left_down r h g = ground arith

  module _ (vmaid : ℕ) (r newrg : Region) (v : InRange vmaid size r) where
    pub found-IsBlock : fits vmaid size r ≡ true → IsBlock vmaid size (found vmaid size r newrg)
    unfolding fits
    found-IsBlock f = elim v [
      | inl u ↦ ground (arith, block_end_up r.rg_start)
      | inr u ↦ ground (arith, block_end_down r.rg_start)
    ]

    pub found-Holds :
        (b : ℕ) → fits vmaid size r ≡ true → Holds (found vmaid size r newrg) b → Holds r b
    unfolding fits
    found-Holds b f h = elim v [
      | inl u ↦ ground (arith, block_end_up r.rg_start)
      | inr u ↦ ground (arith, block_end_down r.rg_start)
    ]

    module _ (f : fits vmaid size r ≡ true) (l : leaves_space vmaid size r ≡ true) where
      pub left-InRange : InRange vmaid size (left_space vmaid size r)
      unfolding leaves_space left_space
      left-InRange = elim v [
        | inl u ↦ ground (arith, block_end_up r.rg_start, left_up r)
        | inr u ↦ ground (arith, block_end_down r.rg_start, left_down r)
      ]

      pub left-lt_weight : weight (left_space vmaid size r) < weight r
      unfolding leaves_space left_space
      left-lt_weight = elim v [
        | inl u ↦ ground (arith, block_end_up r.rg_start, left_up r)
        | inr u ↦ ground (arith, block_end_down r.rg_start, left_down r)
      ]

      pub left-Holds : (b : ℕ) → Holds (left_space vmaid size r) b → Holds r b
      unfolding leaves_space left_space
      left-Holds b h = elim v [
        | inl u ↦ ground (arith, block_end_up r.rg_start, left_up r)
        | inr u ↦ ground (arith, block_end_down r.rg_start, left_down r)
      ]

      pub left-apart :
          (b : ℕ) → Holds (found vmaid size r newrg) b → Holds (left_space vmaid size r) b → ⊥
      unfolding leaves_space left_space
      left-apart b h k = elim v [
        | inl u ↦ ground (arith, block_end_up r.rg_start, left_up r)
        | inr u ↦ ground (arith, block_end_down r.rg_start, left_down r)
      ]

    pub emptied-InRange : InRange vmaid size (emptied r)
    emptied-InRange = elim v [ inl u ↦ ground arith | inr u ↦ ground arith ]

    pub emptied-fits : fits vmaid size (emptied r) ≡ false
    unfolding fits
    emptied-fits = elim v [
      | inl u ↦ ground (arith, block_end_up r.rg_end)
      | inr u ↦ ground (arith, block_end_down r.rg_end)
    ]

    pub emptied-lt_weight : fits vmaid size r ≡ true → weight (emptied r) < weight r
    unfolding fits
    emptied-lt_weight f = elim v [
      | inl u ↦ ground (arith, block_end_up r.rg_start)
      | inr u ↦ ground (arith, block_end_down r.rg_start)
    ]

-- A free region of the heap that starts below `size - 1`, and so is smaller than `size`, passes for
-- large enough: the end of the block wraps around, to an address near 2^64.
pub fits-wraps :
    (size : ℕ) (r : Region)
    → 2 ≤ size
    → size < 2 ^ 31
    → r.rg_end ≤ r.rg_start
    → r.rg_start + 1 < size
    → (fits 1 size r ≡ true) × (block_end 1 size r.rg_start + size ≡ 2 ^ 64 + (r.rg_start + 1))
unfolding fits block_end
fits-wraps size r lower upper v h = (ground arith, ground arith)
