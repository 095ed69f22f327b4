-- ===== src/Pte.antt =====
-- The page table entries of src/mm.c, with the macros of include/mm.h and include/bitops.h. An
-- entry is a `uint32_t`; a function that writes `*pte` returns the new entry. `int` arguments are
-- their bit patterns.
pub mod Fields
pub mod Laws
mod Tests
use os_sim.Base.{ℕ, ◌+◌, ◌-◌, ◌*◌, ◌/◌, ◌^◌, bit_and, bit_or, u32, Bool, not, ◌==◌, if◌then◌else◌}

-- BIT(nr)
abbrev pub bit : ℕ → ℕ
bit nr = u32 (2 ^ nr)

-- GENMASK(h, l)
abbrev pub genmask : ℕ → ℕ → ℕ
genmask h l = bit_and (u32 ((2 ^ 32 - 1) * 2 ^ l)) ((2 ^ 32 - 1) / 2 ^ (32 - h - 1))

-- SETBIT, CLRBIT, SETVAL and GETVAL: the value that is assigned, or read.
abbrev pub setbit : ℕ → ℕ → ℕ
setbit v mask = bit_or v mask

abbrev pub clrbit : ℕ → ℕ → ℕ
clrbit v mask = bit_and v (2 ^ 32 - 1 - mask)

abbrev pub setval : ℕ → ℕ → ℕ → ℕ → ℕ
setval v value mask offst =
    bit_or (bit_and v (2 ^ 32 - 1 - mask)) (bit_and (u32 (value * 2 ^ offst)) mask)

abbrev pub getval : ℕ → ℕ → ℕ → ℕ
getval v mask offst = bit_and v mask / 2 ^ offst

abbrev pub present_mask : ℕ
present_mask = bit 31

abbrev pub swapped_mask : ℕ
swapped_mask = bit 30

abbrev pub dirty_mask : ℕ
dirty_mask = bit 28

abbrev pub fpn_mask : ℕ
fpn_mask = genmask 12 0

abbrev pub swptyp_mask : ℕ
swptyp_mask = genmask 4 0

abbrev pub swpoff_mask : ℕ
swpoff_mask = genmask 25 5

-- PAGING_PTE_PAGE_PRESENT, as a condition.
unfoldable pub page_present : ℕ → Bool
page_present pte = not (bit_and pte present_mask == 0)

-- The same test of the swapped bit.
unfoldable pub page_swapped : ℕ → Bool
page_swapped pte = not (bit_and pte swapped_mask == 0)

unfoldable pub page_dirty : ℕ → Bool
page_dirty pte = not (bit_and pte dirty_mask == 0)

-- PAGING_PTE_FPN
unfoldable pub pte_fpn : ℕ → ℕ
pte_fpn pte = getval pte fpn_mask 0

-- PAGING_SWPTYP
unfoldable pub swptyp : ℕ → ℕ
swptyp pte = getval pte swptyp_mask 0

-- PAGING_SWPOFF
unfoldable pub swpoff : ℕ → ℕ
swpoff pte = getval pte swpoff_mask 5

unfoldable pub init_pte : ℕ → (pre fpn drt swp swptyp swpoff : ℕ) → ℕ
init_pte pte pre fpn drt swp typ off =
    if pre == 0
    then pte
    else if swp == 0
    then (let pte = setbit pte present_mask in
        let pte = clrbit pte swapped_mask in
        let pte = clrbit pte dirty_mask in setval pte fpn fpn_mask 0)
    else (let pte = setbit pte present_mask in
        let pte = setbit pte swapped_mask in
        let pte = clrbit pte dirty_mask in
        let pte = setval pte typ swptyp_mask 0 in setval pte off swpoff_mask 5)

unfoldable pub pte_set_swap : ℕ → (swptyp swpoff : ℕ) → ℕ
pte_set_swap pte typ off =
    let pte = clrbit pte present_mask in
    let pte = setbit pte swapped_mask in
    let pte = setval pte typ swptyp_mask 0 in setval pte off swpoff_mask 5

unfoldable pub pte_set_fpn : ℕ → (fpn : ℕ) → ℕ
pte_set_fpn pte fpn =
    let pte = setbit pte present_mask in
    let pte = clrbit pte swapped_mask in setval pte fpn fpn_mask 0
