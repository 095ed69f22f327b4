-- ===== src/Pte/Tests.antt =====
-- The page table entries of src/mm.c at concrete inputs.
use os_sim.Base.{ℕ, ◌≡◌, ◌↔◌, refl, ◌<◌, ◌/◌, ◌%◌, ◌^◌, true, false, arith}
use os_sim.Pte.{page_present, page_swapped, pte_fpn, swptyp, swpoff, pte_set_swap, pte_set_fpn}
use os_sim.Pte.Laws.{pte_set_fpn_lem, pte_set_swap_lem, swap_target_iff}

-- Swap frame 3 of device 0 is looked for at frame 96.
wrong_target : pte_fpn (pte_set_swap 0x8000_0005 0 3) ≡ 96
unfolding pte_fpn pte_set_swap
wrong_target = refl

pte_set_fpn_lem_example :
    let w = pte_set_fpn 0x5000_0060 9 in
    (w < 2 ^ 32)
    × (page_present w ≡ true)
    × (page_swapped w ≡ false)
    × (pte_fpn w ≡ 9)
    × (w / 2 ^ 13 % 2 ^ 17 ≡ 0x5000_0060 / 2 ^ 13 % 2 ^ 17)
pte_set_fpn_lem_example = pte_set_fpn_lem 0x5000_0060 9 (omega arith) (omega arith)

pte_set_swap_lem_example :
    let w = pte_set_swap 0x9000_0005 2 3 in
    (w < 2 ^ 32)
    × (page_present w ≡ false)
    × (page_swapped w ≡ true)
    × (swptyp w ≡ 2)
    × (swpoff w ≡ 3)
    × (w / 2 ^ 26 % 2 ^ 4 ≡ 0x9000_0005 / 2 ^ 26 % 2 ^ 4)
pte_set_swap_lem_example =
    pte_set_swap_lem 0x9000_0005 2 3 (omega arith) (omega arith) (omega arith)

swap_target_iff_example : (pte_fpn (pte_set_swap 0x8000_0005 0 3) ≡ 3) ↔ (◌≡◌ {A = ℕ} 3 0)
swap_target_iff_example = swap_target_iff 0x8000_0005 3 (omega arith) (omega arith)
