-- ===== src/Vmem/Tests/Grow.antt =====
-- Growth and allocation at concrete inputs.
use os_sim.Base.{
  ℕ, zero, suc, ◌-◌, ◌*◌, ◌%◌, ◌<◌, ◌≡◌, ◌⊎◌, ◌^◌, refl, List, [], ◌∷◌, set, length-replicate, ok,
  arith, minus_one, if◌then◌else◌, ◌==◌, ◌||◌, ltb,
}
use os_sim.Region.{Region, Mm, get_vma_by_num, get_free_vmrg_area, set_vma, find_loop}
use os_sim.Lru.{Lru}
use os_sim.Lru.Chain.{Entry}
use os_sim.Vmem.Listed.{Listed}
use os_sim.Vmem.Alloc.{alloc_rg}
use os_sim.Vmem.Grow.{validate_overlap_vm_area}
use os_sim.Vmem.Overlap.{HasHeap, validate_overlap_cases}
use os_sim.Vmem.Revive.{InRam, alloc_rg_again}
use os_sim.Vmem.Tests.{
  no_region, low_area, heap, two_areas, page_0, space, env, env-IsMalloc, space-Listed, in_ram,
}

heap_test : HasHeap two_areas low_area heap
heap_test = record { mmap = refl; data_id = refl; heap_id = refl; used = omega arith }

validate_overlap_cases_example :
    let result = validate_overlap_vm_area two_areas 0 301 601 in
    let below = (4095 - 301) * (3840 - 601) % 2 ^ 32 in
    let past = (4095 - 301) * (601 - 3840) % 2 ^ 32 in
    ((601 < 3840) × (result ≡ (if below == 0 || ltb (2 ^ 31) below then minus_one else 0)))
    ⊎ (((◌≡◌ {A = ℕ} 601 3840) × (result ≡ 0))
        ⊎ ((3840 < 601) × (result ≡ (if ltb past (2 ^ 31) then minus_one else 0))))
validate_overlap_cases_example =
    validate_overlap_cases 301 601 two_areas low_area heap heap_test (record {
      start = omega arith;
      vm_start = omega arith;
      vm_end = omega arith;
      bound = omega arith;
    })

-- The first 100 bytes of the area are free.
abbrev low_free : Region
low_free = record { vmaid = 0; rg_start = 0; rg_end = 99 }

abbrev with_free : Mm
with_free = record two_areas {
  mmap = record low_area { vm_freerg_list = low_free ∷ [] } ∷ heap ∷ [];
}

abbrev without_free : Mm
without_free = record two_areas {
  mmap = record low_area { vm_freerg_list = record low_free { rg_start = 99 } ∷ [] } ∷ heap ∷ [];
}

found_block :
    get_free_vmrg_area 10 with_free 0 100 (record { vmaid = 0; rg_start = 9; rg_end = 9 })
    ≡ ok (0, low_free, without_free)
unfolding get_free_vmrg_area get_vma_by_num set_vma find_loop
found_block = refl

block-InRam : InRam (record space { mm = without_free }) 0 0
block-InRam zero lo hi = (2 ^ 31, refl, in_ram)
block-InRam (suc j) lo hi = absurd (omega arith)

alloc_rg_again_example :
    (l : Lru) × (ys : List Entry) × (alloc_rg env 0 4 100 (record space { mm = with_free })
      ≡ ok (
        0,
        record space {
          mm = record without_free {
            symrgtbl =
                set without_free.symrgtbl 4 (record { vmaid = 0; rg_start = 0; rg_end = 99 });
          };
          lru = l;
        },
      ))
    × Listed env 5 l 0 ys
alloc_rg_again_example =
    alloc_rg_again env env-IsMalloc 5 4 100 low_free without_free (record space { mm = with_free })
      (page_0 ∷ []) found_block (omega (arith, length-replicate 29 no_region)) (omega arith)
      (omega arith) (omega arith) block-InRam space-Listed (omega arith)
