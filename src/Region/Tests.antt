-- ===== src/Region/Tests.antt =====
-- The free regions of src/mm-vm.c at concrete inputs.
use os_sim.Base.{ℕ, ◌+◌, ◌^◌, ◌≤◌, ◌≡◌, inl, refl, some, [], ◌∷◌, ok, arith, minus_one, true}
use os_sim.Region.{
  get_symrg_byid, get_vm_area_node_at_brk, max_symtbl_sz, Region, Area, Mm, fits, get_vma_by_num,
  get_free_vmrg_area, find_loop, block_end, leaves_space, left_space, use_up, vma_index,
}
use os_sim.Region.Step.{fits-wraps}
use os_sim.Region.Free.{Free, IsFreeList}
use os_sim.Region.Alloc.{get_free_vmrg_area-exhausts}

-- Bytes 0 to 1023 were freed.
abbrev first_kilobyte : Region
first_kilobyte = record { vmaid = 0; rg_start = 0; rg_end = 1023 }

abbrev low : Area
low = record {
  vm_id = 0;
  vm_start = 0;
  vm_end = 2048;
  sbrk = 2048;
  vm_freerg_list = first_kilobyte ∷ [];
}

abbrev high : Area
high = record {
  vm_id = 1;
  vm_start = 4095;
  vm_end = 3839;
  sbrk = 3900;
  vm_freerg_list = record { vmaid = 1; rg_start = 4095; rg_end = 4095 } ∷ [];
}

abbrev space : Mm
space = record { pgd = 0; mmap = low ∷ high ∷ []; symrgtbl = []; fifo_pgn = [] }

abbrev blank : Region
blank = record { vmaid = 0; rg_start = 0; rg_end = 0 }

low-IsFreeList : IsFreeList 0 300 low.vm_freerg_list
low-IsFreeList = record {
  ranges = (inl (refl, omega arith, omega arith), tt);
  apart = ((λ b h k. k), tt);
}

space-area : get_vma_by_num space 0 ≡ some low
unfolding get_vma_by_num vma_index
space-area = refl

-- Of the three blocks that fit, the last is returned.
third_block :
    (mm' : Mm) × (get_free_vmrg_area 2000 space 0 300 blank
      ≡ ok (0, record { vmaid = 0; rg_start = 600; rg_end = 899 }, mm'))
unfolding get_free_vmrg_area get_vma_by_num vma_index find_loop fits block_end leaves_space
    left_space use_up
third_block = (_, refl)

get_free_vmrg_area-exhausts_example :
    (enough : ℕ) × ((fuel2 : ℕ)
      → enough ≤ fuel2
      → (newrg3 : Region) × (get_free_vmrg_area fuel2 third_block.0 0 300 blank
          ≡ ok (minus_one, newrg3, third_block.0)))
get_free_vmrg_area-exhausts_example =
    get_free_vmrg_area-exhausts 2000 0 300 space third_block.0 low blank
      (record { vmaid = 0; rg_start = 600; rg_end = 899 }) blank (omega arith) (omega arith)
      space-area low-IsFreeList (omega arith) third_block.1

fits-wraps_example :
    (fits 1 200 (record { vmaid = 1; rg_start = 100; rg_end = 1 }) ≡ true)
    × (block_end 1 200 100 + 200 ≡ 2 ^ 64 + (100 + 1))
fits-wraps_example =
    fits-wraps 200 (record { vmaid = 1; rg_start = 100; rg_end = 1 }) (omega arith) (omega arith)
      (omega arith) (omega arith)

-- One past the end of the table.
past_the_table : get_symrg_byid space max_symtbl_sz ≡ some 30
unfolding get_symrg_byid
past_the_table = refl

brk_of_space :
    get_vm_area_node_at_brk 7 space 1 300 512
    ≡ ok (record { vmaid = 7; rg_start = 3900; rg_end = 3600 })
unfolding get_vm_area_node_at_brk get_vma_by_num vma_index
brk_of_space = refl
