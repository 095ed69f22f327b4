-- ===== src/Vmem/Tests.antt =====
-- The paging functions of src/mm-vm.c and src/mm.c at concrete inputs.
mod Swap
mod Grow
mod Replay
mod Free
mod Program
mod Take
use os_sim.Base.{
  ◌+◌, ◌-◌, ◌*◌, ◌/◌, ◌%◌, ◌≤◌, ◌<◌, ◌≡◌, ◌≢◌, ◌⊎◌, ◌^◌, refl, true, false, [], ◌∷◌, replicate,
  none, some, ok, arith, minus_one, ◌==◌, ◌||◌,
}
use os_sim.Memphy.{Memphy}
use os_sim.Memphy.Access.{IsRandom}
use os_sim.Pte.{page_present, pte_fpn}
use os_sim.Region.{Region, Area, Mm, get_vma_by_num, get_symrg_byid}
use os_sim.Lru.{Lru, Victim}
use os_sim.Lru
use os_sim.Lru.Chain.{Entry, node}
use os_sim.Lru.Move.{IsLru}
use os_sim.Vmem.{System, Env, update, paging_pgn, paging_offst}
use os_sim.Vmem.Listed.{IsMalloc, Listed}
use os_sim.Vmem.Access.{rg_addr, out_of_range, region_at, check_access, read_rg, write_rg}
use os_sim.Vmem.RoundTrip.{IsAccess}
use os_sim.Vmem.Refuse.{InRange, access_cases}

-- A region of 301 bytes at the start of the data area, and none else.
abbrev low_region : Region
low_region = record { vmaid = 0; rg_start = 0; rg_end = 300 }

abbrev no_region : Region
no_region = record { vmaid = 0; rg_start = 0; rg_end = 0 }

abbrev low_area : Area
low_area = record { vm_id = 0; vm_start = 0; vm_end = 512; sbrk = 301; vm_freerg_list = [] }

abbrev heap : Area
heap = record { vm_id = 1; vm_start = 4095; vm_end = 3840; sbrk = 3900; vm_freerg_list = [] }

abbrev two_areas : Mm
two_areas = record {
  pgd = 100;
  mmap = low_area ∷ heap ∷ [];
  symrgtbl = low_region ∷ replicate 29 no_region;
  fifo_pgn = [];
}

-- Page 0 is in frame 0 of the RAM, its entry at address 100.
abbrev page_0 : Entry
page_0 = record { ptr = 10; pte = 100; fpn = 0; pgn = 0 }

abbrev one_page : Lru
one_page = record {
  cell = Lru.update (λ _. none) 10 (node 0 0 page_0);
  lru_head = 10;
  lru_tail = 10;
}

-- A device of four frames, whose last two are free.
abbrev device : Memphy
device = record {
  locked = false;
  storage = replicate 1024 5;
  maxsz = 1024;
  rdmflg = 1;
  cursor = 0;
  free_fp_list = 2 ∷ 3 ∷ [];
}

abbrev space : System
space = record {
  mm = two_areas;
  vmemsz = 4096;
  mram = device;
  active_mswp = device;
  lru = one_page;
  entries = update (λ _. some 0) 100 (2 ^ 31);
  vm_lock = false;
  map_lock = false;
  mallocs = 0;
}

abbrev no_victim : Victim
no_victim = record { status = 9; pgn = 9; fpn = 9; pte = 9 }

abbrev env : Env
env = record { malloc = λ n. 1000 + n; wild = 7; junk = 9; victim = no_victim; fuel = 10 }

env-IsMalloc : IsMalloc env
env-IsMalloc = record { valid = λ n. omega arith; fresh = λ a b ne. omega arith }

one_page-IsLru : IsLru one_page (page_0 ∷ [])
one_page-IsLru = record {
  head = refl;
  tail = refl;
  chain = (omega arith, refl, tt);
  distinct = (tt, tt);
}

space-Listed : Listed env 5 one_page 0 (page_0 ∷ [])
space-Listed = record {
  lru = one_page-IsLru;
  fuel = omega arith;
  unused = λ n le. (omega arith, tt);
}

device-IsRandom : IsRandom device
device-IsRandom = record { idle = refl; random = omega arith }

in_ram : page_present (2 ^ 31) ≡ true
unfolding page_present
in_ram = refl

frame_0 : pte_fpn (2 ^ 31) ≡ 0
unfolding pte_fpn
frame_0 = refl

low_area_found : get_vma_by_num two_areas 0 ≡ some low_area
unfolding get_vma_by_num
low_area_found = refl

space-IsAccess : IsAccess space 0 200 low_region (2 ^ 31) 200
unfolding region_at check_access out_of_range rg_addr paging_pgn paging_offst get_vma_by_num pte_fpn
    page_present get_symrg_byid
space-IsAccess = record {
  region = refl;
  valid = refl;
  small = omega arith;
  online = record { unlocked = refl; room = omega arith; entry = refl; present = refl };
  random = device-IsRandom;
  place = refl;
  inside = omega arith;
}

access_cases_example :
    (InRange low_region 301 × (check_access two_areas low_region 301 ≡ true))
    ⊎ ((¬ InRange low_region 301)
        × (read_rg env 0 301 1 space ≡ ok ((minus_one, 1), space))
        × (write_rg env 0 301 1 space ≡ ok (minus_one, space)))
access_cases_example =
    access_cases env 0 301 1 low_region low_area space space-IsAccess.region low_area_found
      (omega arith) (omega arith) (omega arith)
