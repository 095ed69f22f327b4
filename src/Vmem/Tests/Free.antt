-- ===== src/Vmem/Tests/Free.antt =====
-- `__free` at a concrete input.
use os_sim.Base.{
  ℕ, zero, suc, ◌-◌, ◌^◌, ◌≡◌, ◌⊎◌, ◌↔◌, inl, refl, List, [], ◌∷◌, replicate, get_elem?, some, ok,
  arith,
}
use os_sim.Region.{Region, Area, get_vma_by_num, get_symrg_byid}
use os_sim.Region.Step.{Holds}
use os_sim.Region.Free.{Free, IsFreeList}
use os_sim.Lru.Chain.{Entry}
use os_sim.Vmem.{System}
use os_sim.Vmem.Listed.{Listed}
use os_sim.Vmem.Access.{region_at}
use os_sim.Vmem.Alloc.{free_rg}
use os_sim.Vmem.View.{view, IsMemory}
use os_sim.Vmem.Wipe.{InRam, wiped}
use os_sim.Vmem.Free.{IsRegion, free_rg_lem}
use os_sim.Vmem.Tests.Replay.{upward, space-IsMemory}
use os_sim.Vmem.Tests.{
  no_region, low_area, two_areas, page_0, space, env, env-IsMalloc, space-Listed, in_ram,
}

-- A region of four bytes.
abbrev tiny : Region
tiny = record { vmaid = 0; rg_start = 10; rg_end = 13 }

abbrev with_tiny : System
with_tiny = record space { mm = record two_areas { symrgtbl = tiny ∷ replicate 29 no_region } }

with_tiny-IsMemory : IsMemory upward with_tiny
with_tiny-IsMemory = record {
  unlocked = refl;
  random = space-IsMemory.random;
  owned = space-IsMemory.owned;
  room = space-IsMemory.room;
  holds = space-IsMemory.holds;
}

tiny-IsRegion : IsRegion with_tiny.mm 0 5 tiny low_area
unfolding region_at get_vma_by_num get_symrg_byid
tiny-IsRegion = record {
  known = omega arith;
  number = omega arith;
  region = refl;
  used = omega arith;
  area = refl;
  range = inl (refl, omega arith, omega arith);
  list = record { ranges = tt; apart = tt };
  apart = λ b h f. f;
}

tiny-InRam : InRam upward with_tiny 0 10 (13 - 10)
tiny-InRam zero h = (2 ^ 31, refl, in_ram, refl)
tiny-InRam (suc zero) h = (2 ^ 31, refl, in_ram, refl)
tiny-InRam (suc (suc zero)) h = (2 ^ 31, refl, in_ram, refl)
tiny-InRam (suc (suc (suc i))) h = absurd (omega arith)

free_rg_lem_example :
    (s' : System) × (vma' : Area) × (ys : List Entry) × (free_rg env 0 with_tiny ≡ ok (0, s'))
    × IsMemory upward s'
    × (view upward s' ≡ wiped (13 - 10) 10 (view upward with_tiny))
    × (get_elem? s'.mm.symrgtbl 0 ≡ some (record tiny { rg_start = 0; rg_end = 0 }))
    × (get_vma_by_num s'.mm 0 ≡ some vma')
    × IsFreeList 0 5 vma'.vm_freerg_list
    × ((b : ℕ) → Free vma'.vm_freerg_list b ↔ (Holds tiny b ⊎ Free [] b))
    × Listed env 2 s'.lru s'.mallocs ys
free_rg_lem_example =
    free_rg_lem upward env env-IsMalloc 2 0 5 tiny low_area with_tiny (page_0 ∷ [])
      with_tiny-IsMemory tiny-IsRegion tiny-InRam (omega arith) (omega arith) space-Listed
