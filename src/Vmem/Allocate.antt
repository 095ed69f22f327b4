-- ===== src/Vmem/Allocate.antt =====
-- `__alloc` of src/mm-vm.c in the data area, when no free region is large enough.
use os_sim.Base.{
  ℕ, ◌+◌, ◌-◌, ◌≤◌, ◌<◌, ◌≡◌, ◌^◌, refl, false, length, set, some, ok, arith, minus_one, u32, ltb,
}
use os_sim.Region.{Region, Area, Mm, get_vma_by_num, set_vma, get_free_vmrg_area}
use os_sim.Lru.{Lru}
use os_sim.Vmem.{System, Env}
use os_sim.Vmem.Listed.{Listed}
use os_sim.Vmem.Extend.{the_vma_lem}
use os_sim.Vmem.Alloc.{
  set_symrg, set_sbrk, set_area, needs_pages, new_region, extend_area, alloc_rg,
}

-- No free region of the data area fits, and there is room below the end of the address space.
pub record IsSearched (env : Env) (s : System) (vma : Area) (rgid size : ℕ) : Type 0 where
  pub left : Region
  pub search :
      get_free_vmrg_area env.fuel s.mm 0 size
        (record { vmaid = 0; rg_start = env.junk; rg_end = env.junk })
      ≡ ok (minus_one, left, s.mm)
  pub area : get_vma_by_num s.mm 0 ≡ some vma
  pub known : rgid < length s.mm.symrgtbl
  pub positive : 0 < size
  pub below : vma.sbrk + size ≤ s.vmemsz
  pub space : s.vmemsz ≤ 2 ^ 22
  pub end_below : vma.vm_end ≤ 2 ^ 22

-- The process with the region `rgid` at the break of the area, and the new break.
abbrev pub placed : Mm → Area → (rgid size : ℕ) → Mm
placed mm vma rgid size = record (set_vma mm 0 (record vma { sbrk = vma.sbrk + size })) {
  symrgtbl =
      set mm.symrgtbl rgid
        (record { vmaid = 0; rg_start = vma.sbrk; rg_end = vma.sbrk + size - 1 });
}

needs_lem :
    (env : Env) (s : System) (vma : Area) (rgid size : ℕ)
    → IsSearched env s vma rgid size
    → needs_pages 0 (u32 vma.sbrk) size vma s ≡ ok (some (ltb vma.vm_end (vma.sbrk + size)), s)
unfolding needs_pages
needs_lem env s vma rgid size h = ground (arith, h.positive, h.below, h.space)

region_lem :
    (env : Env) (s : System) (vma : Area) (rgid size : ℕ)
    → IsSearched env s vma rgid size
    → (t : System)
    → new_region 0 (u32 vma.sbrk) size t
      ≡ (record { vmaid = 0; rg_start = vma.sbrk; rg_end = vma.sbrk + size - 1 }, vma.sbrk + size)
unfolding new_region
region_lem env s vma rgid size h t = ground (arith, h.positive, h.below, h.space)

pub set_symrg_lem :
    (rgid : ℕ) (r : Region) (s : System)
    → rgid < length s.mm.symrgtbl
    → set_symrg rgid r s
      ≡ ok (tt, record s { mm = record s.mm { symrgtbl = set s.mm.symrgtbl rgid r } })
unfolding set_symrg
set_symrg_lem rgid r s h = ground arith

module _ (env : Env) where
  -- `__alloc` in the data area, when no free region fits, there is room below the end of the
  -- address space, which is at most 2^22, and the area already reaches as far: it returns 0, the
  -- region is the `size` bytes from the break on, the break moves past them, and nothing else
  -- changes.
  pub alloc_rg_within :
      (rgid size : ℕ) (vma : Area) (s : System)
      → IsSearched env s vma rgid size
      → vma.sbrk + size ≤ vma.vm_end
      → alloc_rg env 0 rgid size s ≡ ok (0, record s { mm = placed s.mm vma rgid size })
  unfolding alloc_rg set_area extend_area set_sbrk set_vma
  alloc_rg_within rgid size vma s h le =
      let enough : ltb vma.vm_end (vma.sbrk + size) ≡ false = ground arith in
      let s1 : System = record s { mm = set_vma s.mm 0 (record vma { sbrk = vma.sbrk + size }) } in
      rw
        (
          h.search,
          the_vma_lem 0 vma s h.area,
          needs_lem env s vma rgid size h,
          enough,
          region_lem env s vma rgid size h s,
          the_vma_lem 0 vma s h.area,
          set_symrg_lem rgid
              (record { vmaid = 0; rg_start = vma.sbrk; rg_end = vma.sbrk + size - 1 }) s1 h.known,
        )
        refl
