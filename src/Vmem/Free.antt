-- ===== src/Vmem/Free.antt =====
-- `__free` of src/mm-vm.c: the bytes of a region are cleared, and it goes to the free list.
use os_sim.Base.{
  ℕ, ◌+◌, ◌-◌, ◌<◌, ◌≤◌, ◌≡◌, ◌≢◌, ◌^◌, ◌||◌, ◌==◌, ltb, is_negative, refl, ◌∙◌, false, List, ◌∷◌,
  length, set, get_elem?, get_elem?-set_self, some, ok, arith, ◌⊎◌, ◌↔◌,
}
use os_sim.Region.{Region, Area, Mm, get_vma_by_num, set_vma, max_symtbl_sz}
use os_sim.Region.Step.{Holds, InRange}
use os_sim.Region.Free.{Free, IsFreeList}
use os_sim.Region.Alloc.{get_vma-set_vma, enlist_calls}
use os_sim.Lru.Chain.{Entry}
use os_sim.Vmem.{System, Env}
use os_sim.Vmem.Listed.{IsMalloc, Listed}
use os_sim.Vmem.Access.{region_at}
use os_sim.Vmem.Allocate.{set_symrg_lem}
use os_sim.Vmem.Alloc.{free_rg, set_area}
use os_sim.Vmem.View.{view, IsMemory}
use os_sim.Vmem.Wipe.{InRam, wiped, clear_loop_lem}

-- The region `r` has the number `rgid`, and lies apart from the free bytes of its area `vma`.
pub record IsRegion (mm : Mm) (rgid size : ℕ) (r : Region) (vma : Area) : Type 0 where
  pub known : rgid < length mm.symrgtbl
  pub number : rgid ≤ 30
  pub region : region_at mm rgid ≡ ok r
  pub used : r.rg_start ≢ r.rg_end
  pub area : get_vma_by_num mm r.vmaid ≡ some vma
  pub range : InRange r.vmaid size r
  pub list : IsFreeList r.vmaid size vma.vm_freerg_list
  pub apart : (b : ℕ) → Holds r b → Free vma.vm_freerg_list b → ⊥

-- The process after `__free`.
abbrev pub freed : Mm → (rgid : ℕ) → Region → Area → Mm
freed mm rgid r vma =
    set_vma (record mm { symrgtbl = set mm.symrgtbl rgid (record r { rg_start = 0; rg_end = 0 }) })
      r.vmaid (record vma { vm_freerg_list = r ∷ vma.vm_freerg_list })

area_kept :
    (mm : Mm) (vmaid : ℕ) (table : List Region)
    → get_vma_by_num (record mm { symrgtbl = table }) vmaid ≡ get_vma_by_num mm vmaid
unfolding get_vma_by_num
area_kept mm vmaid table = refl

module _ (area : ℕ → ℕ) (env : Env) (m : IsMalloc env) where
  -- `__free` of a region that is in the symbol table, not empty, below 2^22, runs the way of its
  -- area and lies apart from the free bytes of the area, whose free list is well formed, when the
  -- bytes that it clears are in pages in RAM, in a memory where no two pages share a frame and every
  -- frame lies in the RAM, with fuel for the list of pages: it returns 0, the process sees 0 at the
  -- addresses from the start of the region up to below its end and its old bytes everywhere else, so
  -- in the heap, where the start is not below the end, everywhere; the region has the bounds 0 and
  -- 0, the free bytes of the area are those of the region and those that were free, the free list is
  -- well formed, and the memory is as described.
  pub free_rg_lem :
      (k rgid size : ℕ) (r : Region) (vma : Area) (s : System) (xs : List Entry)
      → IsMemory area s
      → IsRegion s.mm rgid size r vma
      → InRam area s r.vmaid r.rg_start (r.rg_end - r.rg_start)
      → r.rg_end ≤ 2 ^ 22
      → r.rg_start ≤ 2 ^ 22
      → Listed env (k + (r.rg_end - r.rg_start)) s.lru s.mallocs xs
      → (s' : System) × (vma' : Area) × (ys : List Entry) × (free_rg env rgid s ≡ ok (0, s'))
        × IsMemory area s'
        × (view area s' ≡ wiped (r.rg_end - r.rg_start) r.rg_start (view area s))
        × (get_elem? s'.mm.symrgtbl rgid ≡ some (record r { rg_start = 0; rg_end = 0 }))
        × (get_vma_by_num s'.mm r.vmaid ≡ some vma')
        × IsFreeList r.vmaid size vma'.vm_freerg_list
        × ((b : ℕ) → Free vma'.vm_freerg_list b ↔ (Holds r b ⊎ Free vma.vm_freerg_list b))
        × Listed env k s'.lru s'.mallocs ys
  unfolding free_rg set_area set_vma
  free_rg_lem k rgid size r vma s xs mem h here low high listed =
      let n = r.rg_end - r.rg_start in
      let (l, st, mallocs, ys, run, same, seen, listed') =
        clear_loop_lem area env m n k r.rg_start r.vmaid s xs mem here (omega (arith, low, high))
          listed in
      let s1 : System = record s {
        lru = l;
        mallocs = mallocs;
        vm_lock = false;
        mram = record s.mram { storage = st };
      } in
      let table = set s.mm.symrgtbl rgid (record r { rg_start = 0; rg_end = 0 }) in
      let mm2 : Mm = record s.mm { symrgtbl = table } in
      let vma' : Area = record vma { vm_freerg_list = r ∷ vma.vm_freerg_list } in
      let found : get_vma_by_num mm2 r.vmaid ≡ some vma = area_kept s.mm r.vmaid table ∙ h.area in
      let linked =
        enlist_calls mm2 r.vmaid size vma r found h.range h.used vma.vm_freerg_list refl in
      let valid : is_negative rgid || ltb max_symtbl_sz rgid ≡ false = ground (arith, h.number) in
      let ltb_used : (r.rg_start == r.rg_end) ≡ false = ground (arith, h.used) in
      (
        record s1 { mm = freed s.mm rgid r vma },
        vma',
        ys,
        rw
            (
              valid,
              h.region,
              ltb_used,
              run,
              set_symrg_lem rgid (record r { rg_start = 0; rg_end = 0 }) s1 h.known,
              linked,
            )
            refl,
        record {
          unlocked = refl;
          random = record { idle = mem.random.idle; random = mem.random.random };
          owned = mem.owned;
          room = rw same mem.room;
          holds = λ p f a. rw same (mem.holds p f a);
        },
        seen,
        get_elem?-set_self s.mm.symrgtbl rgid (record r { rg_start = 0; rg_end = 0 }) h.known,
        get_vma-set_vma mm2 r.vmaid vma vma' found,
        record { ranges = (h.range, h.list.ranges); apart = (h.apart, h.list.apart) },
        λ b. (λ h. h, λ h. h),
        listed',
      )
