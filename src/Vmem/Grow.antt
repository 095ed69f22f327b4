-- ===== src/Vmem/Grow.antt =====
-- src/mm-vm.c: an area grows, if it does not run into another. An `int` that overflows wraps
-- around.
use os_sim.Base.{
  ℕ, ◌+◌, ◌-◌, ◌*◌, ◌/◌, ◌^◌, Bool, ◌&&◌, not, none, some, List, [], ◌∷◌, ok, fault, ◌==◌,
  if◌then◌else◌, is_negative, minus_one, u32, add64, sub64, sign_extend,
}
use os_sim.Memphy.{pagesz}
use os_sim.Region.{Area, Mm, get_vma_by_num, set_vma, get_vm_area_node_at_brk}
use os_sim.Vmem.{Env, Action, pure, ◌>>=◌, ◌>>◌, lift}
use os_sim.Vmem.Map.{vm_map_ram}

-- `a - b` of two `int`s.
abbrev pub sub32 : ℕ → ℕ → ℕ
sub32 a b = u32 (a + (2 ^ 32 - b))

-- The test that the planned area and another overlap: a product of two differences is not negative.
unfoldable pub overlaps : (vmastart vmaend : ℕ) → Area → Bool
overlaps vmastart vmaend vma =
    not (is_negative (u32 (sub32 (u32 vma.vm_start) vmastart * sub32 vmaend (u32 vma.vm_end))))
    && not (sign_extend vmaend == vma.vm_end)

-- The loop of `validate_overlap_vm_area`, over the areas.
unfoldable pub overlap_loop : (vmaid vmastart vmaend : ℕ) → List Area → ℕ
overlap_loop vmaid vmastart vmaend [] = 0
overlap_loop vmaid vmastart vmaend (vma ∷ rest) =
    let next = overlap_loop vmaid vmastart vmaend rest in
    if sign_extend vmaid == vma.vm_id
    then next
    else if vma.vm_start == vma.vm_end
    then next
    else if overlaps vmastart vmaend vma
    then minus_one
    else next

unfoldable pub validate_overlap_vm_area : Mm → (vmaid vmastart vmaend : ℕ) → ℕ
validate_overlap_vm_area mm vmaid vmastart vmaend =
    overlap_loop vmaid (u32 vmastart) (u32 vmaend) mm.mmap

-- PAGING_PAGE_ALIGNSZ of an `unsigned long`.
abbrev pub alignsz : ℕ → ℕ
alignsz sz = (sub64 (add64 sz pagesz) 1) / pagesz * pagesz

-- The division of an `int` by PAGING_PAGESZ.
abbrev pub pages : ℕ → ℕ
pages n = if is_negative n then u32 (2 ^ 32 - (2 ^ 32 - n) / pagesz) else n / pagesz

-- What is mapped already of the area beyond its break.
unfoldable pub slack : (vmaid : ℕ) → Area → ℕ
slack vmaid vma = if vmaid == 0 then sub64 vma.vm_end vma.sbrk else sub64 vma.sbrk vma.vm_end

unfoldable pub grown_end : (vmaid inc_sz : ℕ) → Area → ℕ
grown_end vmaid inc_sz vma =
    if vmaid == 0
    then alignsz (add64 vma.sbrk (sign_extend inc_sz))
    else sub64 (alignsz (sub64 vma.sbrk (sign_extend inc_sz))) pagesz

unfoldable pub the_vma : (vmaid : ℕ) → Action Area
the_vma vmaid s = elim (get_vma_by_num s.mm vmaid) [ none ↦ fault | some vma ↦ ok (vma, s) ]

unfoldable pub set_end : (vmaid : ℕ) → Area → (vm_end : ℕ) → Action (Unit {0})
set_end vmaid vma vm_end s =
    ok (tt, record s { mm = set_vma s.mm vmaid (record vma { vm_end = vm_end }) })

module _ (env : Env) where
  -- The `int`, which is also what `*inc_limit_ret` holds afterwards.
  unfoldable pub inc_vma_limit : (vmaid inc_sz : ℕ) → Action ℕ
  inc_vma_limit vmaid inc_sz = do
    cur_vma ← the_vma vmaid
    let inc_amt = u32 (alignsz (sub64 (sign_extend inc_sz) (slack vmaid cur_vma)))
    area ← λ s. lift (get_vm_area_node_at_brk env.junk s.mm vmaid inc_sz inc_amt) s
    valid ← λ s. ok (validate_overlap_vm_area s.mm vmaid area.rg_start area.rg_end, s)
    if is_negative valid then pure minus_one else (do
      set_end vmaid cur_vma (grown_end vmaid inc_sz cur_vma)
      mapped ← vm_map_ram env (u32 cur_vma.vm_end) (pages inc_amt) vmaid
      vma ← the_vma vmaid
      if is_negative mapped
          then (do
            set_end vmaid vma (
                if vmaid == 0
                then sub64 vma.vm_end (sign_extend inc_sz)
                else add64 vma.vm_end (sign_extend inc_sz))
            pure minus_one)
          else pure 0)
