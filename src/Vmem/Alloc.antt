-- ===== src/Vmem/Alloc.antt =====
-- src/mm-vm.c: `__alloc` and `__free` of a region, and the functions that the processor calls. An
-- `int` that overflows wraps around.
use os_sim.Base.{
  ℕ, zero, suc, ◌+◌, ◌-◌, ◌/◌, ◌^◌, Bool, true, false, ◌||◌, Option, none, some, [], ok, fault,
  no_fuel, bind, ◌==◌, ltb, leb, if◌then◌else◌, is_negative, minus_one, u32, sign_extend, set,
  length,
}
use os_sim.Pte.{page_present, pte_fpn}
use os_sim.Region.{
  Region, Area, Mm, set_vma, get_free_vmrg_area, enlist_vm_freerg_list, max_symtbl_sz,
}
use os_sim.Vmem.{
  System, Env, Action, pure, ◌>>=◌, ◌>>◌, lift, load_entry, pgd_entry, swap_get_freefp,
  swap_put_freefp, ram_to_swap, swap_to_ram, add_lru, update_lru, find_victim,
}
use os_sim.Vmem.Page.{set_fpn, set_swap, out_of_swap, pg_setval}
use os_sim.Vmem.Access.{symrg}
use os_sim.Vmem.Grow.{sub32, the_vma, inc_vma_limit}

-- `a < b` of two `int`s.
abbrev pub signed_lt : ℕ → ℕ → Bool
signed_lt a b = ltb (u32 (a + 2 ^ 31)) (u32 (b + 2 ^ 31))

-- `caller->mm->symrgtbl[rgid] = r`
unfoldable pub set_symrg : (rgid : ℕ) → Region → Action (Unit {0})
set_symrg rgid r s =
    if ltb rgid (length s.mm.symrgtbl)
    then ok (tt, record s { mm = record s.mm { symrgtbl = set s.mm.symrgtbl rgid r } })
    else fault

unfoldable pub set_sbrk : (vmaid : ℕ) → Area → (sbrk : ℕ) → Action (Unit {0})
set_sbrk vmaid vma sbrk s =
    ok (tt, record s { mm = set_vma s.mm vmaid (record vma { sbrk = sbrk }) })

unfoldable pub set_area : Mm → Action (Unit {0})
set_area mm s = ok (tt, record s { mm = mm })

-- The tests for room and for more pages: `none` if `__alloc` fails, else whether to grow.
unfoldable pub needs_pages : (vmaid old_sbrk size : ℕ) → Area → Action (Option Bool)
needs_pages vmaid old_sbrk size vma s =
    if vmaid == 0
    then (if ltb s.vmemsz (u32 (old_sbrk + size))
        then ok (none, s)
        else ok (some (ltb vma.vm_end (sign_extend (u32 (old_sbrk + size)))), s))
    else if is_negative (sub32 old_sbrk size)
    then ok (none, s)
    else ok (some (signed_lt (sub32 old_sbrk size) (u32 vma.vm_end)), s)

-- The new region and the new break, which start at the old break.
unfoldable pub new_region : (vmaid old_sbrk size : ℕ) → System → Region × ℕ
new_region vmaid old_sbrk size s =
    if vmaid == 0
    then (
      record {
        vmaid = vmaid;
        rg_start = sign_extend old_sbrk;
        rg_end = sign_extend (sub32 (u32 (old_sbrk + size)) 1);
      },
      sign_extend (u32 (old_sbrk + size)),
    )
    else if old_sbrk == u32 (s.vmemsz + minus_one)
    then (
      record {
        vmaid = vmaid;
        rg_start = sign_extend old_sbrk;
        rg_end = sign_extend (sub32 (u32 (old_sbrk + 1)) size);
      },
      sign_extend (sub32 (u32 (old_sbrk + 1)) size),
    )
    else (
      record {
        vmaid = vmaid;
        rg_start = sign_extend (sub32 old_sbrk 1);
        rg_end = sign_extend (sub32 old_sbrk size);
      },
      sign_extend (sub32 old_sbrk size),
    )

module _ (env : Env) where
  -- A page in swap takes the frame of a victim: from `find_LRU_victim_page` on, in both loops over
  -- the pages of a free region that is used again. False if there is no room.
  unfoldable pub bring_in : (p current_pte i : ℕ) → Action Bool
  bring_in p current_pte i = do
    vic ← find_victim env
    (status, swpfpn) ← swap_get_freefp env.junk
    if is_negative status then pure false else (do
      ram_to_swap env.junk vic.fpn swpfpn
      set_swap vic.pte swpfpn
      swap_to_ram env.junk (pte_fpn current_pte) vic.fpn
      set_fpn p vic.fpn
      add_lru env p i
      swap_put_freefp (pte_fpn current_pte)
      pure true)

  -- The body of the two loops.
  unfoldable pub revive_page : (i : ℕ) → Action Bool
  revive_page i = do
    p ← pgd_entry i
    current_pte ← load_entry p
    online ← (if page_present current_pte then pure true else bring_in p current_pte i)
    if online then (do update_lru env current_pte; pure true) else pure false

  -- The two loops, on fuel; `i` is an `int`. False where the body finds no room.
  unfoldable pub revive_loop : ℕ → (vmaid i last : ℕ) → Action Bool
  revive_loop zero vmaid i last = lift no_fuel
  revive_loop (suc fuel) vmaid i last =
      let next = u32 (if vmaid == 0 then i + 1 else i + minus_one) in
      let round = (do
        online ← revive_page i
        if online then revive_loop fuel vmaid next last else pure false) in
      if (if vmaid == 0 then leb (sign_extend i) last else leb last (sign_extend i))
      then round
      else pure true

  -- A block that `get_free_vmrg_area` has found.
  unfoldable pub use_block : (vmaid rgid : ℕ) → Region → Action ℕ
  use_block vmaid rgid rgnode = do
    set_symrg rgid (record { vmaid = vmaid; rg_start = rgnode.rg_start; rg_end = rgnode.rg_end })
    online ← revive_loop env.fuel vmaid (u32 (rgnode.rg_start / 256)) (rgnode.rg_end / 256)
    pure (if online then 0 else out_of_swap)

  -- The part of `__alloc` after the search in the free list.
  unfoldable pub extend_area : (vmaid rgid size : ℕ) → Action ℕ
  extend_area vmaid rgid size = do
    cur_vma ← the_vma vmaid
    let old_sbrk = u32 cur_vma.sbrk
    grow ← needs_pages vmaid old_sbrk size cur_vma
    elim grow [
      | none ↦ pure minus_one
      | some more ↦ do
        limit ← (if more then inc_vma_limit env vmaid size else pure 0)
        if is_negative limit then pure minus_one else (do
          (rg, sbrk) ← λ s. ok (new_region vmaid old_sbrk size s, s)
          vma ← the_vma vmaid
          set_sbrk vmaid vma sbrk
          set_symrg rgid rg
          pure 0)
    ]

  -- `__alloc`. The address that it returns is not used.
  unfoldable pub alloc_rg : (vmaid rgid size : ℕ) → Action ℕ
  alloc_rg vmaid rgid size = do
    (status, rgnode, mm) ← λ s.
        bind
          (get_free_vmrg_area env.fuel s.mm vmaid size
            (record { vmaid = vmaid; rg_start = env.junk; rg_end = env.junk }))
          (λ z. ok (z, s))
    set_area mm
    if status == 0 then use_block vmaid rgid rgnode else extend_area vmaid rgid size

  -- The loop of `__free` that clears bytes, by the rounds left; `pg_setval` may fail.
  unfoldable pub clear_loop : ℕ → (addr vmaid : ℕ) → Action (Unit {0})
  clear_loop zero addr vmaid = pure tt
  clear_loop (suc n) addr vmaid = do
    _ ← pg_setval env (u32 addr) 0 vmaid
    clear_loop n (addr + 1) vmaid

  -- `__free`
  unfoldable pub free_rg : (rgid : ℕ) → Action ℕ
  free_rg rgid = if is_negative rgid || ltb max_symtbl_sz rgid then pure minus_one else (do
    rgnode ← symrg rgid
    if rgnode.rg_start == rgnode.rg_end then pure minus_one else (do
      clear_loop (rgnode.rg_end - rgnode.rg_start) rgnode.rg_start rgnode.vmaid
      set_symrg rgid (record rgnode { rg_start = 0; rg_end = 0 })
      (_, mm) ← λ s. bind (enlist_vm_freerg_list s.mm rgnode.vmaid rgnode []) (λ z. ok (z, s))
      set_area mm
      pure 0))

  unfoldable pub pgalloc : (size reg_index : ℕ) → Action ℕ
  pgalloc size reg_index = alloc_rg 0 reg_index size

  unfoldable pub pgmalloc : (size reg_index : ℕ) → Action ℕ
  pgmalloc size reg_index = alloc_rg 1 reg_index size

  unfoldable pub pgfree_data : (reg_index : ℕ) → Action ℕ
  pgfree_data reg_index = free_rg reg_index
