-- ===== src/Vmem/Map.antt =====
-- src/mm.c: frames of the RAM for new pages, and their entries in the page table.
use os_sim.Base.{
  ℕ, zero, suc, ◌+◌, ◌-◌, ◌^◌, List, [], ◌∷◌, fault, ◌==◌, if◌then◌else◌, is_negative, minus_one,
  u32,
}
use os_sim.Vmem.{
  Env, Action, pure, ◌>>=◌, ◌>>◌, lift, paging_pgn, pgd_entry, ram_get_freefp, swap_get_freefp,
  ram_to_swap, lock_map, unlock_map, add_lru, find_victim,
}
use os_sim.Vmem.Page.{set_fpn, set_swap}

-- The index of the page table for the page `pgit` of a range, as a bit pattern.
abbrev pub page_index : (vmaid pgn pgit : ℕ) → ℕ
page_index vmaid pgn pgit = if vmaid == 0 then u32 (pgn + pgit) else u32 (pgn + (2 ^ 32 - pgit))

-- Where `vm_map_ram` starts to map; its three calls of `vmap_page_range` differ in nothing else.
abbrev pub map_start : (vmaid mapstart vmemsz : ℕ) → ℕ
map_start vmaid mapstart vmemsz =
    if vmaid == 0
    then mapstart
    else if mapstart == u32 (vmemsz + minus_one)
    then mapstart
    else u32 (mapstart + minus_one)

module _ (env : Env) where
  -- The page replacement of `alloc_pages_range`: the frame of the victim. If the active swap device
  -- is full, the code takes the first bytes of a device for a pointer to one.
  unfoldable pub evict : Action ℕ
  evict = do
    vic ← find_victim env
    (status, swpfpn) ← swap_get_freefp env.junk
    if is_negative status
        then lift fault
        else (do ram_to_swap env.junk vic.fpn swpfpn; set_swap vic.pte swpfpn; pure vic.fpn)

  -- One round of the loop of `alloc_pages_range`.
  unfoldable pub alloc_page : Action ℕ
  alloc_page = do
    (status, fpn) ← ram_get_freefp env.junk
    if is_negative status then evict else pure fpn

  -- The loop, by the rounds left.
  unfoldable pub alloc_loop : ℕ → List ℕ → Action (List ℕ)
  alloc_loop zero frm_lst = pure frm_lst
  alloc_loop (suc n) frm_lst = do fpn ← alloc_page; alloc_loop n (fpn ∷ frm_lst)

  -- The frames, the last that was taken first. It returns only 0: see `evict`.
  unfoldable pub alloc_pages_range : (req_pgnum : ℕ) → Action (List ℕ)
  alloc_pages_range req_pgnum = if is_negative req_pgnum then pure [] else alloc_loop req_pgnum []

  -- The loop of `vmap_page_range`, by the rounds left; the `int` it returns, if it does.
  unfoldable pub vmap_loop : (vmaid pgn : ℕ) → ℕ → List ℕ → Action ℕ
  vmap_loop vmaid pgn zero fpit = pure 0
  vmap_loop vmaid pgn (suc pgit) [] = pure minus_one
  vmap_loop vmaid pgn (suc pgit) (fpn ∷ fpit) = do
    p ← pgd_entry (page_index vmaid pgn pgit)
    set_fpn p fpn
    add_lru env p (page_index vmaid pgn pgit)
    vmap_loop vmaid pgn pgit fpit

  -- The mapped region `ret_rg` is not read afterwards, and only its `vmaid` before.
  unfoldable pub vmap_page_range : (addr pgnum : ℕ) → (frames : List ℕ) → (vmaid : ℕ) → Action ℕ
  vmap_page_range addr pgnum frames vmaid =
      vmap_loop vmaid (paging_pgn addr) (if is_negative pgnum then 0 else pgnum) frames

  -- `astart` and `aend` are not read.
  unfoldable pub vm_map_ram : (mapstart incpgnum vmaid : ℕ) → Action ℕ
  vm_map_ram mapstart incpgnum vmaid = do
    lock_map
    frm_lst ← alloc_pages_range incpgnum
    _ ← λ s. vmap_page_range (map_start vmaid mapstart s.vmemsz) incpgnum frm_lst vmaid s
    unlock_map
    pure 0
