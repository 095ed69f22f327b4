-- ===== src/Vmem/Page.antt =====
-- src/mm-vm.c: a page is brought into RAM, and a byte of it is read or written.
use os_sim.Base.{
  ℕ, ◌+◌, ◌-◌, ◌*◌, ◌^◌, Bool, true, false, ◌==◌, if◌then◌else◌, is_negative, minus_one,
}
use os_sim.Memphy.{pagesz}
use os_sim.Pte.{page_present, pte_fpn, pte_set_fpn, pte_set_swap}
use os_sim.Vmem.{
  Env, Action, pure, ◌>>=◌, ◌>>◌, paging_pgn, paging_offst, load_entry, store_entry, pgd_entry,
  ram_get_freefp, swap_get_freefp, swap_put_freefp, ram_read, ram_write, ram_to_swap, swap_to_ram,
  lock_vm, unlock_vm, add_lru, find_victim,
}

-- The `int` -3000.
abbrev pub out_of_swap : ℕ
out_of_swap = 2 ^ 32 - 3000

-- The index that the loops over the swap devices find for the active one.
abbrev pub index_of_active_mswp : ℕ
index_of_active_mswp = 0

-- `pte_set_fpn(p, fpn)` and `pte_set_swap(p, index_of_active_mswp, swpfpn)`
unfoldable pub set_fpn : (p fpn : ℕ) → Action (Unit {0})
set_fpn p fpn = do v ← load_entry p; store_entry p (pte_set_fpn v fpn)

unfoldable pub set_swap : (p swpfpn : ℕ) → Action (Unit {0})
set_swap p swpfpn = do v ← load_entry p; store_entry p (pte_set_swap v index_of_active_mswp swpfpn)

-- The physical address of an offset: the pages of the heap run down.
abbrev pub phyaddr : (vmaid fpn off : ℕ) → ℕ
phyaddr vmaid fpn off = if vmaid == 0 then fpn * 2 ^ 8 + off else fpn * 2 ^ 8 + (pagesz - 1 - off)

module _ (env : Env) where
  -- The page replacement of `pg_getpage`: a victim goes to the swap device and page `pgn`, with the
  -- entry `pte` at the address `p`, takes its frame. False if there is no room.
  unfoldable pub replace_page : (p pte : ℕ) → Action Bool
  replace_page p pte = do
    vic ← find_victim env
    (status, swpfpn) ← swap_get_freefp env.junk
    if is_negative status then pure false else (do
      ram_to_swap env.junk vic.fpn swpfpn
      swap_to_ram env.junk (pte_fpn pte) vic.fpn
      set_swap vic.pte swpfpn
      set_fpn p vic.fpn
      swap_put_freefp (pte_fpn pte)
      pure true)

  -- A page that is not present gets a free frame of the RAM, or that of a victim.
  unfoldable pub fetch_page : (p pte : ℕ) → Action Bool
  fetch_page p pte = do
    (status, fpn_temp) ← ram_get_freefp minus_one
    if status == 0
        then (do swap_to_ram env.junk (pte_fpn pte) fpn_temp; set_fpn p fpn_temp; pure true)
        else replace_page p pte

  -- The `int`, and what `*fpn` holds afterwards; `fpn` is what it holds before.
  unfoldable pub pg_getpage : (pgn fpn : ℕ) → Action (ℕ × ℕ)
  pg_getpage pgn fpn = do
    lock_vm
    p ← pgd_entry pgn
    pte ← load_entry p
    online ← (if page_present pte then pure true else fetch_page p pte)
    if online
        then (do add_lru env p pgn; v ← load_entry p; unlock_vm; pure (0, pte_fpn v))
        else (do unlock_vm; pure (out_of_swap, fpn))

  unfoldable pub pg_setval : (addr value vmaid : ℕ) → Action ℕ
  pg_setval addr value vmaid = do
    (status, fpn) ← pg_getpage (paging_pgn addr) env.junk
    if status == 0
        then (do ram_write (phyaddr vmaid fpn (paging_offst addr)) value; pure 0)
        else pure minus_one

  -- The `int`, and what `*data` holds afterwards; `value` is what it holds before.
  unfoldable pub pg_getval : (addr value vmaid : ℕ) → Action (ℕ × ℕ)
  pg_getval addr value vmaid = do
    (status, fpn) ← pg_getpage (paging_pgn addr) env.junk
    if status == 0
        then (do b ← ram_read (phyaddr vmaid fpn (paging_offst addr)) value; pure (0, b))
        else pure (minus_one, value)
