-- ===== src/Vmem/Access.antt =====
-- src/mm-vm.c: `__read` and `__write` of a byte of a region, with `pgread` and `pgwrite`, which
-- only print besides.
use os_sim.Base.{
  ℕ, Bool, true, false, none, some, Outcome, ok, fault, get_elem?, ltb, ◌==◌, if◌then◌else◌,
  minus_one, add64, sub64, sign_extend, u32,
}
use os_sim.Region.{Region, Mm, get_vma_by_num, get_symrg_byid}
use os_sim.Vmem.{
  Env, Action, pure, lift, ◌>>=◌, ◌>>◌, paging_pgn, load_entry, pgd_entry, update_lru,
}
use os_sim.Vmem.Page.{pg_getval, pg_setval}

-- `get_symrg_byid`, and the first read through the pointer that it returns.
unfoldable pub region_at : Mm → (rgid : ℕ) → Outcome Region
region_at mm rgid = elim (get_symrg_byid mm rgid) [
  | none ↦ fault
  | some i ↦ elim (get_elem? mm.symrgtbl i) [ none ↦ fault | some r ↦ ok r ]
]

abbrev pub symrg : (rgid : ℕ) → Action Region
symrg rgid s = lift (region_at s.mm rgid) s

-- The address of an offset in a region, as an `unsigned long`, and whether it lies past its end.
unfoldable pub rg_addr : Region → (offset : ℕ) → ℕ
rg_addr r offset =
    if r.vmaid == 0
    then add64 r.rg_start (sign_extend offset)
    else sub64 r.rg_start (sign_extend offset)

unfoldable pub out_of_range : Region → (offset : ℕ) → Bool
out_of_range r offset =
    if r.vmaid == 0 then ltb r.rg_end (rg_addr r offset) else ltb (rg_addr r offset) r.rg_end

-- The tests of both functions before the access: where one fails they return -1.
unfoldable pub check_access : Mm → (currg : Region) → (offset : ℕ) → Bool
check_access mm currg offset = elim (get_vma_by_num mm currg.vmaid) [
  | none ↦ false
  | some _ ↦
      if currg.rg_start == currg.rg_end
      then false
      else if out_of_range currg offset
      then false
      else true
]

module _ (env : Env) where
  -- `update_LRU_lst(&caller->mm->pgd[PAGING_PGN(address)])`
  unfoldable pub touch : (address : ℕ) → Action (Unit {0})
  touch address = do p ← pgd_entry (paging_pgn address); entry ← load_entry p; update_lru env entry

  -- `__read`: the `int`, and what `*data` holds afterwards.
  unfoldable pub read_rg : (rgid offset value : ℕ) → Action (ℕ × ℕ)
  read_rg rgid offset value = do
    currg ← symrg rgid
    valid ← λ s. ok (check_access s.mm currg offset, s)
    if valid
        then (do
          (_, b) ← pg_getval env (u32 (rg_addr currg offset)) value currg.vmaid
          touch (rg_addr currg offset)
          pure (0, b))
        else pure (minus_one, value)

  -- `__write`
  unfoldable pub write_rg : (rgid offset value : ℕ) → Action ℕ
  write_rg rgid offset value = do
    currg ← symrg rgid
    valid ← λ s. ok (check_access s.mm currg offset, s)
    if valid
        then (do
          _ ← pg_setval env (u32 (rg_addr currg offset)) value currg.vmaid
          touch (rg_addr currg offset)
          pure 0)
        else pure minus_one

  -- The byte that was read goes into a local variable and is lost.
  unfoldable pub pgread : (source offset destination : ℕ) → Action ℕ
  pgread source offset destination = do (val, _) ← read_rg source offset env.junk; pure val

  unfoldable pub pgwrite : (byte destination offset : ℕ) → Action ℕ
  pgwrite byte destination offset = write_rg destination offset byte
