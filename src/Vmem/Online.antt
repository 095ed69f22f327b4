-- ===== src/Vmem/Online.antt =====
-- Reads and writes of src/mm-vm.c through a page that is in RAM.
use os_sim.Base.{
  ℕ, ◌+◌, ◌<◌, ◌≡◌, ◌≢◌, refl, true, false, List, [], length, set, get_elem?, some, ok,
}
use os_sim.Memphy.Access.{IsRandom, read_random, write_random}
use os_sim.Pte.{page_present, pte_fpn}
use os_sim.Lru.{Lru}
use os_sim.Lru.Chain.{Entry}
use os_sim.Lru.Spec.{promote, insert}
use os_sim.Vmem.{System, Env, paging_pgn, paging_offst, max_pgn, unlock_vm, ram_read, ram_write}
use os_sim.Vmem.Addr.{pgd_entry_lem, load_entry_lem, lock_vm_lem}
use os_sim.Vmem.Listed.{IsMalloc, Listed, listed_entry, add_lru_lem, update_lru_lem}
use os_sim.Vmem.Page.{pg_getpage, pg_setval, pg_getval, phyaddr}
use os_sim.Vmem.Access.{touch}

-- The page `pgn` is in RAM with the entry `v`, and no thread is in `pg_getpage`.
pub record IsOnline (s : System) (pgn v : ℕ) : Type 0 where
  pub unlocked : s.vm_lock ≡ false
  pub room : pgn < max_pgn
  pub entry : s.entries (s.mm.pgd + pgn) ≡ some v
  pub present : page_present v ≡ true

module _ (env : Env) (m : IsMalloc env) where
  -- A page in RAM: the list of pages is all that changes.
  pub pg_getpage_online :
      (k pgn fpn v : ℕ) (s : System) (xs : List Entry)
      → IsOnline s pgn v
      → Listed env (k + 1) s.lru s.mallocs xs
      → (l : Lru) × (pg_getpage env pgn fpn s
          ≡ ok ((0, pte_fpn v), record s { lru = l; mallocs = s.mallocs + 1; vm_lock = false }))
        × Listed env k l
            (s.mallocs + 1)
            (insert (listed_entry env m s.mallocs (s.mm.pgd + pgn) v pgn) xs)
  unfolding pg_getpage unlock_vm
  pg_getpage_online k pgn fpn v s xs o h =
      let s1 : System = record s { vm_lock = true } in
      let (l, run, listed) = add_lru_lem env m k (s.mm.pgd + pgn) v pgn s1 xs h o.entry in
      let s2 : System = record s1 { lru = l; mallocs = s.mallocs + 1 } in
      (
        l,
        rw
            (
              lock_vm_lem s o.unlocked,
              pgd_entry_lem pgn s1 o.room,
              load_entry_lem (s.mm.pgd + pgn) v s1 o.entry,
              o.present,
              run,
              load_entry_lem (s.mm.pgd + pgn) v s2 o.entry,
            )
            refl,
        listed,
      )

  pub pg_setval_online :
      (k addr value vmaid v : ℕ) (s : System) (xs : List Entry)
      → IsOnline s (paging_pgn addr) v
      → Listed env (k + 1) s.lru s.mallocs xs
      → IsRandom s.mram
      → phyaddr vmaid (pte_fpn v) (paging_offst addr) < length s.mram.storage
      → (l : Lru) × (pg_setval env addr value vmaid s
          ≡ ok (
            0,
            record s {
              lru = l;
              mallocs = s.mallocs + 1;
              vm_lock = false;
              mram = record s.mram {
                storage = set s.mram.storage (phyaddr vmaid (pte_fpn v) (paging_offst addr)) value;
              };
            },
          ))
        × Listed env k l (s.mallocs + 1) (
            insert
              (listed_entry env m s.mallocs (s.mm.pgd + paging_pgn addr) v (paging_pgn addr))
              xs)
  unfolding pg_setval ram_write
  pg_setval_online k addr value vmaid v s xs o h ra inside =
      let (l, run, listed) = pg_getpage_online k (paging_pgn addr) env.junk v s xs o h in
      (
        l,
        rw
            (
              run,
              write_random s.mram (phyaddr vmaid (pte_fpn v) (paging_offst addr)) value ra inside,
            )
            refl,
        listed,
      )

  pub pg_getval_online :
      (k addr value vmaid v b : ℕ) (s : System) (xs : List Entry)
      → IsOnline s (paging_pgn addr) v
      → Listed env (k + 1) s.lru s.mallocs xs
      → IsRandom s.mram
      → get_elem? s.mram.storage (phyaddr vmaid (pte_fpn v) (paging_offst addr)) ≡ some b
      → (l : Lru) × (pg_getval env addr value vmaid s
          ≡ ok ((0, b), record s { lru = l; mallocs = s.mallocs + 1; vm_lock = false }))
        × Listed env k l (s.mallocs + 1) (
            insert
              (listed_entry env m s.mallocs (s.mm.pgd + paging_pgn addr) v (paging_pgn addr))
              xs)
  unfolding pg_getval ram_read
  pg_getval_online k addr value vmaid v b s xs o h ra held =
      let (l, run, listed) = pg_getpage_online k (paging_pgn addr) env.junk v s xs o h in
      (
        l,
        rw (run, read_random s.mram (phyaddr vmaid (pte_fpn v) (paging_offst addr)) value b ra held)
            refl,
        listed,
      )

  pub touch_online :
      (k addr v : ℕ) (s : System) (xs : List Entry)
      → IsOnline s (paging_pgn addr) v
      → Listed env k s.lru s.mallocs xs
      → xs ≢ []
      → (l : Lru) × (touch env addr s ≡ ok (tt, record s { lru = l }))
        × Listed env k l s.mallocs (promote (pte_fpn v) xs)
  unfolding touch
  touch_online k addr v s xs o h ne =
      let (l, run, listed) = update_lru_lem env m k v s xs h ne in
      (
        l,
        rw
            (
              pgd_entry_lem (paging_pgn addr) s o.room,
              load_entry_lem (s.mm.pgd + paging_pgn addr) v s o.entry,
              run,
            )
            refl,
        listed,
      )
