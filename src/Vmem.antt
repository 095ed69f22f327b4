-- ===== src/Vmem.antt =====
-- What the paging functions of src/mm-vm.c and src/mm.c work on: the address space of the calling
-- process, the RAM, the active swap device, the list of pages in RAM and the page table entries.
-- `caller` and `mm` are always the process of the state. os.c hands over an array of devices as an
-- array of pointers; of its devices only the first, which is the active one, is ever reached.
pub mod Addr
pub mod Listed
pub mod Page
pub mod Access
pub mod Map
pub mod Grow
pub mod Online
mod Tests
pub mod RoundTrip
pub mod Swap
pub mod Replace
pub mod Frames
pub mod Mapped
pub mod Owned
pub mod Handed
pub mod View
pub mod Replay
pub mod Fresh
pub mod Tracked
pub mod Content
pub mod Paged
pub mod Exchanged
pub mod Loaded
pub mod Getpage
pub mod Got
pub mod Total
pub mod Wipe
pub mod Free
pub mod Program
pub mod Release
pub mod Pool
pub mod Kept
pub mod Take
pub mod Refuse
pub mod Extend
pub mod Allocate
pub mod Revive
pub mod Machine
pub mod Overlap
pub mod Alloc
use os_sim.Base.{
  ℕ, zero, suc, ◌+◌, ◌*◌, ◌/◌, ◌^◌, Bool, true, false, Option, none, some, Outcome, ok, fault,
  blocked, bind, ltb, ◌==◌, if◌then◌else◌, bit_and, bit_or, minus_one, u32,
}
use os_sim.Memphy
use os_sim.Memphy.{Memphy, swap_cp_page, get_freefp, put_freefp}
use os_sim.Pte.{genmask, getval, pte_fpn, pte_set_fpn, pte_set_swap}
use os_sim.Region.{Mm}
use os_sim.Lru.{Lru, Victim, update_lru_lst, add_lru_page, find_lru_victim_page}

-- A page table entry is at an address. `vm_lock` and `map_lock` are the mutex MEM_in_use, of which
-- mm-vm.c and mm.c have one each. `mallocs` counts the nodes of the list that were allocated.
pub record System : Type 0 where
  pub mm : Mm
  pub vmemsz : ℕ
  pub mram : Memphy
  pub active_mswp : Memphy
  pub lru : Lru
  pub entries : ℕ → Option ℕ
  pub vm_lock : Bool
  pub map_lock : Bool
  pub mallocs : ℕ

-- What `malloc` returns for a node of the list and what is left unset in it, the values of
-- uninitialised variables, and the fuel of the loops.
pub record Env : Type 0 where
  pub malloc : ℕ → ℕ
  pub wild : ℕ
  pub junk : ℕ
  pub victim : Victim
  pub fuel : ℕ

abbrev pub Action : Type 0 → Type 0
Action A = System → Outcome (A × System)

abbrev pub pure : {A : Type 0} → A → Action A
pure a s = ok (a, s)

abbrev pub lift : {A : Type 0} → Outcome A → Action A
lift o s = bind o (λ a. ok (a, s))

infixl 5 ◌>>=◌ ◌>>◌
abbrev pub ◌>>=◌ : {A B : Type 0} → Action A → (A → Action B) → Action B
◌>>=◌ m f s = bind (m s) (λ z. f z.0 z.1)

abbrev pub ◌>>◌ : {B : Type 0} → Action (Unit {0}) → Action B → Action B
m >> k = m >>= λ _. k

-- PAGING_PGN and PAGING_OFFST
unfoldable pub paging_pgn : ℕ → ℕ
paging_pgn x = getval x (genmask 21 8) 8

unfoldable pub paging_offst : ℕ → ℕ
paging_offst x = getval x (genmask 7 0) 0

-- PAGING_MAX_PGN
abbrev pub max_pgn : ℕ
max_pgn = 16384

abbrev pub update : (ℕ → Option ℕ) → ℕ → ℕ → ℕ → Option ℕ
update c p v q = if p == q then some v else c q

-- `*p` of a page table entry.
unfoldable pub load_entry : ℕ → Action ℕ
load_entry p s = elim (s.entries p) [ none ↦ fault | some v ↦ ok (v, s) ]

unfoldable pub store_entry : ℕ → ℕ → Action (Unit {0})
store_entry p v s = elim (s.entries p) [
  | none ↦ fault
  | some _ ↦ ok (tt, record s { entries = update s.entries p v })
]

-- `&mm->pgd[pgn]`, for an index of the page table.
unfoldable pub pgd_entry : ℕ → Action ℕ
pgd_entry pgn s = if ltb pgn max_pgn then ok (s.mm.pgd + pgn, s) else fault

-- Calls on the RAM and on the swap device; `fpn` and `value` are what their pointers hold before.
unfoldable pub ram_get_freefp : (fpn : ℕ) → Action (ℕ × ℕ)
ram_get_freefp fpn s = bind (get_freefp s.mram fpn) (λ z. ok ((z.0, z.1), record s { mram = z.2 }))

unfoldable pub swap_get_freefp : (fpn : ℕ) → Action (ℕ × ℕ)
swap_get_freefp fpn s =
    bind (get_freefp s.active_mswp fpn) (λ z. ok ((z.0, z.1), record s { active_mswp = z.2 }))

unfoldable pub ram_put_freefp : (fpn : ℕ) → Action (Unit {0})
ram_put_freefp fpn s = bind (put_freefp s.mram fpn) (λ z. ok (tt, record s { mram = z.1 }))

unfoldable pub swap_put_freefp : (fpn : ℕ) → Action (Unit {0})
swap_put_freefp fpn s =
    bind (put_freefp s.active_mswp fpn) (λ z. ok (tt, record s { active_mswp = z.1 }))

unfoldable pub ram_read : (addr value : ℕ) → Action ℕ
ram_read addr value s =
    bind (Memphy.read s.mram addr value) (λ z. ok (z.1, record s { mram = z.2 }))

unfoldable pub ram_write : (addr b : ℕ) → Action (Unit {0})
ram_write addr b s = bind (Memphy.write s.mram addr b) (λ z. ok (tt, record s { mram = z.1 }))

unfoldable pub ram_to_swap : (junk srcfpn dstfpn : ℕ) → Action (Unit {0})
ram_to_swap junk srcfpn dstfpn s =
    bind (swap_cp_page junk s.mram srcfpn s.active_mswp dstfpn)
      (λ z. ok (tt, record s { mram = z.0; active_mswp = z.1 }))

unfoldable pub swap_to_ram : (junk srcfpn dstfpn : ℕ) → Action (Unit {0})
swap_to_ram junk srcfpn dstfpn s =
    bind (swap_cp_page junk s.active_mswp srcfpn s.mram dstfpn)
      (λ z. ok (tt, record s { active_mswp = z.0; mram = z.1 }))

-- `pthread_mutex_lock` and `pthread_mutex_unlock` of the two mutexes.
unfoldable pub lock_vm : Action (Unit {0})
lock_vm s = if s.vm_lock then blocked else ok (tt, record s { vm_lock = true })

unfoldable pub unlock_vm : Action (Unit {0})
unlock_vm s = ok (tt, record s { vm_lock = false })

unfoldable pub lock_map : Action (Unit {0})
lock_map s = if s.map_lock then blocked else ok (tt, record s { map_lock = true })

unfoldable pub unlock_map : Action (Unit {0})
unlock_map s = ok (tt, record s { map_lock = false })

module _ (env : Env) where
  -- `add_LRU_page(pte, pgn)`
  unfoldable pub add_lru : (pte pgn : ℕ) → Action (Unit {0})
  add_lru pte pgn = do
    entry ← load_entry pte
    λ s.
        bind (add_lru_page env.fuel (env.malloc s.mallocs) env.wild pte entry pgn s.lru)
          (λ l. ok (tt, record s { lru = l; mallocs = s.mallocs + 1 }))

  -- `update_LRU_lst`, of an entry with this value.
  unfoldable pub update_lru : (entry : ℕ) → Action (Unit {0})
  update_lru entry s =
      bind (update_lru_lst env.fuel entry s.lru) (λ l. ok (tt, record s { lru = l }))

  -- `find_LRU_victim_page`, whose result is always ignored.
  unfoldable pub find_victim : Action Victim
  find_victim s =
      bind (find_lru_victim_page env.victim s.lru) (λ z. ok (z.0, record s { lru = z.1 }))
