-- ===== src/Vmem/Addr.antt =====
-- Page number and offset of a virtual address (include/mm.h), and the primitive steps.
use os_sim.Base.{ℕ, ◌+◌, ◌-◌, ◌/◌, ◌%◌, ◌^◌, ◌<◌, ◌≡◌, arith, true, false, some, ok}
use os_sim.Base.Bits.{and_zero}
use os_sim.Pte.Fields.{and_parts, low}
use os_sim.Vmem.{
  System, paging_pgn, paging_offst, max_pgn, pgd_entry, load_entry, store_entry, update, lock_vm,
}

pub paging_pgn_lem : (x : ℕ) → x < 2 ^ 32 → paging_pgn x ≡ x / 2 ^ 8 % 2 ^ 14
unfolding paging_pgn
paging_pgn_lem x h = omega (
  arith,
  and_parts 8 x (2 ^ 14 - 1) 0 (omega arith),
  low 14 (x / 2 ^ 8) (omega arith),
  and_zero 8 (x % 2 ^ 8) (omega arith),
)

pub paging_offst_lem : (x : ℕ) → x < 2 ^ 32 → paging_offst x ≡ x % 2 ^ 8
unfolding paging_offst
paging_offst_lem x h = omega (arith, low 8 x h)

pub pgd_entry_lem :
    (pgn : ℕ) (s : System) → pgn < max_pgn → pgd_entry pgn s ≡ ok (s.mm.pgd + pgn, s)
unfolding pgd_entry
pgd_entry_lem pgn s h = ground arith

pub load_entry_lem : (p v : ℕ) (s : System) → s.entries p ≡ some v → load_entry p s ≡ ok (v, s)
unfolding load_entry
load_entry_lem p v s e = ground arith

pub store_entry_lem :
    (p v w : ℕ) (s : System)
    → s.entries p ≡ some v
    → store_entry p w s ≡ ok (tt, record s { entries = update s.entries p w })
unfolding store_entry
store_entry_lem p v w s e = ground arith

pub lock_vm_lem :
    (s : System) → s.vm_lock ≡ false → lock_vm s ≡ ok (tt, record s { vm_lock = true })
unfolding lock_vm
lock_vm_lem s e = ground arith
