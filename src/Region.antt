-- ===== src/Region.antt =====
-- The areas of an address space and their free regions: src/mm-vm.c and src/mm.c, with the structs
-- of include/os-mm.h. A list of regions is a list; NULL is its end. An `unsigned long` is a number
-- below 2^64 with its wrap-around written out. Area 0 grows up and its regions run from `rg_start`
-- up to `rg_end`; area 1 is the heap, grows down, and its regions run down. Both ends belong to a
-- region.
pub mod Step
pub mod Free
pub mod Search
pub mod Alloc
pub mod Init
mod Tests
use os_sim.Base.{
  ℕ, zero, suc, ◌+◌, ◌-◌, ◌^◌, ◌%◌, Bool, true, false, ◌&&◌, ◌||◌, Option, none, some, List, [],
  ◌∷◌, Outcome, ok, fault, no_fuel, ◌>>=◌, ◌==◌, ltb, leb, if◌then◌else◌, is_negative, minus_one,
  add64, sub64, sign_extend, get_elem?, set,
}

-- `struct vm_rg_struct`
pub record Region : Type 0 where
  pub vmaid : ℕ
  pub rg_start : ℕ
  pub rg_end : ℕ

-- `struct vm_area_struct`. Nothing reads `vm_mm`.
pub record Area : Type 0 where
  pub vm_id : ℕ
  pub vm_start : ℕ
  pub vm_end : ℕ
  pub sbrk : ℕ
  pub vm_freerg_list : List Region

-- `struct mm_struct`; `pgd` is an address, in entries.
pub record Mm : Type 0 where
  pub pgd : ℕ
  pub mmap : List Area
  pub symrgtbl : List Region
  pub fifo_pgn : List ℕ

-- The loop of `get_vma_by_num` runs only for a positive number.
pub vma_index : ℕ → ℕ
vma_index vmaid = if is_negative vmaid then 0 else vmaid

unfoldable pub get_vma_by_num : Mm → ℕ → Option Area
unfolding vma_index
get_vma_by_num mm vmaid = get_elem? mm.mmap (vma_index vmaid)

unfoldable pub set_vma : Mm → ℕ → Area → Mm
unfolding vma_index
set_vma mm vmaid vma = record mm { mmap = set mm.mmap (vma_index vmaid) vma }

-- The tests and steps of the loop of `get_free_vmrg_area`, for either direction of growth.
module _ (vmaid size : ℕ) where
  pub block_end : ℕ → ℕ
  block_end start =
      if vmaid == 0
      then sub64 (add64 start (sign_extend size)) 1
      else add64 (sub64 start (sign_extend size)) 1

  pub fits : Region → Bool
  unfolding block_end
  fits r =
      if vmaid == 0
      then leb (block_end r.rg_start) r.rg_end
      else leb r.rg_end (block_end r.rg_start)

  pub leaves_space : Region → Bool
  unfolding block_end
  leaves_space r =
      if vmaid == 0
      then ltb (block_end r.rg_start) r.rg_end
      else ltb r.rg_end (block_end r.rg_start)

  pub left_space : Region → Region
  left_space r = record r {
    rg_start =
        if vmaid == 0
        then add64 r.rg_start (sign_extend size)
        else sub64 r.rg_start (sign_extend size);
  }

  -- The rest of the list once the region is used up: the next one is copied into its node, and the
  -- last node stays as an empty region.
  pub use_up : Region → List Region → List Region
  use_up r [] = record r { rg_start = r.rg_end } ∷ []
  use_up r (next ∷ rest) = record r { rg_start = next.rg_start; rg_end = next.rg_end } ∷ rest

  -- The loop, on fuel. `newrg` is the block found last.
  unfoldable pub find_loop : ℕ → Region → List Region → Outcome (Region × List Region)
  unfolding block_end fits leaves_space left_space use_up
  find_loop zero newrg rs = no_fuel
  find_loop (suc fuel) newrg [] = ok (newrg, [])
  find_loop (suc fuel) newrg (r ∷ rs) =
      let found = record newrg { rg_start = r.rg_start; rg_end = block_end r.rg_start } in
      let shrunk = find_loop fuel found (left_space r ∷ rs) in
      let used = find_loop fuel found (use_up r rs) in
      let rest = find_loop fuel newrg rs in
      if fits r
      then (if leaves_space r then shrunk else used)
      else (do (newrg', rs') ← rest; ok (newrg', r ∷ rs'))

-- The value -1 of an `unsigned long`.
abbrev pub unset : ℕ
unset = 2 ^ 64 - 1

unfoldable pub get_free_vmrg_area :
    (fuel : ℕ) → Mm → (vmaid size : ℕ) → (newrg : Region) → Outcome (ℕ × Region × Mm)
get_free_vmrg_area fuel mm vmaid size newrg = elim (get_vma_by_num mm vmaid) [
  | none ↦ fault
  | some cur_vma ↦ elim cur_vma.vm_freerg_list [
    | [] ↦ ok (minus_one, newrg, mm)
    | r ∷ rs ↦ do
      (newrg, rs) ←
          find_loop vmaid size fuel (record newrg { rg_start = unset; rg_end = unset }) (r ∷ rs)
      ok (
        if newrg.rg_start == unset then minus_one else 0,
        newrg,
        set_vma mm vmaid (record cur_vma { vm_freerg_list = rs }),
      )
  ]
]

-- `next` is what `rg_elmt->rg_next` leads to before the call.
unfoldable pub enlist_vm_freerg_list :
    Mm → (vmaid : ℕ) → (rg_elmt : Region) → (next : List Region) → Outcome (ℕ × Mm)
enlist_vm_freerg_list mm vmaid rg_elmt next = elim (get_vma_by_num mm vmaid) [
  | none ↦ fault
  | some cur_vma ↦
      if (leb rg_elmt.rg_end rg_elmt.rg_start && vmaid == 0)
        || (leb rg_elmt.rg_start rg_elmt.rg_end && vmaid == 1)
      then ok (minus_one, mm)
      else ok (
        0,
        set_vma mm vmaid (record cur_vma {
          vm_freerg_list = rg_elmt ∷ elim cur_vma.vm_freerg_list [ [] ↦ next | r ∷ rs ↦ r ∷ rs ];
        }),
      )
]

-- PAGING_MAX_SYMTBL_SZ
abbrev pub max_symtbl_sz : ℕ
max_symtbl_sz = 30

-- The index in `symrgtbl` of the region that the pointer leads to.
unfoldable pub get_symrg_byid : Mm → (rgid : ℕ) → Option ℕ
get_symrg_byid mm rgid = if is_negative rgid || ltb max_symtbl_sz rgid then none else some rgid

-- `wild` is the field `vmaid`, which the function does not set.
unfoldable pub get_vm_area_node_at_brk :
    (wild : ℕ) → Mm → (vmaid size alignedsz : ℕ) → Outcome Region
get_vm_area_node_at_brk wild mm vmaid size alignedsz = elim (get_vma_by_num mm vmaid) [
  | none ↦ fault
  | some cur_vma ↦ ok (record {
    vmaid = wild;
    rg_start = cur_vma.sbrk;
    rg_end =
        if vmaid == 0
        then add64 cur_vma.sbrk (sign_extend size)
        else sub64 cur_vma.sbrk (sign_extend size);
  })
]
