-- ===== src/Region/Init.antt =====
-- A new address space: `init_mm` of src/mm.c, with `init_vm_rg` and `enlist_vm_rg_node`.
use os_sim.Base.{
  ℕ, ◌≡◌, refl, some, List, [], ◌∷◌, u32, minus_one, sign_extend, ◌+◌, ◌<◌, ◌^◌, ◌≤◌, ◌-◌, inl, inr,
  arith,
}
use os_sim.Region.{Region, Area, Mm, get_vma_by_num, vma_index}
use os_sim.Region.Free.{Free, IsFreeList}

-- The arguments are `int`s, the fields `unsigned long`.
pub init_vm_rg : (rg_start rg_end vmaid : ℕ) → Region
init_vm_rg rg_start rg_end vmaid = record {
  vmaid = vmaid;
  rg_start = sign_extend (u32 rg_start);
  rg_end = sign_extend (u32 rg_end);
}

pub enlist_vm_rg_node : (rglist : List Region) → (rgnode : Region) → List Region
enlist_vm_rg_node rglist rgnode = rgnode ∷ rglist

-- `wild0` and `wild1` are what the fields `vm_freerg_list` lead to in the memory that `malloc`
-- returns for the two areas, and `pgd` the address of the page table. `mm` holds the fields that are
-- not set.
unfoldable pub init_mm : (wild0 wild1 : List Region) (pgd : ℕ) → Mm → (vmemsz : ℕ) → Mm
unfolding init_vm_rg enlist_vm_rg_node
init_mm wild0 wild1 pgd mm vmemsz =
    let top : ℕ = u32 (vmemsz + minus_one) in
    let vma0 : Area = record {
      vm_id = 0;
      vm_start = 0;
      vm_end = 0;
      sbrk = 0;
      vm_freerg_list = enlist_vm_rg_node wild0 (init_vm_rg 0 0 0);
    } in
    let vma1 : Area = record {
      vm_id = 1;
      vm_start = top;
      vm_end = top;
      sbrk = top;
      vm_freerg_list = enlist_vm_rg_node wild1 (init_vm_rg top top 1);
    } in
    record mm { pgd = pgd; mmap = vma0 ∷ vma1 ∷ [] }

-- `init_mm`, if `malloc` returns areas whose lists of free regions happen to be empty and for a
-- virtual memory of `size` bytes or more, makes an area 0 at the bottom and an area 1 at the top,
-- both empty, with well-formed lists of free regions that hold no byte.
pub init_mm_lem :
    (pgd : ℕ) (mm : Mm) (vmemsz size : ℕ)
    → 0 < vmemsz
    → size ≤ vmemsz
    → vmemsz < 2 ^ 31
    → (vma0 vma1 : Area) × (get_vma_by_num (init_mm [] [] pgd mm vmemsz) 0 ≡ some vma0)
      × (get_vma_by_num (init_mm [] [] pgd mm vmemsz) 1 ≡ some vma1)
      × (vma0.vm_end ≡ 0)
      × (vma1.vm_end ≡ vmemsz - 1)
      × IsFreeList 0 size vma0.vm_freerg_list
      × IsFreeList 1 size vma1.vm_freerg_list
      × ((b : ℕ) → Free vma0.vm_freerg_list b → ⊥)
      × ((b : ℕ) → Free vma1.vm_freerg_list b → ⊥)
unfolding init_mm get_vma_by_num vma_index init_vm_rg enlist_vm_rg_node
init_mm_lem pgd mm vmemsz size h g u = (
  _,
  _,
  refl,
  refl,
  refl,
  omega arith,
  record { ranges = (inl (refl, omega arith, omega arith), tt); apart = (λ b k q. q, tt) },
  record {
    ranges = (inr (refl, ground arith, ground arith, ground arith), tt);
    apart = (λ b k q. q, tt);
  },
  λ b k. elim k [ inl q ↦ q.0 refl | inr q ↦ q ],
  λ b k. elim k [ inl q ↦ q.0 refl | inr q ↦ q ],
)
