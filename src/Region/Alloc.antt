-- ===== src/Region/Alloc.antt =====
-- `get_free_vmrg_area` of src/mm-vm.c on an area with any list of free regions.
use os_sim.Base.{
  ℕ, zero, suc, ◌≤◌, ◌<◌, ◌^◌, ◌≡◌, ◌≢◌, ◌⊎◌, ◌↔◌, inl, inr, refl, sym, ◌∙◌, ap, subst, some, List,
  [], ◌∷◌, Outcome, ok, arith, minus_one, ◌==◌, if◌then◌else◌, set, get_elem?, get_elem?-set_self,
  lt-length_of_get_elem?,
}
use os_sim.Region.{
  Region, Area, Mm, find_loop, unset, vma_index, get_vma_by_num, set_vma, get_free_vmrg_area,
  enlist_vm_freerg_list,
}
use os_sim.Region.Search.{find_loop-Searched, find_loop-Full}
use os_sim.Region.Step.{Holds, InRange, IsBlock}
use os_sim.Region.Free.{Free, IsFreeList, Full, rounds, Taken}

set-get_elem? : (xs : List Area) (i : ℕ) (v : Area) → get_elem? xs i ≡ some v → set xs i v ≡ xs
set-get_elem? [] i v e = refl
set-get_elem? (x ∷ xs) zero v e = ground arith
set-get_elem? (x ∷ xs) (suc i) v e = ap (λ t. x ∷ t) (set-get_elem? xs i v e)

module _ (fuel vmaid size : ℕ) (mm : Mm) (vma : Area) (newrg : Region)
    (area : get_vma_by_num mm vmaid ≡ some vma) where
  set_vma_self :
      (rs : List Region)
      → vma.vm_freerg_list ≡ rs
      → set_vma mm vmaid (record vma { vm_freerg_list = rs }) ≡ mm
  unfolding set_vma get_vma_by_num
  set_vma_self rs e =
      ap (λ t. set_vma mm vmaid (record vma { vm_freerg_list = t })) (sym e)
      ∙ ap (λ t. record mm { mmap = t }) (set-get_elem? mm.mmap (vma_index vmaid) vma area)

  abbrev started : Region
  started = record newrg { rg_start = unset; rg_end = unset }

  area_calls :
      (r : Region) (rs : List Region) (z : Region × List Region)
      → vma.vm_freerg_list ≡ r ∷ rs
      → find_loop vmaid size fuel started (r ∷ rs) ≡ ok z
      → get_free_vmrg_area fuel mm vmaid size newrg
        ≡ ok (
          if z.0.rg_start == unset then minus_one else 0,
          z.0,
          set_vma mm vmaid (record vma { vm_freerg_list = z.1 }),
        )
  unfolding get_free_vmrg_area
  area_calls r rs z e run = ground (arith, area, e, run)

  refused :
      (rs : List Region)
      → vma.vm_freerg_list ≡ rs
      → Full vmaid size rs
      → rounds rs ≤ fuel
      → (newrg' : Region) × (get_free_vmrg_area fuel mm vmaid size newrg
          ≡ ok (minus_one, newrg', mm))
  refused [] e f h = (newrg, unfold get_free_vmrg_area in ground (arith, area, e))
  refused (r ∷ rs) e f h = (
    started,
    area_calls r rs (started, r ∷ rs) e (find_loop-Full vmaid size fuel started (r ∷ rs) f h)
        ∙ ap (λ t. ok (minus_one, started, t)) (set_vma_self (r ∷ rs) e),
  )

  -- What a call on the list `rs` gives.
  abbrev pub Allocated : List Region → Type 0
  Allocated rs =
      (newrg' : Region) × ((Full vmaid size rs
          × (get_free_vmrg_area fuel mm vmaid size newrg ≡ ok (minus_one, newrg', mm)))
        ⊎ ((rs' : List Region) × (get_free_vmrg_area fuel mm vmaid size newrg
              ≡ ok (0, newrg', set_vma mm vmaid (record vma { vm_freerg_list = rs' })))
            × IsBlock vmaid size newrg'
            × Taken newrg' rs rs'
            × ((b : ℕ) → Free rs' b → Free rs b)
            × Full vmaid size rs'
            × IsFreeList vmaid size rs'))

  allocated :
      2 ≤ size
      → size < 2 ^ 31
      → (rs : List Region) → vma.vm_freerg_list ≡ rs
      → IsFreeList vmaid size rs
      → rounds rs ≤ fuel
      → Allocated rs
  allocated lower upper [] e v h =
      (newrg, inl (tt, unfold get_free_vmrg_area in ground (arith, area, e)))
  allocated lower upper (r ∷ rs) e v h =
      let (z, run, s) = find_loop-Searched vmaid size lower upper fuel started (r ∷ rs) v h in
      (
        z.0,
        elim s.result [
          | inl same ↦ inl (
            subst (Full vmaid size) same.1 s.full,
            area_calls r rs z e run
                ∙ ground (
                  arith,
                  ap (λ (q : Region). q.rg_start) same.0,
                  set_vma_self z.1 (e ∙ sym same.1),
                ),
          )
          | inr t ↦ inr (
            z.1,
            area_calls r rs z e run ∙ ground (arith, t.0.1),
            t.0,
            t.1,
            s.kept,
            s.full,
            s.valid,
          )
        ],
      )

pub get_free_vmrg_area_lem :
    (fuel vmaid size : ℕ) (mm : Mm) (vma : Area) (newrg : Region)
    → 2 ≤ size
    → size < 2 ^ 31
    → get_vma_by_num mm vmaid ≡ some vma
    → IsFreeList vmaid size vma.vm_freerg_list
    → rounds vma.vm_freerg_list ≤ fuel
    → (newrg' : Region) × ((Full vmaid size vma.vm_freerg_list
          × (get_free_vmrg_area fuel mm vmaid size newrg ≡ ok (minus_one, newrg', mm)))
        ⊎ ((rs' : List Region) × (get_free_vmrg_area fuel mm vmaid size newrg
              ≡ ok (0, newrg', set_vma mm vmaid (record vma { vm_freerg_list = rs' })))
            × IsBlock vmaid size newrg'
            × Taken newrg' vma.vm_freerg_list rs'
            × ((b : ℕ) → Free rs' b → Free vma.vm_freerg_list b)
            × Full vmaid size rs'
            × IsFreeList vmaid size rs'))
get_free_vmrg_area_lem fuel vmaid size mm vma newrg lower upper area v h =
    allocated fuel vmaid size mm vma newrg area lower upper vma.vm_freerg_list refl v h

pub get_vma-set_vma :
    (mm : Mm) (vmaid : ℕ) (vma vma1 : Area)
    → get_vma_by_num mm vmaid ≡ some vma
    → get_vma_by_num (set_vma mm vmaid vma1) vmaid ≡ some vma1
unfolding set_vma get_vma_by_num
get_vma-set_vma mm vmaid vma vma1 e =
    get_elem?-set_self mm.mmap (vma_index vmaid) vma1
      (lt-length_of_get_elem? mm.mmap (vma_index vmaid) e)

abbrev left_behind : Mm → Outcome (ℕ × Region × Mm) → Mm
left_behind other (ok z) = z.2
left_behind other o = other

-- After `get_free_vmrg_area` has given a block of 2 bytes or more, below 2^31, within enough rounds,
-- from a list of free regions that run the way of their area within 32 bits, share no byte, and on
-- the heap end at `size - 1` or above, it returns -1 for the same area and size, however much was
-- free before: its loop goes on after the first block, and gives up every block but the last.
pub get_free_vmrg_area-exhausts :
    (fuel vmaid size : ℕ) (mm mm' : Mm) (vma : Area) (newrg newrg' newrg2 : Region)
    → 2 ≤ size
    → size < 2 ^ 31
    → get_vma_by_num mm vmaid ≡ some vma
    → IsFreeList vmaid size vma.vm_freerg_list
    → rounds vma.vm_freerg_list ≤ fuel
    → get_free_vmrg_area fuel mm vmaid size newrg ≡ ok (0, newrg', mm')
    → (enough : ℕ) × ((fuel2 : ℕ)
        → enough ≤ fuel2
        → (newrg3 : Region) × (get_free_vmrg_area fuel2 mm' vmaid size newrg2
            ≡ ok (minus_one, newrg3, mm')))
get_free_vmrg_area-exhausts fuel vmaid size mm mm' vma newrg newrg' newrg2 lower upper area v h
      run =
    let (block, cases) = get_free_vmrg_area_lem fuel vmaid size mm vma newrg lower upper area v h in
    elim cases [
      | inl refusal ↦ absurd (ground (arith, run, refusal.1))
      | inr (rs, run1, _, _, _, full, _) ↦
          let vma1 : Area = record vma { vm_freerg_list = rs } in
          let same : set_vma mm vmaid vma1 ≡ mm' = ap (left_behind mm') (sym run1 ∙ run) in
          (
            rounds rs,
            λ fuel2 le.
                subst
                  (λ m.
                    (newrg3 : Region) × (get_free_vmrg_area fuel2 m vmaid size newrg2
                      ≡ ok (minus_one, newrg3, m)))
                  same
                  (refused fuel2 vmaid size (set_vma mm vmaid vma1) vma1 newrg2
                    (get_vma-set_vma mm vmaid vma vma1 area) rs refl full le),
          )
    ]

pub enlist_calls :
    (mm : Mm) (vmaid size : ℕ) (vma : Area) (rg_elmt : Region)
    → get_vma_by_num mm vmaid ≡ some vma
    → InRange vmaid size rg_elmt
    → rg_elmt.rg_start ≢ rg_elmt.rg_end
    → (rs : List Region) → vma.vm_freerg_list ≡ rs
    → enlist_vm_freerg_list mm vmaid rg_elmt []
      ≡ ok (0, set_vma mm vmaid (record vma { vm_freerg_list = rg_elmt ∷ rs }))
unfolding enlist_vm_freerg_list
enlist_calls mm vmaid size vma rg_elmt area range ne [] e = elim range [
  | inl u ↦ ground (arith, area, e)
  | inr u ↦ ground (arith, area, e)
]
enlist_calls mm vmaid size vma rg_elmt area range ne (r ∷ rs) e = elim range [
  | inl u ↦ ground (arith, area, e)
  | inr u ↦ ground (arith, area, e)
]

-- `enlist_vm_freerg_list` of a region that runs the way of its area and holds no free byte makes
-- the bytes of the region free and no others, and keeps the free list well formed.
pub enlist_vm_freerg_list_lem :
    (mm : Mm) (vmaid size : ℕ) (vma : Area) (rg_elmt : Region)
    → get_vma_by_num mm vmaid ≡ some vma
    → IsFreeList vmaid size vma.vm_freerg_list
    → InRange vmaid size rg_elmt
    → rg_elmt.rg_start ≢ rg_elmt.rg_end
    → ((b : ℕ) → Holds rg_elmt b → Free vma.vm_freerg_list b → ⊥)
    → (vma' : Area) × (mm' : Mm) × (enlist_vm_freerg_list mm vmaid rg_elmt [] ≡ ok (0, mm'))
      × (get_vma_by_num mm' vmaid ≡ some vma')
      × IsFreeList vmaid size vma'.vm_freerg_list
      × ((b : ℕ) → Free vma'.vm_freerg_list b ↔ (Holds rg_elmt b ⊎ Free vma.vm_freerg_list b))
enlist_vm_freerg_list_lem mm vmaid size vma rg_elmt area v range ne apart =
    let vma1 : Area = record vma { vm_freerg_list = rg_elmt ∷ vma.vm_freerg_list } in
    (
      vma1,
      set_vma mm vmaid vma1,
      enlist_calls mm vmaid size vma rg_elmt area range ne vma.vm_freerg_list refl,
      get_vma-set_vma mm vmaid vma vma1 area,
      record { ranges = (range, v.ranges); apart = (apart, v.apart) },
      λ b. (λ h. h, λ h. h),
    )
