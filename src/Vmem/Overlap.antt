-- ===== src/Vmem/Overlap.antt =====
-- `validate_overlap_vm_area` of src/mm-vm.c, for the data area against the heap.
use os_sim.Base.{
  ℕ, ◌+◌, ◌-◌, ◌*◌, ◌%◌, ◌≤◌, ◌<◌, ◌≡◌, ◌≢◌, ◌⊎◌, inl, inr, ◌^◌, ◌∙◌, ap, ◌||◌, ◌==◌, not, ◌&&◌, [],
  ◌∷◌, arith, minus_one, u32, ltb, if◌then◌else◌, dec_lt, ℕ_discrete,
}
use native.Mathlib.Nat.{mul-add, one-le-mul}
use os_sim.Region.{Area, Mm}
use os_sim.Vmem.Grow.{sub32, overlaps, overlap_loop, validate_overlap_vm_area}

-- A planned area with both ends in range, that starts below the other area.
pub record IsBelow (vmastart vmaend : ℕ) (vma : Area) : Type 0 where
  pub start : vmastart < vma.vm_start
  pub vm_start : vma.vm_start < 2 ^ 31
  pub vm_end : vma.vm_end < 2 ^ 31
  pub bound : vmaend < 2 ^ 31

-- A number times a negated one.
neg_product :
    (a b : ℕ) → a < 2 ^ 31 → b < 2 ^ 31 → u32 (a * (2 ^ 32 - b)) ≡ u32 (2 ^ 32 - a * b % 2 ^ 32)
neg_product a b ha hb =
    let sum : 2 ^ 32 - b + b ≡ 2 ^ 32 = omega arith in
    omega (arith, mul-add a (2 ^ 32 - b) b, ap (λ c. a * c) sum)

sub32_up : (a b : ℕ) → a < 2 ^ 31 → b ≤ a → sub32 a b ≡ a - b
sub32_up a b h le = omega arith

sub32_down : (a b : ℕ) → b < 2 ^ 31 → a < b → sub32 a b ≡ 2 ^ 32 - (b - a)
sub32_down a b h lt = omega arith

overlaps_apart :
    (vmastart vmaend : ℕ) (vma : Area)
    → IsBelow vmastart vmaend vma
    → vmaend < vma.vm_end
    → let p = (vma.vm_start - vmastart) * (vma.vm_end - vmaend) % 2 ^ 32 in
      overlaps vmastart vmaend vma ≡ (p == 0 || ltb (2 ^ 31) p)
unfolding overlaps
overlaps_apart vmastart vmaend vma h lt = ground (
  arith,
  h.start,
  h.vm_start,
  h.vm_end,
  h.bound,
  sub32_up vma.vm_start vmastart h.vm_start (omega (arith, h.start)),
  sub32_down vmaend vma.vm_end h.vm_end lt,
  neg_product (vma.vm_start - vmastart) (vma.vm_end - vmaend) (omega (arith, h.vm_start))
      (omega (arith, h.vm_end)),
)

overlaps_past :
    (vmastart vmaend : ℕ) (vma : Area)
    → IsBelow vmastart vmaend vma
    → vma.vm_end ≤ vmaend
    → let p = (vma.vm_start - vmastart) * (vmaend - vma.vm_end) % 2 ^ 32 in
      overlaps vmastart vmaend vma ≡ (ltb p (2 ^ 31) && not (vmaend == vma.vm_end))
unfolding overlaps
overlaps_past vmastart vmaend vma h le = ground (
  arith,
  h.start,
  h.vm_start,
  h.vm_end,
  h.bound,
  sub32_up vma.vm_start vmastart h.vm_start (omega (arith, h.start)),
  sub32_up vmaend vma.vm_end h.bound le,
)

-- The process has the data area and the heap, as `init_mm` makes them, and the heap is not empty.
pub record HasHeap (mm : Mm) (data_area heap : Area) : Type 0 where
  pub mmap : mm.mmap ≡ data_area ∷ heap ∷ []
  pub data_id : data_area.vm_id ≡ 0
  pub heap_id : heap.vm_id ≡ 1
  pub used : heap.vm_start ≢ heap.vm_end

validate_lem :
    (vmastart vmaend : ℕ) (mm : Mm) (data_area heap : Area)
    → HasHeap mm data_area heap
    → vmastart < 2 ^ 31
    → vmaend < 2 ^ 31
    → validate_overlap_vm_area mm 0 vmastart vmaend
      ≡ (if overlaps vmastart vmaend heap then minus_one else 0)
unfolding validate_overlap_vm_area overlap_loop
validate_lem vmastart vmaend mm data_area heap h hs he =
    let start : u32 vmastart ≡ vmastart = omega arith in
    let stop : u32 vmaend ≡ vmaend = omega arith in
    rw (h.mmap, start, stop) (ground (arith, h.data_id, h.heap_id, h.used))

-- `validate_overlap_vm_area` for a planned end of the data area, in a process whose heap is not
-- empty, with all addresses below 2^31 and the planned area starting below the heap's start:
-- it returns 0 at the heap's end itself. Below that, with p the distance of the starts times that
-- of the ends, it returns -1 exactly when p, cut to 32 bits, is 0 or above 2^31; past it, exactly
-- when p, cut to 32 bits, is below 2^31.
pub validate_overlap_cases :
    (vmastart vmaend : ℕ) (mm : Mm) (data_area heap : Area)
    → HasHeap mm data_area heap
    → IsBelow vmastart vmaend heap
    → let result = validate_overlap_vm_area mm 0 vmastart vmaend in
      let below = (heap.vm_start - vmastart) * (heap.vm_end - vmaend) % 2 ^ 32 in
      let past = (heap.vm_start - vmastart) * (vmaend - heap.vm_end) % 2 ^ 32 in
      ((vmaend < heap.vm_end)
        × (result ≡ (if below == 0 || ltb (2 ^ 31) below then minus_one else 0)))
      ⊎ (((vmaend ≡ heap.vm_end) × (result ≡ 0))
          ⊎ ((heap.vm_end < vmaend) × (result ≡ (if ltb past (2 ^ 31) then minus_one else 0))))
validate_overlap_cases vmastart vmaend mm data_area heap h b =
    let run =
      validate_lem vmastart vmaend mm data_area heap h (omega (arith, b.start, b.vm_start))
        b.bound in
    elim (dec_lt vmaend heap.vm_end) [
      | yes lt ↦ inl (lt, run ∙ ground (arith, overlaps_apart vmastart vmaend heap b lt))
      | no ge ↦ elim (ℕ_discrete vmaend heap.vm_end) [
        | yes e ↦
            inr
              (inl (e, run ∙ ground (arith, e, overlaps_past vmastart vmaend heap b (omega arith))))
        | no ne ↦ inr (
            inr (
              omega arith,
              run ∙ ground (arith, overlaps_past vmastart vmaend heap b (omega arith)),
            ))
      ]
    ]

-- Under the same conditions, while the distance of the starts times that of the ends is below 2^31:
-- `validate_overlap_vm_area` returns -1 when the planned area runs past the heap's end, else 0.
pub validate_overlap_small :
    (vmastart vmaend : ℕ) (mm : Mm) (data_area heap : Area)
    → HasHeap mm data_area heap
    → IsBelow vmastart vmaend heap
    → (heap.vm_start - vmastart) * (heap.vm_end - vmaend) < 2 ^ 31
    → (heap.vm_start - vmastart) * (vmaend - heap.vm_end) < 2 ^ 31
    → validate_overlap_vm_area mm 0 vmastart vmaend
      ≡ (if ltb heap.vm_end vmaend then minus_one else 0)
validate_overlap_small vmastart vmaend mm data_area heap h b apart past =
    elim (validate_overlap_cases vmastart vmaend mm data_area heap h b) [
      | inl (lt, run) ↦
          run
          ∙ ground (
            arith,
            one-le-mul {a = heap.vm_start - vmastart} {b = heap.vm_end - vmaend}
                (omega (arith, b.start)) (omega arith),
          )
      | inr (inl (e, run)) ↦ run ∙ ground (arith, e)
      | inr (inr (lt, run)) ↦ run ∙ ground arith
    ]
