-- ===== src/Pte/Laws.antt =====
-- What the functions of src/mm.c that write a page table entry leave in each of its fields.
use os_sim.Base.{
  ℕ, ◌+◌, ◌*◌, ◌/◌, ◌%◌, ◌^◌, ◌<◌, ◌≡◌, ◌≢◌, ◌⊎◌, ◌↔◌, inl, inr, refl, true, false, not, ◌==◌, u32,
  arith, ℕ_discrete,
}
use os_sim.Pte.{
  page_present, page_swapped, page_dirty, pte_fpn, swptyp, swpoff, init_pte, pte_set_swap,
  pte_set_fpn,
}
use os_sim.Pte.Fields.{
  fpn_read, fpn_clear, fpn_put, typ_read, typ_clear, typ_put, off_read, off_clear, off_put,
  present_read, present_set, present_clear, swapped_read, swapped_set, swapped_clear, dirty_read,
  dirty_clear,
}

-- The new entry as a sum of its fields.
pub pte_set_fpn_sum :
    (v f : ℕ) → v < 2 ^ 32 → pte_set_fpn v f ≡ 2 ^ 31 + v / 2 ^ 13 % 2 ^ 17 * 2 ^ 13 + f % 2 ^ 13
unfolding pte_set_fpn
pte_set_fpn_sum v f h =
    let w = 2 ^ 31 + v % 2 ^ 30 in
    ground (
      arith,
      present_set v h,
      swapped_clear (2 ^ 31 + v % 2 ^ 31),
      fpn_clear w,
      fpn_read (u32 (f * 2 ^ 0)),
      fpn_put (w / 2 ^ 13) (f % 2 ^ 13),
    )

pub pte_set_swap_sum :
    (v t o : ℕ)
    → v < 2 ^ 32
    → pte_set_swap v t o ≡ 2 ^ 30 + v / 2 ^ 26 % 2 ^ 4 * 2 ^ 26 + o % 2 ^ 21 * 2 ^ 5 + t % 2 ^ 5
unfolding pte_set_swap
pte_set_swap_sum v t o h =
    let w = 2 ^ 30 + v % 2 ^ 30 in
    let x = w / 2 ^ 5 * 2 ^ 5 + t % 2 ^ 5 in
    ground (
      arith,
      present_clear v h,
      swapped_set (v % 2 ^ 31),
      typ_clear w,
      typ_read (u32 (t * 2 ^ 0)),
      typ_put (w / 2 ^ 5) (t % 2 ^ 5),
      off_clear x,
      off_read (u32 (o * 2 ^ 5)),
      off_put (x / 2 ^ 26) (x % 2 ^ 5) (o % 2 ^ 21),
    )

-- The fields of any entry.
pub fields :
    (v : ℕ)
    → v < 2 ^ 32
    → (pte_fpn v ≡ v % 2 ^ 13)
      × (swptyp v ≡ v % 2 ^ 5)
      × (swpoff v ≡ v / 2 ^ 5 % 2 ^ 21)
      × (page_present v ≡ not (v / 2 ^ 31 == 0))
      × (page_swapped v ≡ not (v / 2 ^ 30 % 2 == 0))
      × (page_dirty v ≡ not (v / 2 ^ 28 % 2 == 0))
unfolding pte_fpn swptyp swpoff page_present page_swapped page_dirty
fields v h = (
  rw (fpn_read v h) (omega arith),
  rw (typ_read v h) (omega arith),
  rw (off_read v h) (omega arith),
  rw (present_read v h) (ground arith),
  rw (swapped_read v h) (ground arith),
  rw (dirty_read v h) (ground arith),
)

-- An entry that `pte_set_fpn` has written is present, is not swapped, and names the frame; bits 13
-- to 29, which hold the user number and the dirty bit, are as before. The frame number fits 13 bits.
pub pte_set_fpn_lem :
    (v f : ℕ)
    → v < 2 ^ 32
    → f < 2 ^ 13
    → let w = pte_set_fpn v f in
      (w < 2 ^ 32)
      × (page_present w ≡ true)
      × (page_swapped w ≡ false)
      × (pte_fpn w ≡ f)
      × (w / 2 ^ 13 % 2 ^ 17 ≡ v / 2 ^ 13 % 2 ^ 17)
pte_set_fpn_lem v f h g = ground (arith, pte_set_fpn_sum v f h, fields (pte_set_fpn v f))

-- An entry that `pte_set_swap` has written is not present, is swapped, and gives back the swap
-- device and the frame in it; bits 26 to 29, the dirty bit among them, are as before. The device
-- number fits 5 bits and the frame number 21.
pub pte_set_swap_lem :
    (v t o : ℕ)
    → v < 2 ^ 32
    → t < 2 ^ 5
    → o < 2 ^ 21
    → let w = pte_set_swap v t o in
      (w < 2 ^ 32)
      × (page_present w ≡ false)
      × (page_swapped w ≡ true)
      × (swptyp w ≡ t)
      × (swpoff w ≡ o)
      × (w / 2 ^ 26 % 2 ^ 4 ≡ v / 2 ^ 26 % 2 ^ 4)
pte_set_swap_lem v t o h g l = ground (arith, pte_set_swap_sum v t o h, fields (pte_set_swap v t o))

-- The frame field of an entry that `pte_set_swap` has written is the low 8 bits of the swap frame,
-- shifted by 5, above the number of the swap device.
pte_fpn-pte_set_swap :
    (v t o : ℕ) → v < 2 ^ 32 → pte_fpn (pte_set_swap v t o) ≡ o % 2 ^ 8 * 2 ^ 5 + t % 2 ^ 5
pte_fpn-pte_set_swap v t o h = ground (arith, pte_set_swap_sum v t o h, fields (pte_set_swap v t o))

-- What PAGING_PTE_FPN reads from an entry swapped to the first device, as `pg_getpage` and `__alloc`
-- do under LRU to find the frame in that device, is that frame exactly when the frame is 0. The
-- frame number fits its 21 bits.
pub swap_target_iff :
    (v o : ℕ) → v < 2 ^ 32 → o < 2 ^ 21 → (pte_fpn (pte_set_swap v 0 o) ≡ o) ↔ (o ≡ 0)
swap_target_iff v o h l = ground (arith, pte_fpn-pte_set_swap v 0 o h)

init_pte-online_sum :
    (v pre f drt t o : ℕ)
    → v < 2 ^ 32
    → pre ≢ 0
    → init_pte v pre f drt 0 t o
      ≡ 2 ^ 31 + v / 2 ^ 29 % 2 * 2 ^ 29 + v / 2 ^ 13 % 2 ^ 15 * 2 ^ 13 + f % 2 ^ 13
unfolding init_pte
init_pte-online_sum v pre f drt t o h ne =
    let w = 2 ^ 31 + v % 2 ^ 30 in
    let x = w / 2 ^ 29 * 2 ^ 29 + w % 2 ^ 28 in
    ground (
      arith,
      present_set v h,
      swapped_clear (2 ^ 31 + v % 2 ^ 31),
      dirty_clear w,
      fpn_clear x,
      fpn_read (u32 (f * 2 ^ 0)),
      fpn_put (x / 2 ^ 13) (f % 2 ^ 13),
    )

init_pte-swapped_sum :
    (v pre f drt swp t o : ℕ)
    → v < 2 ^ 32
    → pre ≢ 0
    → swp ≢ 0
    → init_pte v pre f drt swp t o
      ≡ 2 ^ 31
        + 2 ^ 30
        + v / 2 ^ 29 % 2 * 2 ^ 29
        + v / 2 ^ 26 % 2 ^ 2 * 2 ^ 26
        + o % 2 ^ 21 * 2 ^ 5
        + t % 2 ^ 5
unfolding init_pte
init_pte-swapped_sum v pre f drt swp t o h ne ns =
    let u = 2 ^ 31 + v % 2 ^ 31 in
    let w = 2 ^ 31 + 2 ^ 30 + v % 2 ^ 30 in
    let x = w / 2 ^ 29 * 2 ^ 29 + w % 2 ^ 28 in
    let y = x / 2 ^ 5 * 2 ^ 5 + t % 2 ^ 5 in
    ground (
      arith,
      present_set v h,
      swapped_set u,
      dirty_clear w,
      typ_clear x,
      typ_read (u32 (t * 2 ^ 0)),
      typ_put (x / 2 ^ 5) (t % 2 ^ 5),
      off_clear y,
      off_read (u32 (o * 2 ^ 5)),
      off_put (y / 2 ^ 26) (y % 2 ^ 5) (o % 2 ^ 21),
    )

init_pte-absent : (v f drt swp t o : ℕ) → init_pte v 0 f drt swp t o ≡ v
unfolding init_pte
init_pte-absent v f drt swp t o = refl

-- `init_pte` leaves the entry alone for `pre = 0`. Otherwise the entry becomes present and clean;
-- for `swp = 0` it is not swapped and names the frame, and for any other `swp` it is swapped and
-- names the swap device and the frame in it. The numbers fit their fields.
pub init_pte_lem :
    (v pre f drt swp t o : ℕ)
    → v < 2 ^ 32
    → f < 2 ^ 13
    → t < 2 ^ 5
    → o < 2 ^ 21
    → let w = init_pte v pre f drt swp t o in
      ((pre ≡ 0) × (w ≡ v))
      ⊎ ((pre ≢ 0)
          × (page_present w ≡ true)
          × (page_dirty w ≡ false)
          × (((swp ≡ 0) × (page_swapped w ≡ false) × (pte_fpn w ≡ f))
              ⊎ ((swp ≢ 0) × (page_swapped w ≡ true) × (swptyp w ≡ t) × (swpoff w ≡ o))))
init_pte_lem v pre f drt swp t o h hf ht ho = elim (ℕ_discrete pre 0) [
  | yes e ↦ inl (e, rw e (init_pte-absent v f drt swp t o))
  | no ne ↦ inr (elim (ℕ_discrete swp 0) [
    | yes e ↦ rw e (
        ground
          (arith, init_pte-online_sum v pre f drt t o h ne, fields (init_pte v pre f drt 0 t o)))
    | no ns ↦ ground (
      arith,
      init_pte-swapped_sum v pre f drt swp t o h ne ns,
      fields (init_pte v pre f drt swp t o),
    )
  ])
]
