-- ===== src/Vmem/Refuse.antt =====
-- Which accesses `__read` and `__write` of src/mm-vm.c refuse, and `pg_getpage` without room.
use os_sim.Base.{
  ℕ, ◌+◌, ◌≤◌, ◌<◌, ◌≡◌, ◌≢◌, ◌^◌, ◌⊎◌, inl, inr, refl, true, false, Bool-cases, some, ok, arith,
  minus_one,
}
use os_sim.Region.{Region, Area, Mm, get_vma_by_num}
use os_sim.Vmem.{System, Env}
use os_sim.Vmem.Access.{rg_addr, out_of_range, region_at, check_access, read_rg, write_rg}

-- What the tests let pass: in the heap also an offset beyond the address 0.
abbrev pub InRange : Region → ℕ → Type 0
InRange r offset =
    (r.rg_start ≢ r.rg_end)
    × (((r.vmaid ≡ 0) × (r.rg_start + offset ≤ r.rg_end))
        ⊎ ((r.vmaid ≢ 0) × ((r.rg_end + offset ≤ r.rg_start) ⊎ (r.rg_start < offset))))

check_access_in :
    (mm : Mm) (r : Region) (offset : ℕ) (vma : Area)
    → get_vma_by_num mm r.vmaid ≡ some vma
    → r.rg_start < 2 ^ 31
    → r.rg_end < 2 ^ 31
    → offset < 2 ^ 31
    → InRange r offset
    → check_access mm r offset ≡ true
unfolding check_access out_of_range rg_addr
check_access_in mm r offset vma e hs he ho i = ground (arith, e, i)

check_access_out :
    (mm : Mm) (r : Region) (offset : ℕ) (vma : Area)
    → get_vma_by_num mm r.vmaid ≡ some vma
    → r.rg_start < 2 ^ 31
    → r.rg_end < 2 ^ 31
    → offset < 2 ^ 31
    → check_access mm r offset ≡ true
    → InRange r offset
unfolding check_access out_of_range rg_addr
check_access_out mm r offset vma e hs he ho i = ground (arith, e, i)

read_rg_refused :
    (env : Env) (rgid offset value : ℕ) (r : Region) (s : System)
    → region_at s.mm rgid ≡ ok r
    → check_access s.mm r offset ≡ false
    → read_rg env rgid offset value s ≡ ok ((minus_one, value), s)
unfolding read_rg
read_rg_refused env rgid offset value r s e f = rw (e, f) refl

write_rg_refused :
    (env : Env) (rgid offset value : ℕ) (r : Region) (s : System)
    → region_at s.mm rgid ≡ ok r
    → check_access s.mm r offset ≡ false
    → write_rg env rgid offset value s ≡ ok (minus_one, s)
unfolding write_rg
write_rg_refused env rgid offset value r s e f = rw (e, f) refl

-- For a region of the symbol table whose area exists, with bounds and offset below 2^31: either the
-- region is not empty and the offset is in the region, or beyond the address 0 in the heap, and the
-- tests of `__read` and `__write` pass; or neither holds, and both return -1, leave the value and
-- change nothing.
pub access_cases :
    (env : Env) (rgid offset value : ℕ) (r : Region) (vma : Area) (s : System)
    → region_at s.mm rgid ≡ ok r
    → get_vma_by_num s.mm r.vmaid ≡ some vma
    → r.rg_start < 2 ^ 31
    → r.rg_end < 2 ^ 31
    → offset < 2 ^ 31
    → (InRange r offset × (check_access s.mm r offset ≡ true))
      ⊎ ((¬ InRange r offset)
          × (read_rg env rgid offset value s ≡ ok ((minus_one, value), s))
          × (write_rg env rgid offset value s ≡ ok (minus_one, s)))
access_cases env rgid offset value r vma s e a hs he ho =
    elim (Bool-cases (check_access s.mm r offset)) [
      | inl t ↦ inl (check_access_out s.mm r offset vma a hs he ho t, t)
      | inr f ↦ inr (
        λ i. ground (arith, f, check_access_in s.mm r offset vma a hs he ho i),
        read_rg_refused env rgid offset value r s e f,
        write_rg_refused env rgid offset value r s e f,
      )
    ]
