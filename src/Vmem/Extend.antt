-- ===== src/Vmem/Extend.antt =====
-- `inc_vma_limit` and the end of `__alloc` of src/mm-vm.c, for the data area.
use os_sim.Base.{
  ℕ, ◌+◌, ◌-◌, ◌*◌, ◌/◌, ◌%◌, ◌≤◌, ◌<◌, ◌≡◌, ◌≢◌, ◌^◌, refl, ap, subst, ◌∙◌, false, List, ◌++◌,
  length, get_elem?, Option, some, ok, arith, u32, sign_extend, lt-length_of_get_elem?, add64,
  sub64,
}
use os_sim.Pte.{pte_set_fpn}
use os_sim.Region.{Area, Mm, get_vma_by_num, set_vma, get_vm_area_node_at_brk}
use os_sim.Region.Alloc.{get_vma-set_vma}
use os_sim.Lru.{Lru}
use os_sim.Lru.Chain.{Entry}
use os_sim.Vmem.{System, Env, paging_pgn}
use os_sim.Vmem.Addr.{paging_pgn_lem}
use os_sim.Vmem.Listed.{IsMalloc, Listed}
use os_sim.Vmem.Map.{page_index}
use os_sim.Vmem.Mapped.{HasTable, vm_map_ram_lem}
use os_sim.Vmem.Grow.{
  alignsz, pages, slack, grown_end, the_vma, set_end, validate_overlap_vm_area, inc_vma_limit,
}

-- The data area `vma` ends at the end of a page, at or above its break, and it has to grow for
-- `size` bytes, which stay within the page table.
pub record IsFull (mm : Mm) (vma : Area) (size : ℕ) : Type 0 where
  pub area : get_vma_by_num mm 0 ≡ some vma
  pub break_below : vma.sbrk ≤ vma.vm_end
  pub whole : vma.vm_end % 256 ≡ 0
  pub short : vma.vm_end < vma.sbrk + size
  pub fits : vma.sbrk + size ≤ 2 ^ 22

-- The pages that are missing.
abbrev pub missing : Area → ℕ → ℕ
missing vma size = (vma.sbrk + size - vma.vm_end + 255) / 256

pub the_vma_lem :
    (vmaid : ℕ) (vma : Area) (s : System)
    → get_vma_by_num s.mm vmaid ≡ some vma
    → the_vma vmaid s ≡ ok (vma, s)
unfolding the_vma
the_vma_lem vmaid vma s e = ground arith

amount :
    (n : ℕ) (mm : Mm) (vma : Area) (size : ℕ)
    → IsFull mm vma size
    → n ≡ missing vma size
    → u32 (alignsz (sub64 (sign_extend size) (slack 0 vma))) ≡ n * 256
unfolding slack
amount n mm vma size h count = ground (arith, count, h.break_below, h.whole, h.short, h.fits)

new_end :
    (n : ℕ) (mm : Mm) (vma : Area) (size : ℕ)
    → IsFull mm vma size
    → n ≡ missing vma size
    → grown_end 0 size vma ≡ vma.vm_end + n * 256
unfolding grown_end
new_end n mm vma size h count = ground (arith, count, h.break_below, h.whole, h.short, h.fits)

page_count :
    (n : ℕ) (mm : Mm) (vma : Area) (size : ℕ)
    → IsFull mm vma size
    → n ≡ missing vma size
    → pages (n * 256) ≡ n
page_count n mm vma size h count = ground (arith, count, h.break_below, h.whole, h.short, h.fits)

first_page :
    (mm : Mm) (vma : Area) (size : ℕ)
    → IsFull mm vma size
    → paging_pgn (u32 vma.vm_end) ≡ vma.vm_end / 256
first_page mm vma size h =
    omega (arith, h.short, h.fits, paging_pgn_lem (u32 vma.vm_end) (omega arith))

node_at_brk :
    (junk inc : ℕ) (mm : Mm) (vma : Area) (size : ℕ)
    → IsFull mm vma size
    → get_vm_area_node_at_brk junk mm 0 size inc
      ≡ ok (record { vmaid = junk; rg_start = vma.sbrk; rg_end = vma.sbrk + size })
unfolding get_vm_area_node_at_brk
node_at_brk junk inc mm vma size h =
    let sum : add64 vma.sbrk (sign_extend size) ≡ vma.sbrk + size =
      ground (arith, h.break_below, h.short, h.fits) in
    ground (arith, h.area, sum)

-- The process after the area has grown by `n` pages.
abbrev pub grown : Mm → Area → ℕ → Mm
grown mm vma n = set_vma mm 0 (record vma { vm_end = vma.vm_end + n * 256 })

module _ (env : Env) (m : IsMalloc env) where
  -- `inc_vma_limit` of the data area, when `validate_overlap_vm_area` returns 0, the RAM lists the
  -- frames `fs` first as free, one for each page that is missing, no thread holds the mutexes, the
  -- whole page table is there and the list of pages in RAM is well formed: it returns 0, the area
  -- ends where `size` bytes beyond the break end, rounded up to a page, page i of the new ones has
  -- an entry that names frame i of `fs`, every other entry is as before, these frames are free no
  -- longer, the list of pages stays well formed, and nothing else changes.
  pub inc_vma_limit_lem :
      (k size : ℕ) (fs rest : List ℕ) (vma : Area) (s : System) (xs : List Entry)
      → IsFull s.mm vma size
      → validate_overlap_vm_area s.mm 0 vma.sbrk (vma.sbrk + size) ≡ 0
      → s.map_lock ≡ false
      → s.mram.locked ≡ false
      → s.mram.free_fp_list ≡ fs ++ rest
      → length fs ≡ missing vma size
      → HasTable s.entries s.mm.pgd
      → Listed env (k + length fs) s.lru s.mallocs xs
      → (l : Lru) × (c : ℕ → Option ℕ) × (ys : List Entry) × (inc_vma_limit env 0 size s
          ≡ ok (
            0,
            record s {
              mm = grown s.mm vma (length fs);
              lru = l;
              mallocs = s.mallocs + length fs;
              entries = c;
              map_lock = false;
              mram = record s.mram { free_fp_list = rest };
            },
          ))
        × Listed env k l (s.mallocs + length fs) ys
        × ((i v f : ℕ)
            → get_elem? fs i ≡ some f
            → s.entries (s.mm.pgd + (vma.vm_end / 256 + i)) ≡ some v
            → c (s.mm.pgd + (vma.vm_end / 256 + i)) ≡ some (pte_set_fpn v f))
        × ((q : ℕ)
            → ((i : ℕ) → i < length fs → q ≢ s.mm.pgd + (vma.vm_end / 256 + i))
            → c q ≡ s.entries q)
  unfolding inc_vma_limit set_end set_vma
  inc_vma_limit_lem k size fs rest vma s xs h valid unlocked idle free count table listed =
      let n = length fs in
      let s1 : System = record s { mm = grown s.mm vma n } in
      let pgn : paging_pgn (u32 vma.vm_end) ≡ vma.vm_end / 256 = first_page s.mm vma size h in
      let index : ((i : ℕ)
          → i < n
          → page_index 0 (paging_pgn (u32 vma.vm_end)) i ≡ vma.vm_end / 256 + i) =
        λ i lt. omega (arith, pgn, h.break_below, h.short, h.fits, count, h.whole) in
      let (l, c, ys, run, listed', inside, outside) =
        vm_map_ram_lem env m k 0 (u32 vma.vm_end) fs rest s1 xs unlocked idle free
          (omega (arith, count, h.fits))
          (λ i lt. omega (arith, index i lt, h.short, h.fits, count, h.whole)) table listed in
      let s2 : System = record s1 {
        lru = l;
        mallocs = s.mallocs + n;
        entries = c;
        map_lock = false;
        mram = record s.mram { free_fp_list = rest };
      } in
      (
        l,
        c,
        ys,
        rw
            (
              the_vma_lem 0 vma s h.area,
              amount n s.mm vma size h count,
              node_at_brk env.junk (n * 256) s.mm vma size h,
              valid,
              new_end n s.mm vma size h count,
              page_count n s.mm vma size h count,
              run,
              the_vma_lem 0 (record vma { vm_end = vma.vm_end + n * 256 }) s2
                  (get_vma-set_vma s.mm 0 vma (record vma { vm_end = vma.vm_end + n * 256 })
                    h.area),
            )
            refl,
        listed',
        λ i v f here.
            subst
              (λ j. s.entries (s.mm.pgd + j) ≡ some v → c (s.mm.pgd + j) ≡ some (pte_set_fpn v f))
              (index i (lt-length_of_get_elem? fs i here)) (inside i v f here),
        λ q apart. outside q (λ i lt e. apart i lt (e ∙ ap (λ j. s.mm.pgd + j) (index i lt))),
      )
