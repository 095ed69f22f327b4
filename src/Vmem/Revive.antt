-- ===== src/Vmem/Revive.antt =====
-- `__alloc` of src/mm-vm.c, when a free region of the data area is used again.
use os_sim.Base.{
  ℕ, zero, suc, ◌+◌, ◌/◌, ◌≤◌, ◌<◌, ◌≡◌, ◌^◌, refl, ap, true, false, List, length, set, some, ok,
  arith, u32, leb, sign_extend, dec_lt,
}
use os_sim.Pte.{page_present, pte_fpn}
use os_sim.Region.{Region, Mm, get_free_vmrg_area}
use os_sim.Lru.{Lru}
use os_sim.Lru.Chain.{Entry}
use os_sim.Lru.Spec.{promote}
use os_sim.Vmem.{System, Env, max_pgn}
use os_sim.Vmem.Addr.{pgd_entry_lem, load_entry_lem}
use os_sim.Vmem.Listed.{IsMalloc, Listed, update_lru_lem, length-promote}
use os_sim.Vmem.Allocate.{set_symrg_lem}
use os_sim.Vmem.Alloc.{revive_page, revive_loop, use_block, set_area, alloc_rg}

-- The pages from `i` to `last` are in the page table and in RAM.
abbrev pub InRam : System → (i last : ℕ) → Type 0
InRam s i last =
    (j : ℕ)
    → i ≤ j
    → j ≤ last
    → (v : ℕ) × (s.entries (s.mm.pgd + j) ≡ some v) × (page_present v ≡ true)

module _ (env : Env) (m : IsMalloc env) where
  revive_page_lem :
      (k i v : ℕ) (s : System) (xs : List Entry)
      → i < max_pgn
      → s.entries (s.mm.pgd + i) ≡ some v
      → page_present v ≡ true
      → Listed env k s.lru s.mallocs xs
      → 0 < length xs
      → (l : Lru) × (revive_page env i s ≡ ok (true, record s { lru = l }))
        × Listed env k l s.mallocs (promote (pte_fpn v) xs)
  unfolding revive_page
  revive_page_lem k i v s xs room e p h pos =
      let (l, run, listed) =
        update_lru_lem env m k v s xs h (λ z. omega (arith, pos, ap length z)) in
      (l, rw (pgd_entry_lem i s room, load_entry_lem (s.mm.pgd + i) v s e, p, run) refl, listed)

  revive_loop_lem :
      (k fuel i last : ℕ) (s : System) (xs : List Entry)
      → last < max_pgn
      → i ≤ last + 1
      → last + 1 < i + fuel
      → InRam s i last
      → Listed env k s.lru s.mallocs xs
      → 0 < length xs
      → (l : Lru) × (ys : List Entry) × (revive_loop env fuel 0 i last s
          ≡ ok (true, record s { lru = l }))
        × Listed env k l s.mallocs ys
        × (0 < length ys)
  unfolding revive_loop
  revive_loop_lem k zero i last s xs room lo enough ram h pos = absurd (omega arith)
  revive_loop_lem k (suc fuel) i last s xs room lo enough ram h pos = elim (dec_lt last i) [
    | yes done ↦
        let stop : leb (sign_extend i) last ≡ false = ground arith in
        (s.lru, xs, rw stop refl, h, pos)
    | no go ↦
        let more : leb (sign_extend i) last ≡ true = ground arith in
        let (v, e, p) = ram i (omega arith) (omega arith) in
        let (l, run, listed) = revive_page_lem k i v s xs (omega arith) e p h pos in
        let (l', ys, rest, listed', pos') =
          revive_loop_lem k fuel (i + 1) last (record s { lru = l }) (promote (pte_fpn v) xs) room
            (omega arith) (omega arith) (λ j a b. ram j (omega arith) b) listed
            (omega (arith, length-promote (pte_fpn v) xs, pos)) in
        let next : u32 (i + 1) ≡ i + 1 = omega arith in
        (l', ys, rw (more, next, run) rest, listed', pos')
  ]

  -- `__alloc` in the data area, when `get_free_vmrg_area` finds a free block within the page table
  -- whose pages are all in RAM, the list of pages in RAM is well formed and not empty, and the fuel
  -- is more than the block's pages: its loop over the pages ends. It returns 0 and the region has
  -- the bounds of the block; the list of pages stays well formed, and nothing else changes.
  pub alloc_rg_again :
      (k rgid size : ℕ) (block : Region) (mm' : Mm) (s : System) (xs : List Entry)
      → get_free_vmrg_area env.fuel s.mm 0 size
          (record { vmaid = 0; rg_start = env.junk; rg_end = env.junk })
        ≡ ok (0, block, mm')
      → rgid < length mm'.symrgtbl
      → block.rg_start ≤ block.rg_end
      → block.rg_end < 2 ^ 22
      → block.rg_end / 256 + 1 < block.rg_start / 256 + env.fuel
      → InRam (record s { mm = mm' }) (block.rg_start / 256) (block.rg_end / 256)
      → Listed env k s.lru s.mallocs xs
      → 0 < length xs
      → (l : Lru) × (ys : List Entry) × (alloc_rg env 0 rgid size s
          ≡ ok (
            0,
            record s {
              mm = record mm' {
                symrgtbl =
                    set mm'.symrgtbl rgid
                      (record { vmaid = 0; rg_start = block.rg_start; rg_end = block.rg_end });
              };
              lru = l;
            },
          ))
        × Listed env k l s.mallocs ys
  unfolding alloc_rg set_area use_block
  alloc_rg_again k rgid size block mm' s xs found known order small enough ram h pos =
      let r : Region = record { vmaid = 0; rg_start = block.rg_start; rg_end = block.rg_end } in
      let s1 : System = record s { mm = record mm' { symrgtbl = set mm'.symrgtbl rgid r } } in
      let (l, ys, run, listed, _) =
        revive_loop_lem k env.fuel (block.rg_start / 256) (block.rg_end / 256) s1 xs (omega arith)
          (omega arith) enough ram h pos in
      let start : u32 (block.rg_start / 256) ≡ block.rg_start / 256 = omega arith in
      (
        l,
        ys,
        rw (found, set_symrg_lem rgid r (record s { mm = mm' }) known, start, run) refl,
        listed,
      )
