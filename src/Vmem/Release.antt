-- ===== src/Vmem/Release.antt =====
-- `free_pcb_memph` of src/mm-vm.c, which nothing calls.
use os_sim.Base.{
  length, get_elem?, ℕ, zero, suc, ◌+◌, ◌/◌, ◌<◌, ◌≤◌, ◌≡◌, refl, sym, ◌∙◌, ap, true, false,
  Bool-cases, inl, inr, List, [], ◌∷◌, some, ok, arith, if◌then◌else◌,
}
use os_sim.Pte.{page_present, pte_fpn, swpoff}
use os_sim.Vmem.{
  System, Action, pure, ◌>>=◌, ◌>>◌, max_pgn, load_entry, pgd_entry, ram_put_freefp,
  swap_put_freefp,
}
use os_sim.Vmem.Addr.{pgd_entry_lem, load_entry_lem}
use os_sim.Vmem.Replace.{put_freefp-cons}

-- The body of the loop.
unfoldable pub free_page : (pagenum : ℕ) → Action (Unit {0})
free_page pagenum = do
  p ← pgd_entry pagenum
  pte ← load_entry p
  if page_present pte then swap_put_freefp (swpoff pte / 256) else ram_put_freefp (pte_fpn pte)

-- The loop, by the rounds left.
pub free_loop : (rounds pagenum : ℕ) → Action (Unit {0})
free_loop zero pagenum = pure tt
free_loop (suc n) pagenum = do free_page pagenum; free_loop n (pagenum + 1)

unfoldable pub free_pcb_memph : Action ℕ
unfolding free_loop
free_pcb_memph = do free_loop max_pgn 0; pure 0

-- The frames that the loop puts on the two free lists for the entries `vs`, the last one first.
abbrev pub ram_frames : List ℕ → List ℕ → List ℕ
ram_frames [] fs = fs
ram_frames (v ∷ vs) fs = ram_frames vs (if page_present v then fs else pte_fpn v ∷ fs)

abbrev pub swap_frames : List ℕ → List ℕ → List ℕ
swap_frames [] fs = fs
swap_frames (v ∷ vs) fs = swap_frames vs (if page_present v then swpoff v / 256 ∷ fs else fs)

free_page_present :
    (p v : ℕ) (s : System)
    → p < max_pgn
    → s.entries (s.mm.pgd + p) ≡ some v
    → page_present v ≡ true
    → s.active_mswp.locked ≡ false
    → free_page p s
      ≡ ok (
        tt,
        record s {
          active_mswp = record s.active_mswp {
            free_fp_list = swpoff v / 256 ∷ s.active_mswp.free_fp_list;
          };
        },
      )
unfolding free_page swap_put_freefp
free_page_present p v s lt e present idle =
    rw
      (
        pgd_entry_lem p s lt,
        load_entry_lem (s.mm.pgd + p) v s e,
        present,
        put_freefp-cons s.active_mswp (swpoff v / 256) idle,
      )
      refl

free_page_absent :
    (p v : ℕ) (s : System)
    → p < max_pgn
    → s.entries (s.mm.pgd + p) ≡ some v
    → page_present v ≡ false
    → s.mram.locked ≡ false
    → free_page p s
      ≡ ok
          (tt, record s { mram = record s.mram { free_fp_list = pte_fpn v ∷ s.mram.free_fp_list } })
unfolding free_page ram_put_freefp
free_page_absent p v s lt e absent idle =
    rw
      (
        pgd_entry_lem p s lt,
        load_entry_lem (s.mm.pgd + p) v s e,
        absent,
        put_freefp-cons s.mram (pte_fpn v) idle,
      )
      refl

-- The state after the loop.
abbrev pub released : List ℕ → System → System
released vs s = record s {
  mram = record s.mram { free_fp_list = ram_frames vs s.mram.free_fp_list };
  active_mswp = record s.active_mswp { free_fp_list = swap_frames vs s.active_mswp.free_fp_list };
}

free_loop_lem :
    (vs : List ℕ) (p : ℕ) (s : System)
    → p + length vs ≤ max_pgn
    → ((i v : ℕ) → get_elem? vs i ≡ some v → s.entries (s.mm.pgd + (p + i)) ≡ some v)
    → s.mram.locked ≡ false
    → s.active_mswp.locked ≡ false
    → free_loop (length vs) p s ≡ ok (tt, released vs s)
unfolding free_loop
free_loop_lem [] p s le e idle_ram idle_swap = refl
free_loop_lem (v ∷ vs) p s le e idle_ram idle_swap =
    let here : s.entries (s.mm.pgd + p) ≡ some v =
      ap (λ i. s.entries (s.mm.pgd + i)) (omega arith) ∙ e 0 v refl in
    let after : ((i v : ℕ)
        → get_elem? vs i ≡ some v
        → s.entries (s.mm.pgd + (p + 1 + i)) ≡ some v) =
      λ i v g. ap (λ i. s.entries (s.mm.pgd + i)) (omega arith) ∙ e (suc i) v g in
    elim (Bool-cases (page_present v)) [
      | inl present ↦
          rw
            (
              free_page_present p v s (omega arith) here present idle_swap,
              free_loop_lem vs (p + 1)
                  (record s {
                    active_mswp = record s.active_mswp {
                      free_fp_list = swpoff v / 256 ∷ s.active_mswp.free_fp_list;
                    };
                  })
                  (omega arith) after idle_ram idle_swap,
              present,
            )
            refl
      | inr absent ↦
          rw
            (
              free_page_absent p v s (omega arith) here absent idle_ram,
              free_loop_lem vs (p + 1)
                  (record s {
                    mram = record s.mram { free_fp_list = pte_fpn v ∷ s.mram.free_fp_list };
                  })
                  (omega arith) after idle_ram idle_swap,
              absent,
            )
            refl
    ]

-- `free_pcb_memph`, when the page table holds the entries `vs` and no thread works on either device:
-- it returns 0, the RAM gets the frame numbers of the pages that are not in RAM, and the swap
-- device, for each page in RAM, the swap field of its entry divided by 256.
pub free_pcb_memph_lem :
    (vs : List ℕ) (s : System)
    → length vs ≡ max_pgn
    → ((i v : ℕ) → get_elem? vs i ≡ some v → s.entries (s.mm.pgd + i) ≡ some v)
    → s.mram.locked ≡ false
    → s.active_mswp.locked ≡ false
    → free_pcb_memph s ≡ ok (0, released vs s)
unfolding free_pcb_memph
free_pcb_memph_lem vs s full e idle_ram idle_swap =
    let run : free_loop max_pgn 0 s ≡ ok (tt, released vs s) =
      ap (λ n. free_loop n 0 s) (sym full)
      ∙ free_loop_lem vs 0 s (omega (arith, full))
          (λ i v g. ap (λ i. s.entries (s.mm.pgd + i)) (omega arith) ∙ e i v g) idle_ram
          idle_swap in
    rw run refl
