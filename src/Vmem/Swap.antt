-- ===== src/Vmem/Swap.antt =====
-- src/mm.c and src/mm-vm.c: a page leaves the RAM for the swap device and comes back.
use os_sim.Base.{
  ℕ, ◌+◌, ◌*◌, ◌≤◌, ◌≡◌, refl, sym, ap, subst, true, false, List, [], ◌∷◌, length, some, ok, arith,
  minus_one, inl, inr,
}
use os_sim.Memphy.{Memphy, pagesz, get_freefp}
use os_sim.Memphy.Access.{IsRandom}
use os_sim.Memphy.Copy.{Copied, swap_cp_page_lem}
use os_sim.Pte.{pte_fpn, pte_set_fpn, pte_set_swap}
use os_sim.Lru.{Lru}
use os_sim.Lru.Chain.{Entry}
use os_sim.Lru.Move.{IsLru}
use os_sim.Lru.Ops.{find_lru_victim_page_lem}
use os_sim.Vmem.{
  System, Env, update, ram_get_freefp, swap_get_freefp, ram_to_swap, swap_to_ram, find_victim,
}
use os_sim.Vmem.Addr.{load_entry_lem, store_entry_lem}
use os_sim.Vmem.Page.{set_fpn, set_swap, fetch_page}
use os_sim.Vmem.Map.{evict}

-- Frame `f` lies in the storage of a device.
abbrev pub HoldsFrame : Memphy → ℕ → Type 0
HoldsFrame mp f = f * pagesz + pagesz ≤ length mp.storage

pub get_freefp-cons :
    (mp : Memphy) (fpn f : ℕ) (fs : List ℕ)
    → mp.locked ≡ false
    → mp.free_fp_list ≡ f ∷ fs
    → get_freefp mp fpn ≡ ok (0, f, record mp { free_fp_list = fs })
unfolding get_freefp
get_freefp-cons mp fpn f fs e g = ground arith

pub get_freefp-nil :
    (mp : Memphy) (fpn : ℕ)
    → mp.locked ≡ false
    → mp.free_fp_list ≡ []
    → get_freefp mp fpn ≡ ok (minus_one, fpn, mp)
unfolding get_freefp
get_freefp-nil mp fpn e g = ground arith

pub set_fpn_lem :
    (p f v : ℕ) (s : System)
    → s.entries p ≡ some v
    → set_fpn p f s ≡ ok (tt, record s { entries = update s.entries p (pte_set_fpn v f) })
unfolding set_fpn
set_fpn_lem p f v s e = rw (load_entry_lem p v s e, store_entry_lem p v (pte_set_fpn v f) s e) refl

pub set_swap_lem :
    (p f v : ℕ) (s : System)
    → s.entries p ≡ some v
    → set_swap p f s ≡ ok (tt, record s { entries = update s.entries p (pte_set_swap v 0 f) })
unfolding set_swap
set_swap_lem p f v s e =
    rw (load_entry_lem p v s e, store_entry_lem p v (pte_set_swap v 0 f) s e) refl

pub ram_to_swap_lem :
    (junk a b : ℕ) (s : System)
    → IsRandom s.mram
    → IsRandom s.active_mswp
    → HoldsFrame s.mram a
    → HoldsFrame s.active_mswp b
    → (st : List ℕ) × (ram_to_swap junk a b s
        ≡ ok (tt, record s { active_mswp = record s.active_mswp { storage = st } }))
      × Copied s.mram.storage s.active_mswp.storage st (a * pagesz) (b * pagesz) pagesz
unfolding ram_to_swap
ram_to_swap_lem junk a b s u v ha hb =
    let (st, run, copied) = swap_cp_page_lem junk a b s.mram s.active_mswp u v ha hb in
    (st, rw run refl, copied)

pub swap_to_ram_lem :
    (junk a b : ℕ) (s : System)
    → IsRandom s.mram
    → IsRandom s.active_mswp
    → HoldsFrame s.active_mswp a
    → HoldsFrame s.mram b
    → (st : List ℕ) × (swap_to_ram junk a b s
        ≡ ok (tt, record s { mram = record s.mram { storage = st } }))
      × Copied s.active_mswp.storage s.mram.storage st (a * pagesz) (b * pagesz) pagesz
unfolding swap_to_ram
swap_to_ram_lem junk a b s u v ha hb =
    let (st, run, copied) = swap_cp_page_lem junk a b s.active_mswp s.mram v u ha hb in
    (st, rw run refl, copied)

-- RAM and swap are random-access devices that no thread works on.
pub record IsReady (s : System) : Type 0 where
  pub ram : IsRandom s.mram
  pub swap : IsRandom s.active_mswp

-- The least recently used page is `x` with the entry `v`, and the first free swap frame is `f`.
pub record IsVictim (s : System) (x : Entry) (rest : List Entry) (v f : ℕ) (fs : List ℕ)
    : Type 0 where
  pub lru : IsLru s.lru (x ∷ rest)
  pub entry : s.entries x.pte ≡ some v
  pub free : s.active_mswp.free_fp_list ≡ f ∷ fs
  pub source : HoldsFrame s.mram x.fpn
  pub target : HoldsFrame s.active_mswp f

-- The state after the victim has left the RAM, with the storage of the swap device.
abbrev pub swapped_out : (x : Entry) (v f : ℕ) (fs st : List ℕ) → Lru → System → System
swapped_out x v f fs st l s = record s {
  lru = l;
  active_mswp = record s.active_mswp { free_fp_list = fs; storage = st };
  entries = update s.entries x.pte (pte_set_swap v 0 f);
}

module _ (env : Env) where
  pub find_victim_lem :
      (x : Entry) (rest : List Entry) (s : System)
      → IsLru s.lru (x ∷ rest)
      → (l : Lru) × (find_victim env s
          ≡ ok (record { status = 0; pgn = x.pgn; fpn = x.fpn; pte = x.pte }, record s { lru = l }))
        × IsLru l rest
  unfolding find_victim
  find_victim_lem x rest s h = elim (find_lru_victim_page_lem env.victim s.lru (x ∷ rest) h) [
    | inl z ↦ absurd (omega (arith, ap length z.0))
    | inr (y, ys, l, e, run, lru) ↦
        let same : x ≡ y = ground (arith, e) in
        let tail : rest ≡ ys = ground (arith, e) in
        (l, rw (run, same) refl, subst (IsLru l) (sym tail) lru)
  ]

  -- The page replacement of `alloc_pages_range`, when the list of pages in RAM is well formed and
  -- not empty, the swap device has a free frame, both devices are random-access and idle and hold
  -- the frames: it returns the frame of the least recently used page. The bytes of this frame are
  -- in the first free swap frame, which is free no longer, every other byte of both devices is as
  -- before, the page is off the list, and its entry names the swap frame in place of the RAM frame.
  pub evict_lem :
      (x : Entry) (rest : List Entry) (v f : ℕ) (fs : List ℕ) (s : System)
      → IsReady s
      → IsVictim s x rest v f fs
      → (l : Lru) × (st : List ℕ) × (evict env s ≡ ok (x.fpn, swapped_out x v f fs st l s))
        × IsLru l rest
        × Copied s.mram.storage s.active_mswp.storage st (x.fpn * pagesz) (f * pagesz) pagesz
  unfolding evict swap_get_freefp
  evict_lem x rest v f fs s r h =
      let (l, found, lru) = find_victim_lem x rest s h.lru in
      let s1 : System = record s {
        lru = l;
        active_mswp = record s.active_mswp { free_fp_list = fs };
      } in
      let (st, copy, copied) =
        ram_to_swap_lem env.junk x.fpn f s1 r.ram
          (record { idle = r.swap.idle; random = r.swap.random }) h.source h.target in
      let s2 : System = record s1 { active_mswp = record s1.active_mswp { storage = st } } in
      (
        l,
        st,
        rw
            (
              found,
              get_freefp-cons s.active_mswp env.junk f fs r.swap.idle h.free,
              copy,
              set_swap_lem x.pte f v s2 h.entry,
            )
            refl,
        lru,
        copied,
      )

  -- `pg_getpage` for a page that is not in RAM, when the RAM has a free frame, both devices are
  -- random-access and idle and hold the frames: the page gets the first free frame, which is free
  -- no longer and holds the bytes of the swap frame that the low 13 bits of the entry name; every
  -- other byte, the swap device and the list of pages are as before, and the entry is written by
  -- `pte_set_fpn`.
  pub fetch_page_lem :
      (p w g : ℕ) (gs : List ℕ) (s : System)
      → IsReady s
      → s.entries p ≡ some w
      → s.mram.free_fp_list ≡ g ∷ gs
      → HoldsFrame s.active_mswp (pte_fpn w)
      → HoldsFrame s.mram g
      → (st : List ℕ) × (fetch_page env p w s
          ≡ ok (
            true,
            record s {
              mram = record s.mram { free_fp_list = gs; storage = st };
              entries = update s.entries p (pte_set_fpn w g);
            },
          ))
        × Copied s.active_mswp.storage s.mram.storage st (pte_fpn w * pagesz) (g * pagesz) pagesz
  unfolding fetch_page ram_get_freefp
  fetch_page_lem p w g gs s r e free src dst =
      let s1 : System = record s { mram = record s.mram { free_fp_list = gs } } in
      let (st, copy, copied) =
        swap_to_ram_lem env.junk (pte_fpn w) g s1
          (record { idle = r.ram.idle; random = r.ram.random }) r.swap src dst in
      let s2 : System = record s1 { mram = record s1.mram { storage = st } } in
      (
        st,
        rw (get_freefp-cons s.mram minus_one g gs r.ram.idle free, copy, set_fpn_lem p g w s2 e)
            refl,
        copied,
      )
