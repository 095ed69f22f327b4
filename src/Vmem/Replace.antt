-- ===== src/Vmem/Replace.antt =====
-- The page replacement of `pg_getpage` in src/mm-vm.c exchanges two pages.
use os_sim.Base.{
  ℕ, ◌+◌, ◌*◌, ◌<◌, ◌≡◌, ◌≢◌, refl, ◌∙◌, true, false, List, ◌∷◌, get_elem?, some, ok, arith, dec_lt,
}
use os_sim.Memphy.{Memphy, pagesz, put_freefp}
use os_sim.Memphy.Access.{IsRandom}
use os_sim.Memphy.Copy.{Copied}
use os_sim.Pte.{pte_fpn, pte_set_fpn, pte_set_swap}
use os_sim.Lru.{Lru}
use os_sim.Lru.Chain.{Entry}
use os_sim.Lru.Move.{IsLru}
use os_sim.Vmem.{System, Env, update, swap_get_freefp, swap_put_freefp}
use os_sim.Vmem.Page.{replace_page}
use os_sim.Vmem.Swap.{
  HoldsFrame, get_freefp-cons, set_fpn_lem, set_swap_lem, ram_to_swap_lem, swap_to_ram_lem, IsReady,
  IsVictim, find_victim_lem,
}

pub put_freefp-cons :
    (mp : Memphy) (f : ℕ)
    → mp.locked ≡ false
    → put_freefp mp f ≡ ok (0, record mp { free_fp_list = f ∷ mp.free_fp_list })
unfolding put_freefp
put_freefp-cons mp f e = ground arith

-- Another frame than the one that was overwritten.
pub Copied-other :
    (src s s' : List ℕ) (a f g j : ℕ)
    → Copied src s s' a (f * pagesz) pagesz
    → g ≢ f
    → j < pagesz
    → get_elem? s' (g * pagesz + j) ≡ get_elem? s (g * pagesz + j)
Copied-other src s s' a f g j c ne h = elim (dec_lt g f) [
  | yes lt ↦ c.below (g * pagesz + j) (omega arith)
  | no ge ↦ c.above (g * pagesz + j) (omega arith)
]

Copied-source :
    (src src' s s' : List ℕ) (a d n : ℕ)
    → Copied src' s s' a d n
    → ((j : ℕ) → j < n → get_elem? src' (a + j) ≡ get_elem? src (a + j))
    → Copied src s s' a d n
Copied-source src src' s s' a d n c e = record {
  size = c.size;
  inside = λ j h. c.inside j h ∙ e j h;
  below = c.below;
  above = c.above;
}

module _ (env : Env) where
  pub replace_page_lem :
      (x : Entry) (rest : List Entry) (p v w f : ℕ) (fs : List ℕ) (s : System)
      → IsReady s
      → IsVictim s x rest v f fs
      → s.entries p ≡ some w
      → p ≢ x.pte
      → pte_fpn w ≢ f
      → HoldsFrame s.active_mswp (pte_fpn w)
      → (l : Lru) × (st rt : List ℕ) × (replace_page env p w s
          ≡ ok (
            true,
            record s {
              lru = l;
              mram = record s.mram { storage = rt };
              active_mswp = record s.active_mswp { free_fp_list = pte_fpn w ∷ fs; storage = st };
              entries =
                  update (update s.entries x.pte (pte_set_swap v 0 f)) p (pte_set_fpn w x.fpn);
            },
          ))
        × IsLru l rest
        × Copied s.mram.storage s.active_mswp.storage st (x.fpn * pagesz) (f * pagesz) pagesz
        × Copied s.active_mswp.storage s.mram.storage rt
            (pte_fpn w * pagesz)
            (x.fpn * pagesz)
            pagesz
  unfolding replace_page swap_get_freefp swap_put_freefp
  replace_page_lem x rest p v w f fs s r h e ne apart held =
      let (l, found, lru) = find_victim_lem env x rest s h.lru in
      let s1 : System = record s {
        lru = l;
        active_mswp = record s.active_mswp { free_fp_list = fs };
      } in
      let idle : IsRandom s1.active_mswp = record { idle = r.swap.idle; random = r.swap.random } in
      let (st, out, saved) = ram_to_swap_lem env.junk x.fpn f s1 r.ram idle h.source h.target in
      let s2 : System = record s1 { active_mswp = record s1.active_mswp { storage = st } } in
      let (rt, back, copied) =
        swap_to_ram_lem env.junk (pte_fpn w) x.fpn s2 r.ram
          (record { idle = r.swap.idle; random = r.swap.random }) (omega (arith, saved.size, held))
          h.source in
      let s3 : System = record s2 { mram = record s2.mram { storage = rt } } in
      let s4 : System = record s3 { entries = update s3.entries x.pte (pte_set_swap v 0 f) } in
      let kept : (s4.entries p ≡ some w) = ground (arith, e) in
      let s5 : System = record s4 { entries = update s4.entries p (pte_set_fpn w x.fpn) } in
      (
        l,
        st,
        rt,
        rw
            (
              found,
              get_freefp-cons s.active_mswp env.junk f fs r.swap.idle h.free,
              out,
              back,
              set_swap_lem x.pte f v s3 h.entry,
              set_fpn_lem p x.fpn w s4 kept,
              put_freefp-cons s5.active_mswp (pte_fpn w) r.swap.idle,
            )
            refl,
        lru,
        saved,
        Copied-source s.active_mswp.storage st s.mram.storage rt (pte_fpn w * pagesz)
            (x.fpn * pagesz) pagesz copied
            (λ j lt.
              Copied-other s.mram.storage s.active_mswp.storage st (x.fpn * pagesz) f (pte_fpn w) j
                saved apart lt),
      )
