-- ===== src/Vmem/Loaded.antt =====
-- The bytes of the pages of src/mm-vm.c when `pg_getpage` brings a page into RAM.
use os_sim.Base.{
  ℕ, ◌+◌, ◌*◌, ◌/◌, ◌<◌, ◌≡◌, ◌≢◌, refl, sym, ◌∙◌, ap, subst, true, false, List, ◌∷◌, All, length,
  get_elem?, arith, ℕ_discrete,
}
use os_sim.Memphy.{pagesz}
use os_sim.Memphy.Copy.{Copied}
use os_sim.Pte.{pte_fpn, page_present, pte_set_fpn, pte_set_swap, swpoff}
use os_sim.Lru.{Lru}
use os_sim.Lru.Chain.{Entry}
use os_sim.Vmem.{System, Env, update}
use os_sim.Vmem.Mapped.{update_self, update_ne}
use os_sim.Vmem.Content.{
  IsSaved, stored, stored_at, stored_at-same, stored_at-left, ram_other, swap_other,
}
use os_sim.Vmem.Paged.{IsPaged, fetched}
use os_sim.Vmem.Exchanged.{IsFault, exchanged, swap_small}

-- Page `pgn`, which has the entry `w`, is in the frame `f`, and no byte of another page has changed.
pub record IsLoaded (area : ℕ → ℕ) (pgn w f : ℕ) (s s' : System) : Type 0 where
  -- The bytes of the other pages.
  pub intact : (a : ℕ) → a / 256 ≢ pgn → stored area s' a ≡ stored area s a
  -- A page in RAM keeps its bytes.
  pub own : page_present w ≡ true → (a : ℕ) → stored area s' a ≡ stored area s a
  -- Another page has the bytes of the swap frame with the number in its frame field.
  pub loaded :
      page_present w ≡ false
      → (j : ℕ) → j < 256
      → get_elem? s'.mram.storage (f * 256 + j)
        ≡ get_elem? s.active_mswp.storage (pte_fpn w * 256 + j)
  -- A swap frame that was taken was exchanged for another.
  pub swap_count : length s'.active_mswp.free_fp_list ≡ length s.active_mswp.free_fp_list

module _ (area : ℕ → ℕ) (env : Env) (k pgn w : ℕ) (s : System) where
  other_page : (a : ℕ) → a / 256 ≢ pgn → s.mm.pgd + pgn ≢ s.mm.pgd + a / 256
  other_page a ne e = ne (omega (arith, e))

  pub fetched-IsLoaded :
      (g : ℕ) (gs rt : List ℕ) (xs : List Entry)
      → IsPaged area env k s xs
      → page_present w ≡ false
      → s.mram.free_fp_list ≡ g ∷ gs
      → Copied s.active_mswp.storage s.mram.storage rt (pte_fpn w * 256) (g * pagesz) pagesz
      → IsLoaded area pgn w g s (fetched area (s.mm.pgd + pgn) w g gs rt s)
  fetched-IsLoaded g gs rt xs h absent free copied = record {
    intact = λ a ne.
        let q = s.mm.pgd + a / 256 in
        ap (stored_at area rt s.active_mswp.storage a)
          (update_ne s.entries (s.mm.pgd + pgn) q (pte_set_fpn w g) (other_page a ne))
        ∙ stored_at-same area s.mram.storage rt s.active_mswp.storage s.active_mswp.storage a
            (s.entries q)
            (λ u d present.
              ram_other area u a s.active_mswp.storage s.mram.storage rt (pte_fpn w * 256) g copied
                (subst (All (λ f. pte_fpn u ≢ f)) free
                  (h.memory.owned.taken q (pte_fpn u) (u, d, present, refl))).0)
            (λ u d p t. refl);
    own = λ present. absurd (ground (arith, present, absent));
    loaded = λ e. copied.inside;
    swap_count = refl;
  }

  pub exchanged-IsLoaded :
      (v f : ℕ) (fs : List ℕ) (x : Entry) (rest : List Entry) (st rt : List ℕ) (l : Lru)
      → IsFault area env k (s.mm.pgd + pgn) v w f fs x rest s
      → IsSaved s.entries s.active_mswp.free_fp_list
      → Copied s.mram.storage s.active_mswp.storage st (x.fpn * pagesz) (f * pagesz) pagesz
      → Copied s.active_mswp.storage s.mram.storage rt (pte_fpn w * 256) (x.fpn * pagesz) pagesz
      → IsLoaded area pgn w x.fpn s (exchanged x (s.mm.pgd + pgn) v w f fs st rt l s)
  exchanged-IsLoaded v f fs x rest st rt l h free saved copied = record {
    intact = λ a ne.
        let p = s.mm.pgd + pgn in
        let q = s.mm.pgd + a / 256 in
        let left = update s.entries x.pte (pte_set_swap v 0 f) in
        ap (stored_at area rt st a) (update_ne left p q (pte_set_fpn w x.fpn) (other_page a ne))
        ∙ elim (ℕ_discrete x.pte q) [
          | yes same ↦
              ap (stored_at area rt st a)
                (ap left (sym same) ∙ update_self s.entries x.pte (pte_set_swap v 0 f))
              ∙ stored_at-left area s.mram.storage rt s.active_mswp.storage st a v x.fpn f
                  (h.paged.memory.owned.word x.pte v h.victim)
                  (swap_small area env k p v w f fs x rest s h) h.present h.frame saved
              ∙ ap (stored_at area s.mram.storage s.active_mswp.storage a)
                  (sym h.victim ∙ ap s.entries same)
          | no other ↦
              ap (stored_at area rt st a) (update_ne s.entries x.pte q (pte_set_swap v 0 f) other)
              ∙ stored_at-same area s.mram.storage rt s.active_mswp.storage st a (s.entries q)
                  (λ u d present.
                    ram_other area u a s.active_mswp.storage s.mram.storage rt (pte_fpn w * 256)
                      x.fpn copied
                      (λ e.
                        h.paged.memory.owned.alone q x.pte x.fpn (λ i. other (sym i))
                          (u, d, present, e) (v, h.victim, h.present, h.frame)))
                  (λ u d away swapped.
                    swap_other area u a s.mram.storage s.active_mswp.storage st (x.fpn * pagesz) f
                      saved (subst (All (λ i. swpoff u ≢ i)) h.free (free q u d away swapped)).0)
        ];
    own = λ present. absurd (ground (arith, present, h.absent));
    loaded = λ e. copied.inside;
    swap_count = sym (ap length h.free);
  }
