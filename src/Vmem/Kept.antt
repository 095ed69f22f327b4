-- ===== src/Vmem/Kept.antt =====
-- Steps of src/mm.c after each other, and what they leave of the memory.
use os_sim.Base.{ℕ, ◌+◌, ◌/◌, ◌≢◌, refl, sym, ◌∙◌, ap, subst, List, [], ◌∷◌, ◌++◌, All}
use os_sim.Pte.{pte_set_swap}
use os_sim.Lru.{Lru}
use os_sim.Lru.Chain.{Entry}
use os_sim.Vmem.{System}
use os_sim.Vmem.Mapped.{update_ne}
use os_sim.Vmem.View.{byte_at}
use os_sim.Vmem.Swap.{swapped_out}
use os_sim.Vmem.Paged.{IsKept}

All-split :
    (q : ℕ) (ps qs : List ℕ)
    → All (λ z. q ≢ z) (ps ++ qs)
    → All (λ z. q ≢ z) ps × All (λ z. q ≢ z) qs
All-split q [] qs h = (tt, h)
All-split q (p ∷ ps) qs h = let (l, r) = All-split q ps qs h.1 in ((h.0, l), r)

module _ (area : ℕ → ℕ) where
  pub IsKept-refl :
      (s : System) (free : List ℕ)
      → IsKept area s (record s { mram = record s.mram { free_fp_list = free } }) []
  IsKept-refl s free = record { pgd = refl; others = λ q h. refl; seen = λ a h. refl }

  pub IsKept-trans :
      (s t u : System) (ps qs : List ℕ)
      → IsKept area s t ps
      → IsKept area t u qs
      → IsKept area s u (ps ++ qs)
  IsKept-trans s t u ps qs h g = record {
    pgd = g.pgd ∙ h.pgd;
    others = λ q ne. let (p, r) = All-split q ps qs ne in g.others q r ∙ h.others q p;
    seen = λ a ne.
        let (p, r) = All-split (s.mm.pgd + a / 256) ps qs ne in
        g.seen a (subst (λ d. All (λ z. d + a / 256 ≢ z) qs) (sym h.pgd) r) ∙ h.seen a p;
  }

  pub swapped_out-IsKept :
      (x : Entry) (v f : ℕ) (fs st : List ℕ) (l : Lru) (s : System)
      → IsKept area s (swapped_out x v f fs st l s) (x.pte ∷ [])
  swapped_out-IsKept x v f fs st l s = record {
    pgd = refl;
    others = λ q ne. update_ne s.entries x.pte q (pte_set_swap v 0 f) (λ e. ne.0 (sym e));
    seen = λ a ne.
        ap (byte_at area s.mram a)
          (update_ne s.entries x.pte (s.mm.pgd + a / 256) (pte_set_swap v 0 f) (λ e. ne.0 (sym e)));
  }
