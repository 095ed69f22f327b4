-- ===== src/Vmem/Content.antt =====
-- The bytes of the pages of src/mm-vm.c, in RAM or in the swap device.
use os_sim.Base.{
  ℕ, ◌+◌, ◌-◌, ◌*◌, ◌/◌, ◌%◌, ◌<◌, ◌≡◌, ◌≢◌, ◌^◌, ◌==◌, refl, sym, ◌∙◌, ap, subst, true, false,
  List, ◌∷◌, All, get_elem?, Option, none, some, arith, if◌then◌else◌, Bool-cases, inl, inr,
  ℕ_discrete,
}
use mathlib.Core.Option.{some_inj}
use os_sim.Memphy.{pagesz}
use os_sim.Memphy.Copy.{Copied}
use os_sim.Pte.{pte_fpn, page_present, page_swapped, swpoff, pte_set_swap}
use os_sim.Pte.Laws.{pte_set_swap_lem}
use os_sim.Lru.{Lru}
use os_sim.Lru.Chain.{Entry}
use os_sim.Vmem.{System, update}
use os_sim.Vmem.Mapped.{update_self, update_ne}
use os_sim.Vmem.Page.{phyaddr}
use os_sim.Vmem.Replace.{Copied-other}
use os_sim.Vmem.Swap.{swapped_out}
use os_sim.Vmem.View.{place}

-- No page that is in the swap device has a swap frame of the list `free`.
abbrev pub IsSaved : (ℕ → Option ℕ) → List ℕ → Type 0
IsSaved c free =
    (q v : ℕ)
    → c q ≡ some v
    → page_present v ≡ false
    → page_swapped v ≡ true
    → All (λ f. swpoff v ≢ f) free

module _ (area : ℕ → ℕ) where
  -- The byte of a page in RAM, or else in the frame that the swap field of its entry names.
  abbrev pub stored_at : (ram swap : List ℕ) → ℕ → Option ℕ → Option ℕ
  stored_at ram swap a none = none
  stored_at ram swap a (some v) =
      if page_present v
      then get_elem? ram (place area v a)
      else if page_swapped v
      then get_elem? swap (phyaddr (area (a / 256)) (swpoff v) (a % 256))
      else none

  abbrev pub stored : System → ℕ → Option ℕ
  stored s a = stored_at s.mram.storage s.active_mswp.storage a (s.entries (s.mm.pgd + a / 256))

  -- A byte of another frame than the one that was overwritten.
  frame_other :
      (d f o : ℕ) (src s s' : List ℕ) (b g : ℕ)
      → Copied src s s' b (g * pagesz) pagesz
      → f ≢ g
      → o < 256
      → get_elem? s' (phyaddr d f o) ≡ get_elem? s (phyaddr d f o)
  frame_other d f o src s s' b g copied ne lt = elim (Bool-cases (d == 0)) [
    | inl e ↦ rw e (Copied-other src s s' b g f o copied ne (omega arith))
    | inr e ↦ rw e (Copied-other src s s' b g f (255 - o) copied ne (omega arith))
  ]

  -- A byte of the frame that was written, and of the one that was read.
  frame-Copied :
      (d f g o : ℕ) (src s s' : List ℕ)
      → Copied src s s' (f * pagesz) (g * pagesz) pagesz
      → o < 256
      → get_elem? s' (phyaddr d g o) ≡ get_elem? src (phyaddr d f o)
  frame-Copied d f g o src s s' copied lt = elim (Bool-cases (d == 0)) [
    | inl e ↦ rw e (copied.inside o lt)
    | inr e ↦ rw e (copied.inside (255 - o) (omega arith))
  ]

  -- A page whose frame was not overwritten.
  pub stored_at-same :
      (ram ram' swap swap' : List ℕ) (a : ℕ) (o : Option ℕ)
      → ((v : ℕ)
          → o ≡ some v
          → page_present v ≡ true
          → get_elem? ram' (place area v a) ≡ get_elem? ram (place area v a))
      → ((v : ℕ)
          → o ≡ some v
          → page_present v ≡ false
          → page_swapped v ≡ true
          → get_elem? swap' (phyaddr (area (a / 256)) (swpoff v) (a % 256))
            ≡ get_elem? swap (phyaddr (area (a / 256)) (swpoff v) (a % 256)))
      → stored_at ram' swap' a o ≡ stored_at ram swap a o
  stored_at-same ram ram' swap swap' a none h g = refl
  stored_at-same ram ram' swap swap' a (some v) h g = elim (Bool-cases (page_present v)) [
    | inl p ↦ rw p (h v refl p)
    | inr p ↦ elim (Bool-cases (page_swapped v)) [
      | inl t ↦ rw (p, t) (g v refl p t)
      | inr t ↦ rw (p, t) refl
    ]
  ]

  pub ram_other :
      (v a : ℕ) (src s s' : List ℕ) (b g : ℕ)
      → Copied src s s' b (g * pagesz) pagesz
      → pte_fpn v ≢ g
      → get_elem? s' (place area v a) ≡ get_elem? s (place area v a)
  ram_other v a src s s' b g copied ne =
      frame_other (area (a / 256)) (pte_fpn v) (a % 256) src s s' b g copied ne (omega arith)

  pub swap_other :
      (v a : ℕ) (src s s' : List ℕ) (b g : ℕ)
      → Copied src s s' b (g * pagesz) pagesz
      → swpoff v ≢ g
      → get_elem? s' (phyaddr (area (a / 256)) (swpoff v) (a % 256))
        ≡ get_elem? s (phyaddr (area (a / 256)) (swpoff v) (a % 256))
  swap_other v a src s s' b g copied ne =
      frame_other (area (a / 256)) (swpoff v) (a % 256) src s s' b g copied ne (omega arith)

  -- The page that leaves the RAM.
  pub stored_at-left :
      (ram ram' swap st : List ℕ) (a v x f : ℕ)
      → v < 2 ^ 32
      → f < 2 ^ 21
      → page_present v ≡ true
      → pte_fpn v ≡ x
      → Copied ram swap st (x * pagesz) (f * pagesz) pagesz
      → stored_at ram' st a (some (pte_set_swap v 0 f)) ≡ stored_at ram swap a (some v)
  stored_at-left ram ram' swap st a v x f word small present frame copied =
      let (_, absent, swapped, _, off, _) = pte_set_swap_lem v 0 f word (omega arith) small in
      rw (absent, swapped, off, present, frame)
        (frame-Copied (area (a / 256)) x f (a % 256) ram swap st copied (omega arith))

  -- A page leaves the RAM: no byte of any page is lost.
  pub swapped_out-stored :
      (x : Entry) (v f : ℕ) (fs st : List ℕ) (l : Lru) (s : System)
      → s.entries x.pte ≡ some v
      → v < 2 ^ 32
      → f < 2 ^ 21
      → page_present v ≡ true
      → pte_fpn v ≡ x.fpn
      → s.active_mswp.free_fp_list ≡ f ∷ fs
      → IsSaved s.entries s.active_mswp.free_fp_list
      → Copied s.mram.storage s.active_mswp.storage st (x.fpn * pagesz) (f * pagesz) pagesz
      → (a : ℕ) → stored (swapped_out x v f fs st l s) a ≡ stored s a
  swapped_out-stored x v f fs st l s e word small present frame free saved copied a =
      let q = s.mm.pgd + a / 256 in
      elim (ℕ_discrete x.pte q) [
        | yes same ↦
            ap (λ i. stored_at s.mram.storage st a (update s.entries x.pte (pte_set_swap v 0 f) i))
              (sym same)
            ∙ ap (stored_at s.mram.storage st a) (update_self s.entries x.pte (pte_set_swap v 0 f))
            ∙ stored_at-left s.mram.storage s.mram.storage s.active_mswp.storage st a v x.fpn f word
                small present frame copied
            ∙ ap (stored_at s.mram.storage s.active_mswp.storage a) (sym e ∙ ap s.entries same)
        | no ne ↦
            ap (stored_at s.mram.storage st a) (update_ne s.entries x.pte q (pte_set_swap v 0 f) ne)
            ∙ stored_at-same s.mram.storage s.mram.storage s.active_mswp.storage st a (s.entries q)
                (λ u d p. refl)
                (λ u d p t.
                  swap_other u a s.mram.storage s.active_mswp.storage st (x.fpn * pagesz) f copied
                    (subst (All (λ g. swpoff u ≢ g)) free (saved q u d p t)).0)
      ]

-- The swap frame that the page takes is free no longer.
pub IsSaved-set_swap :
    (c : ℕ → Option ℕ) (p v f : ℕ) (fs : List ℕ)
    → v < 2 ^ 32
    → f < 2 ^ 21
    → All (λ g. f ≢ g) fs
    → IsSaved c (f ∷ fs)
    → IsSaved (update c p (pte_set_swap v 0 f)) fs
IsSaved-set_swap c p v f fs word small apart saved q u d absent swapped = elim (ℕ_discrete p q) [
  | yes same ↦
      let (_, _, _, _, off, _) = pte_set_swap_lem v 0 f word (omega arith) small in
      let value : pte_set_swap v 0 f ≡ u = some_inj.0 (
        sym (update_self c p (pte_set_swap v 0 f))
        ∙ ap (update c p (pte_set_swap v 0 f)) same
        ∙ d) in
      subst (λ g. All (λ k. g ≢ k) fs) (sym off ∙ ap swpoff value) apart
  | no ne ↦ (saved q u (sym (update_ne c p q (pte_set_swap v 0 f) ne) ∙ d) absent swapped).1
]
