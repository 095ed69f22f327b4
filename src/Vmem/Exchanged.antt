-- ===== src/Vmem/Exchanged.antt =====
-- What the page replacement of `pg_getpage` in src/mm-vm.c keeps.
use os_sim.Base.{
  ℕ, ◌+◌, ◌*◌, ◌/◌, ◌≤◌, ◌<◌, ◌≡◌, ◌≢◌, ◌^◌, refl, sym, ◌∙◌, ap, subst, true, false, List, [], ◌∷◌,
  All, length, Option, some, arith, inl, inr,
}
use os_sim.Memphy.{pagesz}
use os_sim.Memphy.Copy.{Copied}
use os_sim.Pte.{pte_fpn, page_present, pte_set_fpn, pte_set_swap}
use os_sim.Pte.Laws.{pte_set_fpn_lem, pte_set_swap_lem}
use os_sim.Lru.{Lru}
use os_sim.Lru.Chain.{Entry}
use os_sim.Vmem.{System, Env, update}
use os_sim.Vmem.Listed.{Listed}
use os_sim.Vmem.Mapped.{update_ne}
use os_sim.Vmem.Owned.{InFrame-update, IsOwned, IsOwned-set_fpn, IsOwned-set_swap}
use os_sim.Vmem.View.{byte_at}
use os_sim.Vmem.Swap.{HoldsFrame}
use os_sim.Vmem.Tracked.{Tracked-other, Tracked-absent, Tracked-Missing}
use os_sim.Vmem.Paged.{IsPaged, IsKept, byte_at-Copied}

-- The state after the page with the entry `w` at `p` has taken the frame of the page of `x`, which
-- has the entry `v`, and that page the swap frame `f`.
abbrev pub exchanged : (x : Entry) (p v w f : ℕ) (fs st rt : List ℕ) → Lru → System → System
exchanged x p v w f fs st rt l s = record s {
  lru = l;
  mram = record s.mram { storage = rt };
  active_mswp = record s.active_mswp { free_fp_list = pte_fpn w ∷ fs; storage = st };
  entries = update (update s.entries x.pte (pte_set_swap v 0 f)) p (pte_set_fpn w x.fpn);
}

pub All-HoldsFrame :
    (n n' : ℕ) (fs : List ℕ)
    → n' ≡ n
    → All (λ f. f * pagesz + pagesz ≤ n) fs
    → All (λ f. f * pagesz + pagesz ≤ n') fs
All-HoldsFrame n n' fs e h = rw e h

module _ (area : ℕ → ℕ) (env : Env) (k p v w f : ℕ) (fs : List ℕ) (x : Entry) (rest : List Entry)
    (s : System) where
  -- The page at `p` is not in RAM, that of `x` is the least recently used, and `f` is the first free
  -- swap frame.
  pub record IsFault : Type 0 where
    pub paged : IsPaged area env k s (x ∷ rest)
    pub entry : s.entries p ≡ some w
    pub absent : page_present w ≡ false
    pub source : HoldsFrame s.active_mswp (pte_fpn w)
    pub free : s.active_mswp.free_fp_list ≡ f ∷ fs
    pub victim : s.entries x.pte ≡ some v
    pub present : page_present v ≡ true
    pub frame : pte_fpn v ≡ x.fpn

  pub apart : IsFault → p ≢ x.pte
  apart h = (Tracked-absent s.entries p w (x ∷ rest) h.entry h.absent h.paged.tracked).0

  pub swap_small : IsFault → f < 2 ^ 21
  swap_small h =
      let room : All (HoldsFrame s.active_mswp) (f ∷ fs) =
        subst (All (HoldsFrame s.active_mswp)) h.free h.paged.swap_room in
      omega (arith, room.0, h.paged.swap_size)

  -- First the victim leaves its frame.
  abbrev left : ℕ → Option ℕ
  left = update s.entries x.pte (pte_set_swap v 0 f)

  left-IsOwned : IsFault → IsOwned left (x.fpn ∷ s.mram.free_fp_list)
  left-IsOwned h =
      IsOwned-set_swap s.entries x.pte v x.fpn f s.mram.free_fp_list h.victim h.present h.frame
        (swap_small h) h.paged.memory.owned

  left-kept : IsFault → left p ≡ some w
  left-kept h = update_ne s.entries x.pte p (pte_set_swap v 0 f) (λ e. apart h (sym e)) ∙ h.entry

  pub new_frame :
      IsFault
      → (page_present (pte_set_fpn w x.fpn) ≡ true) × (pte_fpn (pte_set_fpn w x.fpn) ≡ x.fpn)
  new_frame h =
      let (_, present, _, frame, _) =
        pte_set_fpn_lem w x.fpn (h.paged.memory.owned.word p w h.entry) (left-IsOwned h).frames.0 in
      (present, frame)

  swap_absent : IsFault → page_present (pte_set_swap v 0 f) ≡ true → ⊥
  swap_absent h e =
      let (_, absent, _, _, _, _) =
        pte_set_swap_lem v 0 f (h.paged.memory.owned.word x.pte v h.victim) (omega arith)
          (swap_small h) in
      ground (arith, e, absent)

  module _ (st rt : List ℕ) (l : Lru) where
    pub exchanged-IsPaged :
        IsFault
        → length st ≡ length s.active_mswp.storage
        → length rt ≡ length s.mram.storage
        → Listed env k l s.mallocs rest
        → IsPaged area env k (exchanged x p v w f fs st rt l s) rest
    exchanged-IsPaged h swap_same ram_same listed =
        let owned = left-IsOwned h in
        let room : All (HoldsFrame s.active_mswp) (f ∷ fs) =
          subst (All (HoldsFrame s.active_mswp)) h.free h.paged.swap_room in
        let held = h.paged.memory.holds x.pte x.fpn (v, h.victim, h.present, h.frame) in
        let frame = (new_frame h).1 in
        record {
          memory = record {
            unlocked = h.paged.memory.unlocked;
            random = record {
              idle = h.paged.memory.random.idle;
              random = h.paged.memory.random.random;
            };
            owned = IsOwned-set_fpn left p w x.fpn s.mram.free_fp_list (left-kept h) owned;
            room =
                All-HoldsFrame (length s.mram.storage) (length rt) s.mram.free_fp_list ram_same
                  h.paged.memory.room;
            holds = λ q g a. rw ram_same (elim (InFrame-update left p (pte_set_fpn w x.fpn) q g a) [
              | inl (_, _, hit) ↦
                  subst (λ f. f * pagesz + pagesz ≤ length s.mram.storage) (sym frame ∙ hit) held
              | inr (_, old) ↦ elim (InFrame-update s.entries x.pte (pte_set_swap v 0 f) q g old) [
                | inl (_, here, hit) ↦ absurd (swap_absent h here)
                | inr (_, older) ↦ h.paged.memory.holds q g older
              ]
            ]);
          };
          swap = record { idle = h.paged.swap.idle; random = h.paged.swap.random };
          swap_size = rw swap_same h.paged.swap_size;
          swap_room =
              All-HoldsFrame (length s.active_mswp.storage) (length st) (pte_fpn w ∷ fs) swap_same
                (h.source, room.1);
          listed = listed;
          tracked =
              Tracked-other left p (pte_set_fpn w x.fpn) rest
                (Tracked-absent s.entries p w rest h.entry h.absent h.paged.tracked.1)
                (Tracked-other s.entries x.pte (pte_set_swap v 0 f) rest
                  (Tracked-Missing s.entries x.pte x.fpn rest h.paged.tracked.0 h.paged.once.0
                    h.paged.tracked.1)
                  h.paged.tracked.1);
          once = h.paged.once.1;
        }

    pub exchanged-IsKept :
        (src : List ℕ) (b : ℕ)
        → IsFault
        → Copied src s.mram.storage rt b (x.fpn * pagesz) pagesz
        → IsKept area s (exchanged x p v w f fs st rt l s) (p ∷ x.pte ∷ [])
    exchanged-IsKept src b h copied = record {
      pgd = refl;
      others = same;
      seen = λ a ne.
          let q = s.mm.pgd + a / 256 in
          ap (byte_at area (record s.mram { storage = rt }) a) (same q ne)
          ∙ byte_at-Copied area s.mram s.mram.free_fp_list a (s.entries q) src rt b x.fpn copied
              (λ u e present hit.
                h.paged.memory.owned.alone q x.pte x.fpn ne.1.0 (u, e, present, hit)
                  (v, h.victim, h.present, h.frame));
    }
      where
        same :
            (q : ℕ)
            → All (λ z. q ≢ z) (p ∷ x.pte ∷ [])
            → (exchanged x p v w f fs st rt l s).entries q ≡ s.entries q
        same q ne =
            update_ne left p q (pte_set_fpn w x.fpn) (λ e. ne.0 (sym e))
            ∙ update_ne s.entries x.pte q (pte_set_swap v 0 f) (λ e. ne.1.0 (sym e))
