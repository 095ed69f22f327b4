-- ===== src/Vmem/Paged.antt =====
-- What `pg_getpage` of src/mm-vm.c keeps about the page table, the RAM, the swap device and the
-- list of pages in RAM.
use os_sim.Base.{
  ℕ, ◌+◌, ◌-◌, ◌*◌, ◌/◌, ◌%◌, ◌≤◌, ◌≡◌, ◌≢◌, ◌^◌, ◌==◌, refl, sym, ◌∙◌, ap, subst, true, false,
  List, [], ◌∷◌, All, length, get_elem?, Option, none, some, arith, Bool-cases, inl, inr,
}
use os_sim.Memphy.{Memphy, pagesz}
use os_sim.Memphy.Access.{IsRandom}
use os_sim.Memphy.Copy.{Copied}
use os_sim.Pte.{pte_fpn, page_present, pte_set_fpn}
use os_sim.Pte.Laws.{pte_set_fpn_lem}
use os_sim.Lru.{Lru}
use os_sim.Lru.Chain.{Entry}
use os_sim.Lru.Spec.{insert}
use os_sim.Vmem.{System, Env, update}
use os_sim.Vmem.Listed.{IsMalloc, Listed, listed_entry}
use os_sim.Vmem.Mapped.{update_ne}
use os_sim.Vmem.Owned.{InFrame, InFrame-update, IsOwned, IsOwned-set_fpn}
use os_sim.Vmem.View.{place, byte_at, view, IsMemory}
use os_sim.Vmem.Swap.{HoldsFrame}
use os_sim.Vmem.Replace.{Copied-other}
use os_sim.Vmem.Tracked.{Once, Tracked, All-insert, Once-insert, Tracked-other, Tracked-absent}

module _ (area : ℕ → ℕ) where
  -- Frames of the RAM are not shared, each listed page is in the frame the list has for it, no
  -- frame is listed twice, and the free swap frames lie in the swap device.
  pub record IsPaged (env : Env) (k : ℕ) (s : System) (xs : List Entry) : Type 0 where
    pub memory : IsMemory area s
    pub swap : IsRandom s.active_mswp
    pub swap_size : length s.active_mswp.storage ≤ 2 ^ 29
    pub swap_room : All (HoldsFrame s.active_mswp) s.active_mswp.free_fp_list
    pub listed : Listed env k s.lru s.mallocs xs
    pub tracked : Tracked s.entries xs
    pub once : Once xs

  -- Only the entries at `moved` have changed, and no byte of another page.
  pub record IsKept (s s' : System) (moved : List ℕ) : Type 0 where
    pub pgd : s'.mm.pgd ≡ s.mm.pgd
    pub others : (q : ℕ) → All (λ z. q ≢ z) moved → s'.entries q ≡ s.entries q
    pub seen : (a : ℕ) → All (λ z. s.mm.pgd + a / 256 ≢ z) moved → view area s' a ≡ view area s a

  -- A byte of a page in another frame than the one that was overwritten.
  place-Copied :
      (v a : ℕ) (src s s' : List ℕ) (b g : ℕ)
      → Copied src s s' b (g * pagesz) pagesz
      → pte_fpn v ≢ g
      → get_elem? s' (place area v a) ≡ get_elem? s (place area v a)
  place-Copied v a src s s' b g copied ne = elim (Bool-cases (area (a / 256) == 0)) [
    | inl e ↦ rw e (Copied-other src s s' b g (pte_fpn v) (a % 256) copied ne (omega arith))
    | inr e ↦ rw e (Copied-other src s s' b g (pte_fpn v) (255 - a % 256) copied ne (omega arith))
  ]

  pub byte_at-Copied :
      (mp : Memphy) (fs : List ℕ) (a : ℕ) (o : Option ℕ) (src s' : List ℕ) (b g : ℕ)
      → Copied src mp.storage s' b (g * pagesz) pagesz
      → ((v : ℕ) → o ≡ some v → page_present v ≡ true → pte_fpn v ≢ g)
      → byte_at area (record mp { free_fp_list = fs; storage = s' }) a o ≡ byte_at area mp a o
  byte_at-Copied mp fs a none src s' b g copied h = refl
  byte_at-Copied mp fs a (some v) src s' b g copied h = elim (Bool-cases (page_present v)) [
    | inl e ↦ rw e (place-Copied v a src mp.storage s' b g copied (h v refl e))
    | inr e ↦ rw e refl
  ]

  module _ (env : Env) (m : IsMalloc env) where
    -- The page joins the list.
    pub IsPaged-insert :
        (k p v pgn : ℕ) (l : Lru) (s : System) (xs : List Entry)
        → IsPaged env (k + 1) s xs
        → s.entries p ≡ some v
        → page_present v ≡ true
        → Listed env k l (s.mallocs + 1) (insert (listed_entry env m s.mallocs p v pgn) xs)
        → IsPaged env k
            (record s { lru = l; mallocs = s.mallocs + 1; vm_lock = false })
            (insert (listed_entry env m s.mallocs p v pgn) xs)
    IsPaged-insert k p v pgn l s xs h e present listed =
        let x : Entry = listed_entry env m s.mallocs p v pgn in
        record {
          memory = record {
            unlocked = refl;
            random = h.memory.random;
            owned = h.memory.owned;
            room = h.memory.room;
            holds = h.memory.holds;
          };
          swap = h.swap;
          swap_size = h.swap_size;
          swap_room = h.swap_room;
          listed = listed;
          tracked =
              All-insert (λ (y : Entry). InFrame s.entries y.pte y.fpn) x xs h.tracked
                (v, e, present, refl);
          once = Once-insert x xs h.once;
        }

  -- The state after a page has come into the frame `g`, and the storage of the RAM.
  abbrev pub fetched : (p w g : ℕ) (gs rt : List ℕ) → System → System
  fetched p w g gs rt s = record s {
    mram = record s.mram { free_fp_list = gs; storage = rt };
    entries = update s.entries p (pte_set_fpn w g);
  }

  module _ (env : Env) where
    pub fetched-IsPaged :
        (k p w g : ℕ) (gs rt : List ℕ) (s : System) (xs : List Entry)
        → IsPaged env k s xs
        → s.entries p ≡ some w
        → page_present w ≡ false
        → s.mram.free_fp_list ≡ g ∷ gs
        → length rt ≡ length s.mram.storage
        → IsPaged env k (fetched p w g gs rt s) xs
          × (page_present (pte_set_fpn w g) ≡ true)
          × (pte_fpn (pte_set_fpn w g) ≡ g)
    fetched-IsPaged k p w g gs rt s xs h e absent free size =
        let owned : IsOwned s.entries (g ∷ gs) = subst (IsOwned s.entries) free h.memory.owned in
        let room : All (λ f. f * pagesz + pagesz ≤ length s.mram.storage) (g ∷ gs) =
          subst (All (λ f. f * pagesz + pagesz ≤ length s.mram.storage)) free h.memory.room in
        let (_, present, _, frame, _) =
          pte_set_fpn_lem w g (h.memory.owned.word p w e) owned.frames.0 in
        (
          record {
            memory = record {
              unlocked = h.memory.unlocked;
              random = record { idle = h.memory.random.idle; random = h.memory.random.random };
              owned = IsOwned-set_fpn s.entries p w g gs e owned;
              room = rw size room.1;
              holds = λ q f a. rw size (elim (InFrame-update s.entries p (pte_set_fpn w g) q f a) [
                | inl (_, _, hit) ↦
                    subst (λ f. f * pagesz + pagesz ≤ length s.mram.storage) (sym frame ∙ hit)
                      room.0
                | inr (_, old) ↦ h.memory.holds q f old
              ]);
            };
            swap = h.swap;
            swap_size = h.swap_size;
            swap_room = h.swap_room;
            listed = h.listed;
            tracked =
                Tracked-other s.entries p (pte_set_fpn w g) xs
                  (Tracked-absent s.entries p w xs e absent h.tracked) h.tracked;
            once = h.once;
          },
          present,
          frame,
        )

    pub fetched-IsKept :
        (k p w g : ℕ) (gs rt src : List ℕ) (b : ℕ) (s : System) (xs : List Entry)
        → IsPaged env k s xs
        → s.mram.free_fp_list ≡ g ∷ gs
        → Copied src s.mram.storage rt b (g * pagesz) pagesz
        → IsKept s (fetched p w g gs rt s) (p ∷ [])
    fetched-IsKept k p w g gs rt src b s xs h free copied = record {
      pgd = refl;
      others = λ q ne. update_ne s.entries p q (pte_set_fpn w g) (λ e. ne.0 (sym e));
      seen = λ a ne.
          let q = s.mm.pgd + a / 256 in
          ap (byte_at area (record s.mram { free_fp_list = gs; storage = rt }) a)
            (update_ne s.entries p q (pte_set_fpn w g) (λ e. ne.0 (sym e)))
          ∙ byte_at-Copied s.mram gs a (s.entries q) src rt b g copied (λ v e present.
            (subst (All (λ f. pte_fpn v ≢ f)) free
              (h.memory.owned.taken q (pte_fpn v) (v, e, present, refl))).0);
    }
