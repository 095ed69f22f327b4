-- ===== src/Vmem/Got.antt =====
-- `pg_getpage` of src/mm-vm.c on each branch that brings the page into RAM.
use os_sim.Base.{ℕ, ◌+◌, ◌*◌, ◌≡◌, ◌≢◌, refl, subst, true, false, List, [], ◌∷◌, All, ok, arith}
use os_sim.Pte.{pte_fpn, page_present, pte_set_fpn, pte_set_swap}
use os_sim.Lru.Chain.{Entry}
use os_sim.Vmem.{System, Env, update}
use os_sim.Vmem.Listed.{IsMalloc}
use os_sim.Vmem.Mapped.{update_self}
use os_sim.Vmem.Owned.{InFrame}
use os_sim.Vmem.Page.{pg_getpage}
use os_sim.Vmem.Swap.{HoldsFrame, fetch_page_lem}
use os_sim.Vmem.Replace.{replace_page_lem}
use os_sim.Vmem.Content.{IsSaved}
use os_sim.Vmem.Loaded.{IsLoaded, fetched-IsLoaded, exchanged-IsLoaded}
use os_sim.Vmem.Paged.{IsPaged, IsKept, fetched, fetched-IsPaged, fetched-IsKept}
use os_sim.Vmem.Exchanged.{
  IsFault, exchanged, apart, new_frame, exchanged-IsPaged, exchanged-IsKept,
}
use os_sim.Vmem.Getpage.{IsKnown, got_calls, fetch_full, Listed-rest}

module _ (area : ℕ → ℕ) (env : Env) (m : IsMalloc env) (k pgn fpn w : ℕ) (s : System) where
  -- The page is in the frame `f` in the end, and only the entries at `ps` have changed.
  abbrev pub Got : (ps : List ℕ) → Type 0
  Got ps =
      (f : ℕ) × (s' : System) × (zs : List Entry) × (pg_getpage env pgn fpn s ≡ ok ((0, f), s'))
      × IsPaged area env k s' zs
      × InFrame s'.entries (s.mm.pgd + pgn) f
      × IsKept area s s' ps
      × IsLoaded area pgn w f s s'

  pub Got-present :
      (xs : List Entry)
      → IsPaged area env (k + 1) s xs
      → IsKnown area env m pgn fpn w s
      → page_present w ≡ true
      → Got []
  Got-present xs h known present =
      let (s', zs, run, paged, here, kept, held) =
        got_calls area env m pgn fpn w s k w (pte_fpn w) s xs known h.memory.unlocked
          (rw present refl) h known.entry present refl in
      (
        pte_fpn w,
        s',
        zs,
        run,
        paged,
        here,
        kept [] (record { pgd = refl; others = λ q ne. refl; seen = λ a ne. refl }),
        held (record {
          intact = λ a ne. refl;
          own = λ e a. refl;
          loaded = λ absent. absurd (ground (arith, present, absent));
          swap_count = refl;
        }),
      )

  pub Got-fetched :
      (g : ℕ) (gs : List ℕ) (xs : List Entry)
      → IsPaged area env (k + 1) s xs
      → IsKnown area env m pgn fpn w s
      → page_present w ≡ false
      → s.mram.free_fp_list ≡ g ∷ gs
      → Got ((s.mm.pgd + pgn) ∷ [])
  Got-fetched g gs xs h known absent free =
      let p = s.mm.pgd + pgn in
      let room : All (HoldsFrame s.mram) (g ∷ gs) =
        subst (All (HoldsFrame s.mram)) free h.memory.room in
      let (rt, run, copied) =
        fetch_page_lem env p w g gs (record s { vm_lock = true })
          (record { ram = h.memory.random; swap = h.swap }) known.entry free (known.source absent)
          room.0 in
      let (paged, present, frame) =
        fetched-IsPaged area env (k + 1) p w g gs rt s xs h known.entry absent free copied.size in
      let (s', zs, done, paged', here, kept, held) =
        got_calls area env m pgn fpn w s k (pte_set_fpn w g) g (fetched area p w g gs rt s) xs known
          h.memory.unlocked (rw absent run) paged (update_self s.entries p (pte_set_fpn w g))
          present frame in
      (
        g,
        s',
        zs,
        done,
        paged',
        here,
        kept (p ∷ []) (
            fetched-IsKept area env (k + 1) p w g gs rt s.active_mswp.storage (pte_fpn w * 256) s xs
              h free copied),
        held (fetched-IsLoaded area env (k + 1) pgn w s g gs rt xs h absent free copied),
      )

  pub Got-exchanged :
      (f : ℕ) (fs : List ℕ) (x : Entry) (rest : List Entry)
      → IsPaged area env (k + 1) s (x ∷ rest)
      → IsKnown area env m pgn fpn w s
      → page_present w ≡ false
      → s.mram.free_fp_list ≡ []
      → s.active_mswp.free_fp_list ≡ f ∷ fs
      → IsSaved s.entries s.active_mswp.free_fp_list
      → Got ((s.mm.pgd + pgn) ∷ x.pte ∷ [])
  Got-exchanged f fs x rest h known absent ram_free swap_free unused =
      let p = s.mm.pgd + pgn in
      let (v, victim, present, frame) = h.tracked.0 in
      let fault : IsFault area env (k + 1) p v w f fs x rest s = record {
        paged = h;
        entry = known.entry;
        absent = absent;
        source = known.source absent;
        free = swap_free;
        victim = victim;
        present = present;
        frame = frame;
      } in
      let room : All (HoldsFrame s.active_mswp) (f ∷ fs) =
        subst (All (HoldsFrame s.active_mswp)) swap_free h.swap_room in
      let used : All (λ g. pte_fpn w ≢ g) (f ∷ fs) =
        subst (All (λ g. pte_fpn w ≢ g)) swap_free (known.used absent) in
      let (l, st, rt, run, lru, saved, copied) =
        replace_page_lem env x rest p v w f fs (record s { vm_lock = true })
          (record { ram = h.memory.random; swap = h.swap })
          (record {
            lru = h.listed.lru;
            entry = victim;
            free = swap_free;
            source = h.memory.holds x.pte x.fpn (v, victim, present, frame);
            target = room.0;
          })
          known.entry (apart area env (k + 1) p v w f fs x rest s fault) used.0
          (known.source absent) in
      let (now, named) = new_frame area env (k + 1) p v w f fs x rest s fault in
      let t : System = exchanged x p v w f fs st rt l s in
      let (s', zs, done, paged, here, kept, held) =
        got_calls area env m pgn fpn w s k (pte_set_fpn w x.fpn) x.fpn t rest known
          h.memory.unlocked
          (rw absent (
            fetch_full area env m pgn fpn w s true (record t { vm_lock = true })
              h.memory.random.idle ram_free run))
          (exchanged-IsPaged area env (k + 1) p v w f fs x rest s st rt l fault saved.size
            copied.size (Listed-rest area env m pgn fpn w s (k + 1) l x rest h.listed lru))
          (update_self (update s.entries x.pte (pte_set_swap v 0 f)) p (pte_set_fpn w x.fpn)) now
          named in
      (
        x.fpn,
        s',
        zs,
        done,
        paged,
        here,
        kept (p ∷ x.pte ∷ []) (
            exchanged-IsKept area env (k + 1) p v w f fs x rest s st rt l s.active_mswp.storage
              (pte_fpn w * 256) fault copied),
        held (
            exchanged-IsLoaded area env (k + 1) pgn w s v f fs x rest st rt l fault unused saved
              copied),
      )
