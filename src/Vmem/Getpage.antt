-- ===== src/Vmem/Getpage.antt =====
-- `pg_getpage` of src/mm-vm.c on every branch.
use os_sim.Base.{
  ℕ, ◌+◌, ◌<◌, ◌≡◌, ◌≢◌, refl, true, false, List, [], ◌∷◌, All, some, ok, arith, if◌then◌else◌,
  Bool, minus_one,
}
use os_sim.Pte.{pte_fpn, page_present}
use os_sim.Lru.{Lru}
use os_sim.Lru.Chain.{Entry}
use os_sim.Lru.Move.{IsLru}
use os_sim.Lru.Spec.{insert}
use os_sim.Vmem.{System, Env, max_pgn, pure, unlock_vm, ram_get_freefp, swap_get_freefp}
use os_sim.Vmem.Addr.{pgd_entry_lem, load_entry_lem, lock_vm_lem}
use os_sim.Vmem.Listed.{IsMalloc, Listed, listed_entry, add_lru_lem}
use os_sim.Vmem.Owned.{InFrame}
use os_sim.Vmem.Page.{pg_getpage, fetch_page, replace_page, out_of_swap}
use os_sim.Vmem.Swap.{HoldsFrame, get_freefp-nil, find_victim_lem}
use os_sim.Vmem.Paged.{IsPaged, IsKept, IsPaged-insert}
use os_sim.Vmem.Content.{stored}
use os_sim.Vmem.Loaded.{IsLoaded}

-- Which entries change: none for a page in RAM, that of the page when a frame is free, and that of
-- the least recently used page too when the page takes its frame.
pub moved : (w p victim : ℕ) → (free : List ℕ) → List ℕ
moved w p victim free =
    if page_present w then [] else elim free [ [] ↦ p ∷ victim ∷ [] | _ ∷ _ ↦ p ∷ [] ]

pub moved_present :
    (w p victim : ℕ) (free : List ℕ) → page_present w ≡ true → moved w p victim free ≡ []
unfolding moved
moved_present w p victim free e = rw e refl

pub moved_free :
    (w p victim g : ℕ) (gs free : List ℕ)
    → page_present w ≡ false
    → free ≡ g ∷ gs
    → moved w p victim free ≡ p ∷ []
unfolding moved
moved_free w p victim g gs free e f = rw (e, f) refl

pub moved_full :
    (w p victim : ℕ) (free : List ℕ)
    → page_present w ≡ false
    → free ≡ []
    → moved w p victim free ≡ p ∷ victim ∷ []
unfolding moved
moved_full w p victim free e f = rw (e, f) refl

module _ (area : ℕ → ℕ) (env : Env) (m : IsMalloc env) (pgn fpn w : ℕ) (s : System) where
  -- The page has the entry `w`. If that is not present, what `pg_getpage` takes for its swap frame
  -- lies in the swap device and is not free.
  pub record IsKnown : Type 0 where
    pub room : pgn < max_pgn
    pub entry : s.entries (s.mm.pgd + pgn) ≡ some w
    pub source : page_present w ≡ false → HoldsFrame s.active_mswp (pte_fpn w)
    pub used : page_present w ≡ false → All (λ f. pte_fpn w ≢ f) s.active_mswp.free_fp_list

  locked : System
  locked = record s { vm_lock = true }

  -- From the test of the entry on, when the page is in RAM in the end.
  pub got_calls :
      (k v f : ℕ) (t : System) (ys : List Entry)
      → IsKnown
      → s.vm_lock ≡ false
      → (if page_present w then pure true else fetch_page env (s.mm.pgd + pgn) w)
          (record s { vm_lock = true })
        ≡ ok (true, record t { vm_lock = true })
      → IsPaged area env (k + 1) t ys
      → t.entries (s.mm.pgd + pgn) ≡ some v
      → page_present v ≡ true
      → pte_fpn v ≡ f
      → (s' : System) × (zs : List Entry) × (pg_getpage env pgn fpn s ≡ ok ((0, f), s'))
        × IsPaged area env k s' zs
        × InFrame s'.entries (s.mm.pgd + pgn) f
        × ((moved : List ℕ) → IsKept area s t moved → IsKept area s s' moved)
        × (IsLoaded area pgn w f s t → IsLoaded area pgn w f s s')
  unfolding pg_getpage unlock_vm
  got_calls k v f t ys h unlocked online paged e present frame =
      let p = s.mm.pgd + pgn in
      let (l, run, listed) =
        add_lru_lem env m k p v pgn (record t { vm_lock = true }) ys paged.listed e in
      let s' : System = record t { lru = l; mallocs = t.mallocs + 1; vm_lock = false } in
      (
        s',
        insert (listed_entry env m t.mallocs p v pgn) ys,
        rw
            (
              lock_vm_lem s unlocked,
              pgd_entry_lem pgn (record s { vm_lock = true }) h.room,
              load_entry_lem p w (record s { vm_lock = true }) h.entry,
              online,
              run,
              load_entry_lem p v (record s' { vm_lock = true }) e,
              frame,
            )
            refl,
        IsPaged-insert area env m k p v pgn l t ys paged e present listed,
        (v, e, present, frame),
        λ zs kept. record { pgd = kept.pgd; others = kept.others; seen = kept.seen },
        λ held. record {
          intact = held.intact;
          own = held.own;
          loaded = held.loaded;
          swap_count = held.swap_count;
        },
      )

  -- A page that is not in RAM, while no frame of the RAM is free.
  pub fetch_full :
      (b : Bool) (t : System)
      → s.mram.locked ≡ false
      → s.mram.free_fp_list ≡ []
      → replace_page env (s.mm.pgd + pgn) w (record s { vm_lock = true }) ≡ ok (b, t)
      → fetch_page env (s.mm.pgd + pgn) w (record s { vm_lock = true }) ≡ ok (b, t)
  unfolding fetch_page ram_get_freefp
  fetch_full b t idle free run = rw (get_freefp-nil s.mram minus_one idle free, run) refl

  replace_full :
      (k : ℕ) (x : Entry) (rest : List Entry)
      → IsPaged area env k s (x ∷ rest)
      → s.active_mswp.free_fp_list ≡ []
      → (l : Lru) × (replace_page env (s.mm.pgd + pgn) w (record s { vm_lock = true })
          ≡ ok (false, record s { vm_lock = true; lru = l }))
        × IsLru l rest
  unfolding replace_page swap_get_freefp
  replace_full k x rest h free =
      let (l, found, lru) = find_victim_lem env x rest (record s { vm_lock = true }) h.listed.lru in
      (l, rw (found, get_freefp-nil s.active_mswp env.junk h.swap.idle free) refl, lru)

  pub Listed-rest :
      (k : ℕ) (l : Lru) (x : Entry) (rest : List Entry)
      → Listed env k s.lru s.mallocs (x ∷ rest)
      → IsLru l rest
      → Listed env k l s.mallocs rest
  Listed-rest k l x rest h lru = record {
    lru = lru;
    fuel = omega (arith, h.fuel);
    unused = λ n le. (h.unused n le).1;
  }

  -- Neither the RAM nor the swap device has a free frame.
  pub refused :
      (k : ℕ) (x : Entry) (rest : List Entry)
      → IsPaged area env (k + 1) s (x ∷ rest)
      → IsKnown
      → page_present w ≡ false
      → s.mram.free_fp_list ≡ []
      → s.active_mswp.free_fp_list ≡ []
      → (s' : System) × (pg_getpage env pgn fpn s ≡ ok ((out_of_swap, fpn), s'))
        × IsPaged area env k s' rest
        × IsKept area s s' []
        × ((a : ℕ) → stored area s' a ≡ stored area s a)
  unfolding pg_getpage unlock_vm
  refused k x rest h known absent ram_free swap_free =
      let p = s.mm.pgd + pgn in
      let (l, replaced, lru) = replace_full (k + 1) x rest h swap_free in
      let run =
        fetch_full false (record s { vm_lock = true; lru = l }) h.memory.random.idle ram_free
          replaced in
      let listed = Listed-rest (k + 1) l x rest h.listed lru in
      (
        record s { lru = l; vm_lock = false },
        rw
            (
              lock_vm_lem s h.memory.unlocked,
              pgd_entry_lem pgn (record s { vm_lock = true }) known.room,
              load_entry_lem p w (record s { vm_lock = true }) known.entry,
              absent,
              run,
            )
            refl,
        record {
          memory = record {
            unlocked = refl;
            random = h.memory.random;
            owned = h.memory.owned;
            room = h.memory.room;
            holds = h.memory.holds;
          };
          swap = h.swap;
          swap_size = h.swap_size;
          swap_room = h.swap_room;
          listed = record { lru = lru; fuel = omega (arith, listed.fuel); unused = listed.unused };
          tracked = h.tracked.1;
          once = h.once.1;
        },
        record { pgd = refl; others = λ q ne. refl; seen = λ a ne. refl },
        λ a. refl,
      )
