-- ===== src/Vmem/Take.antt =====
-- `alloc_pages_range` of src/mm.c with any number of free frames.
use os_sim.Base.{
  ℕ, zero, suc, ◌+◌, ◌-◌, ◌<◌, ◌≤◌, ◌≡◌, ◌^◌, refl, sym, ◌∙◌, ap, subst, false, List, [], ◌∷◌, ◌++◌,
  All, map, length, ok, arith, ◌⊎◌, inl, inr,
}
use os_sim.Lru.{Lru}
use os_sim.Lru.Chain.{Entry}
use os_sim.Vmem.{System, Env, ram_get_freefp}
use os_sim.Vmem.Map.{evict, alloc_page, alloc_loop, alloc_pages_range}
use os_sim.Vmem.Swap.{HoldsFrame, swapped_out, get_freefp-cons, get_freefp-nil, evict_lem}
use os_sim.Vmem.Content.{stored, swapped_out-stored}
use os_sim.Vmem.Paged.{IsKept}
use os_sim.Vmem.Pool.{IsPool, IsPool-take, IsPool-evict}
use os_sim.Vmem.Kept.{IsKept-refl, IsKept-trans, swapped_out-IsKept}

List-cases : {A : Type 0} → (xs : List A) → (xs ≡ []) ⊎ ((y : A) × (ys : List A) × (xs ≡ y ∷ ys))
List-cases [] = inl refl
List-cases (y ∷ ys) = inr (y, ys, refl)

module _ (area : ℕ → ℕ) (env : Env) where
  page_free :
      (g : ℕ) (gs : List ℕ) (s : System)
      → s.mram.locked ≡ false
      → s.mram.free_fp_list ≡ g ∷ gs
      → alloc_page env s ≡ ok (g, record s { mram = record s.mram { free_fp_list = gs } })
  unfolding alloc_page ram_get_freefp
  page_free g gs s idle free = rw (get_freefp-cons s.mram env.junk g gs idle free) refl

  page_evicted :
      (f : ℕ) (t s : System)
      → s.mram.locked ≡ false
      → s.mram.free_fp_list ≡ []
      → evict env s ≡ ok (f, t)
      → alloc_page env s ≡ ok (f, t)
  unfolding alloc_page ram_get_freefp
  page_evicted f t s idle free run = rw (get_freefp-nil s.mram env.junk idle free, run) refl

  abbrev ptes : List Entry → List ℕ
  ptes xs = map (λ (x : Entry). x.pte) xs

  -- What `n` more rounds of the loop do.
  record IsTaken (n : ℕ) (taken : List ℕ) (s : System) (xs : List Entry) : Type 0 where
    pub frames : List ℕ
    pub state : System
    pub evicted : List Entry
    pub left : List Entry
    pub run : alloc_loop env n taken s ≡ ok (frames, state)
    pub count : length frames ≡ n + length taken
    pub pool : IsPool frames state left
    pub whole : xs ≡ evicted ++ left
    pub evictions : length evicted ≡ n - length s.mram.free_fp_list
    pub kept : IsKept area s state (ptes evicted)
    pub saved : (a : ℕ) → stored area state a ≡ stored area s a

  loop_step :
      (n f : ℕ) (taken : List ℕ) (s t : System) (r : List ℕ × System)
      → alloc_page env s ≡ ok (f, t)
      → alloc_loop env n (f ∷ taken) t ≡ ok r
      → alloc_loop env (suc n) taken s ≡ ok r
  unfolding alloc_loop
  loop_step n f taken s t r one more = rw (one, more) refl

  IsTaken-free :
      (n : ℕ) (taken : List ℕ) (s : System) (xs : List Entry) (g : ℕ) (gs : List ℕ)
      → IsPool taken s xs
      → s.mram.free_fp_list ≡ g ∷ gs
      → IsTaken n (g ∷ taken) (record s { mram = record s.mram { free_fp_list = gs } }) xs
      → IsTaken (suc n) taken s xs
  IsTaken-free n taken s xs g gs h free r = record {
    frames = r.frames;
    state = r.state;
    evicted = r.evicted;
    left = r.left;
    run =
        loop_step n g taken s (record s { mram = record s.mram { free_fp_list = gs } })
          (r.frames, r.state) (page_free g gs s h.ram.idle free) r.run;
    count = omega (arith, r.count);
    pool = r.pool;
    whole = r.whole;
    evictions = omega (arith, r.evictions, ap length free);
    kept =
        IsKept-trans area s (record s { mram = record s.mram { free_fp_list = gs } }) r.state []
          (ptes r.evicted) (IsKept-refl area s gs) r.kept;
    saved = r.saved;
  }

  IsTaken-evicted :
      (n : ℕ) (taken : List ℕ) (s : System) (x : Entry) (rest : List Entry)
      → (v f : ℕ) (fs st : List ℕ) (l : Lru) → IsPool taken s (x ∷ rest)
      → s.mram.free_fp_list ≡ []
      → evict env s ≡ ok (x.fpn, swapped_out x v f fs st l s)
      → ((a : ℕ) → stored area (swapped_out x v f fs st l s) a ≡ stored area s a)
      → IsTaken n (x.fpn ∷ taken) (swapped_out x v f fs st l s) rest
      → IsTaken (suc n) taken s (x ∷ rest)
  IsTaken-evicted n taken s x rest v f fs st l h free run same r = record {
    frames = r.frames;
    state = r.state;
    evicted = x ∷ r.evicted;
    left = r.left;
    run =
        loop_step n x.fpn taken s (swapped_out x v f fs st l s) (r.frames, r.state)
          (page_evicted x.fpn (swapped_out x v f fs st l s) s h.ram.idle free run) r.run;
    count = omega (arith, r.count);
    pool = r.pool;
    whole = ap (λ t. x ∷ t) r.whole;
    evictions = omega (arith, r.evictions, ap length free);
    kept =
        IsKept-trans area s (swapped_out x v f fs st l s) r.state (x.pte ∷ []) (ptes r.evicted)
          (swapped_out-IsKept area x v f fs st l s) r.kept;
    saved = λ a. r.saved a ∙ same a;
  }

  evict_step :
      (taken : List ℕ) (s : System) (x : Entry) (rest : List Entry) (f : ℕ) (fs : List ℕ)
      → IsPool taken s (x ∷ rest)
      → s.active_mswp.free_fp_list ≡ f ∷ fs
      → (v : ℕ) × (l : Lru) × (st : List ℕ) × (evict env s
          ≡ ok (x.fpn, swapped_out x v f fs st l s))
        × IsPool (x.fpn ∷ taken) (swapped_out x v f fs st l s) rest
        × ((a : ℕ) → stored area (swapped_out x v f fs st l s) a ≡ stored area s a)
  evict_step taken s x rest f fs h free =
      let (v, e, present, frame) = h.tracked.0 in
      let room : All (HoldsFrame s.active_mswp) (f ∷ fs) =
        subst (All (HoldsFrame s.active_mswp)) free h.swap_room in
      let (l, st, run, lru, copied) =
        evict_lem env x rest v f fs s (record { ram = h.ram; swap = h.swap })
          (record {
            lru = h.lru;
            entry = e;
            free = free;
            source = h.holds x.pte x.fpn (v, e, present, frame);
            target = room.0;
          }) in
      (
        v,
        l,
        st,
        run,
        IsPool-evict taken x rest v f fs st l s h e present frame free copied.size lru,
        swapped_out-stored area x v f fs st l s e (h.owned.word x.pte v e)
            (omega (arith, room.0, h.swap_size)) present frame free h.saved copied,
      )

  alloc_loop-IsTaken :
      (n : ℕ) (taken : List ℕ) (s : System) (xs : List Entry)
      → IsPool taken s xs
      → n ≤ length s.mram.free_fp_list + length xs
      → n ≤ length s.mram.free_fp_list + length s.active_mswp.free_fp_list
      → IsTaken n taken s xs
  unfolding alloc_loop
  alloc_loop-IsTaken zero taken s xs h more room = record {
    frames = taken;
    state = s;
    evicted = [];
    left = xs;
    run = refl;
    count = omega arith;
    pool = h;
    whole = refl;
    evictions = omega arith;
    kept = record { pgd = refl; others = λ q h. refl; seen = λ a h. refl };
    saved = λ a. refl;
  }
  alloc_loop-IsTaken (suc n) taken s xs h more room = elim (List-cases s.mram.free_fp_list) [
    | inr (g, gs, free) ↦ IsTaken-free n taken s xs g gs h free (
        alloc_loop-IsTaken n (g ∷ taken) (record s { mram = record s.mram { free_fp_list = gs } })
          xs (IsPool-take taken g gs s xs h free) (omega (arith, more, ap length free))
          (omega (arith, room, ap length free)))
    | inl free ↦ elim (List-cases s.active_mswp.free_fp_list) [
      | inl none_left ↦ absurd (omega (arith, room, ap length free, ap length none_left))
      | inr (f, fs, swap_free) ↦ elim (List-cases xs) [
        | inl nobody ↦ absurd (omega (arith, more, ap length free, ap length nobody))
        | inr (x, rest, some_page) ↦
            let pool = subst (IsPool taken s) some_page h in
            let (v, l, st, run, pool', same) = evict_step taken s x rest f fs pool swap_free in
            subst (IsTaken (suc n) taken s) (sym some_page) (
              IsTaken-evicted n taken s x rest v f fs st l pool free run same (
                alloc_loop-IsTaken n (x.fpn ∷ taken) (swapped_out x v f fs st l s) rest pool'
                  (omega (arith, more, ap length free, ap length some_page))
                  (omega (arith, room, ap length free, ap length swap_free))))
      ]
    ]
  ]

  -- `alloc_pages_range` of `n` frames, below 2^31, when `n` frames of the RAM are free or have a
  -- listed page, and as many frames of the swap device are free as pages have to leave, no frame of
  -- the RAM is shared, those of the pages lie in it, the list of pages is well formed, with each
  -- frame once and each page in the frame the list has for it, both devices are random-access and
  -- idle, the swap device has at most 2^29 bytes, and its free frames lie in it, differ, and are in
  -- the swap field of no page that is swapped out: it returns `n` frames, distinct, that no page has
  -- and that are not free; the least recently used pages have left the RAM, as many as free frames
  -- were missing; the devices, the rest of the list and the frames are again as described; no other
  -- entry has changed, and each byte of each page, in the RAM or in the frame that the swap field of
  -- its entry names, also of the pages that have left, is what it was.
  pub alloc_pages_range-IsPool :
      (n : ℕ) (s : System) (xs : List Entry)
      → n < 2 ^ 31
      → IsPool [] s xs
      → n ≤ length s.mram.free_fp_list + length xs
      → n ≤ length s.mram.free_fp_list + length s.active_mswp.free_fp_list
      → (frames : List ℕ) × (s' : System) × (evicted left : List Entry) × (alloc_pages_range env n s
          ≡ ok (frames, s'))
        × (length frames ≡ n)
        × IsPool frames s' left
        × (xs ≡ evicted ++ left)
        × (length evicted ≡ n - length s.mram.free_fp_list)
        × IsKept area s s' (map (λ (x : Entry). x.pte) evicted)
        × ((a : ℕ) → stored area s' a ≡ stored area s a)
  unfolding alloc_pages_range
  alloc_pages_range-IsPool n s xs small h more room =
      let r = alloc_loop-IsTaken n [] s xs h more room in
      (
        r.frames,
        r.state,
        r.evicted,
        r.left,
        ground (arith, r.run, small),
        omega (arith, r.count),
        r.pool,
        r.whole,
        r.evictions,
        r.kept,
        r.saved,
      )
