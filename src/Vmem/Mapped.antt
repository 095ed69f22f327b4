-- ===== src/Vmem/Mapped.antt =====
-- `alloc_pages_range`, `vmap_page_range` and `vm_map_ram` of src/mm.c, with enough free frames.
use os_sim.Base.{
  ℕ, zero, suc, ◌+◌, ◌-◌, ◌<◌, ◌≡◌, ◌≢◌, ◌^◌, refl, sym, ◌∙◌, subst, true, false, List, [], ◌∷◌,
  ◌++◌, length, get_elem?, Option, some, ok, arith, is_negative, ℕ_discrete, lt-length_of_get_elem?,
}
use os_sim.Pte.{pte_set_fpn}
use os_sim.Lru.{Lru}
use os_sim.Lru.Chain.{Entry}
use os_sim.Lru.Spec.{insert}
use os_sim.Vmem.{System, Env, update, max_pgn, paging_pgn, lock_map, unlock_map}
use os_sim.Vmem.Addr.{pgd_entry_lem}
use os_sim.Vmem.Listed.{IsMalloc, Listed, listed_entry, add_lru_lem}
use os_sim.Vmem.Swap.{set_fpn_lem}
use os_sim.Vmem.Map.{page_index, vmap_loop, vmap_page_range, map_start, vm_map_ram}
use os_sim.Vmem.Frames.{alloc_pages_range_lem}

-- The whole page table is there.
abbrev pub HasTable : (entries : ℕ → Option ℕ) → (pgd : ℕ) → Type 0
HasTable c pgd = (i : ℕ) → i < max_pgn → (v : ℕ) × (c (pgd + i) ≡ some v)

-- The entry of page `i` of the range names the frame at `j`, counted from the other end, and no
-- other entry has changed.
pub record Mapped (c c' : ℕ → Option ℕ) (pgd vmaid pgn n : ℕ) (frames : List ℕ) : Type 0 where
  pub inside :
      (i j v f : ℕ)
      → i + j + 1 ≡ n
      → get_elem? frames j ≡ some f
      → c (pgd + page_index vmaid pgn i) ≡ some v
      → c' (pgd + page_index vmaid pgn i) ≡ some (pte_set_fpn v f)
  pub outside : (q : ℕ) → ((i : ℕ) → i < n → q ≢ pgd + page_index vmaid pgn i) → c' q ≡ c q

HasTable-update : (c : ℕ → Option ℕ) (pgd p w : ℕ) → HasTable c pgd → HasTable (update c p w) pgd
HasTable-update c pgd p w h i lt = elim (ℕ_discrete p (pgd + i)) [
  | yes e ↦ (w, ground (arith, e))
  | no ne ↦ let (v, e) = h i lt in (v, ground (arith, e))
]

page_index_apart :
    (pgd vmaid pgn i n : ℕ)
    → n < 2 ^ 31
    → i < n
    → pgd + page_index vmaid pgn n ≢ pgd + page_index vmaid pgn i
page_index_apart pgd vmaid pgn i n h lt = ground arith

pub update_self : (c : ℕ → Option ℕ) (p v : ℕ) → update c p v p ≡ some v
update_self c p v = ground arith

pub update_ne : (c : ℕ → Option ℕ) (p q v : ℕ) → p ≢ q → update c p v q ≡ c q
update_ne c p q v ne = ground (arith, ne)

Mapped-suc :
    (c c' : ℕ → Option ℕ) (pgd vmaid pgn n v f : ℕ) (frames : List ℕ)
    → n < 2 ^ 31
    → c (pgd + page_index vmaid pgn n) ≡ some v
    → Mapped (update c (pgd + page_index vmaid pgn n) (pte_set_fpn v f)) c' pgd vmaid pgn n frames
    → Mapped c c' pgd vmaid pgn (suc n) (f ∷ frames)
Mapped-suc c c' pgd vmaid pgn n v f frames small e m = record {
  inside = inside;
  outside = λ q apart.
      m.outside q (λ i lt. apart i (omega arith))
      ∙ update_ne c (pgd + page_index vmaid pgn n) q (pte_set_fpn v f)
          (λ eq. apart n (omega arith) (sym eq));
}
  where
    inside :
        (i j w g : ℕ)
        → i + j + 1 ≡ suc n
        → get_elem? (f ∷ frames) j ≡ some g
        → c (pgd + page_index vmaid pgn i) ≡ some w
        → c' (pgd + page_index vmaid pgn i) ≡ some (pte_set_fpn w g)
    inside i zero w g len here old =
        let at_n : (c' (pgd + page_index vmaid pgn n) ≡ some (pte_set_fpn v f)) =
          m.outside (pgd + page_index vmaid pgn n)
            (λ k lt. page_index_apart pgd vmaid pgn k n small lt)
          ∙ update_self c (pgd + page_index vmaid pgn n) (pte_set_fpn v f) in
        let frame : f ≡ g = ground (arith, here) in
        let same : n ≡ i = omega (arith, len) in
        subst
          (λ k.
            c (pgd + page_index vmaid pgn k) ≡ some w
            → c' (pgd + page_index vmaid pgn k) ≡ some (pte_set_fpn w g))
          same (λ old'. let value : v ≡ w = ground (arith, e, old') in rw (← frame, ← value) at_n)
          old
    inside i (suc j) w g len there old = m.inside i j w g (omega (arith, len)) there (
        update_ne c (pgd + page_index vmaid pgn n) (pgd + page_index vmaid pgn i) (pte_set_fpn v f)
          (page_index_apart pgd vmaid pgn i n small (omega (arith, len)))
        ∙ old)

counted : (n : ℕ) → n < 2 ^ 31 → is_negative n ≡ false
counted n h = ground arith

lock_map_lem :
    (s : System) → s.map_lock ≡ false → lock_map s ≡ ok (tt, record s { map_lock = true })
unfolding lock_map
lock_map_lem s e = ground arith

Mapped-zero :
    (c : ℕ → Option ℕ) (pgd vmaid pgn : ℕ) (frames : List ℕ) → Mapped c c pgd vmaid pgn 0 frames
Mapped-zero c pgd vmaid pgn frames = record {
  inside = λ i j v f e. absurd (omega (arith, e));
  outside = λ q apart. refl;
}

module _ (env : Env) (m : IsMalloc env) where
  vmap_loop_lem :
      (k vmaid pgn n total : ℕ) (frames : List ℕ) (s : System) (xs : List Entry)
      → s.mallocs + n ≡ total
      → length frames ≡ n
      → n < 2 ^ 31
      → ((i : ℕ) → i < n → page_index vmaid pgn i < max_pgn)
      → HasTable s.entries s.mm.pgd
      → Listed env (k + n) s.lru s.mallocs xs
      → (l : Lru) × (c : ℕ → Option ℕ) × (ys : List Entry) × (vmap_loop env vmaid pgn n frames s
          ≡ ok (0, record s { lru = l; mallocs = total; entries = c }))
        × Listed env k l total ys
        × Mapped s.entries c s.mm.pgd vmaid pgn n frames
  unfolding vmap_loop
  vmap_loop_lem k vmaid pgn zero total frames s xs sum len small room table h =
      let same : s.mallocs ≡ total = omega (arith, sum) in
      (
        s.lru,
        s.entries,
        xs,
        rw (← same) refl,
        record {
          lru = h.lru;
          fuel = omega (arith, h.fuel);
          unused = λ a le. h.unused a (omega (arith, sum));
        },
        Mapped-zero s.entries s.mm.pgd vmaid pgn frames,
      )
  vmap_loop_lem k vmaid pgn (suc n) total [] s xs sum len small room table h =
      absurd (omega (arith, len))
  vmap_loop_lem k vmaid pgn (suc n) total (f ∷ fs) s xs sum len small room table h =
      let p = s.mm.pgd + page_index vmaid pgn n in
      let (v, e) = table (page_index vmaid pgn n) (room n (omega arith)) in
      let s1 : System = record s { entries = update s.entries p (pte_set_fpn v f) } in
      let x : Entry = listed_entry env m s.mallocs p (pte_set_fpn v f) (page_index vmaid pgn n) in
      let (l, run, listed) =
        add_lru_lem env m (k + n) p (pte_set_fpn v f) (page_index vmaid pgn n) s1 xs
          (record { lru = h.lru; fuel = omega (arith, h.fuel); unused = h.unused })
          (update_self s.entries p (pte_set_fpn v f)) in
      let s2 : System = record s1 { lru = l; mallocs = s.mallocs + 1 } in
      let (l', c, ys, rest, listed', mapped) =
        vmap_loop_lem k vmaid pgn n total fs s2 (insert x xs) (omega (arith, sum))
          (omega (arith, len)) (omega arith) (λ i lt. room i (omega arith))
          (HasTable-update s.entries s.mm.pgd p (pte_set_fpn v f) table) listed in
      (
        l',
        c,
        ys,
        rw
            (
              pgd_entry_lem (page_index vmaid pgn n) s (room n (omega arith)),
              set_fpn_lem p f v s e,
              run,
            )
            rest,
        listed',
        Mapped-suc s.entries c s.mm.pgd vmaid pgn n v f fs (omega arith) e mapped,
      )

module _ (env : Env) (m : IsMalloc env) where
  pub vm_map_ram_lem :
      (k vmaid mapstart : ℕ) (fs rest : List ℕ) (s : System) (xs : List Entry)
      → s.map_lock ≡ false
      → s.mram.locked ≡ false
      → s.mram.free_fp_list ≡ fs ++ rest
      → length fs < 2 ^ 31
      → ((i : ℕ)
          → i < length fs
          → page_index vmaid (paging_pgn (map_start vmaid mapstart s.vmemsz)) i < max_pgn)
      → HasTable s.entries s.mm.pgd
      → Listed env (k + length fs) s.lru s.mallocs xs
      → let pgn = paging_pgn (map_start vmaid mapstart s.vmemsz) in
        (l : Lru) × (c : ℕ → Option ℕ) × (ys : List Entry) × (vm_map_ram env mapstart
            (length fs)
            vmaid
            s
          ≡ ok (
            0,
            record s {
              lru = l;
              mallocs = s.mallocs + length fs;
              entries = c;
              map_lock = false;
              mram = record s.mram { free_fp_list = rest };
            },
          ))
        × Listed env k l (s.mallocs + length fs) ys
        × ((i v f : ℕ)
            → get_elem? fs i ≡ some f
            → s.entries (s.mm.pgd + page_index vmaid pgn i) ≡ some v
            → c (s.mm.pgd + page_index vmaid pgn i) ≡ some (pte_set_fpn v f))
        × ((q : ℕ)
            → ((i : ℕ) → i < length fs → q ≢ s.mm.pgd + page_index vmaid pgn i)
            → c q ≡ s.entries q)
  unfolding vm_map_ram unlock_map vmap_page_range
  vm_map_ram_lem k vmaid mapstart fs rest s xs unlocked idle free small room table h =
      let pgn = paging_pgn (map_start vmaid mapstart s.vmemsz) in
      let s1 : System = record s { map_lock = true } in
      let (frames, taken, len, order) = alloc_pages_range_lem env fs rest s1 idle free small in
      let s2 : System = record s1 { mram = record s1.mram { free_fp_list = rest } } in
      let (l, c, ys, run, listed, mapped) =
        vmap_loop_lem env m k vmaid pgn (length fs) (s.mallocs + length fs) frames s2 xs refl len
          small room table h in
      (
        l,
        c,
        ys,
        rw (lock_map_lem s unlocked, taken, counted (length fs) small, run) refl,
        listed,
        λ i v f here old.
            let within = lt-length_of_get_elem? fs i here in
            let sum : i + (length fs - 1 - i) + 1 ≡ length fs = omega arith in
            mapped.inside i (length fs - 1 - i) v f sum (order i (length fs - 1 - i) sum ∙ here)
              old,
        mapped.outside,
      )
