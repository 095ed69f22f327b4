-- ===== src/Vmem/Pool.antt =====
-- Frames that `alloc_pages_range` of src/mm.c has taken and no page has yet.
use os_sim.Base.{
  ℕ, ◌<◌, ◌≤◌, ◌≡◌, ◌≢◌, ◌^◌, sym, inl, inr, subst, true, List, [], ◌∷◌, ◌++◌, All, length, Option,
  some, arith,
}
use os_sim.Memphy.Access.{IsRandom}
use os_sim.Memphy.Frames.{FramesBelow}
use os_sim.Pte.{pte_fpn, page_present, pte_set_swap}
use os_sim.Pte.Laws.{pte_set_swap_lem}
use os_sim.Lru.{Lru}
use os_sim.Lru.Chain.{Entry}
use os_sim.Lru.Move.{IsLru}
use os_sim.Vmem.{System}
use os_sim.Vmem.Owned.{InFrame, InFrame-update, IsOwned, IsOwned-set_swap}
use os_sim.Vmem.Content.{IsSaved, IsSaved-set_swap}
use os_sim.Vmem.Swap.{HoldsFrame, swapped_out}
use os_sim.Vmem.Tracked.{Once, Tracked, Tracked-other, Tracked-Missing}
use os_sim.Vmem.Exchanged.{All-HoldsFrame}

-- The frames `taken` and those on the free list are not shared, and no page has one of them; each
-- listed page is in the frame the list has for it, no frame is listed twice, and the free swap
-- frames lie in the swap device, differ, and hold no page.
pub record IsPool (taken : List ℕ) (s : System) (xs : List Entry) : Type 0 where
  pub owned : IsOwned s.entries (taken ++ s.mram.free_fp_list)
  pub ram : IsRandom s.mram
  pub holds : (p f : ℕ) → InFrame s.entries p f → HoldsFrame s.mram f
  pub swap : IsRandom s.active_mswp
  pub swap_size : length s.active_mswp.storage ≤ 2 ^ 29
  pub swap_room : All (HoldsFrame s.active_mswp) s.active_mswp.free_fp_list
  pub swap_free : FramesBelow (2 ^ 21) s.active_mswp.free_fp_list
  pub saved : IsSaved s.entries s.active_mswp.free_fp_list
  pub lru : IsLru s.lru xs
  pub tracked : Tracked s.entries xs
  pub once : Once xs

All-move :
    (f g : ℕ) (taken rest : List ℕ)
    → All (λ k. f ≢ k) (taken ++ (g ∷ rest))
    → (f ≢ g) × All (λ k. f ≢ k) (taken ++ rest)
All-move f g [] rest h = h
All-move f g (k ∷ taken) rest h =
    let (ne, others) = All-move f g taken rest h.1 in (ne, (h.0, others))

FramesBelow-move :
    (n g : ℕ) (taken rest : List ℕ)
    → FramesBelow n (taken ++ (g ∷ rest))
    → FramesBelow n (g ∷ (taken ++ rest))
FramesBelow-move n g [] rest h = h
FramesBelow-move n g (k ∷ taken) rest (small, apart, below) =
    let (less, free, others) = FramesBelow-move n g taken rest below in
    let (ne, far) = All-move k g taken rest apart in
    (less, ((λ e. ne (sym e)), free), (small, far, others))

IsOwned-move :
    (c : ℕ → Option ℕ) (g : ℕ) (taken rest : List ℕ)
    → IsOwned c (taken ++ (g ∷ rest))
    → IsOwned c ((g ∷ taken) ++ rest)
IsOwned-move c g taken rest o = record {
  word = o.word;
  alone = o.alone;
  taken = λ p f h. All-move f g taken rest (o.taken p f h);
  frames = FramesBelow-move (2 ^ 13) g taken rest o.frames;
}

-- A free frame is taken.
pub IsPool-take :
    (taken : List ℕ) (g : ℕ) (gs : List ℕ) (s : System) (xs : List Entry)
    → IsPool taken s xs
    → s.mram.free_fp_list ≡ g ∷ gs
    → IsPool (g ∷ taken) (record s { mram = record s.mram { free_fp_list = gs } }) xs
IsPool-take taken g gs s xs h free = record {
  owned =
      IsOwned-move s.entries g taken gs (subst (λ l. IsOwned s.entries (taken ++ l)) free h.owned);
  ram = record { idle = h.ram.idle; random = h.ram.random };
  holds = h.holds;
  swap = h.swap;
  swap_size = h.swap_size;
  swap_room = h.swap_room;
  swap_free = h.swap_free;
  saved = h.saved;
  lru = h.lru;
  tracked = h.tracked;
  once = h.once;
}

-- The least recently used page leaves its frame, which is taken.
pub IsPool-evict :
    (taken : List ℕ) (x : Entry) (rest : List Entry) (v f : ℕ) (fs st : List ℕ) (l : Lru)
    (s : System)
    → IsPool taken s (x ∷ rest)
    → s.entries x.pte ≡ some v
    → page_present v ≡ true
    → pte_fpn v ≡ x.fpn
    → s.active_mswp.free_fp_list ≡ f ∷ fs
    → length st ≡ length s.active_mswp.storage
    → IsLru l rest
    → IsPool (x.fpn ∷ taken) (swapped_out x v f fs st l s) rest
IsPool-evict taken x rest v f fs st l s h e present frame free same lru =
    let room : All (HoldsFrame s.active_mswp) (f ∷ fs) =
      subst (All (HoldsFrame s.active_mswp)) free h.swap_room in
    let apart : FramesBelow (2 ^ 21) (f ∷ fs) = subst (FramesBelow (2 ^ 21)) free h.swap_free in
    let small : f < 2 ^ 21 = omega (arith, room.0, h.swap_size) in
    let (_, absent, _, _, _, _) =
      pte_set_swap_lem v 0 f (h.owned.word x.pte v e) (omega arith) small in
    record {
      owned =
          IsOwned-set_swap s.entries x.pte v x.fpn f (taken ++ s.mram.free_fp_list) e present frame
            small h.owned;
      ram = h.ram;
      holds = λ p g a. elim (InFrame-update s.entries x.pte (pte_set_swap v 0 f) p g a) [
        | inl (_, here, _) ↦ absurd (ground (arith, here, absent))
        | inr (_, old) ↦ h.holds p g old
      ];
      swap = record { idle = h.swap.idle; random = h.swap.random };
      swap_size = rw same h.swap_size;
      swap_room = All-HoldsFrame (length s.active_mswp.storage) (length st) fs same room.1;
      swap_free = apart.2;
      saved =
          IsSaved-set_swap s.entries x.pte v f fs (h.owned.word x.pte v e) small apart.1
            (subst (IsSaved s.entries) free h.saved);
      lru = lru;
      tracked =
          Tracked-other s.entries x.pte (pte_set_swap v 0 f) rest
            (Tracked-Missing s.entries x.pte x.fpn rest h.tracked.0 h.once.0 h.tracked.1)
            h.tracked.1;
      once = h.once.1;
    }
