-- ===== src/Vmem/Tests/Take.antt =====
-- `alloc_pages_range` with a full RAM at a concrete input.
use os_sim.Base.{ℕ, ◌-◌, ◌≡◌, List, [], ◌∷◌, ◌++◌, map, length, ok, arith}
use os_sim.Lru.Chain.{Entry}
use os_sim.Vmem.{System}
use os_sim.Vmem.Map.{alloc_pages_range}
use os_sim.Vmem.Paged.{IsKept}
use os_sim.Vmem.Content.{stored}
use os_sim.Vmem.Pool.{IsPool}
use os_sim.Vmem.Take.{alloc_pages_range-IsPool}
use os_sim.Vmem.Tests.Replay.{upward, full_space, full_space-IsPaged, full_space-IsSaved}
use os_sim.Vmem.Tests.{page_0, env}

full_space-IsPool : IsPool [] full_space (page_0 ∷ [])
full_space-IsPool =
    let h = full_space-IsPaged in
    record {
      owned = h.memory.owned;
      ram = h.memory.random;
      holds = h.memory.holds;
      swap = h.swap;
      swap_size = h.swap_size;
      swap_room = h.swap_room;
      swap_free = (omega arith, (omega arith, tt), (omega arith, tt, tt));
      saved = full_space-IsSaved;
      lru = h.listed.lru;
      tracked = h.tracked;
      once = h.once;
    }

alloc_pages_range-IsPool_example :
    (frames : List ℕ) × (s' : System) × (evicted left : List Entry) × (alloc_pages_range env 1
        full_space
      ≡ ok (frames, s'))
    × (length frames ≡ 1)
    × IsPool frames s' left
    × (page_0 ∷ [] ≡ evicted ++ left)
    × (length evicted ≡ 1 - 0)
    × IsKept upward full_space s' (map (λ (x : Entry). x.pte) evicted)
    × ((a : ℕ) → stored upward s' a ≡ stored upward full_space a)
alloc_pages_range-IsPool_example =
    alloc_pages_range-IsPool upward env 1 full_space (page_0 ∷ []) (omega arith) full_space-IsPool
      (omega arith) (omega arith)
