-- ===== src/Vmem/Tests/Swap.antt =====
-- Swapping at concrete inputs.
use os_sim.Lru.{Lru}
use os_sim.Vmem.{System, update}
use os_sim.Vmem.Tests.{space}

-- The page at 101 is not in RAM, and the frame field of its entry is 1.
abbrev away : System
away = record space { entries = update space.entries 101 1 }
