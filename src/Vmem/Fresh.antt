-- ===== src/Vmem/Fresh.antt =====
-- What a process sees of its memory after `__alloc` of src/mm-vm.c has mapped new pages.
use os_sim.Base.{ℕ, ◌+◌, ◌≡◌, List, ◌++◌}
use os_sim.Vmem.{System}
use os_sim.Vmem.Listed.{Listed}
use os_sim.Vmem.Handed.{Handed}

-- The pages of a range that starts at page `first` have their frames now, and the others are as
-- before.
module _ (area : ℕ → ℕ) (s s' : System) (pgn : ℕ) (fs rest : List ℕ) where
  pub record IsHanded : Type 0 where
    pub handed : Handed s.entries s'.entries (λ i. s.mm.pgd + (pgn + i)) fs
    pub before : s.mram.free_fp_list ≡ fs ++ rest
    pub after : s'.mram.free_fp_list ≡ rest
    pub pgd : s'.mm.pgd ≡ s.mm.pgd
    pub storage : s'.mram.storage ≡ s.mram.storage
    pub unlocked : s'.vm_lock ≡ s.vm_lock
    pub idle : s'.mram.locked ≡ s.mram.locked
    pub mode : s'.mram.rdmflg ≡ s.mram.rdmflg
