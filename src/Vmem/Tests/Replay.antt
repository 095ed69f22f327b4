-- ===== src/Vmem/Tests/Replay.antt =====
-- Runs of accesses, and `pg_getpage`, at concrete inputs.
use os_sim.Base.{
  ℕ, ◌+◌, ◌≡◌, ◌≢◌, ◌^◌, refl, sym, ◌∙◌, ap, false, List, [], ◌∷◌, All, map, some, ok, arith,
  ℕ_discrete,
}
use os_sim.Memphy.Frames.{FramesBelow}
use os_sim.Pte.{page_present, page_swapped, pte_fpn}
use os_sim.Vmem.Content.{IsSaved}
use os_sim.Region.{get_vma_by_num, get_symrg_byid}
use os_sim.Vmem.{System}
use os_sim.Vmem.Access.{rg_addr, out_of_range, region_at, check_access}
use os_sim.Vmem.Owned.{InFrame, IsOwned}
use os_sim.Vmem.View.{view, IsMemory}
use os_sim.Vmem.Replay.{Op, perform, replay, IsResident, perform_refines}
use os_sim.Vmem.Replay.Op.{read, write}
use os_sim.Vmem.Paged.{IsPaged}
use os_sim.Vmem.Tests.{
  low_region, two_areas, page_0, device, space, env, env-IsMalloc, space-Listed, device-IsRandom,
  in_ram, frame_0,
}

abbrev pub upward : ℕ → ℕ
upward page = 0

absent_0 : page_present 0 ≡ false
unfolding page_present
absent_0 = refl

only_page : (p f : ℕ) → InFrame space.entries p f → (p ≡ 100) × (f ≡ 0)
only_page p f (v, e, present, frame) = elim (ℕ_discrete 100 p) [
  | yes same ↦
      let value : 2 ^ 31 ≡ v = ground (arith, e, same) in
      (sym same, sym frame ∙ ap pte_fpn (sym value) ∙ frame_0)
  | no ne ↦
      let value : 0 ≡ v = ground (arith, e, ne) in
      absurd (ground (arith, sym present ∙ ap page_present (sym value) ∙ absent_0))
]

space-IsOwned :
    (free : List ℕ) → FramesBelow (2 ^ 13) free → All (λ g. 0 ≢ g) free → IsOwned space.entries free
space-IsOwned free below above = record {
  word = λ p v e. elim (ℕ_discrete 100 p) [
    | yes same ↦ ground (arith, e, same)
    | no ne ↦ ground (arith, e, ne)
  ];
  alone = λ p q f ne a b. ne ((only_page p f a).0 ∙ sym (only_page q f b).0);
  taken = λ p f a. rw (only_page p f a).1 above;
  frames = below;
}

pub space-IsMemory : IsMemory upward space
space-IsMemory = record {
  unlocked = refl;
  random = device-IsRandom;
  owned =
      space-IsOwned (2 ∷ 3 ∷ []) (omega arith, (omega arith, tt), (omega arith, tt, tt))
        (omega arith, (omega arith, tt));
  room = (omega arith, (omega arith, tt));
  holds = λ p f a. omega (arith, (only_page p f a).1);
}

-- One byte is written, and that and another are read.
abbrev three_ops : List Op
three_ops = write 0 200 65 ∷ read 0 200 ∷ read 0 10 ∷ []

pub IsResident-write : IsResident upward two_areas space.entries (write 0 200 65)
unfolding region_at check_access out_of_range rg_addr get_vma_by_num get_symrg_byid page_present
IsResident-write = record {
  r = low_region;
  v = 2 ^ 31;
  region = refl;
  valid = refl;
  small = omega arith;
  kind = refl;
  entry = refl;
  present = refl;
}

pub IsResident-read : IsResident upward two_areas space.entries (read 0 200)
unfolding region_at check_access out_of_range rg_addr get_vma_by_num get_symrg_byid page_present
IsResident-read = record {
  r = low_region;
  v = 2 ^ 31;
  region = refl;
  valid = refl;
  small = omega arith;
  kind = refl;
  entry = refl;
  present = refl;
}

pub IsResident-other : IsResident upward two_areas space.entries (read 0 10)
unfolding region_at check_access out_of_range rg_addr get_vma_by_num get_symrg_byid page_present
IsResident-other = record {
  r = low_region;
  v = 2 ^ 31;
  region = refl;
  valid = refl;
  small = omega arith;
  kind = refl;
  entry = refl;
  present = refl;
}

perform_refines_example :
    (bs : List ℕ) × (s' : System) × (perform env three_ops space ≡ ok (bs, s'))
    × (map some bs ≡ (replay two_areas three_ops (view upward space)).0)
    × (view upward s' ≡ (replay two_areas three_ops (view upward space)).1)
    × IsMemory upward s'
perform_refines_example =
    perform_refines upward env env-IsMalloc three_ops 2 space (page_0 ∷ []) space-IsMemory
      (IsResident-write, (IsResident-read, (IsResident-other, tt))) space-Listed

-- The RAM is full.
abbrev pub full_space : System
full_space = record space { mram = record device { free_fp_list = [] } }

full_space-IsMemory : IsMemory upward full_space
full_space-IsMemory = record {
  unlocked = refl;
  random = record { idle = refl; random = λ e. omega arith };
  owned = space-IsOwned [] tt tt;
  room = tt;
  holds = λ p f a. omega (arith, (only_page p f a).1);
}

pub full_space-IsPaged : IsPaged upward env (4 + 1) full_space (page_0 ∷ [])
full_space-IsPaged = record {
  memory = full_space-IsMemory;
  swap = device-IsRandom;
  swap_size = omega arith;
  swap_room = (omega arith, (omega arith, tt));
  listed = space-Listed;
  tracked = ((2 ^ 31, refl, in_ram, frame_0), tt);
  once = (tt, tt);
}

in_no_swap : page_swapped 0 ≡ false
unfolding page_swapped
in_no_swap = refl

pub full_space-IsSaved : IsSaved full_space.entries (2 ∷ 3 ∷ [])
full_space-IsSaved p v e absent swapped = elim (ℕ_discrete 100 p) [
  | yes same ↦
      let value : 2 ^ 31 ≡ v = ground (arith, e, same) in
      absurd (ground (arith, sym in_ram ∙ ap page_present value ∙ absent))
  | no ne ↦
      let value : 0 ≡ v = ground (arith, e, ne) in
      absurd (ground (arith, sym in_no_swap ∙ ap page_swapped value ∙ swapped))
]
