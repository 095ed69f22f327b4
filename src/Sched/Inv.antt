-- ===== src/Sched/Inv.antt =====
-- What holds of the scheduler of src/sched.c between its operations.
use os_sim.Base.{
  ℕ, suc, ◌-◌, ◌≤◌, ◌≡◌, refl, Bool, false, ◌&&◌, not, List, [], ◌∷◌, ◌++◌, length, arith, ◌==◌,
}
use os_sim.Queue
use os_sim.Queue.{Queue}
use os_sim.Queue.Refine
use os_sim.Sched.{max_prio, Level, Sched, reset_from, init_slot}

module _ {A : Type 0} where
  -- From index `i` on: the queues are valid, and no slot is above its share.
  abbrev pub LevelsFrom : ℕ → List (Level A) → Type 0
  LevelsFrom i [] = Unit
  LevelsFrom i (l ∷ ls) =
      Queue.Refine.IsValid l.queue × (l.slot ≤ max_prio - i) × LevelsFrom (suc i) ls

  pub record IsValid (s : Sched A) : Type 0 where
    pub count : length s.levels ≡ max_prio
    pub sound : LevelsFrom 0 s.levels

  -- The test of the `for` loop of `get_mlq_proc`.
  abbrev pub eligible : Level A → Bool
  eligible l = not (Queue.empty l.queue) && not (l.slot == 0)

  abbrev pub Skipped : Level A → Type 0
  Skipped l = eligible l ≡ false

  pub length-reset_from : (i : ℕ) (ls : List (Level A)) → length (reset_from i ls) ≡ length ls
  unfolding reset_from
  length-reset_from i [] = refl
  length-reset_from i (l ∷ ls) = omega (arith, length-reset_from (suc i) ls)

  pub reset_from-LevelsFrom :
      (i : ℕ) (ls : List (Level A)) → LevelsFrom i ls → LevelsFrom i (reset_from i ls)
  unfolding reset_from
  reset_from-LevelsFrom i [] h = tt
  reset_from-LevelsFrom i (l ∷ ls) h = (h.0, omega arith, reset_from-LevelsFrom (suc i) ls h.2)

  pub init_slot-IsValid : (s : Sched A) → IsValid s → IsValid (init_slot s)
  unfolding init_slot
  init_slot-IsValid s v = record {
    count = omega (arith, v.count, length-reset_from 0 s.levels);
    sound = reset_from-LevelsFrom 0 s.levels v.sound;
  }

  -- The levels of a prefix, one level and a suffix may be judged apart.
  pub LevelsFrom-split :
      (i : ℕ) (before : List (Level A)) (l : Level A) (after : List (Level A))
      → LevelsFrom i (before ++ (l ∷ after))
      → Queue.Refine.IsValid l.queue × (l.slot ≤ max_prio)
  LevelsFrom-split i [] l after h = (h.0, omega arith)
  LevelsFrom-split i (b ∷ before) l after h = LevelsFrom-split (suc i) before l after h.2

  pub LevelsFrom-change :
      (i : ℕ) (before : List (Level A)) (l m : Level A) (after : List (Level A))
      → LevelsFrom i (before ++ (l ∷ after))
      → Queue.Refine.IsValid m.queue
      → m.slot ≤ l.slot
      → LevelsFrom i (before ++ (m ∷ after))
  LevelsFrom-change i [] l m after h v le = (v, omega arith, h.2)
  LevelsFrom-change i (b ∷ before) l m after h v le =
      (h.0, h.1, LevelsFrom-change (suc i) before l m after h.2 v le)

  pub length-change :
      (before : List (Level A)) (l m : Level A) (after : List (Level A))
      → length (before ++ (m ∷ after)) ≡ length (before ++ (l ∷ after))
  length-change [] l m after = refl
  length-change (b ∷ before) l m after = omega (arith, length-change before l m after)
