-- ===== src/Sched.antt =====
-- src/sched.c under MLQ_SCHED: one queue and one slot counter for each priority. `queue_lock` is
-- held from the first to the last line of each operation, so an operation is one step.
pub mod Inv
pub mod Get
pub mod Put
pub mod Ready
mod Tests
use os_sim.Base.{
  ℕ, zero, suc, ◌-◌, ◌+◌, ◌^◌, Bool, true, false, ◌&&◌, not, Option, none, some, List, [], ◌∷◌,
  replicate, Outcome, ok, fault, no_fuel, ◌>>=◌, ◌==◌, if◌then◌else◌,
}
use os_sim.Queue
use os_sim.Queue.{Queue}

-- MAX_PRIO
abbrev pub max_prio : ℕ
max_prio = 140

-- `mlq_ready_queue[i]` with `mlq_ready_queue_slot[i]`
pub record Level (A : Type 0) : Type 0 where
  pub queue : Queue A
  pub slot : ℕ

pub record Sched (A : Type 0) : Type 0 where
  pub levels : List (Level A)
  pub ready_queue : Queue A
  pub run_queue : Queue A

module _ {A : Type 0} where
  -- The loop of `init_slot`, from index `i` on.
  unfoldable pub reset_from : ℕ → List (Level A) → List (Level A)
  reset_from i [] = []
  reset_from i (l ∷ ls) = record l { slot = max_prio - i } ∷ reset_from (suc i) ls

  unfoldable pub init_slot : Sched A → Sched A
  init_slot s = record s { levels = reset_from 0 s.levels }

  clear_sizes : List (Level A) → List (Level A)
  clear_sizes [] = []
  clear_sizes (l ∷ ls) = record l { queue = record l.queue { size = 0 } } ∷ clear_sizes ls

  unfoldable pub init_scheduler : Sched A → Sched A
  unfolding clear_sizes init_slot
  init_scheduler s =
      let cleared = init_slot (record s { levels = clear_sizes s.levels }) in
      record cleared {
        ready_queue = record s.ready_queue { size = 0 };
        run_queue = record s.run_queue { size = 0 };
      }

  -- Whether the loop of `queue_empty` meets a queue that is not empty.
  unfoldable pub any_waiting : List (Level A) → Bool
  any_waiting [] = false
  any_waiting (l ∷ ls) = if not (Queue.empty l.queue) then true else any_waiting ls

  -- The int -1, and the truth values 1 and 0.
  unfoldable pub queue_empty : Sched A → ℕ
  unfolding any_waiting
  queue_empty s =
      if any_waiting s.levels
      then 2 ^ 32 - 1
      else if Queue.empty s.ready_queue && Queue.empty s.run_queue
      then 1
      else 0

  -- The `for` loop of `get_mlq_proc`.
  unfoldable pub pick : List (Level A) → Outcome (Option A × List (Level A))
  pick [] = ok (none, [])
  pick (l ∷ ls) =
      let rest = pick ls in
      if not (Queue.empty l.queue) && not (l.slot == 0)
      then (do
        (proc, q) ← Queue.dequeue l.queue
        ok (proc, record l { queue = q; slot = l.slot - 1 } ∷ ls))
      else (do (proc, ls') ← rest; ok (proc, l ∷ ls'))

  is_null : Option A → Bool
  is_null none = true
  is_null (some p) = false

  abbrev waiting : Sched A → Bool
  waiting s = queue_empty s == 2 ^ 32 - 1

  -- The `while` loop of `get_mlq_proc`, on fuel.
  unfoldable pub get_loop : ℕ → Sched A → Outcome (Option A × Sched A)
  unfolding queue_empty pick is_null init_slot
  get_loop zero s = no_fuel
  get_loop (suc fuel) s =
      if waiting s
      then (do
        (proc, levels) ← pick s.levels
        let s' = record s { levels = levels }
        let s'' = if waiting s' && is_null proc then init_slot s' else s'
        let rest = get_loop fuel s''
        if is_null proc then rest else ok (proc, s''))
      else ok (none, s)

  -- Three rounds are enough (`Get`): a reset of the slots, a dequeue, and the last test.
  unfoldable pub get_mlq_proc : Sched A → Outcome (Option A × Sched A)
  unfolding get_loop
  get_mlq_proc s = get_loop 3 s

  enqueue_at : List (Level A) → ℕ → A → Outcome (List (Level A))
  enqueue_at [] i p = fault
  enqueue_at (l ∷ ls) zero p = do q ← Queue.enqueue l.queue p; ok (record l { queue = q } ∷ ls)
  enqueue_at (l ∷ ls) (suc i) p = do ls' ← enqueue_at ls i p; ok (l ∷ ls')

  -- `prio` is the field of the process; `add_mlq_proc` has the same body.
  module _ (prio : A → ℕ) where
    unfoldable pub put_mlq_proc : Sched A → A → Outcome (Sched A)
    unfolding enqueue_at
    put_mlq_proc s p = do levels ← enqueue_at s.levels (prio p) p; ok (record s { levels = levels })

    unfoldable pub add_mlq_proc : Sched A → A → Outcome (Sched A)
    unfolding enqueue_at
    add_mlq_proc s p = do levels ← enqueue_at s.levels (prio p) p; ok (record s { levels = levels })
