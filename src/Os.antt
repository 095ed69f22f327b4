-- ===== src/Os.antt =====
-- src/os.c: the thread of a simulated processor. One iteration of the loop of `cpu_routine` is one
-- step, in which no other thread takes part; its `int`s are bit patterns below 2^32.
pub mod Quantum
pub mod Processes
pub mod Start
pub mod Config
pub mod Written
mod Tests
use os_sim.Base.{
  ℕ, ◌+◌, ◌^◌, ◌%◌, Bool, true, false, Option, none, some, Outcome, ok, ◌>>=◌, ◌==◌, if◌then◌else◌,
  minus_one, u32,
}
use os_sim.Sched.{Sched, get_mlq_proc, put_mlq_proc}

-- How an iteration goes on: `stopped` leaves the loop, the others wait for the next slot.
pub data Next : Type 0 where
  stopped : Next
  skipped : Next
  ran : Next

-- The locals of `cpu_routine`.
pub record Cpu (A : Type 0) : Type 0 where
  pub proc : Option A
  pub time_left : ℕ

-- What the threads share: the scheduler, the two static variables, and in `world` the processes and
-- the memory that `run` works on.
pub record Os (A W : Type 0) : Type 0 where
  pub sched : Sched A
  pub done : Bool
  pub cnt_proc_done : ℕ
  pub world : W

-- The fields of a process, and `run` of src/cpu.c, of which `cpu_routine` ignores the `int`. Like the
-- code, a run may not return. Os/Processes has the instance for the processor and the paging.
pub record Machine (A W : Type 0) : Type 0 where
  pub pc : W → A → ℕ
  pub code_size : W → A → ℕ
  pub prio : W → A → ℕ
  pub run : A → W → Outcome W

module _ {A W : Type 0} (m : Machine A W) (time_slot num_processes : ℕ) where
  -- From the second check of `proc` on.
  unfoldable pub dispatch : Option A → ℕ → Os A W → Outcome (Next × Cpu A × Os A W)
  dispatch none time_left os =
      ok (if os.done then stopped else skipped, record { proc = none; time_left = time_left }, os)
  dispatch (some p) time_left os = do
    w ← m.run p os.world
    let left = if time_left == 0 then time_slot else time_left
    ok (ran, record { proc = some p; time_left = u32 (left + minus_one) }, record os { world = w })

  -- `proc` is NULL.
  unfoldable pub load_new : ℕ → Os A W → Outcome (Next × Cpu A × Os A W)
  load_new time_left os = do
    (proc, s) ← get_mlq_proc os.sched
    let os = record os { sched = s }
    elim proc [
      | none ↦ ok (
        if os.cnt_proc_done == num_processes then stopped else skipped,
        record { proc = none; time_left = time_left },
        os,
      )
      | some p ↦ dispatch (some p) time_left os
    ]

  -- The process has finished.
  unfoldable pub replace : Os A W → Outcome (Next × Cpu A × Os A W)
  replace os = do
    (proc, s) ← get_mlq_proc os.sched
    dispatch proc 0 (record os { sched = s; cnt_proc_done = u32 (os.cnt_proc_done + 1) })

  -- The process has used up its time.
  unfoldable pub preempt : A → Os A W → Outcome (Next × Cpu A × Os A W)
  preempt p os = do
    s ← put_mlq_proc (m.prio os.world) os.sched p
    (proc, s) ← get_mlq_proc s
    dispatch proc 0 (record os { sched = s })

  unfoldable pub cpu_routine : Cpu A → Os A W → Outcome (Next × Cpu A × Os A W)
  cpu_routine cpu os = elim cpu.proc [
    | none ↦ load_new cpu.time_left os
    | some p ↦
        if m.pc os.world p == m.code_size os.world p
        then replace os
        else if cpu.time_left == 0
        then preempt p os
        else dispatch (some p) cpu.time_left os
  ]
