-- ===== src/Timer/Reach.antt =====
-- The states that src/timer.c can reach, with any number of devices and any order of their steps.
use os_sim.Base.{ℕ, ◌≡◌, some}
use os_sim.Timer.{
  Timer, idle, initial, attach_event, start_timer, stop_timer, next_slot_begin, next_slot_end,
  detach_event, timer_routine,
}

pub data Step (s : Timer) : Timer → Type 0 where
  attach : (s' : Timer) → attach_event s ≡ some s' → Step s s'
  start : s.phase ≡ idle → Step s (start_timer s)
  stop : Step s (stop_timer s)
  begin : (i : ℕ) (s' : Timer) → next_slot_begin s i ≡ some s' → Step s s'
  end : (i : ℕ) (s' : Timer) → next_slot_end s i ≡ some s' → Step s s'
  detach : (i : ℕ) (s' : Timer) → detach_event s i ≡ some s' → Step s s'
  tick : (s' : Timer) → timer_routine s ≡ some s' → Step s s'

pub data Reachable : Timer → Type 0 where
  here : Reachable initial
  after : (s s' : Timer) → Reachable s → Step s s' → Reachable s'
