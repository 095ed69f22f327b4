-- ===== src/Timer.antt =====
-- src/timer.c: the timer thread and the devices, which are threads that share its time slots. A
-- critical section is one step. A thread that waits for a condition takes its step once the
-- condition holds, so signals and spurious wake-ups need no step of their own.
pub mod Reach
pub mod Devices
pub mod Run
pub mod Barrier
pub mod Stop
mod Tests
use os_sim.Base.{
  ℕ, zero, suc, ◌+◌, ◌^◌, ◌%◌, ◌≡◌, Bool, true, false, ◌&&◌, ◌||◌, not, Option, none, some, List,
  [], ◌∷◌, get_elem?, set, ◌==◌, if◌then◌else◌, u64,
}

-- Where the thread of a device is.
pub data Thread : Type 0 where
  running : Thread
  waiting : Thread  -- in the second half of `next_slot`
  ended : Thread

-- `struct timer_id_t`, with its thread. `calls` counts the calls of `next_slot`; nothing reads it.
pub record Device : Type 0 where
  pub done : Bool
  pub fsh : Bool
  pub thread : Thread
  pub calls : ℕ

-- Where `timer_routine` is: `collecting` and `releasing` are its two `for` loops, with the position
-- in the list and the counters `fsh` and `event`.
pub data Phase : Type 0 where
  idle : Phase
  head : Phase
  collecting : (temp fsh event : ℕ) → Phase
  releasing : (temp fsh event : ℕ) → Phase
  stopped : Phase

-- The static variables. `ticks` is `_time` without its wrap-around; nothing reads it.
pub record Timer : Type 0 where
  pub dev_list : List Device
  pub time : ℕ
  pub timer_started : Bool
  pub timer_stop : Bool
  pub phase : Phase
  pub ticks : ℕ

abbrev pub initial : Timer
initial = record {
  dev_list = [];
  time = 0;
  timer_started = false;
  timer_stop = false;
  phase = idle;
  ticks = 0;
}

pub is_running : Thread → Bool
is_running running = true
is_running waiting = false
is_running ended = false

pub is_waiting : Thread → Bool
is_waiting running = false
is_waiting waiting = true
is_waiting ended = false

-- A new device and the timer, or NULL once the timer runs.
unfoldable pub attach_event : Timer → Option Timer
attach_event s =
    if s.timer_started
    then none
    else some (record s {
      dev_list = record { done = false; fsh = false; thread = running; calls = 0 } ∷ s.dev_list;
    })

unfoldable pub start_timer : Timer → Timer
start_timer s = record s { timer_started = true; phase = head }

-- `stop_timer`, up to where it waits for the timer thread.
unfoldable pub stop_timer : Timer → Timer
stop_timer s = record s { timer_stop = true }

-- The rest of it: the timer thread has ended, and every element of the list is freed.
unfoldable pub stop_timer_end : Timer → Option Timer
stop_timer_end s = elim s.phase [
  | idle ↦ none
  | head ↦ none
  | collecting _ _ _ ↦ none
  | releasing _ _ _ ↦ none
  | stopped ↦ some (record s { dev_list = [] })
]

-- A step of the device at a position of the list, if it is there and can take it.
pub at_device : Timer → ℕ → (Device → Option Device) → Option Timer
at_device s i f = elim (get_elem? s.dev_list i) [
  | none ↦ none
  | some d ↦ elim (f d) [
    | none ↦ none
    | some d' ↦ some (record s { dev_list = set s.dev_list i d' })
  ]
]

-- The first critical section of `next_slot`.
pub report : Device → Option Device
unfolding is_running
report d =
    if is_running d.thread
    then some (record d { done = true; thread = waiting; calls = d.calls + 1 })
    else none

-- The second one, once `done` is 0.
pub resume : Device → Option Device
unfolding is_waiting
resume d = if is_waiting d.thread && not d.done then some (record d { thread = running }) else none

pub finish : Device → Option Device
unfolding is_running
finish d = if is_running d.thread then some (record d { fsh = true; thread = ended }) else none

unfoldable pub next_slot_begin : Timer → ℕ → Option Timer
unfolding at_device
next_slot_begin s i = at_device s i report

unfoldable pub next_slot_end : Timer → ℕ → Option Timer
unfolding at_device
next_slot_end s i = at_device s i resume

-- `detach_event`, after which the thread of the device exits.
unfoldable pub detach_event : Timer → ℕ → Option Timer
unfolding at_device
detach_event s i = at_device s i finish

-- A step of `timer_routine`; it has none while it waits for a device and after its end.
module _ (s : Timer) where
  pub collect : ℕ → ℕ → ℕ → Option Device → Option Timer
  collect i fsh event none =
      some
        (record s { time = u64 (s.time + 1); ticks = s.ticks + 1; phase = releasing 0 fsh event })
  collect i fsh event (some d) =
      if d.done || d.fsh
      then some
          (record s { phase = collecting (i + 1) (if d.fsh then fsh + 1 else fsh) (event + 1) })
      else none

  pub release : ℕ → ℕ → ℕ → Option Device → Option Timer
  release i fsh event none = some (record s { phase = if fsh == event then stopped else head })
  release i fsh event (some d) = some (record s {
    dev_list = set s.dev_list i (record d { done = false });
    phase = releasing (i + 1) fsh event;
  })

  pub advance : Phase → Option Timer
  unfolding collect release
  advance idle = none
  advance head = some (record s { phase = if s.timer_stop then stopped else collecting 0 0 0 })
  advance (collecting i fsh event) = collect i fsh event (get_elem? s.dev_list i)
  advance (releasing i fsh event) = release i fsh event (get_elem? s.dev_list i)
  advance stopped = none

unfoldable pub timer_routine : Timer → Option Timer
unfolding advance
timer_routine s = advance s s.phase
