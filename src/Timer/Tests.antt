-- ===== src/Timer/Tests.antt =====
-- The timer of src/timer.c with one device.
use os_sim.Base.{
  ℕ, zero, suc, get_elem?, arith, ◌+◌, ◌^◌, ◌%◌, ◌≤◌, ◌≡◌, ◌⊎◌, refl, true, false, none, some, [],
  ◌∷◌,
}
use os_sim.Timer.{
  running, waiting, ended, stopped, stop_timer, stop_timer_end, Device, collecting, releasing,
  Timer, initial, is_running, attach_event, start_timer, at_device, report, next_slot_begin,
  next_slot_end, collect, advance, timer_routine,
}
use os_sim.Timer.Reach.{attach, start, begin, tick, Reachable, here, after}
use os_sim.Timer.Stop.{timer_run, stop_timer-stops}
use os_sim.Timer.Barrier.{next_slot-barrier, timer_routine-releases, timer_routine-waits}

abbrev fresh_device : Device
fresh_device = record { done = false; fsh = false; thread = running; calls = 0 }

abbrev waiting_device : Device
waiting_device = record { done = true; fsh = false; thread = waiting; calls = 1 }

abbrev attached : Timer
attached = record initial { dev_list = fresh_device ∷ [] }

abbrev collecting_it : Timer
collecting_it = record attached { timer_started = true; phase = collecting 0 0 0 }

abbrev reported : Timer
reported = record collecting_it { dev_list = waiting_device ∷ [] }

abbrev collected : Timer
collected = record reported { phase = collecting 1 0 1 }

abbrev ticked : Timer
ticked = record reported { time = 1; ticks = 1; phase = releasing 0 0 1 }

collecting_it-Reachable : Reachable collecting_it
unfolding attach_event start_timer timer_routine advance
collecting_it-Reachable =
    after (start_timer attached) collecting_it
      (after attached (start_timer attached) (after initial attached here (attach attached refl))
        (start refl))
      (tick collecting_it refl)

reported-Reachable : Reachable reported
unfolding next_slot_begin at_device report is_running
reported-Reachable = after collecting_it reported collecting_it-Reachable (begin 0 reported refl)

ticked-Reachable : Reachable ticked
unfolding timer_routine advance collect
ticked-Reachable =
    after collected ticked (after reported collected reported-Reachable (tick collected refl))
      (tick ticked refl)

next_slot-barrier_example :
    (ticked.time ≡ ticked.ticks % 2 ^ 64)
    × (ticked.ticks ≤ waiting_device.calls)
    × (waiting_device.calls ≤ ticked.ticks + 1)
next_slot-barrier_example = next_slot-barrier ticked 0 waiting_device ticked-Reachable refl refl

timer_routine-releases_example :
    (waiting_device.thread ≡ waiting)
    × (waiting_device.done ≡ true)
    × (waiting_device.calls ≡ ticked.ticks)
timer_routine-releases_example =
    timer_routine-releases ticked 0 0 1 waiting_device ticked-Reachable refl refl refl

blocked_on_it : timer_routine collecting_it ≡ none
unfolding timer_routine advance collect
blocked_on_it = refl

timer_routine-waits_example :
    (fresh_device.thread ≡ running)
    ⊎ ((fresh_device.thread ≡ waiting) × ((s' : Timer) × (next_slot_end collecting_it 0 ≡ some s')))
timer_routine-waits_example =
    timer_routine-waits collecting_it 0 0 0 fresh_device collecting_it-Reachable refl refl
      blocked_on_it

-- Its thread has ended while the timer waited for it.
abbrev finished : Timer
finished = record collecting_it {
  dev_list = record { done = false; fsh = true; thread = ended; calls = 3 } ∷ [];
}

finished_all : (i : ℕ) (d : Device) → get_elem? finished.dev_list i ≡ some d → d.fsh ≡ true
finished_all zero d e = ground (arith, e)
finished_all (suc i) d e = absurd (ground (arith, e))

stop_timer-stops_example :
    (s' : Timer) × (timer_run 5 (stop_timer finished) ≡ s')
    × (s'.phase ≡ stopped)
    × (timer_routine s' ≡ none)
    × (stop_timer_end s' ≡ some (record s' { dev_list = [] }))
stop_timer-stops_example =
    stop_timer-stops finished 5 (λ e. ground (arith, e)) finished_all (omega arith)
