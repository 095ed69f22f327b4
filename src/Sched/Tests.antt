-- ===== src/Sched/Tests.antt =====
-- The scheduler of src/sched.c at concrete inputs.
use os_sim.Base.{
  ℕ, zero, suc, ◌≤◌, ◌<◌, ◌≡◌, refl, ◌⊎◌, true, false, none, some, [], ◌∷◌, ◌++◌, replicate,
  length-replicate, All, ok, exited, fault, arith,
}
use os_sim.Queue
use os_sim.Queue.{Queue, max_queue_size}
use os_sim.Sched.{
  max_prio, Level, Sched, reset_from, init_slot, any_waiting, get_mlq_proc, put_mlq_proc,
}
use os_sim.Sched.Inv.{LevelsFrom, IsValid, Skipped}
use os_sim.Sched.Get.{Served, get_mlq_proc_lem}
use os_sim.Sched.Put.{At, Joined, put_mlq_proc_lem}
use os_sim.Sched.Ready.{ready, get-put}

abbrev empty_queue : Queue ℕ
empty_queue = record { proc = replicate 10 0; size = 0 }

abbrev idle_level : Level ℕ
idle_level = record { queue = empty_queue; slot = 0 }

abbrev no_slots : Sched ℕ
no_slots = record {
  levels = replicate 140 idle_level;
  ready_queue = empty_queue;
  run_queue = empty_queue;
}

-- After `init_scheduler`.
abbrev fresh : Sched ℕ
fresh = init_slot no_slots

-- The process 42 waits at priority 138, and no level has a slot.
abbrev waiting_42 : Sched ℕ
waiting_42 = record no_slots {
  levels =
      replicate 138 idle_level
      ++ (record idle_level { queue = record { proc = replicate 10 42; size = 1 } }
          ∷ idle_level
          ∷ []);
}

LevelsFrom-replicate : (i n : ℕ) → LevelsFrom i (replicate n idle_level)
LevelsFrom-replicate i zero = tt
LevelsFrom-replicate i (suc n) =
    (record { array = refl; bound = omega arith }, omega arith, LevelsFrom-replicate (suc i) n)

no_slots-IsValid : IsValid no_slots
no_slots-IsValid = record {
  count = length-replicate 140 idle_level;
  sound = LevelsFrom-replicate 0 140;
}

waiting_42-IsValid : IsValid waiting_42
waiting_42-IsValid = record { count = refl; sound = omega arith }

-- The reset lets the process run although its level had no slot left.
get-waiting_42 : (s : Sched ℕ) × (get_mlq_proc waiting_42 ≡ ok (some 42, s))
unfolding get_mlq_proc Queue.empty reset_from Queue.dequeue
get-waiting_42 = (_, refl)

get_mlq_proc_lem_example :
    ((any_waiting waiting_42.levels ≡ false) × (get_mlq_proc waiting_42 ≡ ok (none, waiting_42)))
    ⊎ ((p : ℕ) × (s' : Sched ℕ) × (any_waiting waiting_42.levels ≡ true)
        × (get_mlq_proc waiting_42 ≡ ok (some p, s'))
        × (Served waiting_42 p s'
            ⊎ (All Skipped waiting_42.levels × Served (init_slot waiting_42) p s'))
        × IsValid s')
get_mlq_proc_lem_example = get_mlq_proc_lem waiting_42 waiting_42-IsValid

put_mlq_proc_lem_example :
    ((s' : Sched ℕ) × (138 < max_prio)
      × (put_mlq_proc (λ _. 138) waiting_42 7 ≡ ok s')
      × Joined waiting_42 138 7 s'
      × IsValid s')
    ⊎ (((a : At waiting_42.levels 138) × (a.level.queue.size ≡ max_queue_size)
          × (put_mlq_proc (λ _. 138) waiting_42 7 ≡ exited))
        ⊎ ((max_prio ≤ 138) × (put_mlq_proc (λ _. 138) waiting_42 7 ≡ fault)))
put_mlq_proc_lem_example = put_mlq_proc_lem (λ _. 138) waiting_42 7 waiting_42-IsValid

nobody_waits : ready no_slots.levels ≡ []
unfolding ready
nobody_waits = refl

get-put_example :
    (s1 s2 : Sched ℕ) × (put_mlq_proc (λ _. 138) no_slots 7 ≡ ok s1)
    × (get_mlq_proc s1 ≡ ok (some 7, s2))
    × (ready s2.levels ≡ [])
get-put_example = get-put (λ _. 138) no_slots 7 no_slots-IsValid (omega arith) nobody_waits
