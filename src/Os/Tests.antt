-- ===== src/Os/Tests.antt =====
-- The loop of a processor of src/os.c with one process.
use os_sim.Base.{
  ◌*◌, ◌≤◌, length, ℕ, zero, suc, ◌+◌, ◌≡◌, refl, true, false, none, some, replicate,
  length-replicate, ok, arith, List, [], ◌∷◌,
}
use os_sim.Sched.{Level, Sched}
use os_sim.Sched.Inv.{LevelsFrom, IsValid}
use os_sim.Memphy.{Memphy, pagesz}
use os_sim.Timer.{Timer, head, initial}
use os_sim.Timer.Reach.{Reachable}
use os_sim.Region.{Mm}
use os_sim.Processor.{Inst, calc, run}
use os_sim.Vmem.{System, Env}
use os_sim.Os.Start.{Raw, init_timer, init_devices, IsInitial, AllInitial, set_up_lem}
use os_sim.Os.{ran, Cpu, Os, dispatch, cpu_routine}
use os_sim.Os.Processes.{Pcb, World, run_process, processes}
use os_sim.Os.Quantum.{Iterates, cpu_routine_lem}

-- Process 42 has three instructions, of which the first has run, and no area yet.
abbrev program : List Inst
program = replicate 3 (record { opcode = calc; arg_0 = 0; arg_1 = 0; arg_2 = 0 })

abbrev no_areas : Mm
no_areas = record { pgd = 100; mmap = []; symrgtbl = []; fifo_pgn = [] }

abbrev pcb_42 : Pcb
pcb_42 = record { text = program; size = 3; pc = 1; prio = 138; mm = no_areas; vmemsz = 4096 }

abbrev device : Memphy
device = record {
  locked = false;
  storage = [];
  maxsz = 0;
  rdmflg = 1;
  cursor = 0;
  free_fp_list = [];
}

abbrev shared : System
shared = record {
  mm = no_areas;
  vmemsz = 4096;
  mram = device;
  active_mswp = device;
  lru = record { cell = λ _. none; lru_head = 0; lru_tail = 0 };
  entries = λ _. none;
  vm_lock = false;
  map_lock = false;
  mallocs = 0;
}

abbrev env : Env
env = record {
  malloc = λ n. 1000 + n;
  wild = 7;
  junk = 9;
  victim = record { status = 9; pgn = 9; fpn = 9; pte = 9 };
  fuel = 10;
}

abbrev idle_level : Level ℕ
idle_level = record { queue = record { proc = replicate 10 0; size = 0 }; slot = 0 }

abbrev nobody : Sched ℕ
nobody = record {
  levels = replicate 140 idle_level;
  ready_queue = record { proc = replicate 10 0; size = 0 };
  run_queue = record { proc = replicate 10 0; size = 0 };
}

LevelsFrom-replicate : (i n : ℕ) → LevelsFrom i (replicate n idle_level)
LevelsFrom-replicate i zero = tt
LevelsFrom-replicate i (suc n) =
    (record { array = refl; bound = omega arith }, omega arith, LevelsFrom-replicate (suc i) n)

nobody-IsValid : IsValid nobody
nobody-IsValid = record {
  count = length-replicate 140 idle_level;
  sound = LevelsFrom-replicate 0 140;
}

abbrev busy : Cpu ℕ
busy = record { proc = some 42; time_left = 2 }

abbrev machine : Os ℕ World
machine = record {
  sched = nobody;
  done = false;
  cnt_proc_done = 0;
  world = record { pcb = λ a. pcb_42; memory = shared };
}

runs_on :
    (os : Os ℕ World) × (cpu_routine (processes env) 4 1 busy machine
      ≡ ok (ran, record { proc = some 42; time_left = 1 }, os))
    × ((os.world.pcb 42).pc ≡ 2)
unfolding cpu_routine dispatch run_process run
runs_on = (_, refl, refl)

cpu_routine_lem_example :
    Iterates
      (processes env)
      4
      1
      machine
      (omega arith)
      (omega arith)
      busy
      (cpu_routine (processes env) 4 1 busy machine)
cpu_routine_lem_example =
    cpu_routine_lem (processes env) 4 1 machine (omega arith) (omega arith) busy
      (record { bound = omega arith; unused = λ e. absurd (ground arith) }) nobody-IsValid

-- A device of the given size, of which nothing is initialised.
abbrev raw : ℕ → Raw
raw size = record {
  wild = 77 ∷ [];
  storage = replicate size 0;
  before = record {
    locked = true;
    storage = [];
    maxsz = 9;
    rdmflg = 9;
    cursor = 9;
    free_fp_list = 9 ∷ [];
  };
  size = size;
}

set_up_lem_example :
    ((t : Timer) × (init_timer 2 initial ≡ some t)
      × Reachable t
      × (t.phase ≡ head)
      × (length t.dev_list ≡ 2 + 1))
    × ((ram : Memphy) × (swaps : List Memphy) × (init_devices (raw 1024) (raw 512 ∷ raw 0 ∷ [])
          ≡ ok (ram, swaps))
        × (2 * pagesz ≤ 1024 → IsInitial (raw 1024) ram)
        × AllInitial (raw 512 ∷ raw 0 ∷ []) swaps)
set_up_lem_example =
    set_up_lem 2 (raw 1024) (raw 512 ∷ raw 0 ∷ []) (omega arith) (omega arith, (omega arith, tt))
