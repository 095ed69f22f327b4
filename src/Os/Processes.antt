-- ===== src/Os/Processes.antt =====
-- What `cpu_routine` of src/os.c runs: `run` of src/cpu.c on the paging of src/mm-vm.c, with a
-- memory that the processes share.
use os_sim.Base.{ℕ, List, Outcome, ok, ◌>>=◌, ◌==◌, if◌then◌else◌}
use os_sim.Region.{Mm}
use os_sim.Processor.{Inst, Process, run}
use os_sim.Vmem.{System, Env}
use os_sim.Vmem.Machine.{paging}
use os_sim.Os.{Machine}

-- The fields of `struct pcb_t` that the threads use, `code->text` and `code->size` among them.
pub record Pcb : Type 0 where
  pub text : List Inst
  pub size : ℕ
  pub pc : ℕ
  pub prio : ℕ
  pub mm : Mm
  pub vmemsz : ℕ

-- The process at each address, and what `run` works on besides: the RAM, the swap device, the page
-- table entries and the list of pages in RAM.
pub record World : Type 0 where
  pub pcb : ℕ → Pcb
  pub memory : System

-- The process as `run` sees it: the shared memory with the address space of the process.
abbrev pub process : Pcb → System → Process System
process p memory = record {
  text = p.text;
  size = p.size;
  pc = p.pc;
  memory = record memory { mm = p.mm; vmemsz = p.vmemsz };
}

abbrev pub set_pcb : ℕ → Pcb → (ℕ → Pcb) → ℕ → Pcb
set_pcb a p pcb b = if a == b then p else pcb b

unfoldable pub run_process : Env → ℕ → World → Outcome World
run_process env a w = do
  (_, proc) ← run (paging env) (process (w.pcb a) w.memory)
  ok (record {
    pcb = set_pcb a (record (w.pcb a) { pc = proc.pc; mm = proc.memory.mm }) w.pcb;
    memory = proc.memory;
  })

abbrev pub processes : Env → Machine ℕ World
processes env = record {
  pc = λ w a. (w.pcb a).pc;
  code_size = λ w a. (w.pcb a).size;
  prio = λ w a. (w.pcb a).prio;
  run = run_process env;
}
