-- ===== src/Vmem/Machine.antt =====
-- src/cpu.c over src/mm-vm.c: the processor runs instructions on the paging functions.
use os_sim.Base.{ℕ, ◌+◌, ◌%◌, ◌<◌, ◌≡◌, ◌^◌, false, List, set, some, get_elem?, ok, arith, leb, u32}
use os_sim.Region.{Region}
use os_sim.Lru.{Lru}
use os_sim.Lru.Chain.{Entry}
use os_sim.Processor.{Inst, Process, Paging, run}
use os_sim.Processor.Opcode.{write}
use os_sim.Vmem.{System, Env}
use os_sim.Vmem.Listed.{IsMalloc, Listed}
use os_sim.Vmem.Access.{pgread, pgwrite}
use os_sim.Vmem.Alloc.{pgalloc, pgmalloc, pgfree_data}
use os_sim.Vmem.RoundTrip.{IsAccess, write_rg_lem}

-- The functions that `run` calls.
abbrev pub paging : Env → Paging System
paging env = record {
  pgalloc = pgalloc env;
  pgmalloc = pgmalloc env;
  pgfree_data = pgfree_data env;
  pgread = pgread env;
  pgwrite = pgwrite env;
}

module _ (env : Env) (m : IsMalloc env) where
  -- `run` at a write instruction, where the tests of `__write` accept the offset of the region, its
  -- page is in RAM, the RAM is a random-access device that no thread works on, the byte lies in its
  -- storage, no thread is in `pg_getpage` and the list of pages in RAM is well formed: it returns 0,
  -- the byte of the RAM is the first argument cut to 8 bits, the program counter moves to the next
  -- instruction, and besides the list of pages nothing else changes.
  pub run-write :
      (k v addr : ℕ) (ins : Inst) (r : Region) (proc : Process System) (xs : List Entry)
      → proc.pc < proc.size
      → get_elem? proc.text proc.pc ≡ some ins
      → ins.opcode ≡ write
      → IsAccess proc.memory ins.arg_1 ins.arg_2 r v addr
      → Listed env (k + 1) proc.memory.lru proc.memory.mallocs xs
      → (l : Lru) × (ys : List Entry) × (run (paging env) proc
          ≡ ok (
            0,
            record proc {
              pc = u32 (proc.pc + 1);
              memory = record proc.memory {
                lru = l;
                mallocs = proc.memory.mallocs + 1;
                vm_lock = false;
                mram = record proc.memory.mram {
                  storage = set proc.memory.mram.storage addr (ins.arg_0 % 2 ^ 8);
                };
              };
            },
          ))
        × Listed env k l (proc.memory.mallocs + 1) ys
  unfolding run pgwrite
  run-write k v addr ins r proc xs here e op a h =
      let (l, ys, done, listed) =
        write_rg_lem env m k ins.arg_1 ins.arg_2 (ins.arg_0 % 2 ^ 8) v addr r proc.memory xs a h in
      let going : leb proc.size proc.pc ≡ false = ground arith in
      (l, ys, ground (arith, going, e, op, done), listed)
