-- ===== src/Processor.antt =====
-- src/cpu.c: one instruction of a process. The functions of the paging memory that `run` calls are
-- an interface; the register functions of the file are not called when MM_PAGING is defined.
pub mod Program
mod Tests
use os_sim.Base.{
  ℕ, ◌+◌, ◌%◌, ◌^◌, Option, none, some, List, Outcome, ok, fault, ◌>>=◌, get_elem?, leb,
  if◌then◌else◌, u32,
}

-- `enum ins_opcode_t`
pub data Opcode : Type 0 where
  calc : Opcode
  alloc : Opcode
  malloc : Opcode
  free : Opcode
  read : Opcode
  write : Opcode

-- `struct inst_t`
pub record Inst : Type 0 where
  pub opcode : Opcode
  pub arg_0 : ℕ
  pub arg_1 : ℕ
  pub arg_2 : ℕ

-- The fields of `struct pcb_t` that `run` uses: `code->text`, `code->size`, `pc`, and in `memory`
-- what the paging functions read and write through the process.
pub record Process (M : Type 0) : Type 0 where
  pub text : List Inst
  pub size : ℕ
  pub pc : ℕ
  pub memory : M

-- The functions of src/mm-vm.c that `run` calls; each returns an `int` and the new memory.
pub record Paging (M : Type 0) : Type 0 where
  pub pgalloc : (size reg_index : ℕ) → M → Outcome (ℕ × M)
  pub pgmalloc : (size reg_index : ℕ) → M → Outcome (ℕ × M)
  pub pgfree_data : (reg_index : ℕ) → M → Outcome (ℕ × M)
  pub pgread : (source offset destination : ℕ) → M → Outcome (ℕ × M)
  pub pgwrite : (byte destination offset : ℕ) → M → Outcome (ℕ × M)

module _ {M : Type 0} (paging : Paging M) where
  -- The `switch`. The data of a write is converted to a BYTE.
  abbrev pub execute : Opcode → Inst → M → Outcome (ℕ × M)
  execute calc ins mem = ok (0, mem)
  execute alloc ins mem = paging.pgalloc ins.arg_0 ins.arg_1 mem
  execute malloc ins mem = paging.pgmalloc ins.arg_0 ins.arg_1 mem
  execute free ins mem = paging.pgfree_data ins.arg_0 mem
  execute read ins mem = paging.pgread ins.arg_0 ins.arg_1 ins.arg_2 mem
  execute write ins mem = paging.pgwrite (ins.arg_0 % 2 ^ 8) ins.arg_1 ins.arg_2 mem

  unfoldable pub run : Process M → Outcome (ℕ × Process M)
  run proc = if leb proc.size proc.pc then ok (1, proc) else elim (get_elem? proc.text proc.pc) [
    | none ↦ fault
    | some ins ↦ do
      (stat, mem) ← execute ins.opcode ins proc.memory
      ok (stat, record proc { pc = u32 (proc.pc + 1); memory = mem })
  ]
