-- ===== src/Vmem/Program.antt =====
-- A program of CALC, READ and WRITE instructions on the processor of src/cpu.c over the memory of
-- src/mm-vm.c, against a plain memory.
use os_sim.Base.{
  ℕ, ◌+◌, ◌%◌, ◌<◌, ◌≡◌, ◌^◌, refl, sym, ◌∙◌, ap, List, [], ◌∷◌, ◌++◌, All, length, Outcome, ok,
  exited, fault, blocked, no_fuel, bind,
}
use os_sim.Lru.Chain.{Entry}
use os_sim.Processor.{Opcode, Inst, execute}
use os_sim.Processor.Opcode.{calc, alloc, malloc, free}
use os_sim.Processor.Program.{runs, at_point, execute_all, runs-execute_all}
use os_sim.Vmem.{System, Env}
use os_sim.Vmem.Listed.{IsMalloc, Listed}
use os_sim.Vmem.Access.{read_rg, write_rg, pgread, pgwrite}
use os_sim.Vmem.Machine.{paging}
use os_sim.Vmem.View.{view, IsMemory}
use os_sim.Vmem.Replay.{Op, perform, replay, IsResident, perform_refines}

-- The accesses of an instruction: the byte of a write is cut to 8 bits.
abbrev pub accesses : Opcode → Inst → List Op
accesses calc ins = []
accesses alloc ins = []
accesses malloc ins = []
accesses free ins = []
accesses Opcode.read ins = Op.read ins.arg_0 ins.arg_1 ∷ []
accesses Opcode.write ins = Op.write ins.arg_1 ins.arg_2 (ins.arg_0 % 2 ^ 8) ∷ []

abbrev pub program : List Inst → List Op
program [] = []
program (ins ∷ text) = accesses ins.opcode ins ++ program text

-- Neither ALLOC nor MALLOC nor FREE.
abbrev pub IsPlain : Opcode → Type 0
IsPlain calc = Unit
IsPlain alloc = ⊥
IsPlain malloc = ⊥
IsPlain free = ⊥
IsPlain Opcode.read = Unit
IsPlain Opcode.write = Unit

abbrev state_of : Outcome (List ℕ × System) → Outcome System
state_of o = bind o (λ z. ok z.1)

drop :
    (o : Outcome (List ℕ × System)) (b : ℕ)
    → state_of (bind o (λ z. ok (b ∷ z.0, z.1))) ≡ state_of o
drop (ok z) b = refl
drop exited b = refl
drop fault b = refl
drop blocked b = refl
drop no_fuel b = refl

module _ (f : System → Outcome System) (g : System → Outcome (List ℕ × System))
    (h : (s : System) → f s ≡ state_of (g s)) where
  after_read :
      (o : Outcome ((ℕ × ℕ) × System))
      → bind (bind {B = ℕ × System} o (λ z. ok (z.0.0, z.1))) (λ z. f z.1)
        ≡ state_of (bind o (λ z. bind {B = List ℕ × System} (g z.1) (λ y. ok (z.0.1 ∷ y.0, y.1))))
  after_read (ok z) = h z.1 ∙ sym (drop (g z.1) z.0.1)
  after_read exited = refl
  after_read fault = refl
  after_read blocked = refl
  after_read no_fuel = refl

  after_write : (o : Outcome (ℕ × System)) → bind o (λ z. f z.1) ≡ state_of (bind o (λ z. g z.1))
  after_write (ok z) = h z.1
  after_write exited = refl
  after_write fault = refl
  after_write blocked = refl
  after_write no_fuel = refl

module _ (env : Env) where
  step :
      (ins : Inst) (text : List Inst)
      → ((s : System) → execute_all (paging env) text s ≡ state_of (perform env (program text) s))
      → (op : Opcode) → IsPlain op
      → (s : System)
      → bind (execute (paging env) op ins s) (λ z. execute_all (paging env) text z.1)
        ≡ state_of (perform env (accesses op ins ++ program text) s)
  unfolding perform pgread pgwrite
  step ins text rest calc p s = rest s
  step ins text rest alloc p s = elim p [ ]
  step ins text rest malloc p s = elim p [ ]
  step ins text rest free p s = elim p [ ]
  step ins text rest Opcode.read p s =
      after_read (execute_all (paging env) text) (perform env (program text)) rest
        (read_rg env ins.arg_0 ins.arg_1 env.junk s)
  step ins text rest Opcode.write p s =
      after_write (execute_all (paging env) text) (perform env (program text)) rest
        (write_rg env ins.arg_1 ins.arg_2 (ins.arg_0 % 2 ^ 8) s)

  execute_all-perform :
      (text : List Inst)
      → All (λ (ins : Inst). IsPlain ins.opcode) text
      → (s : System) → execute_all (paging env) text s ≡ state_of (perform env (program text) s)
  unfolding execute_all perform
  execute_all-perform [] plain s = refl
  execute_all-perform (ins ∷ text) plain s =
      step ins text (execute_all-perform text plain.1) ins.opcode plain.0 s

  -- A process at the start of a program of fewer than 2^32 instructions, each CALC, READ or WRITE,
  -- whose accesses pass the tests of `__read` and `__write`, on pages in RAM, in a memory where no two
  -- pages share a frame and every frame lies in the RAM, with fuel for the list of pages: calling
  -- `run` once for each instruction returns with the program counter at the end, and the process
  -- then sees, at every address, what a plain memory holds after the writes of the program, in
  -- order.
  pub run_refines :
      (m : IsMalloc env) (area : ℕ → ℕ) (text : List Inst) (k : ℕ) (s : System) (xs : List Entry)
      → length text < 2 ^ 32
      → All (λ (ins : Inst). IsPlain ins.opcode) text
      → IsMemory area s
      → All (IsResident area s.mm s.entries) (program text)
      → Listed env (k + length (program text)) s.lru s.mallocs xs
      → (s' : System) × (runs (paging env) (length text) (at_point (paging env) text 0 s)
          ≡ ok (at_point (paging env) text (length text) s'))
        × (view area s' ≡ (replay s.mm (program text) (view area s)).1)
        × IsMemory area s'
  run_refines m area text k s xs short plain mem resident listed =
      let (bs, s', run, _, seen, mem') =
        perform_refines area env m (program text) k s xs mem resident listed in
      (
        s',
        (runs-execute_all (paging env) text s s short).0
            ∙ ap (λ o. bind o (λ t. ok (at_point (paging env) text (length text) t)))
                (execute_all-perform text plain s ∙ ap state_of run),
        seen,
        mem',
      )
