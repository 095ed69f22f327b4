-- ===== src/Processor/Tests.antt =====
-- The processor of src/cpu.c at a concrete program.
use os_sim.Base.{ℕ, ◌+◌, ◌≡◌, List, [], ◌∷◌, length, ok, ◌>>=◌, arith}
use os_sim.Processor.{calc, alloc, free, Inst, Paging, run}
use os_sim.Processor.Program.{runs, execute_all, at_point, ends_at, runs-execute_all}

-- The memory is the number of bytes that were allocated.
abbrev counting : Paging ℕ
counting = record {
  pgalloc = λ size r mem. ok (0, mem + size);
  pgmalloc = λ size r mem. ok (0, mem + size);
  pgfree_data = λ r mem. ok (0, mem);
  pgread = λ s o d mem. ok (0, mem);
  pgwrite = λ b d o mem. ok (0, mem);
}

abbrev program : List Inst
program =
    record { opcode = alloc; arg_0 = 300; arg_1 = 0; arg_2 = 0 }
    ∷ record { opcode = calc; arg_0 = 0; arg_1 = 0; arg_2 = 0 }
    ∷ record { opcode = free; arg_0 = 0; arg_1 = 0; arg_2 = 0 }
    ∷ []

runs-execute_all_example :
    (runs counting (length program) (at_point counting program 0 5)
      ≡ (execute_all counting program 5 >>= ends_at counting program))
    × (run counting (at_point counting program (length program) 9)
        ≡ ok (1, at_point counting program (length program) 9))
runs-execute_all_example = runs-execute_all counting program 5 9 (omega arith)
