-- ===== src/Vmem/Tests/Program.antt =====
-- A whole program on the paging functions at a concrete input.
use os_sim.Base.{◌≡◌, List, [], ◌∷◌, ok, arith}
use os_sim.Processor.{Opcode, Inst}
use os_sim.Processor.Opcode.{calc}
use os_sim.Processor.Program.{runs, at_point}
use os_sim.Vmem.{System}
use os_sim.Vmem.Machine.{paging}
use os_sim.Vmem.View.{view, IsMemory}
use os_sim.Vmem.Replay.{replay}
use os_sim.Vmem.Program.{program, run_refines}
use os_sim.Vmem.Tests.Replay.{upward, space-IsMemory, IsResident-write, IsResident-read}
use os_sim.Vmem.Tests.{two_areas, page_0, space, env, env-IsMalloc, space-Listed}

-- Write 321, cut to 65, at offset 200 of region 0, and read it.
abbrev listing : List Inst
listing =
    record { opcode = calc; arg_0 = 0; arg_1 = 0; arg_2 = 0 }
    ∷ record { opcode = Opcode.write; arg_0 = 321; arg_1 = 0; arg_2 = 200 }
    ∷ record { opcode = Opcode.read; arg_0 = 0; arg_1 = 200; arg_2 = 3 }
    ∷ []

run_refines_example :
    (s' : System) × (runs (paging env) 3 (at_point (paging env) listing 0 space)
      ≡ ok (at_point (paging env) listing 3 s'))
    × (view upward s' ≡ (replay two_areas (program listing) (view upward space)).1)
    × IsMemory upward s'
run_refines_example =
    run_refines env env-IsMalloc upward listing 3 space (page_0 ∷ []) (omega arith)
      (tt, (tt, (tt, tt))) space-IsMemory (IsResident-write, (IsResident-read, tt)) space-Listed
