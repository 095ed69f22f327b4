-- ===== src/Legacy/Tests.antt =====
-- src/mem.c and the functions of src/cpu.c that call it at concrete inputs.
use os_sim.Base.{◌+◌, ◌-◌, ◌*◌, ◌^◌, ◌≡◌, false, refl, [], ◌∷◌, replicate, ok, set}
use os_sim.Legacy.{Pcb, Memory, get_first_lv, get_second_lv, alloc, free_data, read, write}
use os_sim.Legacy.Laws.{legacy_lem}

abbrev small_memory : Memory
small_memory = record { ram = 1 ∷ 2 ∷ 3 ∷ []; mem_stat = []; mem_lock = false }

abbrev legacy_process : Pcb
legacy_process = record { regs = 4096 ∷ replicate 9 0; page_table = record { size = 3 }; bp = 1024 }

second_index : get_second_lv (3 * 2 ^ 15 + 17 * 2 ^ 10 + 5) ≡ 17
unfolding get_second_lv get_first_lv
second_index = refl

legacy_lem_example :
    (alloc legacy_process 300 0 small_memory ≡ ok (1, legacy_process, small_memory))
    × (free_data legacy_process 0 ≡ ok 0)
    × (write 7 legacy_process 200 0 20 small_memory ≡ ok (1, small_memory))
    × (read 7 200 legacy_process 0 20 1 small_memory
        ≡ ok (0, record legacy_process { regs = set legacy_process.regs 1 (2 ^ 32 - 56) }))
legacy_lem_example = legacy_lem legacy_process small_memory 7 200 300 0 20 1 4096 0 refl refl refl
