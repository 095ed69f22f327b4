-- ===== src/Lib.antt =====
-- A model of OS-sim, a simulated operating system in C: processes are loaded, scheduled on
-- simulated processors by a multi-level queue, and use paged virtual memory with swapping.
-- The model follows the configuration of include/os-cfg.h: MLQ_SCHED, MM_PAGING,
-- MM_PAGING_HEAP_GODOWN, SYNC and LRU are defined, MM_FIXED_MEMSZ is not.
--
-- Parts, and the files that model them:
-- - Queue: src/queue.c, a fixed array of processes. `empty`, `enqueue`, `dequeue`.
-- - Sched: src/sched.c, 140 such queues with a quota of slots for each. `init_slot`,
--   `queue_empty`, `init_scheduler`, `get_mlq_proc`, `put_mlq_proc`, `add_mlq_proc`.
--   It calls Queue.
-- - Pte: the entries of a page table, src/mm.c (`init_pte`, `pte_set_swap`,
--   `pte_set_fpn`) with the bit macros of include/mm.h and include/bitops.h.
-- - Memphy: a physical device, src/mm-memphy.c, and `__swap_cp_page` of src/mm.c
--   (`swap_cp_page` here), which copies a frame between two devices.
-- - Lru: the pages in RAM, least recently used first, src/mm-vm.c (`update_LRU_lst`,
--   `add_LRU_page`, `find_LRU_victim_page`; snake case here). It reads the frame of an
--   entry with Pte. The heap is explicit, so the pointer surgery is that of the source.
-- - PageFifo: the list that takes the place of Lru when LRU is not defined
--   (`enlist_pgn_node` of src/mm.c, `find_victim_page` of src/mm-vm.c).
-- - Region: the areas of an address space and their free regions, src/mm-vm.c
--   (`get_vma_by_num`, `enlist_vm_freerg_list`, `get_free_vmrg_area`) and src/mm.c (`init_mm`) with
--   the structs of include/os-mm.h. The unsigned long arithmetic wraps around as in C.
-- - Timer: src/timer.c, the thread that makes time slots and the devices that wait for
--   it. `Timer` has the steps, `Timer.Reach` the states that any order of them reaches.
-- - Os: src/os.c, one iteration of the loop of `cpu_routine`. It calls Sched; `run` of
--   src/cpu.c and the fields of a process are the interface `Machine`, which Os/Processes fills
--   with Processor and Vmem and a memory that the processes share. Os/Config has `read_config`, over
--   the interface `IntScanner` of what fscanf converts, and Os/Start what `main` sets up.
-- - Processor: src/cpu.c, `run`, over an interface `Paging` of the functions of
--   src/mm-vm.c that it calls.
-- - Vmem: the paging functions of src/mm-vm.c and src/mm.c on a state `System` of the calling
--   process's address space (Region), the RAM and the active swap device (Memphy), the list of
--   pages in RAM (Lru) and the page table entries (Pte). Vmem/Page has `pg_getpage`, `pg_setval`,
--   `pg_getval`; Vmem/Access `__read` (`read_rg`), `__write` (`write_rg`), `pgread`, `pgwrite`;
--   Vmem/Map `alloc_pages_range`, `vmap_page_range`, `vm_map_ram`; Vmem/Grow
--   `validate_overlap_vm_area`, `inc_vma_limit`; Vmem/Alloc `__alloc` (`alloc_rg`), `__free`
--   (`free_rg`), `pgalloc`, `pgmalloc`, `pgfree_data`. Vmem/Machine
--   fills the interface `Paging`. Vmem/Release has `free_pcb_memph`, Vmem/Owned the frames of the
--   pages and of the free list, Vmem/View the memory that a process sees, a byte at each address,
--   Vmem/Content the bytes of all pages, in RAM or in the swap device, Vmem/Loaded what a page has when
--   it comes into RAM,
--   Vmem/Replay a run of accesses and the plain memory it is compared with, Vmem/Program the same for
--   a program on the processor, Vmem/Tracked and Vmem/Paged the order that `pg_getpage` keeps, and
--   Vmem/Pool the frames that `alloc_pages_range` has taken.
-- - Legacy: src/mem.c, the memory that paging replaces, with `alloc`, `free_data`, `read` and `write`
--   of src/cpu.c, which call it.
-- - Loader: src/loader.c, `get_opcode` and `load`, over an interface `Scanner` of what fscanf
--   converts.
-- Base holds what these share: 32-bit words, lists, and `Outcome`, how a call ends: it returns
-- (`ok`), calls exit (`exited`), reads or writes outside an object (`fault`), waits for ever
-- (`blocked`), or has used up the fuel of the model (`no_fuel`).
--
-- Numbers are natural numbers; a C int or uint32_t is its bit pattern below 2^32, so -1 is
-- 2^32 - 1. A pointer on the explicit heap is a number and NULL is 0. What malloc returns and
-- what an uninitialised variable holds are parameters. A function that holds a mutex from its
-- start to its end is one step. The mutex of a device, which the code takes twice on one path,
-- is a flag, and taking it again is `blocked`. MEM_in_use is two mutexes, one of mm.c and one of
-- mm-vm.c, each a flag. An int that overflows wraps around.
--
-- Fuel: `get_mlq_proc` has three rounds, enough for a reset of the slots, a dequeue and the last
-- test. The loops over the list of pages follow one link a round, so any fuel above its length is
-- enough. The cursor of a device moves at most `maxsz` times, and its loop has `maxsz + 1` rounds.
-- The loop of `__alloc` over the pages of a block that is used again any fuel above their number. The search for a free
-- region, for 2 bytes or more, cuts bytes off a region or leaves one behind in each round, and any
-- fuel from `Region.Free.rounds` on is enough.
--
-- Not modelled: the functions that only print; `ld_routine` of src/os.c, which calls `load`, `init_mm`
-- and `add_proc` at times that depend on the other threads; the creation of threads in main, which are
-- calls of pthread; and, beyond their initialisation, the swap devices but the first, which the cast
-- in src/os.c puts out of reach.
pub mod Base
pub mod Queue
pub mod Sched
pub mod Pte
pub mod Memphy
pub mod Lru
pub mod PageFifo
pub mod Region
pub mod Timer
pub mod Os
pub mod Processor
pub mod Vmem
pub mod Loader
pub mod Legacy
