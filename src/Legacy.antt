-- ===== src/Legacy.antt =====
-- src/mem.c, the segmented memory that the paging of src/mm-vm.c replaces, and the functions of
-- src/cpu.c that call it. They are compiled, but `run` calls none of them under MM_PAGING.
pub mod Laws
mod Tests
use os_sim.Base.{
  ℕ, zero, suc, ◌+◌, ◌-◌, ◌*◌, ◌/◌, ◌%◌, ◌^◌, Bool, true, false, Option, none, some, List, [], ◌∷◌,
  replicate, Outcome, ok, fault, blocked, ◌>>=◌, ◌==◌, ltb, if◌then◌else◌, u32, bit_and, set,
  get_elem?,
}

-- OFFSET_LEN, PAGE_LEN, NUM_PAGES, PAGE_SIZE and RAM_SIZE
abbrev pub offset_len : ℕ
offset_len = 10

abbrev pub page_len : ℕ
page_len = 5

abbrev pub num_pages : ℕ
num_pages = 2 ^ 10

abbrev pub page_size : ℕ
page_size = 2 ^ 10

abbrev pub ram_size : ℕ
ram_size = 2 ^ 20

-- An element of `_mem_stat`.
pub record PageStat : Type 0 where
  pub proc : ℕ
  pub index : ℕ
  pub next : ℕ

-- The static variables.
pub record Memory : Type 0 where
  pub ram : List ℕ
  pub mem_stat : List PageStat
  pub mem_lock : Bool

-- A row of a table of the second layer, and such a table.
pub record Row : Type 0 where
  pub v_index : ℕ
  pub p_index : ℕ

pub record TransTable : Type 0 where
  pub table : List Row
  pub size : ℕ

-- `struct page_table_t`, whose rows nothing reads.
pub record PageTable : Type 0 where
  pub size : ℕ

-- The fields of `struct pcb_t` that these functions use.
pub record Pcb : Type 0 where
  pub regs : List ℕ
  pub page_table : PageTable
  pub bp : ℕ

unfoldable init_mem : Memory
init_mem = record {
  ram = replicate ram_size 0;
  mem_stat = replicate num_pages (record { proc = 0; index = 0; next = 0 });
  mem_lock = false;
}

unfoldable pub get_offset : ℕ → ℕ
get_offset addr = bit_and addr (2 ^ 32 - 1 - u32 ((2 ^ 32 - 1) * 2 ^ offset_len))

unfoldable pub get_first_lv : ℕ → ℕ
get_first_lv addr = addr / 2 ^ (offset_len + page_len)

unfoldable pub get_second_lv : ℕ → ℕ
get_second_lv addr = u32 (addr / 2 ^ offset_len + (2 ^ 32 - u32 (get_first_lv addr * 2 ^ page_len)))

-- The loop of `get_trans_table`, by the rounds left: its body is empty.
unfoldable pub get_trans_table_loop : (rounds : ℕ) → Option TransTable
get_trans_table_loop zero = none
get_trans_table_loop (suc n) = get_trans_table_loop n

unfoldable pub get_trans_table : (index : ℕ) → PageTable → Option TransTable
get_trans_table index t = get_trans_table_loop t.size

-- The loop of `translate`, by the rounds left.
unfoldable pub translate_loop : (rounds i second_lv : ℕ) → List Row → Outcome Bool
translate_loop zero i second_lv rows = ok false
translate_loop (suc n) i second_lv rows = elim (get_elem? rows i) [
  | none ↦ fault
  | some row ↦
      let rest = translate_loop n (i + 1) second_lv rows in
      if row.v_index == second_lv then ok true else rest
]

-- The `int`. Whatever it is, `*physical_addr` is not written.
unfoldable pub translate : (virtual_addr : ℕ) → Pcb → Outcome Bool
translate virtual_addr proc = elim (get_trans_table (get_first_lv virtual_addr) proc.page_table) [
  | none ↦ ok false
  | some t ↦ translate_loop t.size 0 (get_second_lv virtual_addr) t.table
]

-- `num_pages` of `alloc_mem`
unfoldable pub pages_for : (size : ℕ) → ℕ
pages_for size = if size % page_size == 0 then size / page_size + 1 else size / page_size

-- `mem_avail` of `alloc_mem`, which nothing sets.
abbrev mem_avail : ℕ
mem_avail = 0

unfoldable pub alloc_mem : (size : ℕ) → Pcb → Memory → Outcome (ℕ × Pcb × Memory)
alloc_mem size proc s =
    if s.mem_lock
    then blocked
    else ok (
      if mem_avail == 0 then 0 else proc.bp,
      if mem_avail == 0
          then proc
          else record proc { bp = u32 (proc.bp + pages_for size * page_size) },
      record s { mem_lock = false },
    )

unfoldable pub free_mem : (address : ℕ) → Pcb → ℕ
free_mem address proc = 0

-- `junk` is what `physical_addr` holds, `byte` what `*data` holds before. With the `int`, what
-- `*data` holds afterwards.
unfoldable pub read_mem : (junk address : ℕ) → Pcb → (byte : ℕ) → Memory → Outcome (ℕ × ℕ)
read_mem junk address proc byte s = do
  valid ← translate address proc
  if valid then elim (get_elem? s.ram junk) [ none ↦ fault | some b ↦ ok (0, b) ] else ok (1, byte)

unfoldable pub write_mem : (junk address : ℕ) → Pcb → (byte : ℕ) → Memory → Outcome (ℕ × Memory)
write_mem junk address proc byte s = do
  valid ← translate address proc
  if valid
      then elim (get_elem? s.ram junk) [
        | none ↦ fault
        | some _ ↦ ok (0, record s { ram = set s.ram junk byte })
      ]
      else ok (1, s)

-- `proc->regs[i]` and `proc->regs[i] = v`
unfoldable pub load_reg : Pcb → ℕ → Outcome ℕ
load_reg proc i = elim (get_elem? proc.regs i) [ none ↦ fault | some v ↦ ok v ]

unfoldable pub store_reg : Pcb → ℕ → ℕ → Outcome Pcb
store_reg proc i v = elim (get_elem? proc.regs i) [
  | none ↦ fault
  | some _ ↦ ok (record proc { regs = set proc.regs i v })
]

-- `alloc`, `free_data`, `read` and `write` of src/cpu.c. `byte` is in `read` what the variable `data` holds
-- before it is set.
unfoldable pub alloc : Pcb → (size reg_index : ℕ) → Memory → Outcome (ℕ × Pcb × Memory)
alloc proc size reg_index s = do
  (addr, proc, s) ← alloc_mem size proc s
  if addr == 0 then ok (1, proc, s) else (do proc ← store_reg proc reg_index addr; ok (0, proc, s))

unfoldable pub free_data : Pcb → (reg_index : ℕ) → Outcome ℕ
free_data proc reg_index = do addr ← load_reg proc reg_index; ok (free_mem addr proc)

-- The value of a BYTE, a signed char, as a `uint32_t`.
abbrev pub extend_byte : ℕ → ℕ
extend_byte byte = if ltb byte (2 ^ 7) then byte else byte + (2 ^ 32 - 2 ^ 8)

unfoldable pub read :
    (junk byte : ℕ) → Pcb → (source offset destination : ℕ) → Memory → Outcome (ℕ × Pcb)
read junk byte proc source offset destination s = do
  base ← load_reg proc source
  (status, b) ← read_mem junk (u32 (base + offset)) proc byte s
  if status == 0
      then ok (1, proc)
      else (do proc ← store_reg proc destination (extend_byte b); ok (0, proc))

unfoldable pub write :
    (junk : ℕ) → Pcb → (byte destination offset : ℕ) → Memory → Outcome (ℕ × Memory)
write junk proc byte destination offset s = do
  base ← load_reg proc destination
  write_mem junk (u32 (base + offset)) proc byte s
