-- ===== src/Legacy/Laws.antt =====
-- Addresses of src/mem.c, and what is left of its accesses.
use os_sim.Base.{
  ℕ, zero, suc, ◌+◌, ◌*◌, ◌/◌, ◌%◌, ◌<◌, ◌≡◌, ◌^◌, refl, false, none, some, set, get_elem?, ok,
  arith,
}
use os_sim.Pte.Fields.{low}
use os_sim.Legacy.{
  Pcb, Memory, PageTable, get_offset, get_first_lv, get_second_lv, get_trans_table_loop,
  get_trans_table, translate, alloc_mem, free_mem, read_mem, write_mem, load_reg, store_reg,
  extend_byte, alloc, free_data, read, write,
}

offset_lem : (a : ℕ) → a < 2 ^ 32 → get_offset a ≡ a % 2 ^ 10
unfolding get_offset
offset_lem a h = omega (arith, low 10 a h)

first_lem : (a : ℕ) → get_first_lv a ≡ a / 2 ^ 15
unfolding get_first_lv
first_lem a = omega arith

second_lem : (a : ℕ) → a < 2 ^ 32 → get_second_lv a ≡ a / 2 ^ 10 % 2 ^ 5
unfolding get_second_lv
second_lem a h = omega (arith, h, first_lem a)

-- The two indices and the offset of an address below 2^32 make up the address, and of an address
-- below 2^20, the size of the memory, each fits its bits; from two indices and an offset that fit
-- their bits the three functions give them back.
pub address_parts :
    ((a : ℕ) → a < 2 ^ 32 → get_first_lv a * 2 ^ 15 + get_second_lv a * 2 ^ 10 + get_offset a ≡ a)
    × ((a : ℕ)
        → a < 2 ^ 20
        → (get_first_lv a < 2 ^ 5) × (get_second_lv a < 2 ^ 5) × (get_offset a < 2 ^ 10))
    × ((f l o : ℕ)
        → f < 2 ^ 5
        → l < 2 ^ 5
        → o < 2 ^ 10
        → (get_first_lv (f * 2 ^ 15 + l * 2 ^ 10 + o) ≡ f)
          × (get_second_lv (f * 2 ^ 15 + l * 2 ^ 10 + o) ≡ l)
          × (get_offset (f * 2 ^ 15 + l * 2 ^ 10 + o) ≡ o))
address_parts = (
  λ a h. omega (arith, h, first_lem a, second_lem a h, offset_lem a h),
  λ a h.
      let wide : a < 2 ^ 32 = omega (arith, h) in
      (
        omega (arith, h, first_lem a),
        omega (arith, h, second_lem a wide),
        omega (arith, h, offset_lem a wide),
      ),
  λ f l o hf hl ho.
      let wide : f * 2 ^ 15 + l * 2 ^ 10 + o < 2 ^ 32 = omega (arith, hf, hl, ho) in
      (
        omega (arith, first_lem (f * 2 ^ 15 + l * 2 ^ 10 + o)),
        omega (arith, second_lem (f * 2 ^ 15 + l * 2 ^ 10 + o) wide),
        omega (arith, offset_lem (f * 2 ^ 15 + l * 2 ^ 10 + o) wide),
      ),
)

no_table : (n : ℕ) → get_trans_table_loop n ≡ none
unfolding get_trans_table_loop
no_table zero = refl
no_table (suc n) = no_table n

get_trans_table_lem : (i : ℕ) (t : PageTable) → get_trans_table i t ≡ none
unfolding get_trans_table
get_trans_table_lem i t = no_table t.size

translate_lem : (a : ℕ) (proc : Pcb) → translate a proc ≡ ok false
unfolding translate
translate_lem a proc = ground (arith, get_trans_table_lem (get_first_lv a) proc.page_table)

load_reg_lem : (proc : Pcb) (i v : ℕ) → get_elem? proc.regs i ≡ some v → load_reg proc i ≡ ok v
unfolding load_reg
load_reg_lem proc i v e = ground (arith, e)

store_reg_lem :
    (proc : Pcb) (i v w : ℕ)
    → get_elem? proc.regs i ≡ some w
    → store_reg proc i v ≡ ok (record proc { regs = set proc.regs i v })
unfolding store_reg
store_reg_lem proc i v w e = ground (arith, e)

alloc_lem :
    (proc : Pcb) (size i : ℕ) (s : Memory)
    → s.mem_lock ≡ false
    → alloc proc size i s ≡ ok (1, proc, s)
unfolding alloc alloc_mem
alloc_lem proc size i s e = ground (arith, e)

-- The legacy instructions, for registers that exist and while no thread is in `alloc_mem`: `alloc`
-- returns 1 and changes nothing whatever the size, `free_data` returns 0, `write` returns 1 and
-- changes no byte, and `read` returns 0 although no address is valid, and stores in the register
-- what its variable held before it was set, sign-extended to 32 bits.
pub legacy_lem :
    (proc : Pcb) (s : Memory) (junk byte size i offset j v w : ℕ)
    → s.mem_lock ≡ false
    → get_elem? proc.regs i ≡ some v
    → get_elem? proc.regs j ≡ some w
    → (alloc proc size i s ≡ ok (1, proc, s))
      × (free_data proc i ≡ ok 0)
      × (write junk proc byte i offset s ≡ ok (1, s))
      × (read junk byte proc i offset j s
          ≡ ok (0, record proc { regs = set proc.regs j (extend_byte byte) }))
unfolding free_data free_mem write write_mem read read_mem
legacy_lem proc s junk byte size i offset j v w e ei ej = (
  alloc_lem proc size i s e,
  rw (load_reg_lem proc i v ei) refl,
  rw (load_reg_lem proc i v ei, translate_lem) refl,
  rw (load_reg_lem proc i v ei, translate_lem, store_reg_lem proc j (extend_byte byte) w ej) refl,
)
