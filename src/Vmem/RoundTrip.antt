-- ===== src/Vmem/RoundTrip.antt =====
-- `__write` and `__read` of src/mm-vm.c on a page that is in RAM.
use os_sim.Base.{
  ℕ, ◌+◌, ◌<◌, ◌≡◌, ◌^◌, refl, true, false, List, length, set, get_elem?, some, ok, arith, u32,
  get_elem?-set_self, length-set,
}
use os_sim.Memphy.Access.{IsRandom}
use os_sim.Pte.{pte_fpn}
use os_sim.Region.{Region}
use os_sim.Lru.{Lru}
use os_sim.Lru.Chain.{Entry}
use os_sim.Lru.Spec.{promote, insert}
use os_sim.Vmem.{System, Env, paging_pgn, paging_offst}
use os_sim.Vmem.Listed.{IsMalloc, Listed, listed_entry, insert-ne-nil}
use os_sim.Vmem.Online.{IsOnline, pg_setval_online, pg_getval_online, touch_online}
use os_sim.Vmem.Page.{phyaddr}
use os_sim.Vmem.Access.{rg_addr, region_at, check_access, read_rg, write_rg}

u32_small : (x : ℕ) → x < 2 ^ 32 → u32 x ≡ x
u32_small x h = omega arith

-- An offset in a region whose page is in RAM with the entry `v`, at the address `at` in the RAM.
pub record IsAccess (s : System) (rgid offset : ℕ) (r : Region) (v addr : ℕ) : Type 0 where
  pub region : region_at s.mm rgid ≡ ok r
  pub valid : check_access s.mm r offset ≡ true
  pub small : rg_addr r offset < 2 ^ 32
  pub online : IsOnline s (paging_pgn (rg_addr r offset)) v
  pub random : IsRandom s.mram
  pub place : phyaddr r.vmaid (pte_fpn v) (paging_offst (rg_addr r offset)) ≡ addr
  pub inside : addr < length s.mram.storage

module _ (env : Env) (m : IsMalloc env) where
  pub write_rg_lem :
      (k rgid offset value v addr : ℕ) (r : Region) (s : System) (xs : List Entry)
      → IsAccess s rgid offset r v addr
      → Listed env (k + 1) s.lru s.mallocs xs
      → (l : Lru) × (ys : List Entry) × (write_rg env rgid offset value s
          ≡ ok (
            0,
            record s {
              lru = l;
              mallocs = s.mallocs + 1;
              vm_lock = false;
              mram = record s.mram { storage = set s.mram.storage addr value };
            },
          ))
        × Listed env k l (s.mallocs + 1) ys
  unfolding write_rg
  write_rg_lem k rgid offset value v addr r s xs a h =
      let pgn = paging_pgn (rg_addr r offset) in
      let x : Entry = listed_entry env m s.mallocs (s.mm.pgd + pgn) v pgn in
      let (l, run, listed) =
        pg_setval_online env m k (rg_addr r offset) value r.vmaid v s xs a.online h a.random
          (omega (arith, a.place, a.inside)) in
      let s1 : System = record s {
        lru = l;
        mallocs = s.mallocs + 1;
        vm_lock = false;
        mram = record s.mram { storage = set s.mram.storage addr value };
      } in
      let (l', touched, listed') =
        touch_online env m k (rg_addr r offset) v s1 (insert x xs)
          (record {
            unlocked = refl;
            room = a.online.room;
            entry = a.online.entry;
            present = a.online.present;
          })
          listed (insert-ne-nil x xs) in
      (
        l',
        promote (pte_fpn v) (insert x xs),
        rw (a.region, a.valid, u32_small (rg_addr r offset) a.small, run, a.place, touched) refl,
        listed',
      )

  pub read_rg_lem :
      (k rgid offset value b v addr : ℕ) (r : Region) (s : System) (xs : List Entry)
      → IsAccess s rgid offset r v addr
      → get_elem? s.mram.storage addr ≡ some b
      → Listed env (k + 1) s.lru s.mallocs xs
      → (l : Lru) × (ys : List Entry) × (read_rg env rgid offset value s
          ≡ ok ((0, b), record s { lru = l; mallocs = s.mallocs + 1; vm_lock = false }))
        × Listed env k l (s.mallocs + 1) ys
  unfolding read_rg
  read_rg_lem k rgid offset value b v addr r s xs a held h =
      let pgn = paging_pgn (rg_addr r offset) in
      let x : Entry = listed_entry env m s.mallocs (s.mm.pgd + pgn) v pgn in
      let (l, run, listed) =
        pg_getval_online env m k (rg_addr r offset) value r.vmaid v b s xs a.online h a.random
          (rw a.place held) in
      let s1 : System = record s { lru = l; mallocs = s.mallocs + 1; vm_lock = false } in
      let (l', touched, listed') =
        touch_online env m k (rg_addr r offset) v s1 (insert x xs)
          (record {
            unlocked = refl;
            room = a.online.room;
            entry = a.online.entry;
            present = a.online.present;
          })
          listed (insert-ne-nil x xs) in
      (
        l',
        promote (pte_fpn v) (insert x xs),
        rw (a.region, a.valid, u32_small (rg_addr r offset) a.small, run, touched) refl,
        listed',
      )

  -- Where the tests of `__read` and `__write` accept an offset of a region, its page is in RAM, the
  -- RAM is a random-access device that no thread works on, the byte lies in its storage, no thread
  -- is in `pg_getpage`, the list of pages in RAM is well formed and the fuel is more than its
  -- entries by 2: `__write` returns 0 and changes that byte of the RAM and the list of pages,
  -- nothing else, and `__read` of the same offset then returns 0 with the byte that was written and
  -- leaves the RAM, the areas and the page table as they are.
  pub read_rg-write_rg :
      (k rgid offset byte value v addr : ℕ) (r : Region) (s : System) (xs : List Entry)
      → IsAccess s rgid offset r v addr
      → Listed env (k + 2) s.lru s.mallocs xs
      → (l l' : Lru) × (s' : System) × (s' ≡ record s {
        lru = l;
        mallocs = s.mallocs + 1;
        vm_lock = false;
        mram = record s.mram { storage = set s.mram.storage addr byte };
      })
        × (write_rg env rgid offset byte s ≡ ok (0, s'))
        × (read_rg env rgid offset value s'
            ≡ ok ((0, byte), record s' { lru = l'; mallocs = s'.mallocs + 1 }))
  read_rg-write_rg k rgid offset byte value v addr r s xs a h =
      let (l, ys, written, listed) =
        write_rg_lem (k + 1) rgid offset byte v addr r s xs a
          (record { lru = h.lru; fuel = omega (arith, h.fuel); unused = h.unused }) in
      let s' : System = record s {
        lru = l;
        mallocs = s.mallocs + 1;
        vm_lock = false;
        mram = record s.mram { storage = set s.mram.storage addr byte };
      } in
      let (l', zs, found, listed') =
        read_rg_lem k rgid offset value byte v addr r s' ys
          (record {
            region = a.region;
            valid = a.valid;
            small = a.small;
            online = record {
              unlocked = refl;
              room = a.online.room;
              entry = a.online.entry;
              present = a.online.present;
            };
            random = record { idle = a.random.idle; random = a.random.random };
            place = a.place;
            inside = omega (arith, a.inside, length-set s.mram.storage addr byte);
          })
          (get_elem?-set_self s.mram.storage addr byte a.inside) listed in
      (l, l', s', refl, written, found)
