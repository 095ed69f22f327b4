-- ===== src/Vmem/Replay.antt =====
-- Any sequence of `__read` and `__write` of src/mm-vm.c on pages in RAM, against a plain memory.
use os_sim.Base.{
  ℕ, ◌+◌, ◌*◌, ◌≤◌, ◌/◌, ◌%◌, ◌<◌, ◌≡◌, ◌^◌, refl, sym, ◌∙◌, ap, ap₂, true, false, List, [], ◌∷◌,
  map, All, length, set, length-set, get_elem?, get_elem?-total, Option, some, Outcome, ok, fault,
  exited, blocked, no_fuel, arith,
}
use os_sim.Memphy.{pagesz}
use os_sim.Pte.{pte_fpn, page_present}
use os_sim.Region.{Region, Mm}
use os_sim.Lru.{Lru}
use os_sim.Lru.Chain.{Entry}
use os_sim.Vmem.{System, Env, Action, pure, ◌>>=◌, update, paging_pgn, paging_offst}
use os_sim.Vmem.Addr.{paging_pgn_lem, paging_offst_lem}
use os_sim.Vmem.Listed.{IsMalloc, Listed}
use os_sim.Vmem.Page.{phyaddr}
use os_sim.Vmem.Access.{rg_addr, region_at, check_access, read_rg, write_rg}
use os_sim.Vmem.RoundTrip.{IsAccess, read_rg_lem, write_rg_lem}
use os_sim.Vmem.View.{place, view, IsMemory, view-set}

pub data Op : Type 0 where
  read : (rgid offset : ℕ) → Op
  write : (rgid offset byte : ℕ) → Op

abbrev pub rgid_of : Op → ℕ
rgid_of (read rgid offset) = rgid
rgid_of (write rgid offset byte) = rgid

abbrev pub offset_of : Op → ℕ
offset_of (read rgid offset) = offset
offset_of (write rgid offset byte) = offset

-- The calls one after another, with the bytes that were read.
unfoldable pub perform : Env → List Op → Action (List ℕ)
perform env [] = pure []
perform env (read rgid offset ∷ ops) = do
  (_, b) ← read_rg env rgid offset env.junk
  bs ← perform env ops
  pure (b ∷ bs)
perform env (write rgid offset byte ∷ ops) = do _ ← write_rg env rgid offset byte; perform env ops

-- The virtual address of an offset in a region.
abbrev address_in : Outcome Region → ℕ → ℕ
address_in (ok r) offset = rg_addr r offset
address_in exited offset = 0
address_in fault offset = 0
address_in blocked offset = 0
address_in no_fuel offset = 0

abbrev pub address : Mm → Op → ℕ
address mm op = address_in (region_at mm (rgid_of op)) (offset_of op)

-- The same on a function from addresses to bytes.
pub replay : Mm → List Op → (ℕ → Option ℕ) → List (Option ℕ) × (ℕ → Option ℕ)
replay mm [] f = ([], f)
replay mm (read rgid offset ∷ ops) f =
    let (bs, g) = replay mm ops f in (f (address mm (read rgid offset)) ∷ bs, g)
replay mm (write rgid offset byte ∷ ops) f =
    replay mm ops (update f (address mm (write rgid offset byte)) byte)

-- The tests of `__read` and `__write` accept the access, and its page is in RAM.
pub record IsResident (area : ℕ → ℕ) (mm : Mm) (c : ℕ → Option ℕ) (op : Op) : Type 0 where
  pub r : Region
  pub v : ℕ
  pub region : region_at mm (rgid_of op) ≡ ok r
  pub valid : check_access mm r (offset_of op) ≡ true
  pub small : rg_addr r (offset_of op) < 2 ^ 22
  pub kind : area (rg_addr r (offset_of op) / 256) ≡ r.vmaid
  pub entry : c (mm.pgd + rg_addr r (offset_of op) / 256) ≡ some v
  pub present : page_present v ≡ true

module _ (area : ℕ → ℕ) where
  resident-IsAccess :
      (op : Op) (s : System)
      → IsMemory area s
      → (h : IsResident area s.mm s.entries op)
      → IsAccess s (rgid_of op) (offset_of op) h.r h.v (place area h.v (rg_addr h.r (offset_of op)))
  resident-IsAccess op s m h =
      let a = rg_addr h.r (offset_of op) in
      let pgn : paging_pgn a ≡ a / 256 =
        omega (arith, h.small, paging_pgn_lem a (omega (arith, h.small))) in
      let off : paging_offst a ≡ a % 256 = paging_offst_lem a (omega (arith, h.small)) in
      let held = m.holds (s.mm.pgd + a / 256) (pte_fpn h.v) (h.v, h.entry, h.present, refl) in
      record {
        region = h.region;
        valid = h.valid;
        small = omega (arith, h.small);
        online = record {
          unlocked = m.unlocked;
          room = omega (arith, pgn, h.small);
          entry = ap (λ i. s.entries (s.mm.pgd + i)) pgn ∙ h.entry;
          present = h.present;
        };
        random = m.random;
        place = ap₂ (λ d o. phyaddr d (pte_fpn h.v) o) (sym h.kind) off;
        inside = ground (arith, held);
      }

  resident-address :
      (op : Op) (s : System) (h : IsResident area s.mm s.entries op)
      → address s.mm op ≡ rg_addr h.r (offset_of op)
  resident-address op s h = ap (λ o. address_in o (offset_of op)) h.region

  view-resident :
      (op : Op) (s : System) (h : IsResident area s.mm s.entries op)
      → view area s (address s.mm op)
        ≡ get_elem? s.mram.storage (place area h.v (rg_addr h.r (offset_of op)))
  view-resident op s h =
      ap (view area s) (resident-address op s h) ∙ ground (arith, h.entry, h.present)

  All-mono :
      {n n' : ℕ} (fs : List ℕ)
      → n' ≡ n
      → All (λ f. f * pagesz + pagesz ≤ n) fs
      → All (λ f. f * pagesz + pagesz ≤ n') fs
  All-mono fs e h = rw e h

  -- The RAM after a call: other contents of the same length, or the same.
  pub IsMemory-set :
      (s : System) (l : Lru) (mallocs i b : ℕ)
      → IsMemory area s
      → IsMemory area (record s {
        lru = l;
        mallocs = mallocs;
        vm_lock = false;
        mram = record s.mram { storage = set s.mram.storage i b };
      })
  IsMemory-set s l mallocs i b m = record {
    unlocked = refl;
    random = record { idle = m.random.idle; random = m.random.random };
    owned = m.owned;
    room = All-mono s.mram.free_fp_list (length-set s.mram.storage i b) m.room;
    holds = λ p f h. omega (arith, m.holds p f h, length-set s.mram.storage i b);
  }

  IsMemory-read :
      (s : System) (l : Lru) (mallocs : ℕ)
      → IsMemory area s
      → IsMemory area (record s { lru = l; mallocs = mallocs; vm_lock = false })
  IsMemory-read s l mallocs m = record {
    unlocked = refl;
    random = m.random;
    owned = m.owned;
    room = m.room;
    holds = m.holds;
  }

  module _ (env : Env) (m : IsMalloc env) where
    -- Any sequence of calls of `__read` and `__write` whose accesses pass their tests, on pages in
    -- RAM, in a memory where no two pages share a frame and every frame lies in the RAM, with fuel for
    -- the list of pages: all return, the bytes read are those that a plain memory gives, which maps
    -- each virtual address to a byte and which a write changes at its address only, and afterwards
    -- the process sees that plain memory at every address.
    pub perform_refines :
        (ops : List Op) (k : ℕ) (s : System) (xs : List Entry)
        → IsMemory area s
        → All (IsResident area s.mm s.entries) ops
        → Listed env (k + length ops) s.lru s.mallocs xs
        → (bs : List ℕ) × (s' : System) × (perform env ops s ≡ ok (bs, s'))
          × (map some bs ≡ (replay s.mm ops (view area s)).0)
          × (view area s' ≡ (replay s.mm ops (view area s)).1)
          × IsMemory area s'
    unfolding perform replay
    perform_refines [] k s xs mem res h = ([], s, refl, refl, refl, mem)
    perform_refines (read rgid offset ∷ ops) k s xs mem (here, rest) h =
        let addr = place area here.v (rg_addr here.r offset) in
        let access = resident-IsAccess (read rgid offset) s mem here in
        let (b, held) = get_elem?-total s.mram.storage addr access.inside in
        let (l, ys, done, listed) =
          read_rg_lem env m (k + length ops) rgid offset env.junk b here.v addr here.r s xs access
            held (record { lru = h.lru; fuel = omega (arith, h.fuel); unused = h.unused }) in
        let s1 : System = record s { lru = l; mallocs = s.mallocs + 1; vm_lock = false } in
        let (bs, s', run, got, seen, mem') =
          perform_refines ops k s1 ys (IsMemory-read s l (s.mallocs + 1) mem) rest listed in
        (
          b ∷ bs,
          s',
          rw (done, run) refl,
          ap₂ (λ x l. x ∷ l) (sym (view-resident (read rgid offset) s here ∙ held)) got,
          seen,
          mem',
        )
    perform_refines (write rgid offset byte ∷ ops) k s xs mem (here, rest) h =
        let a = rg_addr here.r offset in
        let addr = place area here.v a in
        let access = resident-IsAccess (write rgid offset byte) s mem here in
        let (l, ys, done, listed) =
          write_rg_lem env m (k + length ops) rgid offset byte here.v addr here.r s xs access
            (record { lru = h.lru; fuel = omega (arith, h.fuel); unused = h.unused }) in
        let s1 : System = record s {
          lru = l;
          mallocs = s.mallocs + 1;
          vm_lock = false;
          mram = record s.mram { storage = set s.mram.storage addr byte };
        } in
        let (bs, s', run, got, seen, mem') =
          perform_refines ops k s1 ys (IsMemory-set s l (s.mallocs + 1) addr byte mem) rest
            listed in
        let changed : view area s1
            ≡ update (view area s) (address s.mm (write rgid offset byte)) byte =
          view-set area s a byte here.v l (s.mallocs + 1) mem here.entry here.present
          ∙ ap (λ t. update (view area s) t byte)
              (sym (resident-address (write rgid offset byte) s here)) in
        (
          bs,
          s',
          rw done run,
          got ∙ ap (λ f. (replay s.mm ops f).0) changed,
          seen ∙ ap (λ f. (replay s.mm ops f).1) changed,
          mem',
        )
