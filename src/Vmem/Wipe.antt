-- ===== src/Vmem/Wipe.antt =====
-- The loop of `__free` in src/mm-vm.c that clears bytes.
use os_sim.Base.{
  ℕ, zero, suc, ◌+◌, ◌/◌, ◌%◌, ◌<◌, ◌≤◌, ◌≡◌, ◌^◌, ◌&&◌, leb, ltb, refl, sym, ◌∙◌, ap, ap₂, true,
  false, List, length, length-set, set, Option, some, ok, arith, u32, if◌then◌else◌,
}
use mathlib.Core.Path.{fun_ext}
use os_sim.Pte.{pte_fpn, page_present}
use os_sim.Lru.{Lru}
use os_sim.Lru.Chain.{Entry}
use os_sim.Lru.Spec.{insert}
use os_sim.Vmem.{System, Env, update, paging_pgn, paging_offst}
use os_sim.Vmem.Addr.{paging_pgn_lem, paging_offst_lem}
use os_sim.Vmem.Listed.{IsMalloc, Listed, listed_entry}
use os_sim.Vmem.Online.{pg_setval_online}
use os_sim.Vmem.Page.{phyaddr, pg_setval}
use os_sim.Vmem.Alloc.{clear_loop}
use os_sim.Vmem.View.{place, place_inside, view, IsMemory, view-set}
use os_sim.Vmem.Replay.{IsMemory-set}

-- A memory whose `n` bytes from `addr` on are 0.
abbrev pub wiped : (n addr : ℕ) → (ℕ → Option ℕ) → ℕ → Option ℕ
wiped n addr f a = if leb addr a && ltb a (addr + n) then some 0 else f a

wiped-zero : (addr : ℕ) (f : ℕ → Option ℕ) → wiped 0 addr f ≡ f
wiped-zero addr f = fun_ext (λ a. ground arith)

wiped-suc :
    (n addr : ℕ) (f : ℕ → Option ℕ) → wiped n (addr + 1) (update f addr 0) ≡ wiped (suc n) addr f
wiped-suc n addr f = fun_ext (λ a. ground arith)

module _ (area : ℕ → ℕ) where
  -- The pages of the `n` bytes from `addr` on are in RAM.
  abbrev pub InRam : System → (vmaid addr n : ℕ) → Type 0
  InRam s vmaid addr n =
      (i : ℕ)
      → i < n
      → (v : ℕ) × (s.entries (s.mm.pgd + (addr + i) / 256) ≡ some v)
        × (page_present v ≡ true)
        × (area ((addr + i) / 256) ≡ vmaid)

  InRam-at :
      (s : System) (vmaid addr n : ℕ)
      → InRam s vmaid addr n
      → (i a : ℕ) → i < n
      → addr + i ≡ a
      → (v : ℕ) × (s.entries (s.mm.pgd + a / 256) ≡ some v)
        × (page_present v ≡ true)
        × (area (a / 256) ≡ vmaid)
  InRam-at s vmaid addr n h i a lt e = rw (← e) (h i lt)

  module _ (env : Env) (m : IsMalloc env) where
    setval_here :
        (k addr b vmaid v : ℕ) (s : System) (xs : List Entry)
        → IsMemory area s
        → s.entries (s.mm.pgd + addr / 256) ≡ some v
        → page_present v ≡ true
        → area (addr / 256) ≡ vmaid
        → addr < 2 ^ 22
        → Listed env (k + 1) s.lru s.mallocs xs
        → (l : Lru) × (pg_setval env (u32 addr) b vmaid s
            ≡ ok (
              0,
              record s {
                lru = l;
                mallocs = s.mallocs + 1;
                vm_lock = false;
                mram = record s.mram { storage = set s.mram.storage (place area v addr) b };
              },
            ))
          × Listed env k l (s.mallocs + 1) (
              insert
                (listed_entry env m s.mallocs
                  (s.mm.pgd + paging_pgn (u32 addr))
                  v
                  (paging_pgn (u32 addr)))
                xs)
    setval_here k addr b vmaid v s xs h e present kind small listed =
        let word : u32 addr ≡ addr = omega (arith, small) in
        let pgn : paging_pgn (u32 addr) ≡ addr / 256 =
          ap paging_pgn word ∙ omega (arith, small, paging_pgn_lem addr (omega (arith, small))) in
        let off : paging_offst (u32 addr) ≡ addr % 256 =
          ap paging_offst word ∙ paging_offst_lem addr (omega (arith, small)) in
        let held = h.holds (s.mm.pgd + addr / 256) (pte_fpn v) (v, e, present, refl) in
        let here_at : phyaddr vmaid (pte_fpn v) (paging_offst (u32 addr)) ≡ place area v addr =
          ap₂ (λ d o. phyaddr d (pte_fpn v) o) (sym kind) off in
        let (l, run, listed1) =
          pg_setval_online env m k (u32 addr) b vmaid v s xs
            (record {
              unlocked = h.unlocked;
              room = omega (arith, pgn, small);
              entry = ap (λ i. s.entries (s.mm.pgd + i)) pgn ∙ e;
              present = present;
            })
            listed h.random
            (omega (arith, here_at, place_inside area v addr (length s.mram.storage) held)) in
        (
          l,
          run
              ∙ ap
                  (λ i. ok (
                    0,
                    record s {
                      lru = l;
                      mallocs = s.mallocs + 1;
                      vm_lock = false;
                      mram = record s.mram { storage = set s.mram.storage i b };
                    },
                  ))
                  here_at,
          listed1,
        )

    pub clear_loop_lem :
        (n k addr vmaid : ℕ) (s : System) (xs : List Entry)
        → IsMemory area s
        → InRam s vmaid addr n
        → addr + n ≤ 2 ^ 22
        → Listed env (k + n) s.lru s.mallocs xs
        → (l : Lru) × (st : List ℕ) × (mallocs : ℕ) × (ys : List Entry) × (clear_loop env n addr
              vmaid s
            ≡ ok (
              tt,
              record s {
                lru = l;
                mallocs = mallocs;
                vm_lock = false;
                mram = record s.mram { storage = st };
              },
            ))
          × (length st ≡ length s.mram.storage)
          × (view area (record s {
            lru = l;
            mallocs = mallocs;
            vm_lock = false;
            mram = record s.mram { storage = st };
          })
              ≡ wiped n addr (view area s))
          × Listed env k l mallocs ys
    unfolding clear_loop
    clear_loop_lem zero k addr vmaid s xs h here small listed = (
      s.lru,
      s.mram.storage,
      s.mallocs,
      xs,
      rw (← h.unlocked) refl,
      refl,
      sym (wiped-zero addr (view area s)),
      record { lru = listed.lru; fuel = omega (arith, listed.fuel); unused = listed.unused },
    )
    clear_loop_lem (suc n) k addr vmaid s xs h here small listed =
        let (v, e, present, kind) =
          InRam-at s vmaid addr (suc n) here 0 addr (omega arith) (omega arith) in
        let at : ℕ = place area v addr in
        let (l, run, listed1) =
          setval_here (k + n) addr 0 vmaid v s xs h e present kind (omega (arith, small)) (record {
            lru = listed.lru;
            fuel = omega (arith, listed.fuel);
            unused = listed.unused;
          }) in
        let s1 : System = record s {
          lru = l;
          mallocs = s.mallocs + 1;
          vm_lock = false;
          mram = record s.mram { storage = set s.mram.storage at 0 };
        } in
        let (l', st, mallocs, ys, done, size, seen, listed2) =
          clear_loop_lem n k (addr + 1) vmaid s1 _ (IsMemory-set area s l (s.mallocs + 1) at 0 h)
            (λ i lt.
              InRam-at s vmaid addr (suc n) here (i + 1) (addr + 1 + i) (omega arith) (omega arith))
            (omega (arith, small)) listed1 in
        (
          l',
          st,
          mallocs,
          ys,
          rw (run, done) refl,
          size ∙ length-set s.mram.storage at 0,
          seen
              ∙ ap (wiped n (addr + 1)) (view-set area s addr 0 v l (s.mallocs + 1) h e present)
              ∙ wiped-suc n addr (view area s),
          listed2,
        )
