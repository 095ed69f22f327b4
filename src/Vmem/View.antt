-- ===== src/Vmem/View.antt =====
-- What a process sees of the memory of src/mm-vm.c: a byte at each virtual address in RAM.
use os_sim.Base.{
  ℕ, ◌+◌, ◌*◌, ◌/◌, ◌%◌, ◌<◌, ◌≤◌, ◌≡◌, ◌≢◌, ◌==◌, inl, inr, refl, sym, ◌∙◌, ap, true, false,
  Bool-cases, List, All, length, set, get_elem?, Option, none, some, arith, ℕ_discrete,
  if◌then◌else◌, get_elem?-set_self, get_elem?-set_ne,
}
use mathlib.Core.Option.{some_inj}
use mathlib.Core.Path.{fun_ext}
use os_sim.Memphy.{Memphy, pagesz}
use os_sim.Memphy.Access.{IsRandom}
use os_sim.Pte.{pte_fpn, page_present}
use os_sim.Lru.{Lru}
use os_sim.Vmem.{System, update}
use os_sim.Vmem.Page.{phyaddr}
use os_sim.Vmem.Owned.{InFrame, IsOwned}

-- The area of each page decides the direction of its bytes.
module _ (area : ℕ → ℕ) where
  abbrev pub place : (v a : ℕ) → ℕ
  place v a = phyaddr (area (a / 256)) (pte_fpn v) (a % 256)

  abbrev pub byte_at : Memphy → ℕ → Option ℕ → Option ℕ
  byte_at mp a none = none
  byte_at mp a (some v) = if page_present v then get_elem? mp.storage (place v a) else none

  abbrev pub view : System → ℕ → Option ℕ
  view s a = byte_at s.mram a (s.entries (s.mm.pgd + a / 256))

  -- Each frame, of a page or free, lies in the RAM, which is random-access and idle.
  pub record IsMemory (s : System) : Type 0 where
    pub unlocked : s.vm_lock ≡ false
    pub random : IsRandom s.mram
    pub owned : IsOwned s.entries s.mram.free_fp_list
    pub room : All (λ f. f * pagesz + pagesz ≤ length s.mram.storage) s.mram.free_fp_list
    pub holds : (p f : ℕ) → InFrame s.entries p f → f * pagesz + pagesz ≤ length s.mram.storage

  pub place_inside : (v a n : ℕ) → pte_fpn v * pagesz + pagesz ≤ n → place v a < n
  place_inside v a n h = ground arith

  place_ne :
      (c : ℕ → Option ℕ) (pgd a b v w : ℕ) (free : List ℕ)
      → IsOwned c free
      → a ≢ b
      → c (pgd + a / 256) ≡ some v
      → page_present v ≡ true
      → c (pgd + b / 256) ≡ some w
      → page_present w ≡ true
      → place v a ≢ place w b
  place_ne c pgd a b v w free o ne ea pa eb pb = elim (ℕ_discrete (a / 256) (b / 256)) [
    | yes page ↦
        let value : v ≡ w = some_inj.0 (sym ea ∙ ap (λ i. c (pgd + i)) page ∙ eb) in
        let direction : area (a / 256) ≡ area (b / 256) = ap area page in
        rw (← value) (ground (arith, direction, page))
    | no other ↦
        let frames : pte_fpn v ≢ pte_fpn w = λ same.
          o.alone (pgd + a / 256) (pgd + b / 256) (pte_fpn v) (omega (arith, other))
            (v, ea, pa, refl) (w, eb, pb, sym same) in
        ground (arith, frames)
  ]

  -- The byte at a place that is written, and at every other address.
  byte_at-set :
      (s : System) (a b v x : ℕ)
      → IsMemory s
      → s.entries (s.mm.pgd + a / 256) ≡ some v
      → page_present v ≡ true
      → (o : Option ℕ) → s.entries (s.mm.pgd + x / 256) ≡ o
      → byte_at (record s.mram { storage = set s.mram.storage (place v a) b }) x o
        ≡ (if a == x then some b else byte_at s.mram x o)
  byte_at-set s a b v x m e p none ex = elim (ℕ_discrete a x) [
    | yes same ↦
        let clash : some v ≡ none = sym e ∙ ap (λ i. s.entries (s.mm.pgd + i / 256)) same ∙ ex in
        absurd (ground (arith, clash))
    | no ne ↦ ground (arith, ne)
  ]
  byte_at-set s a b v x m e p (some w) ex = elim (ℕ_discrete a x) [
    | yes same ↦
        let value : v ≡ w =
          some_inj.0 (sym e ∙ ap (λ i. s.entries (s.mm.pgd + i / 256)) same ∙ ex) in
        let held = m.holds (s.mm.pgd + a / 256) (pte_fpn v) (v, e, p, refl) in
        rw (← same, ← value)
          (ground (
            arith,
            p,
            get_elem?-set_self s.mram.storage (place v a) b
                (place_inside v a (length s.mram.storage) held),
          ))
    | no ne ↦ elim (Bool-cases (page_present w)) [
      | inl q ↦ ground (
        arith,
        ne,
        q,
        get_elem?-set_ne s.mram.storage (place v a) (place w x) b
            (place_ne s.entries s.mm.pgd a x v w s.mram.free_fp_list m.owned ne e p ex q),
      )
      | inr q ↦ ground (arith, ne, q)
    ]
  ]

  pub view-set :
      (s : System) (a b v : ℕ) (l : Lru) (mallocs : ℕ)
      → IsMemory s
      → s.entries (s.mm.pgd + a / 256) ≡ some v
      → page_present v ≡ true
      → view (record s {
        lru = l;
        mallocs = mallocs;
        vm_lock = false;
        mram = record s.mram { storage = set s.mram.storage (place v a) b };
      })
        ≡ update (view s) a b
  view-set s a b v l mallocs m e p =
      fun_ext (λ x. byte_at-set s a b v x m e p (s.entries (s.mm.pgd + x / 256)) refl)
