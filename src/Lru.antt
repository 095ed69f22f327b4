-- ===== src/Lru.antt =====
-- The list of pages in RAM of src/mm-vm.c, least recently used first: a doubly linked list on an
-- explicit heap. A pointer is a number, NULL is 0. `LRU_lock` is held throughout each function, so
-- a function is one step.
pub mod Chain
pub mod Move
pub mod Spec
pub mod Refine
pub mod Ops
mod Tests
use os_sim.Base.{
  ℕ, zero, suc, Option, none, some, Outcome, ok, fault, no_fuel, ◌>>=◌, ◌==◌, if◌then◌else◌,
  minus_one,
}
use os_sim.Pte.{pte_fpn}

-- `struct LRU_list`. `pte` is the address of a page table entry.
pub record Node : Type 0 where
  pub lru_next : ℕ
  pub lru_pre : ℕ
  pub pte : ℕ
  pub fpn : ℕ
  pub pgn : ℕ

abbrev pub Heap : Type 0
Heap = ℕ → Option Node

pub record Lru : Type 0 where
  pub cell : Heap
  pub lru_head : ℕ
  pub lru_tail : ℕ

abbrev pub update : Heap → ℕ → Node → Heap
update c p n q = if p == q then some n else c q

-- `*p`: nothing is at NULL, nor at an address that was not allocated.
pub load : Heap → ℕ → Outcome Node
load c p = if p == 0 then fault else elim (c p) [ none ↦ fault | some n ↦ ok n ]

-- `p->lru_next = q` and `p->lru_pre = q`
pub set_next : ℕ → ℕ → Heap → Outcome Heap
unfolding load
set_next p q c = do n ← load c p; ok (update c p (record n { lru_next = q }))

pub set_pre : ℕ → ℕ → Heap → Outcome Heap
unfolding load
set_pre p q c = do n ← load c p; ok (update c p (record n { lru_pre = q }))

-- The last lines of `update_LRU_lst`, which `add_LRU_page` repeats.
pub append_tail : ℕ → Lru → Outcome Lru
append_tail p s = do
  c ← set_next s.lru_tail p s.cell
  c ← set_pre p s.lru_tail c
  c ← set_next p 0 c
  ok (record s { cell = c; lru_tail = p })

-- From the test `p == lru_head` on, in `update_LRU_lst` as in `add_LRU_page`.
pub to_tail : ℕ → Lru → Outcome Lru
to_tail p s =
    if p == s.lru_head
    then (if s.lru_head == s.lru_tail then ok s else (do
      n ← load s.cell s.lru_head
      c ← set_pre n.lru_next 0 s.cell
      append_tail p (record s { cell = c; lru_head = n.lru_next })))
    else if p == s.lru_tail
    then ok s
    else (do
      n ← load s.cell p
      c ← set_next n.lru_pre n.lru_next s.cell
      n ← load c p
      c ← set_pre n.lru_next n.lru_pre c
      append_tail p (record s { cell = c }))

-- The loop of `update_LRU_lst`, on fuel.
pub find_reference : ℕ → ℕ → ℕ → Heap → Outcome ℕ
find_reference zero fpn p c = no_fuel
find_reference (suc fuel) fpn p c = do
  n ← load c p
  let rest = find_reference fuel fpn n.lru_next c
  if n.lru_next == 0 then ok p else if n.fpn == fpn then ok p else rest

-- `entry` is `*pte`.
unfoldable pub update_lru_lst : (fuel entry : ℕ) → Lru → Outcome Lru
update_lru_lst fuel entry s = do
  p ← find_reference fuel (pte_fpn entry) s.lru_head s.cell
  to_tail p s

-- The loop of `add_LRU_page`, on fuel; NULL if the frame is not found.
pub find_frame : ℕ → ℕ → ℕ → Heap → Outcome ℕ
find_frame zero fpn p c = no_fuel
find_frame (suc fuel) fpn p c = if p == 0 then ok 0 else (do
  n ← load c p
  let rest = find_frame fuel fpn n.lru_next c
  if n.fpn == fpn then ok p else rest)

-- `tmp` is the node that `malloc` returns, `wild` the value of its fields that are not set.
unfoldable pub add_lru_page : (fuel tmp wild pte entry pgn : ℕ) → Lru → Outcome Lru
add_lru_page fuel tmp wild pte entry pgn s =
    let node : Node = record {
      lru_next = wild;
      lru_pre = wild;
      pte = pte;
      fpn = pte_fpn entry;
      pgn = pgn;
    } in
    let s' = record s { cell = update s.cell tmp node } in
    if s.lru_head == 0
    then ok (record s' {
      cell = update s.cell tmp (record node { lru_next = 0; lru_pre = 0 });
      lru_head = tmp;
      lru_tail = tmp;
    })
    else (do
      p ← find_frame fuel (pte_fpn entry) s.lru_head s'.cell
      if p == 0 then append_tail tmp s' else to_tail p s')

-- What `find_LRU_victim_page` leaves behind its three pointers, with its `int`.
pub record Victim : Type 0 where
  pub status : ℕ
  pub pgn : ℕ
  pub fpn : ℕ
  pub pte : ℕ

-- `before` is what the pointers hold before the call; on an empty list they keep it.
unfoldable pub find_lru_victim_page : (before : Victim) → Lru → Outcome (Victim × Lru)
find_lru_victim_page before s =
    if s.lru_head == 0 then ok (record before { status = minus_one }, s) else (do
      temp ← load s.cell s.lru_head
      let victim : Victim = record { status = 0; pgn = temp.pgn; fpn = temp.fpn; pte = temp.pte }
      if s.lru_head == s.lru_tail then ok (victim, record s { lru_head = 0; lru_tail = 0 }) else (do
        c ← (if temp.lru_next == 0 then ok s.cell else set_pre temp.lru_next 0 s.cell)
        c ← set_next s.lru_head 0 c
        ok (victim, record s { cell = c; lru_head = temp.lru_next })))
