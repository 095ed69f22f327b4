-- ===== src/Lru/Ops.antt =====
-- `update_LRU_lst`, `add_LRU_page` and `find_LRU_victim_page` of src/mm-vm.c against the
-- specification, on a list of any length.
use os_sim.Base.{
  ℕ, zero, suc, ◌<◌, ◌≡◌, ◌≢◌, refl, sym, ◌∙◌, ap, subst, ◌⊎◌, inl, inr, List, [], ◌∷◌, ◌++◌,
  length, ok, fault, arith, minus_one,
}
use os_sim.Pte.{pte_fpn}
use os_sim.Lru.{
  Node, Heap, Lru, Victim, update, load, append_tail, to_tail, find_reference, find_frame,
  update_lru_lst, add_lru_page, find_lru_victim_page,
}
use os_sim.Lru.Chain.{
  Entry, node, last, Apart, Seg-frame, Seg-split, load-ok, Same-update, set_pre-Seg, set_next-ok,
  Distinct-rotate, last-append, last-All,
}
use os_sim.Lru.Move.{IsLru, append_tail-Seg, to_tail_lem}
use os_sim.Lru.Spec.{
  promote, insert, Found-cases, promote-Missing, promote-found, insert-Missing, insert-found,
}
use os_sim.Lru.Refine.{
  find_frame-Missing, find_frame-found, find_reference-Missing, find_reference-found,
}

to_tail-last : (s : Lru) → to_tail s.lru_tail s ≡ ok s
unfolding to_tail
to_tail-last s = ground arith

update_calls :
    (fuel entry p : ℕ) (s t : Lru)
    → find_reference fuel (pte_fpn entry) s.lru_head s.cell ≡ ok p
    → to_tail p s ≡ ok t
    → update_lru_lst fuel entry s ≡ ok t
unfolding update_lru_lst
update_calls fuel entry p s t e r = rw e r

-- `update_LRU_lst`, given more fuel than there are entries, makes the frame of the page table entry
-- the most recently used, and leaves the list as it is if the frame is not on it. On an empty list
-- it reads through a null pointer.
pub update_lru_lst_lem :
    (fuel entry : ℕ) (s : Lru) (xs : List Entry)
    → IsLru s xs
    → length xs < fuel
    → ((xs ≡ []) × (update_lru_lst fuel entry s ≡ fault))
      ⊎ ((xs ≢ [])
          × ((s' : Lru) × (update_lru_lst fuel entry s ≡ ok s')
              × IsLru s' (promote (pte_fpn entry) xs)))
update_lru_lst_lem zero entry s xs v h = elim h [ ]
update_lru_lst_lem (suc fuel) entry s [] v h =
    inl (refl, unfold update_lru_lst find_reference load in ground (arith, v.head))
update_lru_lst_lem (suc fuel) entry s (x ∷ xs) v h = elim (Found-cases (pte_fpn entry) (x ∷ xs)) [
  | inl m ↦ inr (
    (λ e. cc),
    (
      s,
      update_calls (suc fuel) entry (last 0 (x ∷ xs)) s s
          (ap (λ p. find_reference (suc fuel) (pte_fpn entry) p s.cell) v.head
            ∙ find_reference-Missing (suc fuel) (pte_fpn entry) s.cell 0 x xs h v.chain m)
          (ap (λ p. to_tail p s) (sym v.tail) ∙ to_tail-last s),
      rw (promote-Missing (pte_fpn entry) (x ∷ xs) m) v,
    ),
  )
  | inr d ↦
      let w : IsLru s (d.before ++ (d.entry ∷ d.after)) = subst (IsLru s) d.whole v in
      let (s', run, u) = to_tail_lem s d.before d.entry d.after w in
      inr (
        (λ e. cc),
        (
          s',
          update_calls (suc fuel) entry d.entry.ptr s s'
              (ap (λ p. find_reference (suc fuel) (pte_fpn entry) p s.cell) w.head
                ∙ find_reference-found (suc fuel) (pte_fpn entry) s.cell 0 d.before d.entry d.after
                    (subst (λ ys. length ys < suc fuel) d.whole h) w.chain d.missing d.hit)
              run,
          rw (d.whole, promote-found (pte_fpn entry) d.before d.entry d.after d.missing d.hit) u,
        ),
      )
]

IsLru-update :
    (s : Lru) (xs : List Entry) (p : ℕ) (n : Node)
    → IsLru s xs
    → Apart p xs
    → IsLru (record s { cell = update s.cell p n }) xs
IsLru-update s xs p n v h = record {
  head = v.head;
  tail = v.tail;
  chain = Seg-frame s.cell (update s.cell p n) 0 xs 0 (Same-update s.cell p n xs h) v.chain;
  distinct = v.distinct;
}

-- The calls that `add_LRU_page` makes on a list that is not empty.
module _ (fuel tmp wild pte entry pgn : ℕ) (s t : Lru) (linked : s.lru_head ≢ 0) where
  abbrev fresh : Lru
  fresh = record s {
    cell =
        update s.cell tmp
          (record { lru_next = wild; lru_pre = wild; pte = pte; fpn = pte_fpn entry; pgn = pgn });
  }

  add_new_calls :
      find_frame fuel (pte_fpn entry) s.lru_head fresh.cell ≡ ok 0
      → append_tail tmp fresh ≡ ok t
      → add_lru_page fuel tmp wild pte entry pgn s ≡ ok t
  unfolding add_lru_page
  add_new_calls e r = ground arith

  add_old_calls :
      (p : ℕ)
      → find_frame fuel (pte_fpn entry) s.lru_head fresh.cell ≡ ok p
      → p ≢ 0
      → to_tail p fresh ≡ ok t
      → add_lru_page fuel tmp wild pte entry pgn s ≡ ok t
  unfolding add_lru_page
  add_old_calls p e h r = ground arith

-- `add_LRU_page`, given more fuel than there are entries and a fresh node, returns, and does to the
-- list what `insert` does: a frame that is listed becomes the most recently used and keeps its old
-- entry, any other is added as the most recently used, with the data of the call.
pub add_lru_page_lem :
    (fuel tmp wild pte entry pgn : ℕ) (s : Lru) (xs : List Entry)
    → IsLru s xs
    → length xs < fuel
    → tmp ≢ 0
    → Apart tmp xs
    → (s' : Lru) × (add_lru_page fuel tmp wild pte entry pgn s ≡ ok s')
      × IsLru s' (insert (record { ptr = tmp; pte = pte; fpn = pte_fpn entry; pgn = pgn }) xs)
add_lru_page_lem fuel tmp wild pte entry pgn s [] v h ne apart =
    let x : Entry = record { ptr = tmp; pte = pte; fpn = pte_fpn entry; pgn = pgn } in
    (
      record { cell = update s.cell tmp (node 0 0 x); lru_head = tmp; lru_tail = tmp },
      unfold add_lru_page in ground (arith, v.head),
      subst
          (IsLru (record { cell = update s.cell tmp (node 0 0 x); lru_head = tmp; lru_tail = tmp }))
          (sym (insert-Missing x [] tt))
          (record {
            head = refl;
            tail = refl;
            chain = (ne, ground arith, tt);
            distinct = (tt, tt);
          }),
    )
add_lru_page_lem fuel tmp wild pte entry pgn s (a ∷ rest) v h ne apart =
    let x : Entry = record { ptr = tmp; pte = pte; fpn = pte_fpn entry; pgn = pgn } in
    let s' : Lru = record s { cell = update s.cell tmp (node wild wild x) } in
    let w : IsLru s' (a ∷ rest) = IsLru-update s (a ∷ rest) tmp (node wild wild x) v apart in
    let linked : s.lru_head ≢ 0 = λ e. v.chain.0 (sym v.head ∙ e) in
    elim (Found-cases x.fpn (a ∷ rest)) [
      | inl m ↦
          let (d, run, seg, _) =
            append_tail-Seg s'.cell s.lru_head 0 a rest 0 x wild wild w.chain w.distinct apart ne
              (ground arith) in
          (
            record { cell = d; lru_head = s.lru_head; lru_tail = tmp },
            add_new_calls fuel tmp wild pte entry pgn s _ linked
                (ap (λ p. find_frame fuel x.fpn p s'.cell) v.head
                  ∙ find_frame-Missing fuel x.fpn s'.cell 0 (a ∷ rest) h w.chain m)
                (ap
                    (λ z.
                      append_tail tmp
                        (record { cell = s'.cell; lru_head = s.lru_head; lru_tail = z }))
                    v.tail
                  ∙ run),
            subst (IsLru (record { cell = d; lru_head = s.lru_head; lru_tail = tmp }))
                (sym (insert-Missing x (a ∷ rest) m))
                (record {
                  head = v.head;
                  tail = sym (last-append 0 (a ∷ rest) (x ∷ []));
                  chain = seg;
                  distinct = Distinct-rotate x (a ∷ rest) (apart, v.distinct);
                }),
          )
      | inr d ↦
          let u : IsLru s' (d.before ++ (d.entry ∷ d.after)) = subst (IsLru s') d.whole w in
          let (t, run, new) = to_tail_lem s' d.before d.entry d.after u in
          (
            t,
            add_old_calls fuel tmp wild pte entry pgn s t linked d.entry.ptr
                (ap (λ p. find_frame fuel x.fpn p s'.cell) u.head
                  ∙ find_frame-found fuel x.fpn s'.cell 0 d.before d.entry d.after
                      (subst (λ ys. length ys < fuel) d.whole h) u.chain d.missing d.hit)
                (Seg-split s'.cell 0 d.before (d.entry ∷ d.after) 0 u.chain).1.0 run,
            subst (IsLru t)
                (sym
                  (ap (insert x) d.whole ∙ insert-found x d.before d.entry d.after d.missing d.hit))
                new,
          )
    ]

-- `find_LRU_victim_page` takes the least recently used page off the list and returns its data, or
-- returns -1 on an empty list and changes nothing.
pub find_lru_victim_page_lem :
    (before : Victim) (s : Lru) (xs : List Entry)
    → IsLru s xs
    → ((xs ≡ []) × (find_lru_victim_page before s ≡ ok (record before { status = minus_one }, s)))
      ⊎ ((x : Entry) × (rest : List Entry) × (s' : Lru) × (xs ≡ x ∷ rest)
          × (find_lru_victim_page before s
              ≡ ok (record { status = 0; pgn = x.pgn; fpn = x.fpn; pte = x.pte }, s'))
          × IsLru s' rest)
find_lru_victim_page_lem before s [] v =
    inl (refl, unfold find_lru_victim_page in ground (arith, v.head))
find_lru_victim_page_lem before s (x ∷ []) v = inr (
  x,
  [],
  record s { lru_head = 0; lru_tail = 0 },
  refl,
  unfold find_lru_victim_page in
      ground (arith, v.head, v.tail, load-ok s.cell x.ptr (node 0 0 x) v.chain.0 v.chain.1),
  record { head = refl; tail = refl; chain = tt; distinct = tt },
)
find_lru_victim_page_lem before s (x ∷ y ∷ ys) v =
    let (d, run, seg, same) = set_pre-Seg s.cell x.ptr 0 y ys 0 v.chain.2 v.distinct.1.0 in
    let kept = same (x ∷ []) (λ e. v.distinct.0.0 (sym e), tt) in
    let e : Heap = update d x.ptr (node 0 0 x) in
    inr (
      x,
      y ∷ ys,
      record { cell = e; lru_head = y.ptr; lru_tail = s.lru_tail },
      refl,
      unfold find_lru_victim_page in
          ground (
            arith,
            v.head,
            v.tail,
            last-All (λ p. x.ptr ≢ p) x.ptr y ys v.distinct.0,
            load-ok s.cell x.ptr (node y.ptr 0 x) v.chain.0 v.chain.1,
            v.chain.2.0,
            run,
            set_next-ok d x.ptr 0 (node y.ptr 0 x) v.chain.0 (kept.0 ∙ v.chain.1),
          ),
      record {
        head = refl;
        tail = v.tail;
        chain =
            Seg-frame d e 0 (y ∷ ys) 0 (Same-update d x.ptr (node 0 0 x) (y ∷ ys) v.distinct.0) seg;
        distinct = v.distinct.1;
      },
    )
