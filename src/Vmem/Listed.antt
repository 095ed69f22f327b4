-- ===== src/Vmem/Listed.antt =====
-- The list of pages in RAM under the paging functions: it stays a list, and its nodes distinct.
use os_sim.Base.{
  ℕ, ◌+◌, ◌≤◌, ◌<◌, ◌≡◌, ◌≢◌, inl, inr, refl, sym, ◌∙◌, ap, subst, List, [], ◌∷◌, ◌++◌, length,
  length-append, ok, arith, some, Bool-cases, true,
}
use os_sim.Pte.{pte_fpn}
use os_sim.Lru.{Lru}
use os_sim.Lru.Chain.{Entry, Apart, Apart-append, Apart-split}
use os_sim.Lru.Move.{IsLru}
use os_sim.Lru.Spec.{promote, insert, has_frame, Found-cases, promote-Missing, promote-found}
use os_sim.Lru.Ops.{add_lru_page_lem, update_lru_lst_lem}
use os_sim.Vmem.{System, Env, add_lru, update_lru}
use os_sim.Vmem.Addr.{load_entry_lem}

-- `malloc` never returns NULL, nor an address twice.
pub record IsMalloc (env : Env) : Type 0 where
  pub valid : (n : ℕ) → env.malloc n ≢ 0
  pub fresh : (m n : ℕ) → m ≢ n → env.malloc m ≢ env.malloc n

-- The list is `xs`, with fuel to spare for `k` more entries, and no address still to come is in it.
pub record Listed (env : Env) (k : ℕ) (l : Lru) (mallocs : ℕ) (xs : List Entry) : Type 0 where
  pub lru : IsLru l xs
  pub fuel : length xs + k < env.fuel
  pub unused : (n : ℕ) → mallocs ≤ n → Apart (env.malloc n) xs

Apart-promote : (f : ℕ) (xs : List Entry) (a : ℕ) → Apart a xs → Apart a (promote f xs)
Apart-promote f xs a h = elim (Found-cases f xs) [
  | inl m ↦ subst (Apart a) (sym (promote-Missing f xs m)) h
  | inr d ↦
      let (p, q) = Apart-split a d.before (d.entry ∷ d.after) (subst (Apart a) d.whole h) in
      subst (Apart a)
        (sym (ap (promote f) d.whole ∙ promote-found f d.before d.entry d.after d.missing d.hit))
        (Apart-append a d.before (d.after ++ (d.entry ∷ [])) p
          (Apart-append a d.after (d.entry ∷ []) q.1 (q.0, tt)))
]

pub length-promote : (f : ℕ) (xs : List Entry) → length (promote f xs) ≡ length xs
length-promote f xs = elim (Found-cases f xs) [
  | inl m ↦ ap length (promote-Missing f xs m)
  | inr d ↦
      ap length (ap (promote f) d.whole ∙ promote-found f d.before d.entry d.after d.missing d.hit)
      ∙ omega (
        arith,
        length-append d.before (d.after ++ (d.entry ∷ [])),
        length-append d.after (d.entry ∷ []),
        length-append d.before (d.entry ∷ d.after),
      )
      ∙ ap length (sym d.whole)
]

Apart-insert :
    (x : Entry) (xs : List Entry) (a : ℕ) → Apart a xs → a ≢ x.ptr → Apart a (insert x xs)
unfolding insert
Apart-insert x xs a h ne = elim (Bool-cases (has_frame x.fpn xs)) [
  | inl e ↦ rw e (Apart-promote x.fpn xs a h)
  | inr e ↦ rw e (Apart-append a xs (x ∷ []) h (ne, tt))
]

length-insert : (x : Entry) (xs : List Entry) → length (insert x xs) ≤ length xs + 1
unfolding insert
length-insert x xs = elim (Bool-cases (has_frame x.fpn xs)) [
  | inl e ↦ rw e (omega (arith, length-promote x.fpn xs))
  | inr e ↦ rw e (omega (arith, length-append xs (x ∷ [])))
]

module _ (env : Env) (m : IsMalloc env) where
  -- The node that the call allocates, if the page is new.
  abbrev pub listed_entry : (mallocs p v pgn : ℕ) → Entry
  listed_entry mallocs p v pgn = record {
    ptr = env.malloc mallocs;
    pte = p;
    fpn = pte_fpn v;
    pgn = pgn;
  }

  pub add_lru_lem :
      (k p v pgn : ℕ) (s : System) (xs : List Entry)
      → Listed env (k + 1) s.lru s.mallocs xs
      → s.entries p ≡ some v
      → (l : Lru) × (add_lru env p pgn s ≡ ok (tt, record s { lru = l; mallocs = s.mallocs + 1 }))
        × Listed env k l (s.mallocs + 1) (insert (listed_entry s.mallocs p v pgn) xs)
  unfolding add_lru
  add_lru_lem k p v pgn s xs h e =
      let x : Entry = listed_entry s.mallocs p v pgn in
      let (l, run, lru) =
        add_lru_page_lem env.fuel (env.malloc s.mallocs) env.wild p v pgn s.lru xs h.lru
          (omega (arith, h.fuel)) (m.valid s.mallocs) (h.unused s.mallocs (omega arith)) in
      (
        l,
        rw (load_entry_lem p v s e, run) refl,
        record {
          lru = lru;
          fuel = omega (arith, h.fuel, length-insert x xs);
          unused = λ n le.
              Apart-insert x xs (env.malloc n) (h.unused n (omega arith))
                (m.fresh n s.mallocs (omega arith));
        },
      )

  pub update_lru_lem :
      (k v : ℕ) (s : System) (xs : List Entry)
      → Listed env k s.lru s.mallocs xs
      → xs ≢ []
      → (l : Lru) × (update_lru env v s ≡ ok (tt, record s { lru = l }))
        × Listed env k l s.mallocs (promote (pte_fpn v) xs)
  unfolding update_lru
  update_lru_lem k v s xs h ne =
      elim (update_lru_lst_lem env.fuel v s.lru xs h.lru (omega (arith, h.fuel))) [
        | inl z ↦ absurd (ne z.0)
        | inr (_, (l, run, lru)) ↦ (
          l,
          rw run refl,
          record {
            lru = lru;
            fuel = omega (arith, h.fuel, length-promote (pte_fpn v) xs);
            unused = λ n le. Apart-promote (pte_fpn v) xs (env.malloc n) (h.unused n le);
          },
        )
      ]

has_frame_pos : (f : ℕ) (xs : List Entry) → has_frame f xs ≡ true → 0 < length xs
unfolding has_frame
has_frame_pos f [] e = absurd (ground arith)
has_frame_pos f (x ∷ xs) e = omega arith

insert_pos : (x : Entry) (xs : List Entry) → 0 < length (insert x xs)
unfolding insert
insert_pos x xs = elim (Bool-cases (has_frame x.fpn xs)) [
  | inl e ↦ rw e (omega (arith, length-promote x.fpn xs, has_frame_pos x.fpn xs e))
  | inr e ↦ rw e (omega (arith, length-append xs (x ∷ [])))
]

pub insert-ne-nil : (x : Entry) (xs : List Entry) → insert x xs ≢ []
insert-ne-nil x xs e = omega (arith, ap length e, insert_pos x xs)
