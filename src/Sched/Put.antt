-- ===== src/Sched/Put.antt =====
-- `put_mlq_proc` and `add_mlq_proc` of src/sched.c: where the process goes, and when they fail.
use os_sim.Base.{
  ℕ, zero, suc, ◌≤◌, ◌<◌, ◌≡◌, refl, ap, sym, ◌∙◌, ◌⊎◌, inl, inr, subst, List, [], ◌∷◌, ◌++◌,
  length, ok, exited, fault, arith, dec_lt,
}
use os_sim.Queue
use os_sim.Queue.{Queue, max_queue_size}
use os_sim.Queue.Refine.{contents, enqueue-ok, enqueue-full}
use os_sim.Sched.{max_prio, Level, Sched, enqueue_at, put_mlq_proc, add_mlq_proc}
use os_sim.Sched.Inv.{LevelsFrom, IsValid, LevelsFrom-split, LevelsFrom-change, length-change}

module _ {A : Type 0} where
  -- The level at index `i`.
  pub record At (ls : List (Level A)) (i : ℕ) : Type 0 where
    pub before : List (Level A)
    pub level : Level A
    pub after : List (Level A)
    pub whole : ls ≡ before ++ (level ∷ after)
    pub index : length before ≡ i

  pub At-total : (ls : List (Level A)) (i : ℕ) → i < length ls → At ls i
  At-total [] i h = elim h [ ]
  At-total (l ∷ ls) zero h = record {
    before = [];
    level = l;
    after = ls;
    whole = refl;
    index = refl;
  }
  At-total (l ∷ ls) (suc i) h =
      let a = At-total ls i (omega arith) in
      record {
        before = l ∷ a.before;
        level = a.level;
        after = a.after;
        whole = ap (λ t. l ∷ t) a.whole;
        index = ap suc a.index;
      }

  enqueue_at-out : (ls : List (Level A)) (i : ℕ) (p : A) → length ls ≤ i → enqueue_at ls i p ≡ fault
  unfolding enqueue_at
  enqueue_at-out [] i p h = refl
  enqueue_at-out (l ∷ ls) zero p h = absurd (omega arith)
  enqueue_at-out (l ∷ ls) (suc i) p h = rw (enqueue_at-out ls i p (omega arith))

  enqueue_at-ok :
      (before : List (Level A)) (l : Level A) (after : List (Level A)) (p : A) (q : Queue A)
      → Queue.enqueue l.queue p ≡ ok q
      → enqueue_at (before ++ (l ∷ after)) (length before) p
        ≡ ok (before ++ (record l { queue = q } ∷ after))
  unfolding enqueue_at
  enqueue_at-ok [] l after p q e = rw e
  enqueue_at-ok (b ∷ before) l after p q e = rw (enqueue_at-ok before l after p q e)

  enqueue_at-full :
      (before : List (Level A)) (l : Level A) (after : List (Level A)) (p : A)
      → Queue.enqueue l.queue p ≡ exited
      → enqueue_at (before ++ (l ∷ after)) (length before) p ≡ exited
  unfolding enqueue_at
  enqueue_at-full [] l after p e = rw e
  enqueue_at-full (b ∷ before) l after p e = rw (enqueue_at-full before l after p e)

  -- `p` is now the youngest of the queue at index `i`, and nothing else has changed.
  pub record Joined (s : Sched A) (i : ℕ) (p : A) (s' : Sched A) : Type 0 where
    pub place : At s.levels i
    pub queue : Queue A
    pub youngest : contents queue ≡ contents place.level.queue ++ (p ∷ [])
    pub result :
        s'
        ≡ record s { levels = place.before ++ (record place.level { queue = queue } ∷ place.after) }

  module _ (prio : A → ℕ) where
    -- `put_mlq_proc` with a priority in range puts the process behind the others of its priority
    -- and keeps the scheduler valid, or exits because that queue is full; with a priority out of
    -- range it writes outside the array.
    pub put_mlq_proc_lem :
        (s : Sched A) (p : A)
        → IsValid s
        → ((s' : Sched A) × (prio p < max_prio)
            × (put_mlq_proc prio s p ≡ ok s')
            × Joined s (prio p) p s'
            × IsValid s')
          ⊎ (((a : At s.levels (prio p)) × (a.level.queue.size ≡ max_queue_size)
                × (put_mlq_proc prio s p ≡ exited))
              ⊎ ((max_prio ≤ prio p) × (put_mlq_proc prio s p ≡ fault)))
    unfolding put_mlq_proc
    put_mlq_proc_lem s p v = elim (dec_lt (prio p) max_prio) [
      | no out ↦
          inr (inr (omega arith, rw (enqueue_at-out s.levels (prio p) p (omega (arith, v.count)))))
      | yes h ↦
          let a = At-total s.levels (prio p) (omega (arith, v.count)) in
          let whole : LevelsFrom 0 (a.before ++ (a.level ∷ a.after)) =
            subst (LevelsFrom 0) a.whole v.sound in
          let sound = LevelsFrom-split 0 a.before a.level a.after whole in
          elim (dec_lt a.level.queue.size max_queue_size) [
            | no full ↦
                let size : a.level.queue.size ≡ max_queue_size = omega (arith, sound.0.bound) in
                inr (
                  inl (
                    a,
                    size,
                    rw (
                      a.whole,
                      ← a.index,
                      enqueue_at-full a.before a.level a.after p
                          (enqueue-full a.level.queue p size),
                    ),
                  ))
            | yes room ↦
                let (q, run, youngest, valid) = enqueue-ok a.level.queue p sound.0 room in
                let m : Level A = record a.level { queue = q } in
                inl (
                  record s { levels = a.before ++ (m ∷ a.after) },
                  h,
                  rw (a.whole, ← a.index, enqueue_at-ok a.before a.level a.after p q run),
                  record { place = a; queue = q; youngest = youngest; result = refl },
                  record {
                    count =
                        length-change a.before a.level m a.after
                        ∙ sym (ap length a.whole)
                        ∙ v.count;
                    sound =
                        LevelsFrom-change 0 a.before a.level m a.after whole valid (omega arith);
                  },
                )
          ]
    ]

    -- The loader's entry point does what the processors' does.
    pub add_mlq_proc-eq-put : (s : Sched A) (p : A) → add_mlq_proc prio s p ≡ put_mlq_proc prio s p
    unfolding add_mlq_proc put_mlq_proc
    add_mlq_proc-eq-put s p = refl
