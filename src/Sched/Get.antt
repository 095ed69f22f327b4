-- ===== src/Sched/Get.antt =====
-- `get_mlq_proc` of src/sched.c: which process it takes, and that it takes one.
use os_sim.Base.{
  ℕ, suc, ◌+◌, ◌-◌, ◌≤◌, ◌≡◌, ◌≢◌, refl, ap, sym, ◌∙◌, ◌⊎◌, inl, inr, subst, true, false, none,
  some, List, [], ◌∷◌, ◌++◌, length, All, ok, arith, Bool-cases,
}
use os_sim.Queue
use os_sim.Queue.{Queue}
use os_sim.Queue.Refine.{contents, dequeue-some}
use os_sim.Sched.{
  max_prio, Level, Sched, reset_from, init_slot, any_waiting, pick, get_loop, get_mlq_proc, waiting,
  queue_empty,
}
use os_sim.Sched.Inv.{
  LevelsFrom, IsValid, eligible, Skipped, init_slot-IsValid, LevelsFrom-split, LevelsFrom-change,
  length-change,
}

module _ {A : Type 0} where
  -- A level that may be served, behind levels that may not.
  pub record Split (ls : List (Level A)) : Type 0 where
    pub before : List (Level A)
    pub level : Level A
    pub after : List (Level A)
    pub whole : ls ≡ before ++ (level ∷ after)
    pub skipped : All Skipped before
    pub chosen : eligible level ≡ true

  Split-cons : (l : Level A) (ls : List (Level A)) → Skipped l → Split ls → Split (l ∷ ls)
  Split-cons l ls h s = record {
    before = l ∷ s.before;
    level = s.level;
    after = s.after;
    whole = ap (λ t. l ∷ t) s.whole;
    skipped = (h, s.skipped);
    chosen = s.chosen;
  }

  -- Either no level may be served, or there is a first one.
  pub Split-cases : (ls : List (Level A)) → All Skipped ls ⊎ Split ls
  Split-cases [] = inl tt
  Split-cases (l ∷ ls) = elim (Bool-cases (eligible l)) [
    | inl e ↦
        inr (record { before = []; level = l; after = ls; whole = refl; skipped = tt; chosen = e })
    | inr e ↦ elim (Split-cases ls) [ inl h ↦ inl (e, h) | inr s ↦ inr (Split-cons l ls e s) ]
  ]

  pick-Skipped : (ls : List (Level A)) → All Skipped ls → pick ls ≡ ok (none, ls)
  unfolding pick
  pick-Skipped [] h = refl
  pick-Skipped (l ∷ ls) h = rw (h.0, pick-Skipped ls h.1)

  pick-chosen :
      (before : List (Level A)) (l : Level A) (after : List (Level A)) (p : A) (q : Queue A)
      → All Skipped before
      → eligible l ≡ true
      → Queue.dequeue l.queue ≡ ok (some p, q)
      → pick (before ++ (l ∷ after))
        ≡ ok (some p, before ++ (record l { queue = q; slot = l.slot - 1 } ∷ after))
  unfolding pick
  pick-chosen [] l after p q h e d = rw (e, d)
  pick-chosen (b ∷ before) l after p q h e d = rw (h.0, pick-chosen before l after p q h.1 e d)

  get_loop-some :
      (fuel : ℕ) (s : Sched A) (p : A) (ls : List (Level A))
      → waiting s ≡ true
      → pick s.levels ≡ ok (some p, ls)
      → get_loop (suc fuel) s ≡ ok (some p, record s { levels = ls })
  unfolding get_loop
  get_loop-some fuel s p ls w e = rw (w, e) (ground arith)

  -- No level may be served, but some queue holds a process: the slots start anew.
  get_loop-reset :
      (fuel : ℕ) (s : Sched A)
      → waiting s ≡ true
      → All Skipped s.levels
      → get_loop (suc fuel) s ≡ get_loop fuel (init_slot s)
  unfolding get_loop
  get_loop-reset fuel s w h = rw (w, pick-Skipped s.levels h, w)

  pub waiting-any : (s : Sched A) → waiting s ≡ any_waiting s.levels
  unfolding queue_empty
  waiting-any s = ground arith

  -- `p` is the oldest process of the first level that may be served, and it alone leaves.
  pub record Served (s : Sched A) (p : A) (s' : Sched A) : Type 0 where
    pub split : Split s.levels
    pub queue : Queue A
    pub oldest : contents split.level.queue ≡ p ∷ contents queue
    pub result : s' ≡ record s {
      levels =
          split.before
          ++ (record split.level { queue = queue; slot = split.level.slot - 1 } ∷ split.after);
    }

  eligible-parts : (l : Level A) → eligible l ≡ true → (Queue.empty l.queue ≡ false) × (l.slot ≢ 0)
  eligible-parts l e = ground arith

  Split-LevelsFrom :
      (s : Sched A) (t : Split s.levels)
      → IsValid s
      → LevelsFrom 0 (t.before ++ (t.level ∷ t.after))
  Split-LevelsFrom s t v = subst (LevelsFrom 0) t.whole v.sound

  serve :
      (fuel : ℕ) (s : Sched A)
      → IsValid s
      → waiting s ≡ true
      → Split s.levels
      → (p : A) × (s' : Sched A) × (get_loop (suc fuel) s ≡ ok (some p, s'))
        × Served s p s'
        × IsValid s'
  serve fuel s v w t =
      let sound = LevelsFrom-split 0 t.before t.level t.after (Split-LevelsFrom s t v) in
      let (p, q, run, oldest, valid) =
        dequeue-some t.level.queue sound.0 (eligible-parts t.level t.chosen).0 in
      let m : Level A = record t.level { queue = q; slot = t.level.slot - 1 } in
      (
        p,
        record s { levels = t.before ++ (m ∷ t.after) },
        get_loop-some fuel s p _ w
            (ap pick t.whole ∙ pick-chosen t.before t.level t.after p q t.skipped t.chosen run),
        record { split = t; queue = q; oldest = oldest; result = refl },
        record {
          count = length-change t.before t.level m t.after ∙ sym (ap length t.whole) ∙ v.count;
          sound =
              LevelsFrom-change 0 t.before t.level m t.after (Split-LevelsFrom s t v) valid
                (omega arith);
        },
      )

  -- After a reset every level has a slot, so one that is not empty is not skipped.
  reset-not-Skipped :
      (i : ℕ) (ls : List (Level A))
      → i + length ls ≤ max_prio
      → any_waiting ls ≡ true
      → All Skipped (reset_from i ls)
      → ⊥
  unfolding any_waiting reset_from
  reset-not-Skipped i [] h w skipped = cc
  reset-not-Skipped i (l ∷ ls) h w skipped =
      ground (arith, reset-not-Skipped (suc i) ls (omega arith))

  any_waiting-reset : (i : ℕ) (ls : List (Level A)) → any_waiting (reset_from i ls) ≡ any_waiting ls
  unfolding any_waiting reset_from
  any_waiting-reset i [] = refl
  any_waiting-reset i (l ∷ ls) = rw (any_waiting-reset (suc i) ls)

  after_reset :
      (s : Sched A)
      → IsValid s
      → any_waiting s.levels ≡ true
      → (p : A) × (s' : Sched A) × (get_loop 2 (init_slot s) ≡ ok (some p, s'))
        × Served (init_slot s) p s'
        × IsValid s'
  unfolding init_slot
  after_reset s v busy = elim (Split-cases (init_slot s).levels) [
    | inl skipped ↦ absurd (reset-not-Skipped 0 s.levels (omega (arith, v.count)) busy skipped)
    | inr t ↦
        serve 1 (init_slot s) (init_slot-IsValid s v)
          (waiting-any (init_slot s) ∙ any_waiting-reset 0 s.levels ∙ busy) t
  ]

  -- `get_mlq_proc` on a valid scheduler. With every queue empty it returns NULL and changes
  -- nothing. Otherwise it returns a process, within its three rounds: the oldest of the first level
  -- that has a process and a slot left, which costs the level one slot; if no level has both, all
  -- slots are first reset. The scheduler stays valid.
  pub get_mlq_proc_lem :
      (s : Sched A)
      → IsValid s
      → ((any_waiting s.levels ≡ false) × (get_mlq_proc s ≡ ok (none, s)))
        ⊎ ((p : A) × (s' : Sched A) × (any_waiting s.levels ≡ true)
            × (get_mlq_proc s ≡ ok (some p, s'))
            × (Served s p s' ⊎ (All Skipped s.levels × Served (init_slot s) p s'))
            × IsValid s')
  unfolding get_mlq_proc
  get_mlq_proc_lem s v = elim (Bool-cases (any_waiting s.levels)) [
    | inr idle ↦ inl (idle, unfold get_loop in rw (waiting-any s, idle))
    | inl busy ↦ inr (elim (Split-cases s.levels) [
      | inr t ↦
          let (p, s', run, served, valid) = serve 2 s v (waiting-any s ∙ busy) t in
          (p, s', busy, run, inl served, valid)
      | inl skipped ↦
          let (p, s', run, served, valid) = after_reset s v busy in
          (
            p,
            s',
            busy,
            get_loop-reset 2 s (waiting-any s ∙ busy) skipped ∙ run,
            inr (skipped, served),
            valid,
          )
    ])
  ]
