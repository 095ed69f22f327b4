-- ===== src/Sched/Ready.antt =====
-- The processes that wait in the scheduler of src/sched.c: none is lost, none is doubled.
use os_sim.Base.{
  ℕ, suc, ◌<◌, ◌≡◌, refl, ap, sym, ◌∙◌, inl, inr, subst, false, some, List, [], ◌∷◌, ◌++◌, length,
  length-append, ◌≢◌, ok, arith,
}
use mathlib.Core.List.{append_assoc}
use os_sim.Queue
use os_sim.Queue.{Queue}
use os_sim.Queue.{max_queue_size}
use os_sim.Queue.Refine.{contents, length-take}
use os_sim.Sched.{
  max_prio, Level, Sched, reset_from, init_slot, any_waiting, get_mlq_proc, put_mlq_proc,
}
use os_sim.Sched.Inv.{IsValid, LevelsFrom, LevelsFrom-split}
use os_sim.Sched.Get.{Served, get_mlq_proc_lem}
use os_sim.Sched.Put.{At, Joined, put_mlq_proc_lem}

module _ {A : Type 0} where
  -- All that wait, by priority and then by age.
  unfoldable pub ready : List (Level A) → List A
  ready [] = []
  ready (l ∷ ls) = contents l.queue ++ ready ls

  nil_of_length : (xs : List A) → length xs ≡ 0 → xs ≡ []
  nil_of_length [] h = refl
  nil_of_length (x ∷ xs) h = absurd (omega arith)

  nil_append : (xs ys : List A) → xs ≡ [] → ys ≡ [] → xs ++ ys ≡ []
  nil_append xs ys e f = rw (e, f)

  -- `xs` is `ys` with `p` put in at one place.
  pub record Insertion (p : A) (xs ys : List A) : Type 0 where
    pub front : List A
    pub back : List A
    pub with_it : xs ≡ front ++ (p ∷ back)
    pub without : ys ≡ front ++ back

  ready-append : (xs ys : List (Level A)) → ready (xs ++ ys) ≡ ready xs ++ ready ys
  unfolding ready
  ready-append [] ys = refl
  ready-append (x ∷ xs) ys = rw (ready-append xs ys, append_assoc)

  ready-reset_from : (i : ℕ) (ls : List (Level A)) → ready (reset_from i ls) ≡ ready ls
  unfolding ready reset_from
  ready-reset_from i [] = refl
  ready-reset_from i (l ∷ ls) = rw (ready-reset_from (suc i) ls)

  Served-Insertion :
      (s : Sched A) (p : A) (s' : Sched A)
      → Served s p s'
      → Insertion p (ready s.levels) (ready s'.levels)
  unfolding ready
  Served-Insertion s p s' d = record {
    front = ready d.split.before;
    back = contents d.queue ++ ready d.split.after;
    with_it =
        ap ready d.split.whole
        ∙ ready-append d.split.before (d.split.level ∷ d.split.after)
        ∙ ap (λ t. ready d.split.before ++ (t ++ ready d.split.after)) d.oldest;
    without = ap (λ (t : Sched A). ready t.levels) d.result ∙ ready-append d.split.before _;
  }

  Joined-Insertion :
      (s : Sched A) (i : ℕ) (p : A) (s' : Sched A)
      → Joined s i p s'
      → Insertion p (ready s'.levels) (ready s.levels)
  unfolding ready
  Joined-Insertion s i p s' d = record {
    front = ready d.place.before ++ contents d.place.level.queue;
    back = ready d.place.after;
    with_it =
        ap (λ (t : Sched A). ready t.levels) d.result
        ∙ ready-append d.place.before _
        ∙ ap (λ t. ready d.place.before ++ (t ++ ready d.place.after)) d.youngest
        ∙ simp append_assoc;
    without =
        ap ready d.place.whole
        ∙ ready-append d.place.before (d.place.level ∷ d.place.after)
        ∙ simp append_assoc;
  }

  Served-reset_Insertion :
      (s : Sched A) (p : A) (t : Sched A)
      → Served (init_slot s) p t
      → Insertion p (ready s.levels) (ready t.levels)
  unfolding init_slot
  Served-reset_Insertion s p t d =
      subst (λ xs. Insertion p xs (ready t.levels)) (ready-reset_from 0 s.levels)
        (Served-Insertion (init_slot s) p t d)

  moved :
      (s : Sched A) (q p : A) (t s' : Sched A)
      → q ≡ p
      → t ≡ s'
      → Insertion q (ready s.levels) (ready t.levels)
      → Insertion p (ready s.levels) (ready s'.levels)
  moved s q p t s' e f d =
      subst (λ (u : Sched A). Insertion p (ready s.levels) (ready u.levels)) f
        (subst (λ a. Insertion a (ready s.levels) (ready t.levels)) e d)

  -- A call of `get_mlq_proc` that returns a process removes it, and nothing else, from those that
  -- wait.
  pub get_mlq_proc-Insertion :
      (s s' : Sched A) (p : A)
      → IsValid s
      → get_mlq_proc s ≡ ok (some p, s')
      → Insertion p (ready s.levels) (ready s'.levels)
  get_mlq_proc-Insertion s s' p v e = elim (get_mlq_proc_lem s v) [
    | inl (idle, run) ↦ absurd (cc)
    | inr (q, t, busy, run, inl served, valid) ↦
        moved s q p t s' (cc) (cc) (Served-Insertion s q t served)
    | inr (q, t, busy, run, inr (skipped, served), valid) ↦
        moved s q p t s' (cc) (cc) (Served-reset_Insertion s q t served)
  ]

  size-contents : (q : Queue A) → Queue.Refine.IsValid q → length (contents q) ≡ q.size
  size-contents q v = length-take q.size q.proc (omega (arith, v.array, v.bound))

  any_waiting-ready :
      (i : ℕ) (ls : List (Level A)) → LevelsFrom i ls → any_waiting ls ≡ false → ready ls ≡ []
  unfolding any_waiting ready Queue.empty
  any_waiting-ready i [] v h = refl
  any_waiting-ready i (l ∷ ls) v h =
      let size : l.queue.size ≡ 0 = ground arith in
      nil_append (contents l.queue) (ready ls)
        (nil_of_length (contents l.queue) (size-contents l.queue v.0 ∙ size))
        (any_waiting-ready (suc i) ls v.2 (ground arith))

  -- Taking one from a list of one.
  only :
      (p q : A) (xs ys front back : List A)
      → xs ≡ p ∷ []
      → xs ≡ front ++ (q ∷ back)
      → ys ≡ front ++ back
      → (q ≡ p) × (ys ≡ [])
  only p q xs ys [] back e f g = (cc, cc)
  only p q xs ys (a ∷ []) back e f g = absurd (cc)
  only p q xs ys (a ∷ b ∷ front) back e f g = absurd (cc)

  alone :
      (p : A) (xs front back : List A) → [] ≡ front ++ back → xs ≡ front ++ (p ∷ back) → xs ≡ p ∷ []
  alone p xs [] back e f = cc
  alone p xs (a ∷ front) back e f = absurd (cc)

  get_one :
      (s : Sched A) (p : A)
      → IsValid s
      → ready s.levels ≡ p ∷ []
      → (t : Sched A) × (get_mlq_proc s ≡ ok (some p, t)) × (ready t.levels ≡ [])
  get_one s p v one = elim (get_mlq_proc_lem s v) [
    | inl (idle, run) ↦ absurd (cc (any_waiting-ready 0 s.levels v.sound idle))
    | inr (q, t, busy, run, how, valid) ↦
        let d = get_mlq_proc-Insertion s t q v run in
        let (same, left) =
          only p q (ready s.levels) (ready t.levels) d.front d.back one d.with_it d.without in
        (t, run ∙ ap (λ x. ok (some x, t)) same, left)
  ]

  module _ (prio : A → ℕ) where
    -- A call of `put_mlq_proc` that returns adds the process, and nothing else, to those that wait.
    pub put_mlq_proc-Insertion :
        (s s' : Sched A) (p : A)
        → IsValid s
        → put_mlq_proc prio s p ≡ ok s'
        → Insertion p (ready s'.levels) (ready s.levels)
    put_mlq_proc-Insertion s s' p v e = elim (put_mlq_proc_lem prio s p v) [
      | inl (t, h, run, joined, valid) ↦
          subst (λ (t : Sched A). Insertion p (ready t.levels) (ready s.levels)) {x = t} {y = s'}
            (cc) (Joined-Insertion s (prio p) p t joined)
      | inr (inl (a, size, run)) ↦ absurd (cc)
      | inr (inr (out, run)) ↦ absurd (cc)
    ]

    not-full :
        (s : Sched A) (i : ℕ) (a : At s.levels i)
        → IsValid s
        → ready s.levels ≡ []
        → a.level.queue.size ≢ max_queue_size
    unfolding ready
    not-full s i a v e full =
        let whole = subst (LevelsFrom 0) a.whole v.sound in
        let valid = (LevelsFrom-split 0 a.before a.level a.after whole).0 in
        let parts : length (ready a.before ++ (contents a.level.queue ++ ready a.after)) ≡ 0 =
          ap length
            (sym (ready-append a.before (a.level ∷ a.after)) ∙ sym (ap ready a.whole) ∙ e) in
        omega (
          arith,
          parts,
          size-contents a.level.queue valid,
          length-append (ready a.before) (contents a.level.queue ++ ready a.after),
          length-append (contents a.level.queue) (ready a.after),
        )

    -- With no other process waiting, `put_mlq_proc` followed by `get_mlq_proc` gives the process
    -- back, and none waits afterwards.
    pub get-put :
        (s : Sched A) (p : A)
        → IsValid s
        → prio p < max_prio
        → ready s.levels ≡ []
        → (s1 s2 : Sched A) × (put_mlq_proc prio s p ≡ ok s1)
          × (get_mlq_proc s1 ≡ ok (some p, s2))
          × (ready s2.levels ≡ [])
    get-put s p v h e = elim (put_mlq_proc_lem prio s p v) [
      | inr (inl (a, size, run)) ↦ absurd (not-full s (prio p) a v e size)
      | inr (inr (out, run)) ↦ absurd (omega arith)
      | inl (s1, lt, run, joined, valid) ↦
          let d = Joined-Insertion s (prio p) p s1 joined in
          let one = alone p (ready s1.levels) d.front d.back (sym e ∙ d.without) d.with_it in
          let (s2, got, left) = get_one s1 p valid one in (s1, s2, run, got, left)
    ]
