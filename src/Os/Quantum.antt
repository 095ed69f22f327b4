-- ===== src/Os/Quantum.antt =====
-- The quantum of `cpu_routine` of src/os.c.
use os_sim.Base.{
  ℕ, ◌+◌, ◌-◌, ◌^◌, ◌<◌, ◌≡◌, ◌≢◌, ◌⊎◌, inl, inr, refl, sym, subst, Bool, true, false, Option, none,
  some, Outcome, ok, exited, fault, ◌>>=◌, ◌==◌, if◌then◌else◌, Bool-cases, ℕ_discrete, ◌∙◌,
  minus_one, u32, arith,
}
use os_sim.Sched.{Sched, get_mlq_proc, put_mlq_proc}
use os_sim.Sched.Inv.{IsValid}
use os_sim.Sched.Get.{get_mlq_proc_lem}
use os_sim.Sched.Put.{put_mlq_proc_lem}
use os_sim.Os.{
  Next, stopped, skipped, ran, Cpu, Os, Machine, dispatch, load_new, replace, preempt, cpu_routine,
}

-- Between two iterations less than a quantum is left, and none without a process.
pub record IsTimed {A : Type 0} (time_slot : ℕ) (cpu : Cpu A) : Type 0 where
  pub bound : cpu.time_left < time_slot
  pub unused : cpu.proc ≡ none → cpu.time_left ≡ 0

not_ran : (b : Bool) → (if b then stopped else skipped) ≢ ran
not_ran true e = ground arith
not_ran false e = ground arith

Option-cases : {A : Type 0} (o : Option A) → (o ≡ none) ⊎ ((p : A) × (o ≡ some p))
Option-cases none = inl refl
Option-cases (some p) = inr (p, refl)

get_mlq_proc_cases :
    {A : Type 0} (s : Sched A)
    → IsValid s
    → (proc : Option A) × (s' : Sched A) × (get_mlq_proc s ≡ ok (proc, s')) × IsValid s'
get_mlq_proc_cases s v = elim (get_mlq_proc_lem s v) [
  | inl h ↦ (none, s, h.1, v)
  | inr (p, s', _, run, _, valid) ↦ (some p, s', run, valid)
]

module _ {A W : Type 0} (m : Machine A W) (time_slot num_processes : ℕ) (os : Os A W) where
  -- One run of `p` on what the threads share before the iteration, and then the given scheduler,
  -- counter and rest of the quantum. If the run does not return, nor does this.
  abbrev pub runs : (p : A) → Sched A → (cnt left : ℕ) → Outcome (Next × Cpu A × Os A W)
  runs p s cnt left = m.run p os.world >>= λ w. ok (
    ran,
    record { proc = some p; time_left = left },
    record os { sched = s; cnt_proc_done = cnt; world = w },
  )

  -- The iteration does what is left of it with the process that `get_mlq_proc` takes off the
  -- scheduler `s`: without one it runs nothing, and with one it starts a quantum.
  abbrev pub Switches : Sched A → (cnt : ℕ) → Outcome (Next × Cpu A × Os A W) → Type 0
  Switches s cnt o =
      (s' : Sched A) × IsValid s'
      × (((n : Next) × (get_mlq_proc s ≡ ok (none, s'))
            × (n ≢ ran)
            × (o
                ≡ ok (
                  n,
                  record { proc = none; time_left = 0 },
                  record os { sched = s'; cnt_proc_done = cnt },
                )))
          ⊎ ((p : A) × (get_mlq_proc s ≡ ok (some p, s')) × (o ≡ runs p s' cnt (time_slot - 1))))

  module _ (upper : time_slot < 2 ^ 31) (positive : 0 < time_slot) where
    dispatch_kept :
        (p : A) (t : ℕ)
        → 0 < t
        → t < time_slot
        → dispatch m time_slot num_processes (some p) t os
          ≡ runs p os.sched os.cnt_proc_done (t - 1)
    unfolding dispatch
    dispatch_kept p t more less =
        let going : (t == 0) ≡ false = ground arith in
        let left : u32 (t + minus_one) ≡ t - 1 = ground arith in rw (going, left) refl

    dispatch_new :
        (p : A) (s : Sched A) (cnt : ℕ)
        → dispatch m time_slot num_processes
            (some p)
            0
            (record os { sched = s; cnt_proc_done = cnt })
          ≡ runs p s cnt (time_slot - 1)
    unfolding dispatch
    dispatch_new p s cnt =
        let left : u32 (time_slot + minus_one) ≡ time_slot - 1 = ground arith in rw left refl

    dispatch-Switches :
        (s s' : Sched A) (proc : Option A) (cnt : ℕ)
        → get_mlq_proc s ≡ ok (proc, s')
        → IsValid s'
        → Switches s cnt (
            dispatch m time_slot num_processes proc 0
              (record os { sched = s'; cnt_proc_done = cnt }))
    dispatch-Switches s s' none cnt e v = (
      s',
      v,
      inl (if os.done then stopped else skipped, e, not_ran os.done, unfold dispatch in refl),
    )
    dispatch-Switches s s' (some p) cnt e v = (s', v, inr (p, e, dispatch_new p s' cnt))

    replace-Switches :
        IsValid os.sched
        → Switches os.sched (u32 (os.cnt_proc_done + 1)) (replace m time_slot num_processes os)
    unfolding replace
    replace-Switches v =
        let (proc, s, run, valid) = get_mlq_proc_cases os.sched v in
        subst (Switches os.sched (u32 (os.cnt_proc_done + 1))) (sym (rw run refl))
          (dispatch-Switches os.sched s proc (u32 (os.cnt_proc_done + 1)) run valid)

    load_new-Switches :
        IsValid os.sched
        → Switches os.sched os.cnt_proc_done (load_new m time_slot num_processes 0 os)
    unfolding load_new
    load_new-Switches v = elim (get_mlq_proc_lem os.sched v) [
      | inl h ↦ (
        os.sched,
        v,
        inl (
          if os.cnt_proc_done == num_processes then stopped else skipped,
          h.1,
          not_ran (os.cnt_proc_done == num_processes),
          rw h.1 refl,
        ),
      )
      | inr (p, s, _, run, _, valid) ↦
          (s, valid, inr (p, run, rw (run, dispatch_new p s os.cnt_proc_done) refl))
    ]

    preempt-Switches :
        (p : A) (s : Sched A)
        → put_mlq_proc (m.prio os.world) os.sched p ≡ ok s
        → IsValid s
        → Switches s os.cnt_proc_done (preempt m time_slot num_processes p os)
    unfolding preempt
    preempt-Switches p s put v =
        let (proc, s', run, valid) = get_mlq_proc_cases s v in
        subst (Switches s os.cnt_proc_done) (sym (rw (put, run) refl))
          (dispatch-Switches s s' proc os.cnt_proc_done run valid)

    -- The process at hand has run all its instructions.
    abbrev pub finished : Cpu A → Bool
    finished cpu = elim cpu.proc [
      | none ↦ false
      | some p ↦ m.pc os.world p == m.code_size os.world p
    ]

    -- How an iteration goes.
    abbrev pub Iterates : Cpu A → Outcome (Next × Cpu A × Os A W) → Type 0
    Iterates cpu o =
        (((cpu.proc ≡ none) ⊎ (finished cpu ≡ true))
          × Switches os.sched
              (if finished cpu then u32 (os.cnt_proc_done + 1) else os.cnt_proc_done) o)
        ⊎ ((p : A) × (cpu.proc ≡ some p)
            × (finished cpu ≡ false)
            × (((0 < cpu.time_left) × (o ≡ runs p os.sched os.cnt_proc_done (cpu.time_left - 1)))
                ⊎ ((cpu.time_left ≡ 0)
                    × (((s : Sched A) × (put_mlq_proc (m.prio os.world) os.sched p ≡ ok s)
                          × Switches s os.cnt_proc_done o)
                        ⊎ ((put_mlq_proc (m.prio os.world) os.sched p ≡ exited) × (o ≡ exited)
                            ⊎ (put_mlq_proc (m.prio os.world) os.sched p ≡ fault) × (o ≡ fault))))))

    without_process :
        (cpu : Cpu A)
        → cpu.proc ≡ none
        → cpu.time_left ≡ 0
        → IsValid os.sched
        → Iterates cpu (cpu_routine m time_slot num_processes cpu os)
    unfolding cpu_routine
    without_process cpu e g v = rw (e, g) (inl (inl refl, load_new-Switches v))

    with_finished :
        (cpu : Cpu A) (p : A)
        → cpu.proc ≡ some p
        → (m.pc os.world p == m.code_size os.world p) ≡ true
        → IsValid os.sched
        → Iterates cpu (cpu_routine m time_slot num_processes cpu os)
    unfolding cpu_routine
    with_finished cpu p e over v = rw (e, over) (inl (inr refl, replace-Switches v))

    with_time :
        (cpu : Cpu A) (p : A)
        → cpu.proc ≡ some p
        → (m.pc os.world p == m.code_size os.world p) ≡ false
        → 0 < cpu.time_left
        → cpu.time_left < time_slot
        → Iterates cpu (cpu_routine m time_slot num_processes cpu os)
    unfolding cpu_routine
    with_time cpu p e more some_left less =
        let going : (cpu.time_left == 0) ≡ false = ground arith in
        inr (
          p,
          e,
          rw (e, more) refl,
          inl (some_left, rw (e, more, going) (dispatch_kept p cpu.time_left some_left less)),
        )

    without_time :
        (cpu : Cpu A) (p : A)
        → cpu.proc ≡ some p
        → (m.pc os.world p == m.code_size os.world p) ≡ false
        → cpu.time_left ≡ 0
        → IsValid os.sched
        → Iterates cpu (cpu_routine m time_slot num_processes cpu os)
    unfolding cpu_routine
    without_time cpu p e more none_left v =
        let same : cpu_routine m time_slot num_processes cpu os
            ≡ preempt m time_slot num_processes p os =
          rw (e, more, none_left) refl in
        inr (
          p,
          e,
          rw (e, more) refl,
          inr (
            none_left,
            elim (put_mlq_proc_lem (m.prio os.world) os.sched p v) [
              | inl (s, _, put, _, w) ↦ inl (
                s,
                put,
                subst (Switches s os.cnt_proc_done) (sym same) (preempt-Switches p s put w),
              )
              | inr (inl (_, _, put)) ↦ inr (inl (put, same ∙ (unfold preempt in rw put refl)))
              | inr (inr (_, put)) ↦ inr (inr (put, same ∙ (unfold preempt in rw put refl)))
            ],
          ),
        )

    -- One iteration of `cpu_routine`, on a valid scheduler, with `time_slot` above 0 and below 2^31,
    -- less than a quantum left, and nothing left without a process. A process that has instructions
    -- and time left keeps the processor: one run of it follows, with one slot less left, and the
    -- scheduler and the counter are as before. A process with instructions but no time left is put
    -- back with `put_mlq_proc`; if that exits or faults, so does the iteration. After that, or if
    -- there was no process, or it had finished, which counts one more as finished, `get_mlq_proc`
    -- returns and leaves a valid scheduler: with a process, one run of it follows, and the whole
    -- quantum but one slot is left; with none, nothing is run and nothing left. In each case that
    -- run is the only change of the processes and the memory, and if it does not return, neither
    -- does the iteration.
    pub cpu_routine_lem :
        (cpu : Cpu A)
        → IsTimed time_slot cpu
        → IsValid os.sched
        → Iterates cpu (cpu_routine m time_slot num_processes cpu os)
    cpu_routine_lem cpu c v = elim (Option-cases cpu.proc) [
      | inl e ↦ without_process cpu e (c.unused e) v
      | inr (p, e) ↦ elim (Bool-cases (m.pc os.world p == m.code_size os.world p)) [
        | inl over ↦ with_finished cpu p e over v
        | inr more ↦ elim (ℕ_discrete cpu.time_left 0) [
          | no some_left ↦ with_time cpu p e more (omega (arith, some_left)) c.bound
          | yes none_left ↦ without_time cpu p e more none_left v
        ]
      ]
    ]
