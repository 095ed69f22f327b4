-- ===== src/Timer/Stop.antt =====
-- The end of the timer thread of src/timer.c.
use os_sim.Base.{
  ℕ, zero, suc, ◌+◌, ◌*◌, ◌≤◌, ◌≡◌, ◌≢◌, ◌==◌, refl, ◌∙◌, ap, true, false, Bool-cases, inl, inr,
  none, some, List, [], ◌∷◌, get_elem?, get_elem?-total, set, length, length-set, if◌then◌else◌,
  arith, u64, ltb, ltb→lt,
}
use os_sim.Timer.{
  Device, Phase, idle, head, collecting, releasing, stopped, Timer, stop_timer, stop_timer_end,
  collect, release, advance, timer_routine,
}

-- So many steps of the timer thread alone, or fewer where it has none.
pub timer_run : ℕ → Timer → Timer
timer_run zero s = s
timer_run (suc n) s = elim (timer_routine s) [ none ↦ s | some t ↦ timer_run n t ]

abbrev AllFinished : List Device → Type 0
AllFinished ds = (i : ℕ) (d : Device) → get_elem? ds i ≡ some d → d.fsh ≡ true

get_elem?-beyond : (ds : List Device) (i : ℕ) → length ds ≤ i → get_elem? ds i ≡ none
get_elem?-beyond [] i h = refl
get_elem?-beyond (d ∷ ds) zero h = absurd (omega arith)
get_elem?-beyond (d ∷ ds) (suc i) h = get_elem?-beyond ds i (omega arith)

run_suc : (n : ℕ) (s t : Timer) → timer_routine s ≡ some t → timer_run (suc n) s ≡ timer_run n t
unfolding timer_run
run_suc n s t e = ground (arith, e)

run_stopped : (n : ℕ) (s : Timer) → s.phase ≡ stopped → (timer_run n s).phase ≡ stopped
unfolding timer_run timer_routine advance
run_stopped zero s e = e
run_stopped (suc n) s e = ground (arith, e)

step_head :
    (s : Timer)
    → s.phase ≡ head
    → s.timer_stop ≡ true
    → timer_routine s ≡ some (record s { phase = stopped })
unfolding timer_routine advance
step_head s e h = ground (arith, e, h)

run_head :
    (n : ℕ) (s : Timer)
    → s.phase ≡ head
    → s.timer_stop ≡ true
    → 1 ≤ n
    → (timer_run n s).phase ≡ stopped
run_head zero s e h le = absurd (omega arith)
run_head (suc n) s e h le =
    ap (λ t. t.phase) (run_suc n s (record s { phase = stopped }) (step_head s e h))
    ∙ run_stopped n (record s { phase = stopped }) refl

step_releasing_end :
    (i f e : ℕ) (s : Timer)
    → s.phase ≡ releasing i f e
    → get_elem? s.dev_list i ≡ none
    → timer_routine s ≡ some (record s { phase = if f == e then stopped else head })
unfolding timer_routine advance release
step_releasing_end i f e s p g = ground (arith, p, g)

step_releasing :
    (i f e : ℕ) (d : Device) (s : Timer)
    → s.phase ≡ releasing i f e
    → get_elem? s.dev_list i ≡ some d
    → timer_routine s
      ≡ some (record s {
        dev_list = set s.dev_list i (record d { done = false });
        phase = releasing (i + 1) f e;
      })
unfolding timer_routine advance release
step_releasing i f e d s p g = ground (arith, p, g)

run_released :
    (n i f e : ℕ) (s : Timer)
    → s.phase ≡ releasing i f e
    → s.timer_stop ≡ true
    → length s.dev_list ≤ i
    → 1 ≤ n
    → (timer_run (suc n) s).phase ≡ stopped
run_released n i f e s p h len le =
    let t : Timer = record s { phase = if f == e then stopped else head } in
    ap (λ t. t.phase)
      (run_suc n s t (step_releasing_end i f e s p (get_elem?-beyond s.dev_list i (omega arith))))
    ∙ elim (Bool-cases (f == e)) [
      | inl y ↦ run_stopped n t (rw y refl)
      | inr y ↦ run_head n t (rw y refl) h (omega arith)
    ]

run_releasing :
    (m n i f e : ℕ) (s : Timer)
    → s.phase ≡ releasing i f e
    → s.timer_stop ≡ true
    → length s.dev_list ≤ i + m
    → m + 2 ≤ n
    → (timer_run n s).phase ≡ stopped
run_releasing m zero i f e s p h len le = absurd (omega arith)
run_releasing zero (suc n) i f e s p h len le =
    run_released n i f e s p h (omega (arith, len)) (omega (arith, le))
run_releasing (suc m) (suc n) i f e s p h len le = elim (Bool-cases (ltb i (length s.dev_list))) [
  | inl lt ↦
      let (d, g) = get_elem?-total s.dev_list i (ltb→lt i (length s.dev_list) lt) in
      let t : Timer = record s {
        dev_list = set s.dev_list i (record d { done = false });
        phase = releasing (i + 1) f e;
      } in
      ap (λ t. t.phase) (run_suc n s t (step_releasing i f e d s p g))
      ∙ run_releasing m n (i + 1) f e t refl h
          (omega (arith, len, length-set s.dev_list i (record d { done = false })))
          (omega (arith, le))
  | inr ge ↦ run_released n i f e s p h (ground (arith, ge)) (omega (arith, le))
]

step_collecting_end :
    (i f e : ℕ) (s : Timer)
    → s.phase ≡ collecting i f e
    → get_elem? s.dev_list i ≡ none
    → timer_routine s
      ≡ some (record s { time = u64 (s.time + 1); ticks = s.ticks + 1; phase = releasing 0 f e })
unfolding timer_routine advance collect
step_collecting_end i f e s p g = ground (arith, p, g)

step_collecting :
    (i f e : ℕ) (d : Device) (s : Timer)
    → s.phase ≡ collecting i f e
    → get_elem? s.dev_list i ≡ some d
    → d.fsh ≡ true
    → timer_routine s ≡ some (record s { phase = collecting (i + 1) (f + 1) (e + 1) })
unfolding timer_routine advance collect
step_collecting i f e d s p g h = ground (arith, p, g, h)

run_collected :
    (n i f e : ℕ) (s : Timer)
    → s.phase ≡ collecting i f e
    → s.timer_stop ≡ true
    → length s.dev_list ≤ i
    → length s.dev_list + 2 ≤ n
    → (timer_run (suc n) s).phase ≡ stopped
run_collected n i f e s p h len le =
    let t : Timer = record s {
      time = u64 (s.time + 1);
      ticks = s.ticks + 1;
      phase = releasing 0 f e;
    } in
    ap (λ t. t.phase)
      (run_suc n s t (step_collecting_end i f e s p (get_elem?-beyond s.dev_list i (omega arith))))
    ∙ run_releasing (length s.dev_list) n 0 f e t refl h (omega arith) (omega (arith, le))

run_collecting :
    (m n i f e : ℕ) (s : Timer)
    → s.phase ≡ collecting i f e
    → s.timer_stop ≡ true
    → AllFinished s.dev_list
    → length s.dev_list ≤ i + m
    → m + 1 + (length s.dev_list + 2) ≤ n
    → (timer_run n s).phase ≡ stopped
run_collecting m zero i f e s p h fin len le = absurd (omega arith)
run_collecting zero (suc n) i f e s p h fin len le =
    run_collected n i f e s p h (omega (arith, len)) (omega (arith, le))
run_collecting (suc m) (suc n) i f e s p h fin len le =
    elim (Bool-cases (ltb i (length s.dev_list))) [
      | inl lt ↦
          let (d, g) = get_elem?-total s.dev_list i (ltb→lt i (length s.dev_list) lt) in
          let t : Timer = record s { phase = collecting (i + 1) (f + 1) (e + 1) } in
          ap (λ t. t.phase) (run_suc n s t (step_collecting i f e d s p g (fin i d g)))
          ∙ run_collecting m n (i + 1) (f + 1) (e + 1) t refl h fin (omega (arith, len))
              (omega (arith, le))
      | inr ge ↦ run_collected n i f e s p h (ground (arith, ge)) (omega (arith, le))
    ]

freed : (s : Timer) → s.phase ≡ stopped → stop_timer_end s ≡ some (record s { dev_list = [] })
unfolding stop_timer_end
freed s e = ground (arith, e)

steps :
    (s : Timer) (n : ℕ) (p : Phase)
    → s.phase ≡ p
    → p ≢ idle
    → s.timer_stop ≡ true
    → AllFinished s.dev_list
    → 2 * length s.dev_list + 3 ≤ n
    → (timer_run n s).phase ≡ stopped
steps s n idle e started h fin le = absurd (started refl)
steps s n head e started h fin le = run_head n s e h (omega (arith, le))
steps s n (collecting i f v) e started h fin le =
    run_collecting (length s.dev_list) n i f v s e h fin (omega arith) (omega (arith, le))
steps s n (releasing i f v) e started h fin le =
    run_releasing (length s.dev_list) n i f v s e h (omega arith) (omega (arith, le))
steps s n stopped e started h fin le = run_stopped n s e

-- Once the timer thread runs and the threads of all devices have ended, wherever the timer thread is
-- when `stop_timer` sets the flag, it ends within 2 k + 3 steps of its own, k being the number of
-- devices, and stays ended; `stop_timer` then frees every element of the list.
pub stop_timer-stops :
    (s : Timer) (n : ℕ)
    → s.phase ≢ idle
    → ((i : ℕ) (d : Device) → get_elem? s.dev_list i ≡ some d → d.fsh ≡ true)
    → 2 * length s.dev_list + 3 ≤ n
    → (s' : Timer) × (timer_run n (stop_timer s) ≡ s')
      × (s'.phase ≡ stopped)
      × (timer_routine s' ≡ none)
      × (stop_timer_end s' ≡ some (record s' { dev_list = [] }))
unfolding stop_timer timer_routine advance
stop_timer-stops s n started fin le =
    let t : Timer = record s { timer_stop = true } in
    let ended = steps t n s.phase refl started refl fin le in
    (timer_run n t, refl, ended, ground (arith, ended), freed (timer_run n t) ended)
