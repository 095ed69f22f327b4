-- ===== src/Timer/Devices.antt =====
-- What holds of the devices of src/timer.c in each phase of the timer, and that a step of a device
-- keeps it.
use os_sim.Base.{
  ℕ, zero, suc, ◌+◌, ◌^◌, ◌%◌, ◌≡◌, ◌⊎◌, refl, sym, ap, subst, true, false, Option, none, some,
  List, [], ◌∷◌, get_elem?, set, All, if◌then◌else◌, arith,
}
use os_sim.Timer.{
  running, waiting, ended, Device, Phase, idle, head, collecting, releasing, stopped, Timer,
  is_running, is_waiting, at_device, report, resume, finish,
}

-- What holds of a device at any time.
abbrev pub IsSound : Device → Type 0
IsSound d =
    ((d.thread ≡ running) × (d.done ≡ false) × (d.fsh ≡ false))
    ⊎ (((d.thread ≡ waiting) × (d.fsh ≡ false)) ⊎ ((d.thread ≡ ended) × (d.fsh ≡ true)))

-- In slot `t` the device has reported as often as `done` says.
abbrev pub InSlot : ℕ → Device → Type 0
InSlot t d = IsSound d × ((d.fsh ≡ true) ⊎ (d.calls ≡ (if d.done then t + 1 else t)))

-- The device has reported `t` times and waits, or has finished.
abbrev pub Reported : ℕ → Device → Type 0
Reported t d = IsSound d × ((d.fsh ≡ true) ⊎ ((d.done ≡ true) × (d.calls ≡ t)))

-- The devices in front of position `i` satisfy `P`, the others `Q`.
abbrev pub Split : (P Q : Device → Type 0) → ℕ → List Device → Type 0
Split P Q i [] = Unit
Split P Q zero (d ∷ ds) = Q d × Split P Q zero ds
Split P Q (suc i) (d ∷ ds) = P d × Split P Q i ds

module _ (P Q : Device → Type 0) where
  pub Split-set :
      (i j : ℕ) (ds : List Device) (d d' : Device)
      → Split P Q i ds
      → get_elem? ds j ≡ some d
      → (P d → P d')
      → (Q d → Q d')
      → Split P Q i (set ds j d')
  Split-set i j [] d d' s e p q = tt
  Split-set zero zero (x ∷ ds) d d' s e p q = (q (subst Q (ground arith) s.0), s.1)
  Split-set (suc i) zero (x ∷ ds) d d' s e p q = (p (subst P (ground arith) s.0), s.1)
  Split-set zero (suc j) (x ∷ ds) d d' s e p q = (s.0, Split-set zero j ds d d' s.1 e p q)
  Split-set (suc i) (suc j) (x ∷ ds) d d' s e p q = (s.0, Split-set i j ds d d' s.1 e p q)

  -- The loop handles the device at its position.
  pub Split-suc :
      (i : ℕ) (ds : List Device) (d d' : Device)
      → Split P Q i ds
      → get_elem? ds i ≡ some d
      → (Q d → P d')
      → Split P Q (suc i) (set ds i d')
  Split-suc i [] d d' s e q = tt
  Split-suc zero (x ∷ ds) d d' s e q = (q (subst Q (ground arith) s.0), s.1)
  Split-suc (suc i) (x ∷ ds) d d' s e q = (s.0, Split-suc i ds d d' s.1 e q)

  pub Split-none : (i : ℕ) (ds : List Device) → Split P Q i ds → get_elem? ds i ≡ none → All P ds
  Split-none i [] s e = tt
  Split-none zero (x ∷ ds) s e = absurd (ground arith)
  Split-none (suc i) (x ∷ ds) s e = (s.0, Split-none i ds s.1 e)

  pub Split-zero : (ds : List Device) → All Q ds → Split P Q 0 ds
  Split-zero [] a = tt
  Split-zero (d ∷ ds) a = (a.0, Split-zero ds a.1)

  pub Split-get :
      (R : Device → Type 0) (i j : ℕ) (ds : List Device) (d : Device)
      → Split P Q i ds
      → get_elem? ds j ≡ some d
      → (P d → R d)
      → (Q d → R d)
      → R d
  Split-get R i j [] d s e p q = absurd (ground arith)
  Split-get R zero zero (x ∷ ds) d s e p q = q (subst Q (ground arith) s.0)
  Split-get R (suc i) zero (x ∷ ds) d s e p q = p (subst P (ground arith) s.0)
  Split-get R zero (suc j) (x ∷ ds) d s e p q = Split-get R zero j ds d s.1 e p q
  Split-get R (suc i) (suc j) (x ∷ ds) d s e p q = Split-get R i j ds d s.1 e p q

pub set-same : (ds : List Device) (i : ℕ) (d : Device) → get_elem? ds i ≡ some d → set ds i d ≡ ds
set-same [] i d e = refl
set-same (x ∷ ds) zero d e = ground arith
set-same (x ∷ ds) (suc i) d e = ap (λ t. x ∷ t) (set-same ds i d e)

-- What holds of the devices in each phase, after `t` ticks.
abbrev pub InPhase : Phase → ℕ → List Device → Type 0
InPhase idle t ds = (t ≡ 0) × Split (InSlot t) (InSlot t) 0 ds
InPhase head t ds = Split (InSlot t) (InSlot t) 0 ds
InPhase (collecting i fsh event) t ds = Split (Reported (t + 1)) (InSlot t) i ds
InPhase (releasing i fsh event) t ds = Split (InSlot t) (Reported t) i ds
InPhase stopped t ds = Split (InSlot t) (InSlot t) 0 ds

-- A step of a device, in any phase.
InPhase-set :
    (p : Phase) (t i : ℕ) (ds : List Device) (d d' : Device)
    → InPhase p t ds
    → get_elem? ds i ≡ some d
    → (InSlot t d → InSlot t d')
    → ((u : ℕ) → Reported u d → Reported u d')
    → InPhase p t (set ds i d')
InPhase-set idle t i ds d d' s e f g = (s.0, Split-set (InSlot t) (InSlot t) 0 i ds d d' s.1 e f f)
InPhase-set head t i ds d d' s e f g = Split-set (InSlot t) (InSlot t) 0 i ds d d' s e f f
InPhase-set (collecting k fsh event) t i ds d d' s e f g =
    Split-set (Reported (t + 1)) (InSlot t) k i ds d d' s e (g (t + 1)) f
InPhase-set (releasing k fsh event) t i ds d d' s e f g =
    Split-set (InSlot t) (Reported t) k i ds d d' s e f (g t)
InPhase-set stopped t i ds d d' s e f g = Split-set (InSlot t) (InSlot t) 0 i ds d d' s e f f

at_device_cases :
    (s s' : Timer) (i : ℕ) (f : Device → Option Device)
    → at_device s i f ≡ some s'
    → (d d' : Device) × (get_elem? s.dev_list i ≡ some d)
      × (f d ≡ some d')
      × (s' ≡ record s { dev_list = set s.dev_list i d' })
at_device_cases s s' i f e = found (get_elem? s.dev_list i) refl
  where
    acted :
        (d : Device) (m : Option Device)
        → get_elem? s.dev_list i ≡ some d
        → f d ≡ m
        → (d d' : Device) × (get_elem? s.dev_list i ≡ some d)
          × (f d ≡ some d')
          × (s' ≡ record s { dev_list = set s.dev_list i d' })
    acted d none g h = absurd (unfold at_device in ground (arith, e, g, h))
    acted d (some d') g h = (d, d', g, h, unfold at_device in ground (arith, e, g, h))

    found :
        (m : Option Device)
        → get_elem? s.dev_list i ≡ m
        → (d d' : Device) × (get_elem? s.dev_list i ≡ some d)
          × (f d ≡ some d')
          × (s' ≡ record s { dev_list = set s.dev_list i d' })
    found none g = absurd (unfold at_device in ground (arith, e, g))
    found (some d) g = acted d (f d) g refl

-- A step that keeps what holds of a device.
abbrev pub Keeps : (Device → Option Device) → Type 0
Keeps f =
    (d d' : Device)
    → f d ≡ some d'
    → ((t : ℕ) → InSlot t d → InSlot t d') × ((t : ℕ) → Reported t d → Reported t d')

pub report-Keeps : Keeps report
unfolding report is_running
report-Keeps d d' e = (λ t h. ground arith, λ t h. ground arith)

pub resume-Keeps : Keeps resume
unfolding resume is_waiting
resume-Keeps d d' e = (λ t h. ground arith, λ t h. ground arith)

pub finish-Keeps : Keeps finish
unfolding finish is_running
finish-Keeps d d' e = (λ t h. ground arith, λ t h. ground arith)

-- The invariant of the program.
pub record IsTimed (s : Timer) : Type 0 where
  pub clock : s.time ≡ s.ticks % 2 ^ 64
  pub begun : (s.timer_started ≡ true) ⊎ (s.phase ≡ idle)
  pub devices : InPhase s.phase s.ticks s.dev_list

pub at_device-IsTimed :
    (s s' : Timer) (i : ℕ) (f : Device → Option Device)
    → Keeps f
    → at_device s i f ≡ some s'
    → IsTimed s
    → IsTimed s'
at_device-IsTimed s s' i f k e v =
    let (d, d', g, h, same) = at_device_cases s s' i f e in
    subst IsTimed (sym same) (record {
      clock = v.clock;
      begun = v.begun;
      devices =
          InPhase-set s.phase s.ticks i s.dev_list d d' v.devices g ((k d d' h).0 s.ticks)
            (k d d' h).1;
    })

pub Split-next :
    (P Q : Device → Type 0) (i : ℕ) (ds : List Device) (d d' : Device)
    → Split P Q i ds
    → get_elem? ds i ≡ some d
    → (Q d → P d')
    → Split P Q (i + 1) (set ds i d')
Split-next P Q i ds d d' s e q =
    subst (λ k. Split P Q k (set ds i d')) (omega arith) (Split-suc P Q i ds d d' s e q)

pub Split-All : (P : Device → Type 0) (ds : List Device) → Split P P 0 ds → All P ds
Split-All P [] s = tt
Split-All P (d ∷ ds) s = (s.0, Split-All P ds s.1)
