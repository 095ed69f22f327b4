-- ===== src/Timer/Barrier.antt =====
-- The timer of src/timer.c is a barrier: it and the devices go from slot to slot together.
use os_sim.Base.{
  ℕ, zero, suc, ◌+◌, ◌^◌, ◌%◌, ◌≤◌, ◌≡◌, ◌⊎◌, inl, inr, refl, subst, Bool, true, false, none, some,
  List, [], ◌∷◌, get_elem?, set, arith,
}
use os_sim.Timer.{
  running, waiting, Device, Phase, idle, head, collecting, releasing, stopped, Timer, is_waiting,
  at_device, resume, next_slot_end, collect, advance, timer_routine,
}
use os_sim.Timer.Reach.{Reachable}
use os_sim.Timer.Devices.{InSlot, Reported, Split, InPhase, Split-get}
use os_sim.Timer.Run.{Reachable-IsTimed}

-- The reports of a device that has not finished.
abbrev Bounds : ℕ → Device → Type 0
Bounds t d = d.fsh ≡ false → (t ≤ d.calls) × (d.calls ≤ t + 1)

InSlot-Bounds : (t : ℕ) (d : Device) → InSlot t d → Bounds t d
InSlot-Bounds t d h f = by d.done refl
  where
    by : (b : Bool) → d.done ≡ b → (t ≤ d.calls) × (d.calls ≤ t + 1)
    by true q = ground arith
    by false q = ground arith

module _ (t i : ℕ) (ds : List Device) (d : Device) (e : get_elem? ds i ≡ some d) where
  InPhase-Bounds : (p : Phase) → InPhase p t ds → Bounds t d
  InPhase-Bounds idle u =
      Split-get (InSlot t) (InSlot t) (Bounds t) 0 i ds d u.1 e (InSlot-Bounds t d)
        (InSlot-Bounds t d)
  InPhase-Bounds head u =
      Split-get (InSlot t) (InSlot t) (Bounds t) 0 i ds d u e (InSlot-Bounds t d)
        (InSlot-Bounds t d)
  InPhase-Bounds (collecting k fsh event) u =
      Split-get (Reported (t + 1)) (InSlot t) (Bounds t) k i ds d u e (λ h g. ground arith)
        (InSlot-Bounds t d)
  InPhase-Bounds (releasing k fsh event) u =
      Split-get (InSlot t) (Reported t) (Bounds t) k i ds d u e (InSlot-Bounds t d)
        (λ h g. ground arith)
  InPhase-Bounds stopped u =
      Split-get (InSlot t) (InSlot t) (Bounds t) 0 i ds d u e (InSlot-Bounds t d)
        (InSlot-Bounds t d)

-- In every state that the program can reach, `_time` is the number of ticks modulo 2^64, and a
-- device that has not finished has called `next_slot` once for each tick, or once more.
pub next_slot-barrier :
    (s : Timer) (i : ℕ) (d : Device)
    → Reachable s
    → get_elem? s.dev_list i ≡ some d
    → d.fsh ≡ false
    → (s.time ≡ s.ticks % 2 ^ 64) × (s.ticks ≤ d.calls) × (d.calls ≤ s.ticks + 1)
next_slot-barrier s i d r e f =
    let v = Reachable-IsTimed s r in
    let b = InPhase-Bounds s.ticks i s.dev_list d e s.phase v.devices f in (v.clock, b.0, b.1)

Split-here :
    (P Q : Device → Type 0) (i : ℕ) (ds : List Device) (d : Device)
    → Split P Q i ds
    → get_elem? ds i ≡ some d
    → Q d
Split-here P Q i [] d s e = absurd (ground arith)
Split-here P Q zero (x ∷ ds) d s e = subst Q (ground arith) s.0
Split-here P Q (suc i) (x ∷ ds) d s e = Split-here P Q i ds d s.1 e

-- When the timer clears `done` of a device that has not finished, the thread of the device waits
-- for just that: it does not write `done` at the same time, although it would do so under another
-- mutex.
pub timer_routine-releases :
    (s : Timer) (i fsh event : ℕ) (d : Device)
    → Reachable s
    → s.phase ≡ releasing i fsh event
    → get_elem? s.dev_list i ≡ some d
    → d.fsh ≡ false
    → (d.thread ≡ waiting) × (d.done ≡ true) × (d.calls ≡ s.ticks)
timer_routine-releases s i fsh event d r p e f =
    let v = Reachable-IsTimed s r in
    let h =
      Split-here (InSlot s.ticks) (Reported s.ticks) i s.dev_list d
        (subst (λ q. InPhase q s.ticks s.dev_list) p v.devices) e in
    waits h
  where
    waits : Reported s.ticks d → (d.thread ≡ waiting) × (d.done ≡ true) × (d.calls ≡ s.ticks)
    waits h = ground arith

timer_routine-blocked :
    (s : Timer) (i fsh event : ℕ) (d : Device)
    → s.phase ≡ collecting i fsh event
    → get_elem? s.dev_list i ≡ some d
    → timer_routine s ≡ none
    → (d.done ≡ false) × (d.fsh ≡ false)
unfolding timer_routine advance collect
timer_routine-blocked s i fsh event d p e w = (
  ground (arith, e, subst (λ q. advance s q ≡ none) p w),
  ground (arith, e, subst (λ q. advance s q ≡ none) p w),
)

next_slot_end_lem :
    (s : Timer) (i : ℕ) (d : Device)
    → get_elem? s.dev_list i ≡ some d
    → d.thread ≡ waiting
    → d.done ≡ false
    → (s' : Timer) × (next_slot_end s i ≡ some s')
unfolding next_slot_end at_device resume is_waiting
next_slot_end_lem s i d e t q =
    (record s { dev_list = set s.dev_list i (record d { thread = running }) }, ground arith)

-- Whenever the timer waits for a device, the thread of that device can go on: it runs, or it is in
-- `next_slot` and finds `done` cleared.
pub timer_routine-waits :
    (s : Timer) (i fsh event : ℕ) (d : Device)
    → Reachable s
    → s.phase ≡ collecting i fsh event
    → get_elem? s.dev_list i ≡ some d
    → timer_routine s ≡ none
    → (d.thread ≡ running) ⊎ ((d.thread ≡ waiting) × ((s' : Timer) × (next_slot_end s i ≡ some s')))
timer_routine-waits s i fsh event d r p e w =
    let v = Reachable-IsTimed s r in
    let h =
      Split-here (Reported (s.ticks + 1)) (InSlot s.ticks) i s.dev_list d
        (subst (λ q. InPhase q s.ticks s.dev_list) p v.devices) e in
    let b = timer_routine-blocked s i fsh event d p e w in
    elim h.0 [
      | inl u ↦ inl u.0
      | inr u ↦ elim u [
        | inl u ↦ inr (u.0, next_slot_end_lem s i d e u.0 b.0)
        | inr u ↦ absurd (ground arith)
      ]
    ]
