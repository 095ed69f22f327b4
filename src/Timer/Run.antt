-- ===== src/Timer/Run.antt =====
-- Every state that src/timer.c can reach keeps the invariant.
use os_sim.Base.{
  ℕ, ◌+◌, ◌^◌, ◌%◌, ◌≡◌, inl, inr, refl, sym, subst, Bool, true, false, ◌||◌, Option, none, some,
  List, ◌∷◌, get_elem?, set, All, ◌==◌, if◌then◌else◌, u64, arith,
}
use os_sim.Timer.{
  running, Device, Phase, idle, head, collecting, releasing, stopped, Timer, initial, attach_event,
  start_timer, stop_timer, report, resume, finish, next_slot_begin, next_slot_end, detach_event,
  collect, release, advance, timer_routine,
}
use os_sim.Timer.Reach.{Step, attach, start, stop, begin, end, detach, tick, Reachable, here, after}
use os_sim.Timer.Devices.{
  InSlot, Reported, Split, InPhase, IsTimed, Split-none, Split-zero, Split-next, Split-All,
  set-same, at_device-IsTimed, report-Keeps, resume-Keeps, finish-Keeps,
}

attach-IsTimed : (s s' : Timer) → attach_event s ≡ some s' → IsTimed s → IsTimed s'
unfolding attach_event
attach-IsTimed s s' e v = elim v.begun [
  | inl b ↦ absurd (ground arith)
  | inr b ↦
      let new : Device = record { done = false; fsh = false; thread = running; calls = 0 } in
      let old = subst (λ p. InPhase p s.ticks s.dev_list) b v.devices in
      let t : Timer = record s { dev_list = new ∷ s.dev_list } in
      let same : t ≡ s' = ground arith in
      subst IsTimed same (record {
        clock = v.clock;
        begun = inr b;
        devices =
            subst (λ p. InPhase p s.ticks (new ∷ s.dev_list)) (sym b)
              (old.0, ((inl (refl, refl, refl), inr (sym old.0)), old.1));
      })
]

start-IsTimed : (s : Timer) → s.phase ≡ idle → IsTimed s → IsTimed (start_timer s)
unfolding start_timer
start-IsTimed s e v = record {
  clock = v.clock;
  begun = inl refl;
  devices = (subst (λ p. InPhase p s.ticks s.dev_list) e v.devices).1;
}

stop-IsTimed : (s : Timer) → IsTimed s → IsTimed (stop_timer s)
unfolding stop_timer
stop-IsTimed s v = record { clock = v.clock; begun = v.begun; devices = v.devices }

rest_InPhase :
    (b : Bool) (t : ℕ) (ds : List Device)
    → All (InSlot t) ds
    → InPhase (if b then stopped else head) t ds
rest_InPhase true t ds a = Split-zero (InSlot t) (InSlot t) ds a
rest_InPhase false t ds a = Split-zero (InSlot t) (InSlot t) ds a

collecting_InPhase :
    (b : Bool) (t : ℕ) (ds : List Device)
    → Split (InSlot t) (InSlot t) 0 ds
    → InPhase (if b then stopped else collecting 0 0 0) t ds
collecting_InPhase true t ds a = a
collecting_InPhase false t ds a =
    Split-zero (Reported (t + 1)) (InSlot t) ds (Split-All (InSlot t) ds a)

module _ (s : Timer) (i fsh event : ℕ) where
  collect-IsTimed :
      (m : Option Device) (s' : Timer)
      → get_elem? s.dev_list i ≡ m
      → collect s i fsh event m ≡ some s'
      → (s.time ≡ s.ticks % 2 ^ 64)
      → (s.timer_started ≡ true)
      → Split (Reported (s.ticks + 1)) (InSlot s.ticks) i s.dev_list
      → IsTimed s'
  unfolding collect
  collect-IsTimed none s' g e clock b v =
      let t : Timer = record s {
        time = u64 (s.time + 1);
        ticks = s.ticks + 1;
        phase = releasing 0 fsh event;
      } in
      let same : t ≡ s' = ground arith in
      subst IsTimed same (record {
        clock = omega (arith, clock);
        begun = inl b;
        devices =
            Split-zero (InSlot (s.ticks + 1)) (Reported (s.ticks + 1)) s.dev_list
              (Split-none (Reported (s.ticks + 1)) (InSlot s.ticks) i s.dev_list v g);
      })
  collect-IsTimed (some d) s' g e clock b v =
      let t : Timer = record s {
        phase = collecting (i + 1) (if d.fsh then fsh + 1 else fsh) (event + 1);
      } in
      let same : t ≡ s' = unfold collect in ground (arith, e) in
      let ready : (d.done || d.fsh) ≡ true = unfold collect in ground (arith, e) in
      subst IsTimed same (record {
        clock = clock;
        begun = inl b;
        devices =
            subst (Split (Reported (s.ticks + 1)) (InSlot s.ticks) (i + 1))
              (set-same s.dev_list i d g)
              (Split-next (Reported (s.ticks + 1)) (InSlot s.ticks) i s.dev_list d d v g
                (λ h. ground arith));
      })

  release-IsTimed :
      (m : Option Device) (s' : Timer)
      → get_elem? s.dev_list i ≡ m
      → release s i fsh event m ≡ some s'
      → (s.time ≡ s.ticks % 2 ^ 64)
      → (s.timer_started ≡ true)
      → Split (InSlot s.ticks) (Reported s.ticks) i s.dev_list
      → IsTimed s'
  unfolding release
  release-IsTimed none s' g e clock b v =
      let t : Timer = record s { phase = if fsh == event then stopped else head } in
      let same : t ≡ s' = ground arith in
      subst IsTimed same (record {
        clock = clock;
        begun = inl b;
        devices =
            rest_InPhase (fsh == event) s.ticks s.dev_list
              (Split-none (InSlot s.ticks) (Reported s.ticks) i s.dev_list v g);
      })
  release-IsTimed (some d) s' g e clock b v =
      let d' : Device = record d { done = false } in
      let t : Timer = record s {
        dev_list = set s.dev_list i d';
        phase = releasing (i + 1) fsh event;
      } in
      let same : t ≡ s' = ground arith in
      subst IsTimed same (record {
        clock = clock;
        begun = inl b;
        devices =
            Split-next (InSlot s.ticks) (Reported s.ticks) i s.dev_list d d' v g
              (λ h. ground arith);
      })

tick-IsTimed : (s s' : Timer) → timer_routine s ≡ some s' → IsTimed s → IsTimed s'
unfolding timer_routine advance
tick-IsTimed s s' e v = by s.phase refl
  where
    by : (p : Phase) → s.phase ≡ p → IsTimed s'
    by idle q = absurd (ground arith)
    by head q =
        let next : Phase = if s.timer_stop then stopped else collecting 0 0 0 in
        let t : Timer = record s { phase = next } in
        let same : t ≡ s' = ground arith in
        let all = subst (λ p. InPhase p s.ticks s.dev_list) q v.devices in
        subst IsTimed same (record {
          clock = v.clock;
          begun = inl (ground (arith, v.begun));
          devices = collecting_InPhase s.timer_stop s.ticks s.dev_list all;
        })
    by (collecting i fsh event) q =
        collect-IsTimed s i fsh event (get_elem? s.dev_list i) s' refl
          (subst (λ p. advance s p ≡ some s') q e) v.clock (ground (arith, v.begun))
          (subst (λ p. InPhase p s.ticks s.dev_list) q v.devices)
    by (releasing i fsh event) q =
        release-IsTimed s i fsh event (get_elem? s.dev_list i) s' refl
          (subst (λ p. advance s p ≡ some s') q e) v.clock (ground (arith, v.begun))
          (subst (λ p. InPhase p s.ticks s.dev_list) q v.devices)
    by stopped q = absurd (ground arith)

initial-IsTimed : IsTimed initial
initial-IsTimed = record { clock = refl; begun = inr refl; devices = (refl, tt) }

Step-IsTimed : (s s' : Timer) → Step s s' → IsTimed s → IsTimed s'
Step-IsTimed s _ (attach s' e) v = attach-IsTimed s s' e v
Step-IsTimed s _ (start e) v = start-IsTimed s e v
Step-IsTimed s _ stop v = stop-IsTimed s v
Step-IsTimed s _ (begin i s' e) v =
    at_device-IsTimed s s' i report report-Keeps (unfold next_slot_begin in e) v
Step-IsTimed s _ (end i s' e) v =
    at_device-IsTimed s s' i resume resume-Keeps (unfold next_slot_end in e) v
Step-IsTimed s _ (detach i s' e) v =
    at_device-IsTimed s s' i finish finish-Keeps (unfold detach_event in e) v
Step-IsTimed s _ (tick s' e) v = tick-IsTimed s s' e v

pub Reachable-IsTimed : (s : Timer) → Reachable s → IsTimed s
Reachable-IsTimed _ here = initial-IsTimed
Reachable-IsTimed _ (after s s' r p) = Step-IsTimed s s' p (Reachable-IsTimed s r)
