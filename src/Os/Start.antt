-- ===== src/Os/Start.antt =====
-- src/os.c: what `main` sets up before it starts the threads, the timer and the devices.
use os_sim.Base.{
  ℕ, zero, suc, ◌+◌, ◌*◌, ◌/◌, ◌<◌, ◌≤◌, ◌≡◌, ◌^◌, refl, ◌∙◌, false, Option, none, some, List, [],
  ◌∷◌, All, length, Outcome, ok, bind, arith, dec_lt,
}
use os_sim.Memphy.{Memphy, pagesz, init_memphy}
use os_sim.Memphy.Access.{IsRandom}
use os_sim.Memphy.Frames.{IsFormatted, init_memphy_lem, init_memphy_small}
use os_sim.Timer.{Timer, running, idle, head, initial, attach_event, start_timer}
use os_sim.Timer.Reach.{attach, start, Reachable, here, after}

-- Memory for a device: its fields before `init_memphy`, what malloc returns, and its size.
pub record Raw : Type 0 where
  pub wild : List ℕ
  pub storage : List ℕ
  pub before : Memphy
  pub size : ℕ

-- `int rdmflag = 1`
abbrev rdmflag : ℕ
rdmflag = 1

-- `init_memphy` of one device, whose result is ignored.
unfoldable pub init_device : Raw → Outcome Memphy
init_device r = bind (init_memphy r.wild r.storage r.before r.size rdmflag) (λ z. ok z.1)

-- The loop over the swap devices.
pub init_swaps : List Raw → Outcome (List Memphy)
init_swaps [] = ok []
init_swaps (r ∷ rs) = bind (init_device r) (λ mp. bind (init_swaps rs) (λ mps. ok (mp ∷ mps)))

-- The RAM and the swap devices.
unfoldable pub init_devices : (mram : Raw) → (mswp : List Raw) → Outcome (Memphy × List Memphy)
unfolding init_swaps
init_devices mram mswp =
    bind (init_device mram) (λ ram. bind (init_swaps mswp) (λ swaps. ok (ram, swaps)))

-- The loop over the processors.
pub attach_cpus : (num_cpus : ℕ) → Timer → Option Timer
attach_cpus zero s = some s
attach_cpus (suc n) s = elim (attach_event s) [ none ↦ none | some t ↦ attach_cpus n t ]

-- Up to `start_timer`: the processors, then the loader.
unfoldable pub init_timer : (num_cpus : ℕ) → Timer → Option Timer
unfolding attach_cpus
init_timer num_cpus s = elim (attach_cpus num_cpus s) [
  | none ↦ none
  | some t ↦ elim (attach_event t) [ none ↦ none | some u ↦ some (start_timer u) ]
]

-- Every frame of the device is listed as free once, and any byte of it can be reached.
pub record IsInitial (r : Raw) (mp : Memphy) : Type 0 where
  pub formatted : IsFormatted mp
  pub random : IsRandom mp
  pub frames : length mp.free_fp_list ≡ r.size / pagesz
  pub storage : mp.storage ≡ r.storage

init_device_lem :
    (r : Raw)
    → r.size < 2 ^ 31
    → (mp : Memphy) × (init_device r ≡ ok mp) × (2 * pagesz ≤ r.size → IsInitial r mp)
unfolding init_device
init_device_lem r high = elim (dec_lt r.size (2 * pagesz)) [
  | yes small ↦
      let (mp, run, _) = init_memphy_small r.wild r.storage r.before r.size 1 small in
      (mp, rw run refl, λ low. absurd (omega (arith, small, low)))
  | no large ↦
      let (mp, run, formatted, frames, _, storage, (mode, _)) =
        init_memphy_lem r.wild r.storage r.before r.size 1 (omega (arith, large)) high in
      (
        mp,
        rw run refl,
        λ low. record {
          formatted = formatted;
          random = record { idle = formatted.idle; random = λ e. omega (arith, mode e) };
          frames = frames;
          storage = storage;
        },
      )
]

-- Each swap device of at least two frames.
abbrev pub AllInitial : List Raw → List Memphy → Type 0
AllInitial [] [] = Unit
AllInitial [] (mp ∷ mps) = ⊥
AllInitial (r ∷ rs) [] = ⊥
AllInitial (r ∷ rs) (mp ∷ mps) = (2 * pagesz ≤ r.size → IsInitial r mp) × AllInitial rs mps

init_swaps_lem :
    (rs : List Raw)
    → All (λ (r : Raw). r.size < 2 ^ 31) rs
    → (mps : List Memphy) × (init_swaps rs ≡ ok mps) × AllInitial rs mps
unfolding init_swaps
init_swaps_lem [] h = ([], refl, tt)
init_swaps_lem (r ∷ rs) (high, rest) =
    let (mp, run, first) = init_device_lem r high in
    let (mps, runs, others) = init_swaps_lem rs rest in
    (mp ∷ mps, rw (run, runs) refl, (first, others))

init_devices_lem :
    (mram : Raw) (mswp : List Raw)
    → mram.size < 2 ^ 31
    → All (λ (r : Raw). r.size < 2 ^ 31) mswp
    → (ram : Memphy) × (swaps : List Memphy) × (init_devices mram mswp ≡ ok (ram, swaps))
      × (2 * pagesz ≤ mram.size → IsInitial mram ram)
      × AllInitial mswp swaps
unfolding init_devices
init_devices_lem mram mswp h hs =
    let (ram, run, first) = init_device_lem mram h in
    let (swaps, runs, others) = init_swaps_lem mswp hs in
    (ram, swaps, rw (run, runs) refl, first, others)

attach_lem :
    (s : Timer)
    → s.timer_started ≡ false
    → Reachable s
    → (t : Timer) × (attach_event s ≡ some t)
      × Reachable t
      × (t.timer_started ≡ false)
      × (t.phase ≡ s.phase)
      × (length t.dev_list ≡ length s.dev_list + 1)
unfolding attach_event
attach_lem s h r =
    let t : Timer = record s {
      dev_list = record { done = false; fsh = false; thread = running; calls = 0 } ∷ s.dev_list;
    } in
    let e : attach_event s ≡ some t = ground (arith, h) in
    (t, e, after s t r (attach t e), h, refl, omega arith)

attach_cpus_lem :
    (n : ℕ) (s : Timer)
    → s.timer_started ≡ false
    → s.phase ≡ idle
    → Reachable s
    → (t : Timer) × (attach_cpus n s ≡ some t)
      × Reachable t
      × (t.timer_started ≡ false)
      × (t.phase ≡ idle)
      × (length t.dev_list ≡ length s.dev_list + n)
unfolding attach_cpus
attach_cpus_lem zero s h p r = (s, refl, r, h, p, omega arith)
attach_cpus_lem (suc n) s h p r =
    let (t, e, rt, ht, pt, size) = attach_lem s h r in
    let (u, run, ru, hu, pu, sizes) = attach_cpus_lem n t ht (pt ∙ p) rt in
    (u, ground (arith, e, run), ru, hu, pu, omega (arith, size, sizes))

init_timer_lem :
    (n : ℕ)
    → (t : Timer) × (init_timer n initial ≡ some t)
      × Reachable t
      × (t.phase ≡ head)
      × (length t.dev_list ≡ n + 1)
unfolding init_timer start_timer
init_timer_lem n =
    let (t, e, rt, ht, pt, size) = attach_cpus_lem n initial refl refl here in
    let (u, f, ru, hu, pu, one) = attach_lem t ht rt in
    let idle_phase : u.phase ≡ idle = pu ∙ pt in
    (
      start_timer u,
      ground (arith, e, f),
      after u (start_timer u) ru (start idle_phase),
      refl,
      omega (arith, size, one),
    )

-- What `main` sets up for any number of processors, with a RAM and swap devices below 2^31 bytes:
-- the timer runs, in a state that its steps reach, with one device for each processor and one for
-- the loader, the RAM and every swap device is made, and each of them with at least two frames is
-- random-access, not locked, and lists each of its frames as free once.
pub set_up_lem :
    (num_cpus : ℕ) (mram : Raw) (mswp : List Raw)
    → mram.size < 2 ^ 31
    → All (λ (r : Raw). r.size < 2 ^ 31) mswp
    → ((t : Timer) × (init_timer num_cpus initial ≡ some t)
        × Reachable t
        × (t.phase ≡ head)
        × (length t.dev_list ≡ num_cpus + 1))
      × ((ram : Memphy) × (swaps : List Memphy) × (init_devices mram mswp ≡ ok (ram, swaps))
          × (2 * pagesz ≤ mram.size → IsInitial mram ram)
          × AllInitial mswp swaps)
set_up_lem num_cpus mram mswp h hs = (init_timer_lem num_cpus, init_devices_lem mram mswp h hs)
