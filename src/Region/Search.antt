-- ===== src/Region/Search.antt =====
-- The loop of `get_free_vmrg_area` of src/mm-vm.c: it returns, and what it does to the free bytes.
use os_sim.Base.{
  ℕ, zero, suc, ◌≤◌, ◌<◌, ◌^◌, ◌≡◌, inl, inr, refl, Bool, true, false, List, [], ◌∷◌, ok, arith,
}
use os_sim.Region.{Region, fits, leaves_space, left_space, use_up, find_loop}
use os_sim.Region.Step.{found, found-IsBlock, found-Holds, left-lt_weight, left-Holds, left-apart}
use os_sim.Region.Free.{
  IsFreeList, Full, rounds, Searched, Searched-cons, Searched-Taken, loop_left, loop_used,
  loop_pass, left-IsFreeList, use_up-IsFreeList, use_up-Free, rounds-use_up,
}

module _ (vmaid size : ℕ) (lower : 2 ≤ size) (upper : size < 2 ^ 31) where
  abbrev pub Ends : ℕ → Region → List Region → Type 0
  Ends fuel newrg rs =
      (z : Region × List Region) × (find_loop vmaid size fuel newrg rs ≡ ok z)
      × Searched vmaid size newrg z.0 rs z.1

  module _ (fuel : ℕ) (newrg r : Region) (rs : List Region) (v : IsFreeList vmaid size (r ∷ rs))
      (h : rounds (r ∷ rs) ≤ suc fuel)
      (again : (newrg1 : Region) (rs1 : List Region)
        → IsFreeList vmaid size rs1
        → rounds rs1 ≤ fuel
        → Ends fuel newrg1 rs1) where
    -- One round, by what its two tests say.
    round :
        (f l : Bool)
        → fits vmaid size r ≡ f
        → leaves_space vmaid size r ≡ l
        → Ends (suc fuel) newrg (r ∷ rs)
    round false l f g =
        let (z, run, s) =
          again newrg rs (record { ranges = v.ranges.1; apart = v.apart.1 }) (omega arith) in
        (
          (z.0, r ∷ z.1),
          loop_pass vmaid size fuel newrg r rs z f run,
          Searched-cons vmaid size newrg z.0 r rs z.1 v f s,
        )
    round true true f g =
        let rs1 : List Region = left_space vmaid size r ∷ rs in
        let block : Region = found vmaid size r newrg in
        let (z, run, s) =
          again block rs1 (left-IsFreeList vmaid size lower upper r newrg rs v f g)
            (omega (arith, left-lt_weight size lower upper vmaid r newrg v.ranges.0 f g)) in
        (
          z,
          loop_left vmaid size fuel newrg r rs z f g run,
          Searched-Taken vmaid size newrg block z.0 (r ∷ rs) rs1 z.1
              (found-IsBlock size lower upper vmaid r newrg v.ranges.0 f)
              (
                λ b k. inl (found-Holds size lower upper vmaid r newrg v.ranges.0 b f k),
                λ b k q. elim q [
                  | inl q ↦ left-apart size lower upper vmaid r newrg v.ranges.0 f g b k q
                  | inr q ↦
                      v.apart.0 b (found-Holds size lower upper vmaid r newrg v.ranges.0 b f k) q
                ],
              )
              (λ b k. elim k [
                | inl k ↦ inl (left-Holds size lower upper vmaid r newrg v.ranges.0 f g b k)
                | inr k ↦ inr k
              ])
              s,
        )
    round true false f g =
        let rs1 : List Region = use_up vmaid size r rs in
        let block : Region = found vmaid size r newrg in
        let (z, run, s) =
          again block rs1 (use_up-IsFreeList vmaid size lower upper r newrg rs v)
            (omega (arith, rounds-use_up vmaid size lower upper r newrg rs v.ranges.0 f)) in
        (
          z,
          loop_used vmaid size fuel newrg r rs z f g run,
          Searched-Taken vmaid size newrg block z.0 (r ∷ rs) rs1 z.1
              (found-IsBlock size lower upper vmaid r newrg v.ranges.0 f)
              (
                λ b k. inl (found-Holds size lower upper vmaid r newrg v.ranges.0 b f k),
                λ b k q.
                    v.apart.0 b (found-Holds size lower upper vmaid r newrg v.ranges.0 b f k)
                      (use_up-Free vmaid size lower upper r rs b q),
              )
              (λ b k. inr (use_up-Free vmaid size lower upper r rs b k)) s,
        )

  pub find_loop-Searched :
      (fuel : ℕ) (newrg : Region) (rs : List Region)
      → IsFreeList vmaid size rs
      → rounds rs ≤ fuel
      → Ends fuel newrg rs
  find_loop-Searched zero newrg [] v h = absurd (omega arith)
  find_loop-Searched zero newrg (r ∷ rs) v h = absurd (omega arith)
  find_loop-Searched (suc fuel) newrg [] v h = (
    (newrg, []),
    unfold find_loop in refl,
    record { kept = λ b k. k; full = tt; valid = v; result = inl (refl, refl) },
  )
  find_loop-Searched (suc fuel) newrg (r ∷ rs) v h =
      round fuel newrg r rs v h (find_loop-Searched fuel) (fits vmaid size r)
        (leaves_space vmaid size r) refl refl

pub find_loop-Full :
    (vmaid size fuel : ℕ) (newrg : Region) (rs : List Region)
    → Full vmaid size rs
    → rounds rs ≤ fuel
    → find_loop vmaid size fuel newrg rs ≡ ok (newrg, rs)
find_loop-Full vmaid size zero newrg [] f h = absurd (omega arith)
find_loop-Full vmaid size zero newrg (r ∷ rs) f h = absurd (omega arith)
find_loop-Full vmaid size (suc fuel) newrg [] f h = unfold find_loop in refl
find_loop-Full vmaid size (suc fuel) newrg (r ∷ rs) f h =
    loop_pass vmaid size fuel newrg r rs (newrg, rs) f.0
      (find_loop-Full vmaid size fuel newrg rs f.1 (omega arith))
