-- ===== src/Region/Free.antt =====
-- The free bytes of an area of src/mm-vm.c, and the loop of `get_free_vmrg_area` on them.
use os_sim.Base.{
  ℕ, suc, ◌+◌, ◌≤◌, ◌<◌, ◌^◌, ◌≡◌, ◌⊎◌, inl, inr, refl, sym, ap, subst, true, false, List, [], ◌∷◌,
  All, ok, arith,
}
use os_sim.Region.{Region, fits, leaves_space, left_space, use_up, find_loop}
use os_sim.Region.Step.{
  Holds, InRange, weight, IsBlock, left-InRange, left-Holds, emptied-InRange, emptied-lt_weight,
  found,
}

-- The byte lies in a region of the list.
abbrev pub Free : List Region → ℕ → Type 0
Free [] b = ⊥
Free (r ∷ rs) b = Holds r b ⊎ Free rs b

-- No byte lies in two regions.
abbrev pub Disjoint : List Region → Type 0
Disjoint [] = Unit
Disjoint (r ∷ rs) = ((b : ℕ) → Holds r b → Free rs b → ⊥) × Disjoint rs

-- A list of free regions as the allocator keeps it.
pub record IsFreeList (vmaid size : ℕ) (rs : List Region) : Type 0 where
  pub ranges : All (InRange vmaid size) rs
  pub apart : Disjoint rs

abbrev pub Full : (vmaid size : ℕ) → List Region → Type 0
Full vmaid size rs = All (λ r. fits vmaid size r ≡ false) rs

-- Enough rounds for the loop: what it can cut off, with the regions it passes.
abbrev pub rounds : List Region → ℕ
rounds [] = 1
rounds (r ∷ rs) = weight r + rounds rs

-- The block was free before and is not any more.
abbrev pub Taken : (newrg : Region) (rs rs' : List Region) → Type 0
Taken newrg rs rs' =
    ((b : ℕ) → Holds newrg b → Free rs b) × ((b : ℕ) → Holds newrg b → Free rs' b → ⊥)

-- What the loop does to a block found before and to the list.
pub record Searched (vmaid size : ℕ) (newrg newrg' : Region) (rs rs' : List Region) : Type 0 where
  pub kept : (b : ℕ) → Free rs' b → Free rs b
  pub full : Full vmaid size rs'
  pub valid : IsFreeList vmaid size rs'
  pub result : ((newrg' ≡ newrg) × (rs' ≡ rs)) ⊎ (IsBlock vmaid size newrg' × Taken newrg' rs rs')

-- A region that is passed over stays in front.
pub Searched-cons :
    (vmaid size : ℕ) (newrg newrg' r : Region) (rs rs' : List Region)
    → IsFreeList vmaid size (r ∷ rs)
    → fits vmaid size r ≡ false
    → Searched vmaid size newrg newrg' rs rs'
    → Searched vmaid size newrg newrg' (r ∷ rs) (r ∷ rs')
Searched-cons vmaid size newrg newrg' r rs rs' v f s = record {
  kept = λ b h. elim h [ inl k ↦ inl k | inr k ↦ inr (s.kept b k) ];
  full = (f, s.full);
  valid = record {
    ranges = (v.ranges.0, s.valid.ranges);
    apart = (λ b h k. v.apart.0 b h (s.kept b k), s.valid.apart);
  };
  result = elim s.result [
    | inl e ↦ inl (e.0, ap (λ t. r ∷ t) e.1)
    | inr t ↦ inr (
      t.0,
      (
        λ b h. inr (t.1.0 b h),
        λ b h k. elim k [ inl q ↦ v.apart.0 b q (t.1.0 b h) | inr q ↦ t.1.1 b h q ],
      ),
    )
  ];
}

-- A block that is taken off the list, before the search goes on.
pub Searched-Taken :
    (vmaid size : ℕ) (newrg block newrg' : Region) (rs rs1 rs' : List Region)
    → IsBlock vmaid size block
    → Taken block rs rs1
    → ((b : ℕ) → Free rs1 b → Free rs b)
    → Searched vmaid size block newrg' rs1 rs'
    → Searched vmaid size newrg newrg' rs rs'
Searched-Taken vmaid size newrg block newrg' rs rs1 rs' h t kept s = record {
  kept = λ b k. kept b (s.kept b k);
  full = s.full;
  valid = s.valid;
  result = elim s.result [
    | inl e ↦ inr (
      subst (IsBlock vmaid size) (sym e.0) h,
      (
        λ b k. t.0 b (subst (λ q. Holds q b) e.0 k),
        λ b k q. t.1 b (subst (λ p. Holds p b) e.0 k) (subst (λ p. Free p b) e.1 q),
      ),
    )
    | inr u ↦ inr (u.0, (λ b k. kept b (u.1.0 b k), u.1.1))
  ];
}

module _ (vmaid size fuel : ℕ) (newrg r : Region) (rs : List Region)
    (z : Region × List Region) where
  pub loop_left :
      fits vmaid size r ≡ true
      → leaves_space vmaid size r ≡ true
      → find_loop vmaid size fuel (found vmaid size r newrg) (left_space vmaid size r ∷ rs) ≡ ok z
      → find_loop vmaid size (suc fuel) newrg (r ∷ rs) ≡ ok z
  unfolding find_loop
  loop_left f l e = rw (f, l) e

  pub loop_used :
      fits vmaid size r ≡ true
      → leaves_space vmaid size r ≡ false
      → find_loop vmaid size fuel (found vmaid size r newrg) (use_up vmaid size r rs) ≡ ok z
      → find_loop vmaid size (suc fuel) newrg (r ∷ rs) ≡ ok z
  unfolding find_loop
  loop_used f l e = rw (f, l) e

  pub loop_pass :
      fits vmaid size r ≡ false
      → find_loop vmaid size fuel newrg rs ≡ ok z
      → find_loop vmaid size (suc fuel) newrg (r ∷ rs) ≡ ok (z.0, r ∷ z.1)
  unfolding find_loop
  loop_pass f e = rw (f, e) refl

module _ (vmaid size : ℕ) (lower : 2 ≤ size) (upper : size < 2 ^ 31) where
  pub left-IsFreeList :
      (r newrg : Region) (rs : List Region)
      → IsFreeList vmaid size (r ∷ rs)
      → fits vmaid size r ≡ true
      → leaves_space vmaid size r ≡ true
      → IsFreeList vmaid size (left_space vmaid size r ∷ rs)
  left-IsFreeList r newrg rs v f l = record {
    ranges = (left-InRange size lower upper vmaid r newrg v.ranges.0 f l, v.ranges.1);
    apart = (
      λ b h k. v.apart.0 b (left-Holds size lower upper vmaid r newrg v.ranges.0 f l b h) k,
      v.apart.1,
    );
  }

  pub use_up-IsFreeList :
      (r newrg : Region) (rs : List Region)
      → IsFreeList vmaid size (r ∷ rs)
      → IsFreeList vmaid size (use_up vmaid size r rs)
  unfolding use_up
  use_up-IsFreeList r newrg [] v = record {
    ranges = (emptied-InRange size lower upper vmaid r newrg v.ranges.0, tt);
    apart = (λ b h k. k, tt);
  }
  use_up-IsFreeList r newrg (n ∷ rs) v = record { ranges = v.ranges.1; apart = v.apart.1 }

  pub use_up-Free :
      (r : Region) (rs : List Region) (b : ℕ) → Free (use_up vmaid size r rs) b → Free rs b
  unfolding use_up
  use_up-Free r [] b h = elim h [ inl k ↦ absurd (k.0 refl) | inr k ↦ k ]
  use_up-Free r (n ∷ rs) b h = h

  pub rounds-use_up :
      (r newrg : Region) (rs : List Region)
      → InRange vmaid size r
      → fits vmaid size r ≡ true
      → rounds (use_up vmaid size r rs) < rounds (r ∷ rs)
  unfolding use_up
  rounds-use_up r newrg [] v f = omega (arith, emptied-lt_weight size lower upper vmaid r newrg v f)
  rounds-use_up r newrg (n ∷ rs) v f = omega arith
