-- ===== src/Vmem/Frames.antt =====
-- `alloc_pages_range` of src/mm.c, with enough free frames.
use os_sim.Base.{
  ℕ, zero, suc, ◌+◌, ◌<◌, ◌≡◌, ◌^◌, refl, ◌∙◌, ap, false, List, [], ◌∷◌, ◌++◌, length, get_elem?,
  ok, arith,
}
use os_sim.Vmem.{System, Env, ram_get_freefp}
use os_sim.Vmem.Swap.{get_freefp-cons}
use os_sim.Vmem.Map.{alloc_page, alloc_loop, alloc_pages_range}

-- The elements of the first list, the last in front, and the second list.
abbrev rev_onto : List ℕ → List ℕ → List ℕ
rev_onto [] acc = acc
rev_onto (f ∷ fs) acc = rev_onto fs (f ∷ acc)

length-rev_onto : (fs acc : List ℕ) → length (rev_onto fs acc) ≡ length fs + length acc
length-rev_onto [] acc = omega arith
length-rev_onto (f ∷ fs) acc = omega (arith, length-rev_onto fs (f ∷ acc))

rev_onto-acc :
    (fs acc : List ℕ) (k : ℕ) → get_elem? (rev_onto fs acc) (length fs + k) ≡ get_elem? acc k
rev_onto-acc [] acc k = ap (get_elem? acc) (omega arith)
rev_onto-acc (f ∷ fs) acc k =
    ap (get_elem? (rev_onto fs (f ∷ acc))) (omega arith) ∙ rev_onto-acc fs (f ∷ acc) (suc k)

rev_onto_elem :
    (fs acc : List ℕ) (i j : ℕ)
    → i + j + 1 ≡ length fs
    → get_elem? (rev_onto fs acc) j ≡ get_elem? fs i
rev_onto_elem [] acc i j e = absurd (omega (arith, e))
rev_onto_elem (f ∷ fs) acc zero j e =
    ap (get_elem? (rev_onto fs (f ∷ acc))) (omega (arith, e)) ∙ rev_onto-acc fs (f ∷ acc) 0
rev_onto_elem (f ∷ fs) acc (suc i) j e = rev_onto_elem fs (f ∷ acc) i j (omega (arith, e))

module _ (env : Env) where
  alloc_loop_lem :
      (fs rest acc : List ℕ) (s : System)
      → s.mram.locked ≡ false
      → s.mram.free_fp_list ≡ fs ++ rest
      → alloc_loop env (length fs) acc s
        ≡ ok (rev_onto fs acc, record s { mram = record s.mram { free_fp_list = rest } })
  unfolding alloc_loop alloc_page ram_get_freefp
  alloc_loop_lem [] rest acc s e free =
      ap (λ l. ok (acc, record s { mram = record s.mram { free_fp_list = l } })) free
  alloc_loop_lem (f ∷ fs) rest acc s e free =
      rw (get_freefp-cons s.mram env.junk f (fs ++ rest) e free) (
        alloc_loop_lem fs rest (f ∷ acc)
          (record s { mram = record s.mram { free_fp_list = fs ++ rest } }) e refl)

  -- `alloc_pages_range` with at least the requested number of frames free in the RAM, and below
  -- 2^31 of them: it takes the first ones, returns them with the last in front, and changes
  -- nothing but the list of free frames.
  pub alloc_pages_range_lem :
      (fs rest : List ℕ) (s : System)
      → s.mram.locked ≡ false
      → s.mram.free_fp_list ≡ fs ++ rest
      → length fs < 2 ^ 31
      → (frames : List ℕ) × (alloc_pages_range env (length fs) s
          ≡ ok (frames, record s { mram = record s.mram { free_fp_list = rest } }))
        × (length frames ≡ length fs)
        × ((i j : ℕ) → i + j + 1 ≡ length fs → get_elem? frames j ≡ get_elem? fs i)
  unfolding alloc_pages_range
  alloc_pages_range_lem fs rest s e free h = (
    rev_onto fs [],
    ground (arith, alloc_loop_lem fs rest [] s e free),
    omega (arith, length-rev_onto fs []),
    rev_onto_elem fs [],
  )
