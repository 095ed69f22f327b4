-- ===== src/Vmem/Handed.antt =====
-- Frames of the RAM that are handed to a range of pages at once.
use os_sim.Base.{
  ℕ, zero, suc, get_elem?-total, ◌<◌, ◌≡◌, ◌≢◌, ◌^◌, ◌⊎◌, inl, inr, refl, sym, ◌∙◌, ap, subst, List,
  [], ◌∷◌, ◌++◌, All, length, get_elem?, Option, some, arith, ℕ_discrete,
}
use mathlib.Core.Option.{some_inj}
use os_sim.Memphy.Frames.{FramesBelow}
use os_sim.Pte.{pte_fpn, pte_set_fpn}
use os_sim.Pte.Laws.{pte_set_fpn_lem}
use os_sim.Vmem.Owned.{InFrame, IsOwned}

All-elem :
    (f : ℕ) (fs rest : List ℕ) (i g : ℕ)
    → All (λ k. f ≢ k) (fs ++ rest)
    → get_elem? fs i ≡ some g
    → f ≢ g
All-elem f [] rest i g h e = absurd (ground (arith, e))
All-elem f (k ∷ fs) rest zero g h e = ground (arith, h.0, e)
All-elem f (k ∷ fs) rest (suc i) g h e = All-elem f fs rest i g h.1 e

All-rest : (f : ℕ) (fs rest : List ℕ) → All (λ k. f ≢ k) (fs ++ rest) → All (λ k. f ≢ k) rest
All-rest f [] rest h = h
All-rest f (k ∷ fs) rest h = All-rest f fs rest h.1

pub frame_small :
    (n : ℕ) (fs rest : List ℕ) (i f : ℕ)
    → FramesBelow n (fs ++ rest)
    → get_elem? fs i ≡ some f
    → (f < n) × All (λ k. f ≢ k) rest
frame_small n [] rest i f h e = absurd (ground (arith, e))
frame_small n (k ∷ fs) rest zero f h e =
    let same : k ≡ f = ground (arith, e) in rw (← same) (h.0, All-rest k fs rest h.1)
frame_small n (k ∷ fs) rest (suc i) f h e = frame_small n fs rest i f h.2 e

frames_differ :
    (n : ℕ) (fs rest : List ℕ) (i j f g : ℕ)
    → FramesBelow n (fs ++ rest)
    → i ≢ j
    → get_elem? fs i ≡ some f
    → get_elem? fs j ≡ some g
    → f ≢ g
frames_differ n [] rest i j f g h ne a b = absurd (ground (arith, a))
frames_differ n (k ∷ fs) rest zero zero f g h ne a b = absurd (ne refl)
frames_differ n (k ∷ fs) rest zero (suc j) f g h ne a b =
    let same : k ≡ f = ground (arith, a) in rw (← same) (All-elem k fs rest j g h.1 b)
frames_differ n (k ∷ fs) rest (suc i) zero f g h ne a b =
    let same : k ≡ g = ground (arith, b) in λ e. All-elem k fs rest i f h.1 a (same ∙ sym e)
frames_differ n (k ∷ fs) rest (suc i) (suc j) f g h ne a b =
    frames_differ n fs rest i j f g h.2 (λ e. ne (ap suc e)) a b

FramesBelow-rest : (n : ℕ) (fs rest : List ℕ) → FramesBelow n (fs ++ rest) → FramesBelow n rest
FramesBelow-rest n [] rest h = h
FramesBelow-rest n (f ∷ fs) rest h = FramesBelow-rest n fs rest h.2

-- The entry at `at i` names frame i of `fs`, and no other entry has changed.
pub record Handed (c c' : ℕ → Option ℕ) (at : ℕ → ℕ) (fs : List ℕ) : Type 0 where
  pub inside :
      (i v f : ℕ) → get_elem? fs i ≡ some f → c (at i) ≡ some v → c' (at i) ≡ some (pte_set_fpn v f)
  pub outside : (q : ℕ) → ((i : ℕ) → i < length fs → q ≢ at i) → c' q ≡ c q
  pub there : (i : ℕ) → i < length fs → (v : ℕ) × (c (at i) ≡ some v)

in_range : (at : ℕ → ℕ) (q n : ℕ) → ((i : ℕ) × (i < n) × (q ≡ at i)) ⊎ ((i : ℕ) → i < n → q ≢ at i)
in_range at q zero = inr (λ i lt. absurd (omega arith))
in_range at q (suc n) = elim (ℕ_discrete q (at n)) [
  | yes e ↦ inl (n, omega arith, e)
  | no ne ↦ elim (in_range at q n) [
    | inl (i, lt, e) ↦ inl (i, omega arith, e)
    | inr out ↦
        inr
          (λ i lt. elim (ℕ_discrete i n) [ yes same ↦ rw same ne | no other ↦ out i (omega arith) ])
  ]
]

pub InFrame-Handed :
    (c c' : ℕ → Option ℕ) (at : ℕ → ℕ) (fs rest : List ℕ) (q g : ℕ)
    → Handed c c' at fs
    → IsOwned c (fs ++ rest)
    → InFrame c' q g
    → ((i : ℕ) × (get_elem? fs i ≡ some g) × (q ≡ at i)) ⊎ InFrame c q g
InFrame-Handed c c' at fs rest q g h o (w, e, present, frame) = elim (in_range at q (length fs)) [
  | inl (i, lt, here) ↦
      let (v, old) = h.there i lt in
      let (f, taken) = get_elem?-total fs i lt in
      let small = (frame_small (2 ^ 13) fs rest i f o.frames taken).0 in
      let value : pte_set_fpn v f ≡ w =
        some_inj.0 (sym (h.inside i v f taken old) ∙ ap c' (sym here) ∙ e) in
      let (_, _, _, named, _) = pte_set_fpn_lem v f (o.word (at i) v old) small in
      let same : f ≡ g = sym named ∙ ap pte_fpn value ∙ frame in inl (i, taken ∙ ap some same, here)
  | inr out ↦ inr (w, sym (h.outside q out) ∙ e, present, frame)
]

pub IsOwned-Handed :
    (c c' : ℕ → Option ℕ) (at : ℕ → ℕ) (fs rest : List ℕ)
    → Handed c c' at fs
    → IsOwned c (fs ++ rest)
    → IsOwned c' rest
IsOwned-Handed c c' at fs rest h o = record {
  word = λ q w e. elim (in_range at q (length fs)) [
    | inl (i, lt, here) ↦
        let (v, old) = h.there i lt in
        let (f, taken) = get_elem?-total fs i lt in
        let small = (frame_small (2 ^ 13) fs rest i f o.frames taken).0 in
        let value : pte_set_fpn v f ≡ w =
          some_inj.0 (sym (h.inside i v f taken old) ∙ ap c' (sym here) ∙ e) in
        subst (λ t. t < 2 ^ 32) value (pte_set_fpn_lem v f (o.word (at i) v old) small).0
    | inr out ↦ o.word q w (sym (h.outside q out) ∙ e)
  ];
  alone = λ q r g ne a b. elim (InFrame-Handed c c' at fs rest q g h o a) [
    | inl (i, fi, at_q) ↦ elim (InFrame-Handed c c' at fs rest r g h o b) [
      | inl (j, fj, at_r) ↦
          frames_differ (2 ^ 13) fs rest i j g g o.frames
            (λ same. ne (at_q ∙ ap at same ∙ sym at_r)) fi fj refl
      | inr old ↦ All-elem g fs rest i g (o.taken r g old) fi refl
    ]
    | inr old ↦ elim (InFrame-Handed c c' at fs rest r g h o b) [
      | inl (j, fj, _) ↦ All-elem g fs rest j g (o.taken q g old) fj refl
      | inr other ↦ o.alone q r g ne old other
    ]
  ];
  taken = λ q g a. elim (InFrame-Handed c c' at fs rest q g h o a) [
    | inl (i, fi, _) ↦ (frame_small (2 ^ 13) fs rest i g o.frames fi).1
    | inr old ↦ All-rest g fs rest (o.taken q g old)
  ];
  frames = FramesBelow-rest (2 ^ 13) fs rest o.frames;
}
