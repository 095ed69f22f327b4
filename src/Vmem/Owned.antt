-- ===== src/Vmem/Owned.antt =====
-- Who has which frame of the RAM: the page table entries of src/mm.c and the list of free frames.
use os_sim.Base.{
  ℕ, ◌<◌, ◌≡◌, ◌≢◌, ◌^◌, ◌⊎◌, inl, inr, sym, ◌∙◌, subst, true, List, ◌∷◌, All, Option, some, arith,
  ℕ_discrete,
}
use os_sim.Memphy.Frames.{FramesBelow}
use os_sim.Pte.{pte_fpn, page_present, pte_set_fpn, pte_set_swap}
use os_sim.Pte.Laws.{pte_set_fpn_lem, pte_set_swap_lem, fields}
use os_sim.Vmem.{update}
use os_sim.Vmem.Mapped.{update_ne}

-- The entry at `p` says that its page is in frame `f` of the RAM.
abbrev pub InFrame : (ℕ → Option ℕ) → ℕ → ℕ → Type 0
InFrame c p f = (v : ℕ) × (c p ≡ some v) × (page_present v ≡ true) × (pte_fpn v ≡ f)

-- No frame has two pages, no frame with a page is free, and none is free twice.
pub record IsOwned (c : ℕ → Option ℕ) (free : List ℕ) : Type 0 where
  pub word : (p v : ℕ) → c p ≡ some v → v < 2 ^ 32
  pub alone : (p q f : ℕ) → p ≢ q → InFrame c p f → InFrame c q f → ⊥
  pub taken : (p f : ℕ) → InFrame c p f → All (λ g. f ≢ g) free
  pub frames : FramesBelow (2 ^ 13) free

-- An entry after a write of another, or the one that was written.
pub InFrame-update :
    (c : ℕ → Option ℕ) (p w q f : ℕ)
    → InFrame (update c p w) q f
    → ((p ≡ q) × (page_present w ≡ true) × (pte_fpn w ≡ f)) ⊎ ((p ≢ q) × InFrame c q f)
InFrame-update c p w q f (v, e, present, frame) = elim (ℕ_discrete p q) [
  | yes same ↦
      let value : w ≡ v = ground (arith, e, same) in inl (same, rw value present, rw value frame)
  | no ne ↦ inr (ne, (v, sym (update_ne c p q w ne) ∙ e, present, frame))
]

word-update :
    (c : ℕ → Option ℕ) (p w : ℕ)
    → ((q v : ℕ) → c q ≡ some v → v < 2 ^ 32)
    → w < 2 ^ 32
    → (q v : ℕ) → update c p w q ≡ some v
    → v < 2 ^ 32
word-update c p w h lt q v e = elim (ℕ_discrete p q) [
  | yes same ↦ let value : w ≡ v = ground (arith, e, same) in rw (← value) lt
  | no ne ↦ h q v (sym (update_ne c p q w ne) ∙ e)
]

-- A free frame is given to the page of an entry.
pub IsOwned-set_fpn :
    (c : ℕ → Option ℕ) (p v f : ℕ) (free : List ℕ)
    → c p ≡ some v
    → IsOwned c (f ∷ free)
    → IsOwned (update c p (pte_set_fpn v f)) free
IsOwned-set_fpn c p v f free e o =
    let w = pte_set_fpn v f in
    let (wide, present, _, frame, _) = pte_set_fpn_lem v f (o.word p v e) o.frames.0 in
    record {
      word = word-update c p w o.word wide;
      alone = λ q r g ne a b. elim (InFrame-update c p w q g a) [
        | inl (at_q, _, hit) ↦ elim (InFrame-update c p w r g b) [
          | inl (at_r, _, _) ↦ ne (sym at_q ∙ at_r)
          | inr (_, old) ↦ (o.taken r g old).0 (sym hit ∙ frame)
        ]
        | inr (_, old) ↦ elim (InFrame-update c p w r g b) [
          | inl (_, _, hit) ↦ (o.taken q g old).0 (sym hit ∙ frame)
          | inr (_, other) ↦ o.alone q r g ne old other
        ]
      ];
      taken = λ q g a. elim (InFrame-update c p w q g a) [
        | inl (_, _, hit) ↦ subst (λ h. All (λ k. h ≢ k) free) (sym frame ∙ hit) o.frames.1
        | inr (_, old) ↦ (o.taken q g old).1
      ];
      frames = o.frames.2;
    }

-- A page leaves its frame, which is free from then on.
pub IsOwned-set_swap :
    (c : ℕ → Option ℕ) (p v f o : ℕ) (free : List ℕ)
    → c p ≡ some v
    → page_present v ≡ true
    → pte_fpn v ≡ f
    → o < 2 ^ 21
    → IsOwned c free
    → IsOwned (update c p (pte_set_swap v 0 o)) (f ∷ free)
IsOwned-set_swap c p v f o free e present frame small h =
    let w = pte_set_swap v 0 o in
    let (wide, absent, _, _, _, _) = pte_set_swap_lem v 0 o (h.word p v e) (omega arith) small in
    let mine : InFrame c p f = (v, e, present, frame) in
    let kept : ((q g : ℕ) → InFrame (update c p w) q g → (p ≢ q) × InFrame c q g) = λ q g a.
      elim (InFrame-update c p w q g a) [
        | inl (_, there, _) ↦ absurd (ground (arith, there, absent))
        | inr old ↦ old
      ] in
    record {
      word = word-update c p w h.word wide;
      alone = λ q r g ne a b. h.alone q r g ne (kept q g a).1 (kept r g b).1;
      taken = λ q g a. (
        λ eq. h.alone p q f (kept q g a).0 mine (subst (InFrame c q) eq (kept q g a).1),
        h.taken q g (kept q g a).1,
      );
      frames = (omega (arith, frame, (fields v (h.word p v e)).0), h.taken p f mine, h.frames);
    }
