-- ===== src/Vmem/Tracked.antt =====
-- The list of pages in RAM of src/mm-vm.c against the page table: each listed page is in the frame
-- that the list has for it.
use os_sim.Base.{
  ℕ, ◌≡◌, ◌≢◌, ◌==◌, inl, inr, sym, ◌∙◌, ap, subst, false, List, [], ◌∷◌, ◌++◌, All, Option, some,
  arith, Bool-cases,
}
use mathlib.Core.Option.{some_inj}
use os_sim.Pte.{pte_fpn, page_present}
use os_sim.Lru.Chain.{Entry}
use os_sim.Lru.Spec.{promote, insert, has_frame, Missing}
use os_sim.Vmem.{update}
use os_sim.Vmem.Mapped.{update_ne}
use os_sim.Vmem.Owned.{InFrame}

-- No frame is listed twice.
abbrev pub Once : List Entry → Type 0
Once [] = Unit
Once (x ∷ xs) = Missing x.fpn xs × Once xs

abbrev pub Tracked : (ℕ → Option ℕ) → List Entry → Type 0
Tracked c xs = All (λ (x : Entry). InFrame c x.pte x.fpn) xs

All-snoc :
    (P : Entry → Type 0) (x : Entry) (xs : List Entry) → All P xs → P x → All P (xs ++ (x ∷ []))
All-snoc P x [] h p = (p, tt)
All-snoc P x (y ∷ ys) h p = (h.0, All-snoc P x ys h.1 p)

All-promote : (P : Entry → Type 0) (f : ℕ) (xs : List Entry) → All P xs → All P (promote f xs)
unfolding promote
All-promote P f [] h = tt
All-promote P f (x ∷ xs) h = elim (Bool-cases (x.fpn == f)) [
  | inl e ↦ rw e (All-snoc P x xs h.1 h.0)
  | inr e ↦ rw e (h.0, All-promote P f xs h.1)
]

Once-snoc : (x : Entry) (xs : List Entry) → Once xs → Missing x.fpn xs → Once (xs ++ (x ∷ []))
Once-snoc x [] h m = (tt, tt)
Once-snoc x (y ∷ ys) h m =
    (All-snoc (λ (z : Entry). z.fpn ≢ y.fpn) x ys h.0 (λ e. m.0 (sym e)), Once-snoc x ys h.1 m.1)

Once-promote : (f : ℕ) (xs : List Entry) → Once xs → Once (promote f xs)
unfolding promote
Once-promote f [] h = tt
Once-promote f (x ∷ xs) h = elim (Bool-cases (x.fpn == f)) [
  | inl e ↦ rw e (Once-snoc x xs h.1 h.0)
  | inr e ↦ rw e (All-promote (λ (z : Entry). z.fpn ≢ x.fpn) f xs h.0, Once-promote f xs h.1)
]

pub All-insert :
    (P : Entry → Type 0) (x : Entry) (xs : List Entry) → All P xs → P x → All P (insert x xs)
unfolding insert
All-insert P x xs h p = elim (Bool-cases (has_frame x.fpn xs)) [
  | inl e ↦ rw e (All-promote P x.fpn xs h)
  | inr e ↦ rw e (All-snoc P x xs h p)
]

has_frame-false : (f : ℕ) (xs : List Entry) → has_frame f xs ≡ false → Missing f xs
unfolding has_frame
has_frame-false f [] e = tt
has_frame-false f (x ∷ xs) e = (ground (arith, e), has_frame-false f xs (ground (arith, e)))

pub Once-insert : (x : Entry) (xs : List Entry) → Once xs → Once (insert x xs)
unfolding insert
Once-insert x xs h = elim (Bool-cases (has_frame x.fpn xs)) [
  | inl e ↦ rw e (Once-promote x.fpn xs h)
  | inr e ↦ rw e (Once-snoc x xs h (has_frame-false x.fpn xs e))
]

InFrame-unique : (c : ℕ → Option ℕ) (p f g : ℕ) → InFrame c p f → InFrame c p g → f ≡ g
InFrame-unique c p f g (v, e, _, a) (w, d, _, b) = sym a ∙ ap pte_fpn (some_inj.0 (sym e ∙ d)) ∙ b

-- Entries other than `p` keep their frames when `p` is written.
pub InFrame-other :
    (c : ℕ → Option ℕ) (p w q f : ℕ) → p ≢ q → InFrame c q f → InFrame (update c p w) q f
InFrame-other c p w q f ne (v, e, present, frame) = (v, update_ne c p q w ne ∙ e, present, frame)

pub Tracked-other :
    (c : ℕ → Option ℕ) (p w : ℕ) (xs : List Entry)
    → All (λ (x : Entry). p ≢ x.pte) xs
    → Tracked c xs
    → Tracked (update c p w) xs
Tracked-other c p w [] h t = tt
Tracked-other c p w (x ∷ xs) h t =
    (InFrame-other c p w x.pte x.fpn h.0 t.0, Tracked-other c p w xs h.1 t.1)

-- No listed page has the entry at `p` if its page is not in RAM.
pub Tracked-absent :
    (c : ℕ → Option ℕ) (p w : ℕ) (xs : List Entry)
    → c p ≡ some w
    → page_present w ≡ false
    → Tracked c xs
    → All (λ (x : Entry). p ≢ x.pte) xs
Tracked-absent c p w [] e a t = tt
Tracked-absent c p w (x ∷ xs) e a ((v, d, present, _), t) = (
  λ same. absurd (
      ground (arith, sym present ∙ ap page_present (some_inj.0 (sym d ∙ ap c (sym same) ∙ e)) ∙ a)),
  Tracked-absent c p w xs e a t,
)

pub Tracked-Missing :
    (c : ℕ → Option ℕ) (p f : ℕ) (xs : List Entry)
    → InFrame c p f
    → Missing f xs
    → Tracked c xs
    → All (λ (x : Entry). p ≢ x.pte) xs
Tracked-Missing c p f [] i m t = tt
Tracked-Missing c p f (x ∷ xs) i m t = (
  λ same. m.0 (InFrame-unique c x.pte x.fpn f t.0 (subst (λ q. InFrame c q f) same i)),
  Tracked-Missing c p f xs i m.1 t.1,
)
