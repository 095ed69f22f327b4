-- ===== src/Lru/Chain.antt =====
-- Segments of the doubly linked list of src/mm-vm.c, and writes to their ends.
use os_sim.Base.{ℕ, ◌≡◌, ◌≢◌, refl, sym, ◌∙◌, some, List, [], ◌∷◌, ◌++◌, All, ok, arith}
use os_sim.Lru.{Node, Heap, update, load, set_next, set_pre}

-- A node of the list as a user of it sees it: its address and its data.
pub record Entry : Type 0 where
  pub ptr : ℕ
  pub pte : ℕ
  pub fpn : ℕ
  pub pgn : ℕ

abbrev pub node : ℕ → ℕ → Entry → Node
node next pre x = record { lru_next = next; lru_pre = pre; pte = x.pte; fpn = x.fpn; pgn = x.pgn }

-- The address of the first entry, or `stop`; of the last, or `prev`.
abbrev pub first : List Entry → ℕ → ℕ
first [] stop = stop
first (x ∷ xs) stop = x.ptr

abbrev pub last : ℕ → List Entry → ℕ
last prev [] = prev
last prev (x ∷ xs) = last x.ptr xs

-- `a` is the address of no entry.
abbrev pub Apart : ℕ → List Entry → Type 0
Apart a xs = All (λ (x : Entry). a ≢ x.ptr) xs

abbrev pub Distinct : List Entry → Type 0
Distinct [] = Unit
Distinct (x ∷ xs) = Apart x.ptr xs × Distinct xs

-- The nodes of `xs` are linked both ways, between the node `prev` and the node `stop`.
abbrev pub Seg : Heap → ℕ → List Entry → ℕ → Type 0
Seg c prev [] stop = Unit
Seg c prev (x ∷ xs) stop =
    (x.ptr ≢ 0) × (c x.ptr ≡ some (node (first xs stop) prev x)) × Seg c x.ptr xs stop

-- `d` agrees with `c` at the addresses of `xs`.
abbrev pub Same : Heap → Heap → List Entry → Type 0
Same c d xs = All (λ (x : Entry). d x.ptr ≡ c x.ptr) xs

pub Seg-frame :
    (c d : Heap) (prev : ℕ) (xs : List Entry) (stop : ℕ)
    → Same c d xs
    → Seg c prev xs stop
    → Seg d prev xs stop
Seg-frame c d prev [] stop e s = tt
Seg-frame c d prev (x ∷ xs) stop e s = (s.0, e.0 ∙ s.1, Seg-frame c d x.ptr xs stop e.1 s.2)

pub Seg-append :
    (c : Heap) (prev : ℕ) (xs ys : List Entry) (stop : ℕ)
    → Seg c prev xs (first ys stop)
    → Seg c (last prev xs) ys stop
    → Seg c prev (xs ++ ys) stop
Seg-append c prev [] ys stop s t = t
Seg-append c prev (x ∷ []) ys stop s t = (s.0, s.1, t)
Seg-append c prev (x ∷ y ∷ xs) ys stop s t = (s.0, s.1, Seg-append c x.ptr (y ∷ xs) ys stop s.2 t)

pub Seg-split :
    (c : Heap) (prev : ℕ) (xs ys : List Entry) (stop : ℕ)
    → Seg c prev (xs ++ ys) stop
    → Seg c prev xs (first ys stop) × Seg c (last prev xs) ys stop
Seg-split c prev [] ys stop s = (tt, s)
Seg-split c prev (x ∷ []) ys stop s = ((s.0, s.1, tt), s.2)
Seg-split c prev (x ∷ y ∷ xs) ys stop s =
    let (t, u) = Seg-split c x.ptr (y ∷ xs) ys stop s.2 in ((s.0, s.1, t), u)

pub load-ok : (c : Heap) (p : ℕ) (n : Node) → p ≢ 0 → c p ≡ some n → load c p ≡ ok n
unfolding load
load-ok c p n h e = ground arith

-- What a write of a field makes of the heap.
pub set_next-ok :
    (c : Heap) (p q : ℕ) (n : Node)
    → p ≢ 0
    → c p ≡ some n
    → set_next p q c ≡ ok (update c p (record n { lru_next = q }))
unfolding set_next
set_next-ok c p q n h e = ground arith

pub set_pre-ok :
    (c : Heap) (p q : ℕ) (n : Node)
    → p ≢ 0
    → c p ≡ some n
    → set_pre p q c ≡ ok (update c p (record n { lru_pre = q }))
unfolding set_pre
set_pre-ok c p q n h e = ground arith

pub Same-update :
    (c : Heap) (p : ℕ) (n : Node) (xs : List Entry) → Apart p xs → Same c (update c p n) xs
Same-update c p n [] h = tt
Same-update c p n (x ∷ xs) h = (ground arith, Same-update c p n xs h.1)

-- A new node before a segment: only its first node is written.
pub set_pre-Seg :
    (c : Heap) (prev prev' : ℕ) (y : Entry) (ys : List Entry) (stop : ℕ)
    → Seg c prev (y ∷ ys) stop
    → Apart y.ptr ys
    → (d : Heap) × (set_pre y.ptr prev' c ≡ ok d)
      × Seg d prev' (y ∷ ys) stop
      × ((zs : List Entry) → Apart y.ptr zs → Same c d zs)
set_pre-Seg c prev prev' y ys stop s apart =
    let n : Node = node (first ys stop) prev y in
    let d : Heap = update c y.ptr (record n { lru_pre = prev' }) in
    (
      d,
      set_pre-ok c y.ptr prev' n s.0 s.1,
      (s.0, ground arith, Seg-frame c d y.ptr ys stop (Same-update c y.ptr _ ys apart) s.2),
      λ zs h. Same-update c y.ptr _ zs h,
    )

-- What holds of every address of a segment holds of its last.
pub last-All :
    (P : ℕ → Type 0) (prev : ℕ) (x : Entry) (xs : List Entry)
    → All (λ (y : Entry). P y.ptr) (x ∷ xs)
    → P (last prev (x ∷ xs))
last-All P prev x [] h = h.0
last-All P prev x (y ∷ xs) h = last-All P x.ptr y xs h.1

-- A new node behind a segment: only its last node is written.
pub set_next-Seg :
    (c : Heap) (prev : ℕ) (x : Entry) (xs : List Entry) (stop stop' : ℕ)
    → Seg c prev (x ∷ xs) stop
    → Distinct (x ∷ xs)
    → (d : Heap) × (set_next (last prev (x ∷ xs)) stop' c ≡ ok d)
      × Seg d prev (x ∷ xs) stop'
      × ((zs : List Entry) → Apart (last prev (x ∷ xs)) zs → Same c d zs)
set_next-Seg c prev x [] stop stop' s h =
    let n : Node = node stop prev x in
    (
      update c x.ptr (record n { lru_next = stop' }),
      set_next-ok c x.ptr stop' n s.0 s.1,
      (s.0, ground arith, tt),
      λ zs h. Same-update c x.ptr _ zs h,
    )
set_next-Seg c prev x (y ∷ ys) stop stop' s h =
    let (d, run, t, same) = set_next-Seg c x.ptr y ys stop stop' s.2 h.1 in
    let kept = same (x ∷ []) (λ e. last-All (λ a. x.ptr ≢ a) x.ptr y ys h.0 (sym e), tt) in
    (d, run, (s.0, kept.0 ∙ s.1, t), same)

-- Two parts of a list of distinct entries.
abbrev pub Across : List Entry → List Entry → Type 0
Across xs ys = All (λ (x : Entry). Apart x.ptr ys) xs

pub Apart-append : (a : ℕ) (xs ys : List Entry) → Apart a xs → Apart a ys → Apart a (xs ++ ys)
Apart-append a [] ys h g = g
Apart-append a (x ∷ xs) ys h g = (h.0, Apart-append a xs ys h.1 g)

pub Apart-split : (a : ℕ) (xs ys : List Entry) → Apart a (xs ++ ys) → Apart a xs × Apart a ys
Apart-split a [] ys h = (tt, h)
Apart-split a (x ∷ xs) ys h = let (p, q) = Apart-split a xs ys h.1 in ((h.0, p), q)

pub Distinct-split :
    (xs ys : List Entry) → Distinct (xs ++ ys) → Distinct xs × Distinct ys × Across xs ys
Distinct-split [] ys h = (tt, h, tt)
Distinct-split (x ∷ xs) ys h =
    let (p, q) = Apart-split x.ptr xs ys h.0 in
    let (u, v, w) = Distinct-split xs ys h.1 in ((p, u), v, (q, w))

pub Distinct-append :
    (xs ys : List Entry) → Distinct xs → Distinct ys → Across xs ys → Distinct (xs ++ ys)
Distinct-append [] ys u v w = v
Distinct-append (x ∷ xs) ys u v w =
    (Apart-append x.ptr xs ys u.0 w.0, Distinct-append xs ys u.1 v w.1)

Across-cons :
    (xs : List Entry) (y : Entry) (ys : List Entry)
    → Apart y.ptr xs
    → Across xs ys
    → Across xs (y ∷ ys)
Across-cons [] y ys h w = tt
Across-cons (x ∷ xs) y ys h w = ((λ e. h.0 (sym e), w.0), Across-cons xs y ys h.1 w.1)

Across-nil : (xs : List Entry) → Across xs []
Across-nil [] = tt
Across-nil (x ∷ xs) = (tt, Across-nil xs)

pub Across-flip : (xs ys : List Entry) → Across xs ys → Across ys xs
Across-flip [] ys w = Across-nil ys
Across-flip (x ∷ xs) ys w = Across-cons ys x xs w.0 (Across-flip xs ys w.1)

pub Same-trans : (c d e : Heap) (xs : List Entry) → Same c d xs → Same d e xs → Same c e xs
Same-trans c d e [] h g = tt
Same-trans c d e (x ∷ xs) h g = (g.0 ∙ h.0, Same-trans c d e xs h.1 g.1)

pub last-append : (prev : ℕ) (xs ys : List Entry) → last prev (xs ++ ys) ≡ last (last prev xs) ys
last-append prev [] ys = refl
last-append prev (x ∷ xs) ys = last-append x.ptr xs ys

-- The first of a part may as well stand behind it.
pub Apart-rotate :
    (p : ℕ) (x : Entry) (xs : List Entry) → Apart p (x ∷ xs) → Apart p (xs ++ (x ∷ []))
Apart-rotate p x xs h = Apart-append p xs (x ∷ []) h.1 (h.0, tt)

pub Across-rotate :
    (xs : List Entry) (y : Entry) (ys : List Entry)
    → Across xs (y ∷ ys)
    → Across xs (ys ++ (y ∷ []))
Across-rotate [] y ys h = tt
Across-rotate (x ∷ xs) y ys h = (Apart-rotate x.ptr y ys h.0, Across-rotate xs y ys h.1)

pub Distinct-rotate : (x : Entry) (xs : List Entry) → Distinct (x ∷ xs) → Distinct (xs ++ (x ∷ []))
Distinct-rotate x xs h =
    Distinct-append xs (x ∷ []) h.1 (tt, tt) (Across-flip (x ∷ []) xs (h.0, tt))
