-- ===== src/Lru/Spec.antt =====
-- What the list of src/mm-vm.c stands for: the frames in use, least recently used first.
use os_sim.Base.{
  ℕ, ◌≡◌, ◌≢◌, refl, ap, ◌⊎◌, inl, inr, Bool, true, false, ◌||◌, List, [], ◌∷◌, ◌++◌, All, arith,
  ◌==◌, if◌then◌else◌, ℕ_discrete,
}
use os_sim.Lru.Chain.{Entry}

-- The entry of the frame, if there is one, becomes the most recently used.
unfoldable pub promote : ℕ → List Entry → List Entry
promote f [] = []
promote f (x ∷ xs) = if x.fpn == f then xs ++ (x ∷ []) else x ∷ promote f xs

unfoldable pub has_frame : ℕ → List Entry → Bool
has_frame f [] = false
has_frame f (x ∷ xs) = (x.fpn == f) || has_frame f xs

-- A page that comes into RAM: a frame that is listed keeps its entry.
unfoldable pub insert : Entry → List Entry → List Entry
unfolding has_frame promote
insert x xs = if has_frame x.fpn xs then promote x.fpn xs else xs ++ (x ∷ [])

abbrev pub Missing : ℕ → List Entry → Type 0
Missing f xs = All (λ (x : Entry). x.fpn ≢ f) xs

-- The first entry of a frame.
pub record Found (f : ℕ) (xs : List Entry) : Type 0 where
  pub before : List Entry
  pub entry : Entry
  pub after : List Entry
  pub whole : xs ≡ before ++ (entry ∷ after)
  pub missing : Missing f before
  pub hit : entry.fpn ≡ f

Found-cons : (f : ℕ) (x : Entry) (xs : List Entry) → x.fpn ≢ f → Found f xs → Found f (x ∷ xs)
Found-cons f x xs ne d = record {
  before = x ∷ d.before;
  entry = d.entry;
  after = d.after;
  whole = ap (λ t. x ∷ t) d.whole;
  missing = (ne, d.missing);
  hit = d.hit;
}

pub Found-cases : (f : ℕ) (xs : List Entry) → Missing f xs ⊎ Found f xs
Found-cases f [] = inl tt
Found-cases f (x ∷ xs) = elim (ℕ_discrete x.fpn f) [
  | yes e ↦ inr (record { before = []; entry = x; after = xs; whole = refl; missing = tt; hit = e })
  | no ne ↦ elim (Found-cases f xs) [ inl h ↦ inl (ne, h) | inr d ↦ inr (Found-cons f x xs ne d) ]
]

pub promote-Missing : (f : ℕ) (xs : List Entry) → Missing f xs → promote f xs ≡ xs
unfolding promote
promote-Missing f [] h = refl
promote-Missing f (x ∷ xs) h = ground (arith, promote-Missing f xs h.1)

pub promote-found :
    (f : ℕ) (before : List Entry) (x : Entry) (after : List Entry)
    → Missing f before
    → x.fpn ≡ f
    → promote f (before ++ (x ∷ after)) ≡ before ++ (after ++ (x ∷ []))
unfolding promote
promote-found f [] x after h e = ground arith
promote-found f (b ∷ before) x after h e = ground (arith, promote-found f before x after h.1)

pub has_frame-Missing : (f : ℕ) (xs : List Entry) → Missing f xs → has_frame f xs ≡ false
unfolding has_frame
has_frame-Missing f [] h = refl
has_frame-Missing f (x ∷ xs) h = ground (arith, has_frame-Missing f xs h.1)

pub has_frame-found :
    (f : ℕ) (before : List Entry) (x : Entry) (after : List Entry)
    → x.fpn ≡ f
    → has_frame f (before ++ (x ∷ after)) ≡ true
unfolding has_frame
has_frame-found f [] x after e = ground arith
has_frame-found f (b ∷ before) x after e = ground (arith, has_frame-found f before x after)

pub insert-Missing : (x : Entry) (xs : List Entry) → Missing x.fpn xs → insert x xs ≡ xs ++ (x ∷ [])
unfolding insert
insert-Missing x xs h = rw (has_frame-Missing x.fpn xs h)

pub insert-found :
    (x : Entry) (before : List Entry) (y : Entry) (after : List Entry)
    → Missing x.fpn before
    → y.fpn ≡ x.fpn
    → insert x (before ++ (y ∷ after)) ≡ before ++ (after ++ (y ∷ []))
unfolding insert
insert-found x before y after h e =
    rw (has_frame-found x.fpn before y after e) (promote-found x.fpn before y after h e)
