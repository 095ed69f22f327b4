-- ===== src/Lru/Refine.antt =====
-- The functions of src/mm-vm.c on the list of pages in RAM do what the specification says.
use os_sim.Base.{ℕ, zero, suc, ◌<◌, ◌≡◌, ◌≢◌, refl, List, [], ◌∷◌, ◌++◌, length, ok, arith}
use os_sim.Lru.{Heap, find_reference, find_frame}
use os_sim.Lru.Chain.{Entry, node, first, last, Seg, load-ok}
use os_sim.Lru.Spec.{Missing}

-- Where the loop of `add_LRU_page` stops.
pub find_frame-Missing :
    (fuel f : ℕ) (c : Heap) (prev : ℕ) (xs : List Entry)
    → length xs < fuel
    → Seg c prev xs 0
    → Missing f xs
    → find_frame fuel f (first xs 0) c ≡ ok 0
unfolding find_frame
find_frame-Missing zero f c prev xs h s m = elim h [ ]
find_frame-Missing (suc fuel) f c prev [] h s m = refl
find_frame-Missing (suc fuel) f c prev (x ∷ xs) h s m = ground (
  arith,
  load-ok c x.ptr (node (first xs 0) prev x) s.0 s.1,
  find_frame-Missing fuel f c x.ptr xs (omega arith) s.2 m.1,
)

pub find_frame-found :
    (fuel f : ℕ) (c : Heap) (prev : ℕ) (before : List Entry) (x : Entry) (after : List Entry)
    → length (before ++ (x ∷ after)) < fuel
    → Seg c prev (before ++ (x ∷ after)) 0
    → Missing f before
    → x.fpn ≡ f
    → find_frame fuel f (first (before ++ (x ∷ after)) 0) c ≡ ok x.ptr
unfolding find_frame
find_frame-found zero f c prev before x after h s m e = elim h [ ]
find_frame-found (suc fuel) f c prev [] x after h s m e =
    ground (arith, load-ok c x.ptr (node (first after 0) prev x) s.0 s.1)
find_frame-found (suc fuel) f c prev (b ∷ before) x after h s m e = ground (
  arith,
  load-ok c b.ptr (node (first (before ++ (x ∷ after)) 0) prev b) s.0 s.1,
  find_frame-found fuel f c b.ptr before x after (omega arith) s.2 m.1 e,
)

-- Where the loop of `update_LRU_lst` stops: at the frame, or at the last node.
pub find_reference-Missing :
    (fuel f : ℕ) (c : Heap) (prev : ℕ) (x : Entry) (xs : List Entry)
    → length (x ∷ xs) < fuel
    → Seg c prev (x ∷ xs) 0
    → Missing f (x ∷ xs)
    → find_reference fuel f x.ptr c ≡ ok (last prev (x ∷ xs))
unfolding find_reference
find_reference-Missing zero f c prev x xs h s m = elim h [ ]
find_reference-Missing (suc fuel) f c prev x [] h s m =
    ground (arith, load-ok c x.ptr (node 0 prev x) s.0 s.1)
find_reference-Missing (suc fuel) f c prev x (y ∷ xs) h s m = ground (
  arith,
  load-ok c x.ptr (node y.ptr prev x) s.0 s.1,
  find_reference-Missing fuel f c x.ptr y xs (omega arith) s.2 m.1,
)

first-ne-null :
    (before : List Entry) (x : Entry) (after : List Entry) (c : Heap) (prev : ℕ)
    → Seg c prev (before ++ (x ∷ after)) 0
    → first (before ++ (x ∷ after)) 0 ≢ 0
first-ne-null [] x after c prev s = s.0
first-ne-null (b ∷ before) x after c prev s = s.0

pub find_reference-found :
    (fuel f : ℕ) (c : Heap) (prev : ℕ) (before : List Entry) (x : Entry) (after : List Entry)
    → length (before ++ (x ∷ after)) < fuel
    → Seg c prev (before ++ (x ∷ after)) 0
    → Missing f before
    → x.fpn ≡ f
    → find_reference fuel f (first (before ++ (x ∷ after)) 0) c ≡ ok x.ptr
unfolding find_reference
find_reference-found zero f c prev before x after h s m e = elim h [ ]
find_reference-found (suc fuel) f c prev [] x after h s m e =
    ground (arith, load-ok c x.ptr (node (first after 0) prev x) s.0 s.1)
find_reference-found (suc fuel) f c prev (b ∷ before) x after h s m e = ground (
  arith,
  load-ok c b.ptr (node (first (before ++ (x ∷ after)) 0) prev b) s.0 s.1,
  first-ne-null before x after c b.ptr s.2,
  find_reference-found fuel f c b.ptr before x after (omega arith) s.2 m.1 e,
)
