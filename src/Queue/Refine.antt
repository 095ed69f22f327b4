-- ===== src/Queue/Refine.antt =====
-- The array queue of src/queue.c behaves as a bounded list.
use os_sim.Base.{
  ℕ, zero, suc, ◌≤◌, ◌<◌, ◌≡◌, ◌≢◌, refl, sym, ap, false, some, List, [], ◌∷◌, ◌++◌, length, set,
  get_elem?, take, length-set, Outcome, ok, exited, arith, ◌+◌, ◌>>=◌, Option-cases, inl, inr,
}
use os_sim.Queue
use os_sim.Queue.{Queue, max_queue_size, enqueue, shift, dequeue}
use os_sim.Queue.Fifo

-- The array has its declared length, and the size lies within it.
pub record IsValid {A : Type 0} (q : Queue A) : Type 0 where
  pub array : length q.proc ≡ max_queue_size
  pub bound : q.size ≤ max_queue_size

module _ {A : Type 0} where
  -- The processes that wait, oldest first.
  abbrev pub contents : Queue A → List A
  contents q = take q.size q.proc

  pub length-take : (n : ℕ) (xs : List A) → n ≤ length xs → length (take n xs) ≡ n
  length-take zero xs h = refl
  length-take (suc n) [] h = absurd (omega arith)
  length-take (suc n) (x ∷ xs) h = ap suc (length-take n xs (omega arith))

  take-set :
      (n : ℕ) (xs : List A) (p : A)
      → n < length xs
      → take (suc n) (set xs n p) ≡ take n xs ++ (p ∷ [])
  take-set n [] p h = elim h [ ]
  take-set zero (x ∷ xs) p h = refl
  take-set (suc n) (x ∷ xs) p h = ap (λ t. x ∷ t) (take-set n xs p (omega arith))

  shift-cons :
      (n i : ℕ) (x : A) (xs ys : List A)
      → shift n i xs ≡ ok ys
      → shift n (suc i) (x ∷ xs) ≡ ok (x ∷ ys)
  unfolding shift
  shift-cons zero i x xs ys h = ground arith
  shift-cons (suc n) i x xs ys h = elim (Option-cases (get_elem? xs (suc i))) [
    | inl e ↦ absurd (ground arith)
    | inr (a, e) ↦ rw (e, shift) (shift-cons n (suc i) x (set xs i a) ys (rw (e, shift) at h))
  ]

  -- What the loop of `dequeue` leaves: the elements behind the first move one place forward.
  pub shift-take :
      (n : ℕ) (x : A) (xs : List A)
      → n < length (x ∷ xs)
      → (ys : List A) × (shift n 0 (x ∷ xs) ≡ ok ys)
        × (length ys ≡ length (x ∷ xs))
        × (take n ys ≡ take n xs)
  unfolding shift
  shift-take zero x xs h = (x ∷ xs, refl, refl, refl)
  shift-take (suc n) x [] h = absurd (omega arith)
  shift-take (suc n) x (y ∷ xs) h =
      let (ys, run, len, same) = shift-take n y xs (omega arith) in
      (y ∷ ys, shift-cons n 0 y (y ∷ xs) ys run, ap suc len, ap (λ t. y ∷ t) same)

  -- `map contents`, on a call that returns a queue.
  unfoldable pub view : Outcome (Queue A) → Outcome (List A)
  view r = r >>= λ q. ok (contents q)

  -- On a valid queue `enqueue` does to the list of its contents what a bounded list does: it appends
  -- the process, or exits at ten.
  pub enqueue_refines :
      (q : Queue A) (p : A)
      → IsValid q
      → view (enqueue q p) ≡ Fifo.push max_queue_size (contents q) p
  unfolding view enqueue Fifo.push
  enqueue_refines q p v = ground (arith, length-take q.size q.proc, take-set q.size q.proc p)

  pub enqueue-IsValid :
      (q : Queue A) (p : A) {q' : Queue A} → IsValid q → enqueue q p ≡ ok q' → IsValid q'
  unfolding enqueue
  enqueue-IsValid q p v e = ground (arith, length-set q.proc q.size p)

  dequeue_fields :
      (n : ℕ) (xs : List A)
      → length xs ≡ max_queue_size
      → n ≤ max_queue_size
      → (q' : Queue A) × (dequeue (record { proc = xs; size = n })
          ≡ ok ((Fifo.pop (take n xs)).0, q'))
        × IsValid q'
        × (contents q' ≡ (Fifo.pop (take n xs)).1)
  unfolding dequeue Fifo.pop
  dequeue_fields zero xs len bound =
      (record { proc = xs; size = 0 }, refl, record { array = len; bound = bound }, refl)
  dequeue_fields (suc n) [] len bound = absurd (omega arith)
  dequeue_fields (suc n) (x ∷ xs) len bound =
      let (ys, run, size, same) = shift-take n x xs (omega arith) in
      (record { proc = ys; size = n }, ground (arith, run), ground arith, same)

  -- On a valid queue `dequeue` returns, and stays within the array: it returns the oldest process,
  -- or NULL if there is none, keeps the others in order, and leaves a valid queue.
  pub dequeue_refines :
      (q : Queue A)
      → IsValid q
      → (q' : Queue A) × (dequeue q ≡ ok ((Fifo.pop (contents q)).0, q'))
        × IsValid q'
        × (contents q' ≡ (Fifo.pop (contents q)).1)
  dequeue_refines q v = dequeue_fields q.size q.proc v.array v.bound

  -- A queue that is not empty gives up its oldest process.
  dequeue-some_fields :
      (n : ℕ) (xs : List A)
      → length xs ≡ max_queue_size
      → n ≤ max_queue_size
      → n ≢ 0
      → (p : A) × (q' : Queue A) × (dequeue (record { proc = xs; size = n }) ≡ ok (some p, q'))
        × (take n xs ≡ p ∷ contents q')
        × IsValid q'
  unfolding dequeue
  dequeue-some_fields zero xs len bound ne = absurd (ne refl)
  dequeue-some_fields (suc n) [] len bound ne = absurd (omega arith)
  dequeue-some_fields (suc n) (x ∷ xs) len bound ne =
      let (ys, run, size, same) = shift-take n x xs (omega arith) in
      (
        x,
        record { proc = ys; size = n },
        ground (arith, run),
        ap (λ t. x ∷ t) (sym same),
        ground arith,
      )

  pub dequeue-some :
      (q : Queue A)
      → IsValid q
      → Queue.empty q ≡ false
      → (p : A) × (q' : Queue A) × (dequeue q ≡ ok (some p, q'))
        × (contents q ≡ p ∷ contents q')
        × IsValid q'
  unfolding Queue.empty
  dequeue-some q v e = dequeue-some_fields q.size q.proc v.array v.bound (ground arith)

  pub enqueue-ok :
      (q : Queue A) (p : A)
      → IsValid q
      → q.size < max_queue_size
      → (q' : Queue A) × (enqueue q p ≡ ok q') × (contents q' ≡ contents q ++ (p ∷ [])) × IsValid q'
  unfolding enqueue
  enqueue-ok q p v h = (
    record q { proc = set q.proc q.size p; size = q.size + 1 },
    ground arith,
    ground (arith, take-set q.size q.proc p),
    ground (arith, length-set q.proc q.size p),
  )

  pub enqueue-full : (q : Queue A) (p : A) → q.size ≡ max_queue_size → enqueue q p ≡ exited
  unfolding enqueue
  enqueue-full q p h = ground arith
