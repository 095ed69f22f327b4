-- ===== src/Queue.antt =====
-- src/queue.c and include/queue.h: a queue of at most ten processes in an array. `A` stands for
-- `struct pcb_t *`. Every caller passes the address of a static queue, so the tests for a null
-- queue are left out.
pub mod Fifo
pub mod Refine
mod Tests
use os_sim.Base.{
  ℕ, zero, suc, ◌-◌, ◌+◌, Bool, Option, none, some, List, set, get_elem?, take, Outcome, ok, exited,
  fault, ◌>>=◌, ltb, ◌==◌, if◌then◌else◌,
}

-- `struct queue_t`
pub record Queue {ℓ} (A : Type ℓ) : Type ℓ where
  pub proc : List A
  pub size : ℕ

-- MAX_QUEUE_SIZE
abbrev pub max_queue_size : ℕ
max_queue_size = 10

module _ {ℓ} {A : Type ℓ} where
  unfoldable pub empty : Queue A → Bool
  empty q = q.size == 0

  unfoldable pub enqueue : Queue A → A → Outcome (Queue A)
  enqueue q p =
      if ltb q.size max_queue_size
      then ok (record q { proc = set q.proc q.size p; size = q.size + 1 })
      else exited

  -- The loop `for (i = …; i < size - 1; i++) proc[i] = proc[i + 1]`, by the rounds left.
  unfoldable pub shift : ℕ → ℕ → List A → Outcome (List A)
  shift zero i xs = ok xs
  shift (suc n) i xs = elim (get_elem? xs (suc i)) [
    | none ↦ fault
    | some x ↦ shift n (suc i) (set xs i x)
  ]

  -- `none` is the NULL that is returned for an empty queue.
  unfoldable pub dequeue : Queue A → Outcome (Option A × Queue A)
  unfolding empty shift
  dequeue q = if empty q then ok (none, q) else elim (get_elem? q.proc 0) [
    | none ↦ fault
    | some front ↦ (do
      xs ← shift (q.size - 1) 0 q.proc
      ok (some front, record q { proc = xs; size = q.size - 1 }))
  ]
