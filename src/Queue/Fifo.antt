-- ===== src/Queue/Fifo.antt =====
-- What a queue of src/queue.c promises: a first-in, first-out list of bounded length.
use os_sim.Base.{
  ℕ, Option, none, some, List, [], ◌∷◌, ◌++◌, length, Outcome, ok, exited, ltb, if◌then◌else◌,
}

module _ {ℓ} {A : Type ℓ} where
  unfoldable pub push : ℕ → List A → A → Outcome (List A)
  push cap xs p = if ltb (length xs) cap then ok (xs ++ (p ∷ [])) else exited

  unfoldable pub pop : List A → Option A × List A
  pop [] = (none, [])
  pop (x ∷ xs) = (some x, xs)
