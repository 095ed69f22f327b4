-- ===== src/Queue/Tests.antt =====
-- The queue of src/queue.c at concrete inputs.
use os_sim.Base.{ℕ, ◌≡◌, refl, some, [], ◌∷◌, ok, exited, arith, replicate}
use os_sim.Queue.{Queue, enqueue, dequeue, max_queue_size}
use os_sim.Queue.Fifo
use os_sim.Queue.Refine.{IsValid, contents, view, enqueue_refines, dequeue_refines}

abbrev two_waiting : Queue ℕ
two_waiting = record { proc = 7 ∷ 8 ∷ replicate 8 0; size = 2 }

abbrev full_queue : Queue ℕ
full_queue = record { proc = replicate 10 5; size = 10 }

two_waiting-IsValid : IsValid two_waiting
two_waiting-IsValid = record { array = refl; bound = omega arith }

dequeue-two_waiting :
    dequeue two_waiting ≡ ok (some 7, record { proc = 8 ∷ 8 ∷ replicate 8 0; size = 1 })
unfolding dequeue
dequeue-two_waiting = refl

enqueue-full_queue : enqueue full_queue 6 ≡ exited
unfolding enqueue
enqueue-full_queue = refl

enqueue_refines_example : view (enqueue two_waiting 9) ≡ Fifo.push max_queue_size (7 ∷ 8 ∷ []) 9
enqueue_refines_example = enqueue_refines two_waiting 9 two_waiting-IsValid

dequeue_refines_example :
    (q' : Queue ℕ) × (dequeue two_waiting ≡ ok ((Fifo.pop (7 ∷ 8 ∷ [])).0, q'))
    × IsValid q'
    × (contents q' ≡ (Fifo.pop (7 ∷ 8 ∷ [])).1)
dequeue_refines_example = dequeue_refines two_waiting two_waiting-IsValid
