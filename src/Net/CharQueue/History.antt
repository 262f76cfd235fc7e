-- ===== src/Net/CharQueue/History.antt =====
-- A history of calls of a producer and a consumer.
use libgdb.Prelude.{◌≡◌, refl, List, [], ◌∷◌}
use libgdb.Prelude.Outcome.{Outcome, ok, ◌>>=◌}
use libgdb.Net.CharQueue.{CharQueue, queue_capacity, char_enqueue, char_dequeue}
use libgdb.Net.CharQueue.Window.{contents}
use libgdb.Net.CharQueue.Refine.{IsValid, char_enqueue_refines, char_dequeue_refines}
use libgdb.Net.CharQueue.Fifo.{Op, enqueue, dequeue, Reply, taken, given}
use libgdb.Net.CharQueue.Fifo

-- The calls of a history, one after the other, and what they return.
unfoldable pub run : CharQueue → List Op → Outcome (List Reply × CharQueue)
run q [] = ok ([], q)
run q (enqueue c ∷ ops) = char_enqueue q c >>= λ (q', done).
    run q' ops >>= λ (replies, end). ok (taken done ∷ replies, end)
run q (dequeue ∷ ops) =
    char_dequeue q >>= λ (q', c). run q' ops >>= λ (replies, end). ok (given c ∷ replies, end)

-- From a valid queue every history of calls of char_enqueue and char_dequeue ends without a fault,
-- is told what the bounded first-in first-out queue of its contents tells, leaves those contents,
-- and leaves the queue valid.
pub run_refines :
    (ops : List Op) (q : CharQueue)
    → IsValid q
    → (q' : CharQueue) × (run q ops ≡ ok ((Fifo.run queue_capacity (contents q) ops).0, q'))
      × (contents q' ≡ (Fifo.run queue_capacity (contents q) ops).1)
      × IsValid q'
unfolding run Fifo.run
run_refines [] q v = (q, refl, refl, v)
run_refines (enqueue c ∷ ops) q v =
    let (q₁, step, left, v₁) = char_enqueue_refines q c v in
    let (q', rest, end, v') = run_refines ops q₁ v₁ in
    (q', rw (step, rest, left) refl, rw (← left) end, v')
run_refines (dequeue ∷ ops) q v =
    let (q₁, step, left, v₁) = char_dequeue_refines q v in
    let (q', rest, end, v') = run_refines ops q₁ v₁ in
    (q', rw (step, rest, left) refl, rw (← left) end, v')
