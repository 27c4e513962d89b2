-- ===== src/Mpmc/Tests.antt =====
-- The queue of src/concurrency/mpmc_queue.hpp on concrete calls.
use astral_runtime.Base.{ℕ, ◌≤◌, ◌<◌, ◌≡◌, refl, arith}
use astral_runtime.Spsc.{cell}
use astral_runtime.Spsc.Cells.{IsCapacity}
use astral_runtime.Mpmc.{
  Enqueue, Dequeue, System, init, start, update, put_item, put_seq, claim_enqueue, claim_dequeue,
  enqueue_step, dequeue_step, enqueues, dequeues, Reach, here, enqueue_begins, dequeue_begins,
  works, size,
}
use astral_runtime.Mpmc.Runs.{Run}
use astral_runtime.Mpmc.Delivery.{delivered}
use astral_runtime.Mpmc.Drain.{drain}

two_cells : IsCapacity 2
two_cells = record { bits = 1; power = refl }

abbrev storage : ℕ → ℕ
storage i = 0

-- A consumer comes first and waits for the item of the producer after it.
abbrev both_begun : System ℕ
both_begun = claim_enqueue (claim_dequeue (start storage)) 5

both_begun-Reach : Reach 2 storage 2 both_begun
both_begun-Reach = enqueue_begins 5 (dequeue_begins here)

abbrev producer : System ℕ → System ℕ
producer s = enqueue_step 2 s 0 (s.enq 0)

abbrev consumer : System ℕ → System ℕ
consumer s = dequeue_step 2 s 0 (s.deq 0)

abbrev passed : System ℕ
passed = consumer (consumer (consumer (producer (producer (producer (consumer both_begun))))))

passed-Reach : Reach 2 storage 2 passed
passed-Reach =
    works
      (works
        (works
          (works (works (works (works both_begun-Reach (dequeues 0)) (enqueues 0)) (enqueues 0))
            (enqueues 0))
          (dequeues 0))
        (dequeues 0))
      (dequeues 0)

passed-left : passed.deq 0 ≡ Dequeue.left 5
unfolding claim_enqueue claim_dequeue update init enqueue_step dequeue_step put_item put_seq cell
passed-left = refl

delivered_example : passed.enq 0 ≡ Enqueue.left 5
delivered_example =
    delivered 2 2 storage passed 0 5 two_cells (omega arith) (omega arith) passed-Reach passed-left

counts : (0 < both_begun.queue.enqueue_pos) × (0 < both_begun.queue.dequeue_pos)
unfolding claim_enqueue claim_dequeue update init
counts = (omega arith, omega arith)

drain_example :
    (t : System ℕ) × Run 2 both_begun t
    × ((q : ℕ) → q ≤ 0 → (x : ℕ) × (t.enq q ≡ Enqueue.left x) × (t.deq q ≡ Dequeue.left x))
drain_example =
    drain 2 2 storage both_begun 0 two_cells (omega arith) (omega arith) both_begun-Reach (counts.0)
      (counts.1)

sizes :
    (size both_begun.queue ≡ 0)
    × (size (claim_enqueue (start storage) 5).queue ≡ 1)
    × (size (claim_dequeue (start storage)).queue ≡ 0)
unfolding claim_enqueue claim_dequeue update init size
sizes = (refl, refl, refl)
