-- ===== src/Mpmc/Drain.antt =====
-- The calls of src/concurrency/mpmc_queue.hpp return once those before them have.
use astral_runtime.Base.{
  ℕ, zero, suc, ◌+◌, ◌-◌, ◌≤◌, ◌<◌, ◌≡◌, ◌≢◌, refl, ap, sym, subst, ◌∙◌, inl, inr, arith,
  Bool-cases, ◌==◌, ltb, true, add64, u64_mod,
}
use astral_runtime.Spsc.{cell}
use astral_runtime.Spsc.Cells.{IsCapacity, cell-around}
use astral_runtime.Mpmc.{
  Enqueue, Dequeue, System, enqueue_step, dequeue_step, enqueues, dequeues, Reach,
}
use astral_runtime.Mpmc.Tickets.{update-same}
use astral_runtime.Mpmc.Sound.{IsSound}
use astral_runtime.Mpmc.Runs.{Run, rest, goes, Run-trans, Run-Keeps}
use astral_runtime.Mpmc.Delivery.{
  Reach-IsSound, Work-IsSound, enq_known, deq_known, next, deq_bound, matched,
}

module _ {A : Type 0} (c n p : ℕ) (cap : IsCapacity c) (two : 2 ≤ c) (small : n + c < u64_mod) where
  -- A run after which the call of `p` has returned.
  EnqueueReturns : System A → Type 0
  EnqueueReturns s = (t : System A) × (x : A) × Run c s t × (t.enq p ≡ Enqueue.left x)

  DequeueReturns : System A → Type 0
  DequeueReturns s = (t : System A) × (x : A) × Run c s t × (t.deq p ≡ Dequeue.left x)

  enqueue_goes :
      (s : System A) (e : Enqueue A)
      → s.enq p ≡ e
      → EnqueueReturns (enqueue_step c s p e)
      → EnqueueReturns s
  unfolding EnqueueReturns
  enqueue_goes s e is (t, x, run, left) =
      (t, x, goes (enqueues p) (subst (λ f. Run c (enqueue_step c s p f) t) (sym is) run), left)

  dequeue_goes :
      (s : System A) (d : Dequeue A)
      → s.deq p ≡ d
      → DequeueReturns (dequeue_step c s p d)
      → DequeueReturns s
  unfolding DequeueReturns
  dequeue_goes s d is (t, x, run, left) =
      (t, x, goes (dequeues p) (subst (λ f. Run c (dequeue_step c s p f) t) (sym is) run), left)

  enqueue_written : (s : System A) (x : A) → s.enq p ≡ Enqueue.written x → EnqueueReturns s
  unfolding EnqueueReturns enqueue_step
  enqueue_written s x is =
      enqueue_goes s (Enqueue.written x) is
        (_, x, rest, update-same s.enq p (Enqueue.left x) p refl)

  enqueue_ready : (s : System A) (x : A) → s.enq p ≡ Enqueue.ready x → EnqueueReturns s
  unfolding enqueue_step
  enqueue_ready s x is =
      enqueue_goes s (Enqueue.ready x) is
        (enqueue_written _ x (update-same s.enq p (Enqueue.written x) p refl))

  -- A call is past its loop once the cell has come round to it.
  enqueue_returns :
      (s : System A) (e : Enqueue A)
      → IsSound c n s
      → p ≤ (s.queue.buffer (cell c p)).seq
      → s.enq p ≢ Enqueue.unclaimed
      → s.enq p ≡ e
      → EnqueueReturns s
  unfolding EnqueueReturns enqueue_step
  enqueue_returns s Enqueue.unclaimed v round begun is = absurd (begun is)
  enqueue_returns s (Enqueue.waiting x) v round begun is =
      let at : (s.queue.buffer (cell c p)).seq == p ≡ true =
        ground (arith, round, enq_known c n p s cap two small v (Enqueue.waiting x) is) in
      enqueue_goes s (Enqueue.waiting x) is
        (rw at (enqueue_ready _ x (update-same s.enq p (Enqueue.ready x) p refl)))
  enqueue_returns s (Enqueue.ready x) v round begun is = enqueue_ready s x is
  enqueue_returns s (Enqueue.written x) v round begun is = enqueue_written s x is
  enqueue_returns s (Enqueue.left x) v round begun is = (s, x, rest, is)

  dequeue_read : (s : System A) (x : A) → s.deq p ≡ Dequeue.read x → DequeueReturns s
  unfolding DequeueReturns dequeue_step
  dequeue_read s x is =
      dequeue_goes s (Dequeue.read x) is (_, x, rest, update-same s.deq p (Dequeue.left x) p refl)

  dequeue_ready : (s : System A) → s.deq p ≡ Dequeue.ready → DequeueReturns s
  unfolding dequeue_step
  dequeue_ready s is =
      dequeue_goes s Dequeue.ready is
        (dequeue_read _ _ (update-same s.deq p (Dequeue.read _) p refl))

  dequeue_returns :
      (s : System A) (d : Dequeue A) (x : A)
      → IsSound c n s
      → s.enq p ≡ Enqueue.left x
      → s.deq p ≢ Dequeue.unclaimed
      → s.deq p ≡ d
      → DequeueReturns s
  unfolding DequeueReturns dequeue_step
  dequeue_returns s Dequeue.unclaimed x v put begun is = absurd (begun is)
  dequeue_returns s Dequeue.waiting x v put begun is =
      let at : (s.queue.buffer (cell c p)).seq == add64 p 1 ≡ true = ground (
        arith,
        deq_known c n p s cap two small v Dequeue.waiting is,
        (enq_known c n p s cap two small v (Enqueue.left x) put).0,
        next c n p s cap two small v (deq_bound c n p s cap two small v begun),
      ) in
      dequeue_goes s Dequeue.waiting is
        (rw at (dequeue_ready _ (update-same s.deq p Dequeue.ready p refl)))
  dequeue_returns s Dequeue.ready x v put begun is = dequeue_ready s is
  dequeue_returns s (Dequeue.read y) x v put begun is = dequeue_read s y is
  dequeue_returns s (Dequeue.left y) x v put begun is = (s, y, rest, is)

module _ {A : Type 0} (c n : ℕ) (cap : IsCapacity c) (two : 2 ≤ c) (small : n + c < u64_mod) where
  -- Both calls of a position have returned, with one item.
  Passed : System A → ℕ → Type 0
  Passed s q = (x : A) × (s.enq q ≡ Enqueue.left x) × (s.deq q ≡ Dequeue.left x)

  Run-Passed : {s t : System A} → Run c s t → (q : ℕ) → Passed s q → Passed t q
  unfolding Passed
  Run-Passed run q (x, e, d) = (x, (Run-Keeps run).enq_left q x e, (Run-Keeps run).deq_left q x d)

  Run-IsSound : {s t : System A} → Run c s t → IsSound c n s → IsSound c n t
  Run-IsSound rest v = v
  Run-IsSound {s = s} (goes {t = r} w run) v =
      Run-IsSound run (Work-IsSound c n s r cap two small v w)

  -- The cell of a position has come round once the calls a capacity before have returned.
  come_round :
      (p : ℕ) (s : System A)
      → IsSound c n s
      → ((q : ℕ) → q < p → Passed s q)
      → p ≤ (s.queue.buffer (cell c p)).seq
  unfolding Passed
  come_round p s v before = elim (Bool-cases (ltb p c)) [
    | inl within ↦ v.first p (ground arith)
    | inr past ↦
        let back : p - c + c ≡ p = ground arith in
        let gone = before (p - c) (ground arith) in
        let same : cell c (p - c) ≡ cell c p = sym (cell-around c (p - c) cap) ∙ ap (cell c) back in
        omega (
          arith,
          back,
          subst (λ i. p - c + c ≤ (s.queue.buffer i).seq) same
              (deq_known c n (p - c) s cap two small v (Dequeue.left (gone.0)) (gone.2)),
        )
  ]

  drain_one :
      (p : ℕ) (s : System A)
      → IsSound c n s
      → p < s.queue.enqueue_pos
      → p < s.queue.dequeue_pos
      → ((q : ℕ) → q < p → Passed s q)
      → (t : System A) × Run c s t × Passed t p
  unfolding Passed EnqueueReturns DequeueReturns
  drain_one p s v in_enq in_deq before =
      let (t, x, run, put) =
        enqueue_returns c n p cap two small s (s.enq p) v (come_round p s v before)
          (v.enq_begun p in_enq) refl in
      let w = Run-IsSound run v in
      let begun = w.deq_begun p (omega (arith, (Run-Keeps run).dequeue_pos_same, in_deq)) in
      let (u, y, run', got) = dequeue_returns c n p cap two small t (t.deq p) x w put begun refl in
      (
        u,
        Run-trans run run',
        (y, matched c n p u cap two small (Run-IsSound run' w) (u.enq p) y got refl, got),
      )

  drain_from :
      (p : ℕ) (s : System A)
      → IsSound c n s
      → p ≤ s.queue.enqueue_pos
      → p ≤ s.queue.dequeue_pos
      → (t : System A) × Run c s t × ((q : ℕ) → q < p → Passed t q)
  drain_from zero s v in_enq in_deq = (s, rest, λ q lt. absurd (omega arith))
  drain_from (suc p) s v in_enq in_deq =
      let (t, run, before) = drain_from p s v (omega arith) (omega arith) in
      let keeps = Run-Keeps run in
      let (u, run', last) =
        drain_one p t (Run-IsSound run v) (omega (arith, in_enq, keeps.enqueue_pos_same))
          (omega (arith, in_deq, keeps.dequeue_pos_same)) before in
      (
        u,
        Run-trans run run',
        λ q lt. elim (Bool-cases (q == p)) [
          | inl e ↦ let same : p ≡ q = ground arith in subst (Passed u) same last
          | inr e ↦ Run-Passed run' q (before q (ground arith))
        ],
      )

-- In every state that fewer than 2^64 calls less the capacity can reach, and for every position that
-- both a producer and a consumer have claimed: the accesses of the calls already begun can go on so that
-- the calls of all the positions up to it return, each producer's item with the consumer of its position.
-- No state is a deadlock, then, while a producer and a consumer are matched.
pub drain :
    {A : Type 0} (c n : ℕ) (storage : ℕ → A) (s : System A) (p : ℕ)
    → IsCapacity c
    → 2 ≤ c
    → n + c < u64_mod
    → Reach c storage n s
    → p < s.queue.enqueue_pos
    → p < s.queue.dequeue_pos
    → (t : System A) × Run c s t
      × ((q : ℕ) → q ≤ p → (x : A) × (t.enq q ≡ Enqueue.left x) × (t.deq q ≡ Dequeue.left x))
unfolding Passed
drain c n storage s p cap two small reach in_enq in_deq =
    let (t, run, passed) =
      drain_from c n cap two small (suc p) s (Reach-IsSound c storage n s cap two small reach)
        in_enq in_deq in
    (t, run, λ q le. passed q (omega arith))
