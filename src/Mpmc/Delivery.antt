-- ===== src/Mpmc/Delivery.antt =====
-- Every item of src/concurrency/mpmc_queue.hpp reaches the call of the same position, and no other.
use astral_runtime.Base.{
  ℕ, ◌+◌, ◌≤◌, ◌<◌, ◌≡◌, ◌≢◌, refl, ap, sym, subst, ◌∙◌, inl, inr, arith, Bool-cases, ◌==◌, u64_mod,
  add64, add64-small,
}
use astral_runtime.Spsc.{cell}
use astral_runtime.Spsc.Cells.{IsCapacity}
use astral_runtime.Mpmc.{
  Enqueue, Dequeue, System, put_item, put_seq, enqueue_step, dequeue_step, Work, enqueues, dequeues,
  Reach, here, enqueue_begins, dequeue_begins, works,
}
use astral_runtime.Mpmc.Tickets.{EnqAt, DeqAt, Agree, DeqAt-item, DeqAt-published, EnqAt-released}
use astral_runtime.Mpmc.Sound.{
  IsSound, start-IsSound, claim_enqueue-IsSound, claim_dequeue-IsSound, Agree-unless, enq_moved,
  deq_moved, enq_stored, deq_stored, enq_moved-IsSound, deq_moved-IsSound, enq_stored-IsSound,
  deq_stored-IsSound,
}

module _ {A : Type 0} (c n p : ℕ) (s : System A) (cap : IsCapacity c) (two : 2 ≤ c)
    (small : n + c < u64_mod) (v : IsSound c n s) where
  -- A call that has begun has a position that does not wrap.
  enq_bound : s.enq p ≢ Enqueue.unclaimed → p < n
  enq_bound begun = ground (arith, v.enq_fresh p, v.enq_count)

  pub deq_bound : s.deq p ≢ Dequeue.unclaimed → p < n
  deq_bound begun = ground (arith, v.deq_fresh p, v.deq_count)

  pub next : p < n → add64 p 1 ≡ p + 1
  next lt = add64-small p 1 (omega arith)

  free : p < n → add64 p c ≡ p + c
  free lt = add64-small p c (omega arith)

  -- What the cell of `p` says of its calls, once they are known.
  pub enq_known :
      (e : Enqueue A)
      → s.enq p ≡ e
      → EnqAt p (s.queue.buffer (cell c p)).seq (s.queue.buffer (cell c p)).item e
  enq_known e is = subst (EnqAt p _ _) is (v.enq_at p)

  pub deq_known :
      (d : Dequeue A)
      → s.deq p ≡ d
      → DeqAt c p (s.queue.buffer (cell c p)).seq (s.queue.buffer (cell c p)).item d
  deq_known d is = subst (DeqAt c p _ _) is (v.deq_at p)

  pub enqueue-IsSound : (e : Enqueue A) → s.enq p ≡ e → IsSound c n (enqueue_step c s p e)
  unfolding enqueue_step enq_moved enq_stored put_item put_seq
  enqueue-IsSound Enqueue.unclaimed e = v
  enqueue-IsSound (Enqueue.left x) e = v
  enqueue-IsSound (Enqueue.waiting x) e = elim (Bool-cases ((s.queue.buffer (cell c p)).seq == p)) [
    | inl is ↦
        let at : (s.queue.buffer (cell c p)).seq ≡ p = ground arith in
        rw is (
          enq_moved-IsSound c n p s cap two v (Enqueue.ready x) (ground arith) (ground arith) at tt)
    | inr off ↦ rw off v
  ]
  enqueue-IsSound (Enqueue.ready x) e =
      let at = enq_known (Enqueue.ready x) e in
      enq_stored-IsSound c n p s cap two v
        (record { seq = (s.queue.buffer (cell c p)).seq; item = x }) (Enqueue.written x)
        (ground arith) (ground arith) (inl (at, at)) (at, refl)
        (DeqAt-item c p _ _ x (s.deq p) two at (v.deq_at p)) tt
  enqueue-IsSound (Enqueue.written x) e =
      let at = enq_known (Enqueue.written x) e in
      let plus = next (enq_bound (ground arith)) in
      enq_stored-IsSound c n p s cap two v
        (record { seq = add64 p 1; item = (s.queue.buffer (cell c p)).item }) (Enqueue.left x)
        (ground arith) (ground arith) (inr (inl (at.0, plus))) (omega (arith, plus), λ same. at.1)
        (DeqAt-published c p _ _ _ (s.deq p) two (at.0) plus (v.deq_at p))
        (Agree-unless (Enqueue.left x) (s.deq p)
          (λ a b is is'. absurd (omega (arith, at.0, deq_known (Dequeue.left b) is'))))

  -- What a published cell was left with.
  published :
      (e : Enqueue A)
      → s.enq p ≡ e
      → (s.queue.buffer (cell c p)).seq ≡ p + 1
      → s.enq p ≡ Enqueue.left (s.queue.buffer (cell c p)).item
  published Enqueue.unclaimed e at = absurd (omega (arith, enq_known Enqueue.unclaimed e))
  published (Enqueue.waiting x) e at = absurd (omega (arith, enq_known (Enqueue.waiting x) e))
  published (Enqueue.ready x) e at = absurd (omega (arith, enq_known (Enqueue.ready x) e))
  published (Enqueue.written x) e at =
      absurd (omega (arith, at, (enq_known (Enqueue.written x) e).0))
  published (Enqueue.left x) e at = e ∙ ap Enqueue.left (sym ((enq_known (Enqueue.left x) e).1 at))

  pub dequeue-IsSound : (d : Dequeue A) → s.deq p ≡ d → IsSound c n (dequeue_step c s p d)
  unfolding dequeue_step deq_moved deq_stored put_seq
  dequeue-IsSound Dequeue.unclaimed d = v
  dequeue-IsSound (Dequeue.left x) d = v
  dequeue-IsSound Dequeue.waiting d =
      elim (Bool-cases ((s.queue.buffer (cell c p)).seq == add64 p 1)) [
        | inl is ↦
            let at : (s.queue.buffer (cell c p)).seq ≡ p + 1 =
              ground (arith, next (deq_bound (ground arith))) in
            rw is (
              deq_moved-IsSound c n p s cap two v Dequeue.ready (ground arith) (ground arith) at
                (Agree-unless (s.enq p) Dequeue.ready (λ a b is is'. absurd (ground arith))))
        | inr off ↦ rw off v
      ]
  dequeue-IsSound Dequeue.ready d =
      let at = deq_known Dequeue.ready d in
      deq_moved-IsSound c n p s cap two v (Dequeue.read (s.queue.buffer (cell c p)).item)
        (ground arith) (ground arith) (at, refl)
        (Agree-unless (s.enq p) (Dequeue.read _) (λ a b is is'. absurd (ground arith)))
  dequeue-IsSound (Dequeue.read y) d =
      let at = deq_known (Dequeue.read y) d in
      let plus = free (deq_bound (ground arith)) in
      deq_stored-IsSound c n p s cap two v
        (record { seq = add64 p c; item = (s.queue.buffer (cell c p)).item }) (Dequeue.left y)
        (ground arith) (ground arith) (inr (inr (at.0, plus)))
        (EnqAt-released c p _ _ _ (s.enq p) two (at.0) plus (v.enq_at p)) (omega (arith, plus))
        (subst (λ e. Agree e (Dequeue.left y)) (sym (published (s.enq p) refl (at.0))) (sym (at.1)))

  -- A call of `dequeue_wait` that has returned, against the other of its position.
  pub matched :
      (e : Enqueue A) (x : A) → s.deq p ≡ Dequeue.left x → s.enq p ≡ e → e ≡ Enqueue.left x
  matched Enqueue.unclaimed x d e = absurd (omega (arith, enq_known _ e, deq_known _ d))
  matched (Enqueue.waiting y) x d e = absurd (omega (arith, enq_known _ e, deq_known _ d))
  matched (Enqueue.ready y) x d e = absurd (omega (arith, enq_known _ e, deq_known _ d))
  matched (Enqueue.written y) x d e = absurd (omega (arith, (enq_known _ e).0, deq_known _ d))
  matched (Enqueue.left y) x d e =
      ap Enqueue.left
        (sym (subst (Agree (Enqueue.left y)) d (subst (λ f. Agree f (s.deq p)) e (v.agree p))))

pub Work-IsSound :
    {A : Type 0} (c n : ℕ) (s t : System A)
    → IsCapacity c
    → 2 ≤ c
    → n + c < u64_mod
    → IsSound c n s
    → Work c s t
    → IsSound c n t
Work-IsSound c n s t cap two small v (enqueues p) =
    enqueue-IsSound c n p s cap two small v (s.enq p) refl
Work-IsSound c n s t cap two small v (dequeues p) =
    dequeue-IsSound c n p s cap two small v (s.deq p) refl

pub Reach-IsSound :
    {A : Type 0} (c : ℕ) (storage : ℕ → A) (n : ℕ) (s : System A)
    → IsCapacity c
    → 2 ≤ c
    → n + c < u64_mod
    → Reach c storage n s
    → IsSound c n s
Reach-IsSound c storage n s two_power two small here = start-IsSound c storage two_power
Reach-IsSound c storage n s two_power two small (enqueue_begins {n = m} {s = r} x reach) =
    claim_enqueue-IsSound c m r x (Reach-IsSound c storage m r two_power two (omega arith) reach)
      small
Reach-IsSound c storage n s two_power two small (dequeue_begins {n = m} {s = r} reach) =
    claim_dequeue-IsSound c m r (Reach-IsSound c storage m r two_power two (omega arith) reach)
      small
Reach-IsSound c storage n s two_power two small (works {s = r} reach w) =
    Work-IsSound c n r s two_power two small (Reach-IsSound c storage n r two_power two small reach)
      w

-- However the calls interleave, fewer than 2^64 of them less the capacity: a `dequeue_wait` that has
-- returned did so with the item of the `enqueue_wait` of the same position, which has returned too.
-- Positions are handed out in the order in which the calls begin, so items leave in that order, each
-- to one consumer.
pub delivered :
    {A : Type 0} (c n : ℕ) (storage : ℕ → A) (s : System A) (p : ℕ) (x : A)
    → IsCapacity c
    → 2 ≤ c
    → n + c < u64_mod
    → Reach c storage n s
    → s.deq p ≡ Dequeue.left x
    → s.enq p ≡ Enqueue.left x
delivered c n storage s p x cap two small reach gone =
    matched c n p s cap two small (Reach-IsSound c storage n s cap two small reach) (s.enq p) x gone
      refl
