-- ===== src/Mpmc/Sound.antt =====
-- What holds of the queue of src/concurrency/mpmc_queue.hpp and of its calls between any two accesses.
use astral_runtime.Base.{ℕ, suc, ◌+◌, ◌≤◌, ◌<◌, ◌≡◌, ◌≢◌, refl, sym, subst, arith, u64_mod}
use astral_runtime.Spsc.{cell}
use astral_runtime.Spsc.Cells.{IsCapacity, cell-mod}
use native.Mathlib.Nat.{mod-eq_of_lt, div-add-mod}
use astral_runtime.Mpmc.{
  Slot, Enqueue, Dequeue, System, init, start, update, claim_enqueue, claim_dequeue,
}
use astral_runtime.Mpmc.Tickets.{
  EnqAt, DeqAt, Agree, Stores, EnqAt-other, DeqAt-other, update-same, update-other, update-calls,
  update-all,
}

-- The state after `n` calls have begun.
pub record IsSound {A : Type 0} (c n : ℕ) (s : System A) : Type 0 where
  pub enq_count : s.queue.enqueue_pos ≤ n
  pub deq_count : s.queue.dequeue_pos ≤ n
  pub enq_fresh : (p : ℕ) → s.queue.enqueue_pos ≤ p → s.enq p ≡ Enqueue.unclaimed
  pub deq_fresh : (p : ℕ) → s.queue.dequeue_pos ≤ p → s.deq p ≡ Dequeue.unclaimed
  pub enq_begun : (p : ℕ) → p < s.queue.enqueue_pos → s.enq p ≢ Enqueue.unclaimed
  pub deq_begun : (p : ℕ) → p < s.queue.dequeue_pos → s.deq p ≢ Dequeue.unclaimed
  pub first : (p : ℕ) → p < c → p ≤ (s.queue.buffer (cell c p)).seq
  pub enq_at :
      (p : ℕ) → EnqAt p (s.queue.buffer (cell c p)).seq (s.queue.buffer (cell c p)).item (s.enq p)
  pub deq_at :
      (p : ℕ) → DeqAt c p (s.queue.buffer (cell c p)).seq (s.queue.buffer (cell c p)).item (s.deq p)
  pub agree : (p : ℕ) → Agree (s.enq p) (s.deq p)

pub start-IsSound :
    {A : Type 0} (c : ℕ) (storage : ℕ → A) → IsCapacity c → IsSound c 0 (start storage)
unfolding init
start-IsSound c storage cap = record {
  enq_count = omega arith;
  deq_count = omega arith;
  enq_fresh = λ p lt. refl;
  deq_fresh = λ p lt. refl;
  enq_begun = λ p lt. absurd (omega arith);
  deq_begun = λ p lt. absurd (omega arith);
  first = λ p lt. omega (arith, cell-mod c p cap, mod-eq_of_lt lt);
  enq_at = λ p. omega (arith, cell-mod c p cap, div-add-mod p c);
  deq_at = λ p. omega (arith, cell-mod c p cap, div-add-mod p c);
  agree = λ p. tt;
}

pub Agree-unless :
    {A : Type 0} (e : Enqueue A) (d : Dequeue A)
    → ((x y : A) → e ≡ Enqueue.left x → d ≡ Dequeue.left y → y ≡ x)
    → Agree e d
Agree-unless Enqueue.unclaimed d h = tt
Agree-unless (Enqueue.waiting x) d h = tt
Agree-unless (Enqueue.ready x) d h = tt
Agree-unless (Enqueue.written x) d h = tt
Agree-unless (Enqueue.left x) Dequeue.unclaimed h = tt
Agree-unless (Enqueue.left x) Dequeue.waiting h = tt
Agree-unless (Enqueue.left x) Dequeue.ready h = tt
Agree-unless (Enqueue.left x) (Dequeue.read y) h = tt
Agree-unless (Enqueue.left x) (Dequeue.left y) h = h x y refl refl

pub claim_enqueue-IsSound :
    {A : Type 0} (c n : ℕ) (s : System A) (x : A)
    → IsSound c n s
    → suc n + c < u64_mod
    → IsSound c (suc n) (claim_enqueue s x)
unfolding claim_enqueue update
claim_enqueue-IsSound c n s x v small = record {
  enq_count = omega (arith, v.enq_count);
  deq_count = omega (arith, v.deq_count);
  enq_fresh = λ p lt. ground (arith, v.enq_count, v.enq_fresh p);
  deq_fresh = v.deq_fresh;
  enq_begun = λ p lt. ground (arith, v.enq_count, v.enq_begun p);
  deq_begun = v.deq_begun;
  first = v.first;
  enq_at =
      update-all (λ p e. EnqAt p (s.queue.buffer (cell c p)).seq (s.queue.buffer (cell c p)).item e)
        s.enq s.queue.enqueue_pos (Enqueue.waiting x)
        (subst (EnqAt s.queue.enqueue_pos _ _) (v.enq_fresh s.queue.enqueue_pos (omega arith))
          (v.enq_at s.queue.enqueue_pos))
        (λ p off. v.enq_at p);
  deq_at = v.deq_at;
  agree =
      update-all (λ p e. Agree e (s.deq p)) s.enq s.queue.enqueue_pos (Enqueue.waiting x) tt
        (λ p off. v.agree p);
}

pub claim_dequeue-IsSound :
    {A : Type 0} (c n : ℕ) (s : System A)
    → IsSound c n s
    → suc n + c < u64_mod
    → IsSound c (suc n) (claim_dequeue s)
unfolding claim_dequeue update
claim_dequeue-IsSound c n s v small = record {
  enq_count = omega (arith, v.enq_count);
  deq_count = omega (arith, v.deq_count);
  enq_fresh = v.enq_fresh;
  deq_fresh = λ p lt. ground (arith, v.deq_count, v.deq_fresh p);
  enq_begun = v.enq_begun;
  deq_begun = λ p lt. ground (arith, v.deq_count, v.deq_begun p);
  first = v.first;
  enq_at = v.enq_at;
  deq_at =
      update-all
        (λ p d. DeqAt c p (s.queue.buffer (cell c p)).seq (s.queue.buffer (cell c p)).item d) s.deq
        s.queue.dequeue_pos Dequeue.waiting
        (subst (DeqAt c s.queue.dequeue_pos _ _) (v.deq_fresh s.queue.dequeue_pos (omega arith))
          (v.deq_at s.queue.dequeue_pos))
        (λ p off. v.deq_at p);
  agree =
      update-all (λ p d. Agree (s.enq p) d) s.deq s.queue.dequeue_pos Dequeue.waiting
        (Agree-unless _ _ (λ x y is is'. absurd (ground arith))) (λ p off. v.agree p);
}

-- A step of the call at `p` to `e'`, with its cell `sl` behind it.
module _ {A : Type 0} (c n p : ℕ) (s : System A) (cap : IsCapacity c) (two : 2 ≤ c)
    (v : IsSound c n s) where
  unfoldable pub enq_moved : Enqueue A → System A
  enq_moved e' = record s { enq = update s.enq p e' }

  pub enq_moved-IsSound :
      (e' : Enqueue A)
      → s.enq p ≢ Enqueue.unclaimed
      → e' ≢ Enqueue.unclaimed
      → EnqAt p (s.queue.buffer (cell c p)).seq (s.queue.buffer (cell c p)).item e'
      → Agree e' (s.deq p)
      → IsSound c n (enq_moved e')
  unfolding enq_moved update
  enq_moved-IsSound e' begun begun' at agrees = record {
    enq_count = v.enq_count;
    deq_count = v.deq_count;
    enq_fresh = λ q le. ground (arith, v.enq_fresh q le, begun);
    deq_fresh = v.deq_fresh;
    enq_begun = λ q lt. ground (arith, v.enq_begun q lt, begun');
    deq_begun = v.deq_begun;
    first = v.first;
    enq_at =
        update-all
          (λ q e. EnqAt q (s.queue.buffer (cell c q)).seq (s.queue.buffer (cell c q)).item e) s.enq
          p e' at (λ q off. v.enq_at q);
    deq_at = v.deq_at;
    agree = update-all (λ q e. Agree e (s.deq q)) s.enq p e' agrees (λ q off. v.agree q);
  }

  unfoldable pub deq_moved : Dequeue A → System A
  deq_moved d' = record s { deq = update s.deq p d' }

  pub deq_moved-IsSound :
      (d' : Dequeue A)
      → s.deq p ≢ Dequeue.unclaimed
      → d' ≢ Dequeue.unclaimed
      → DeqAt c p (s.queue.buffer (cell c p)).seq (s.queue.buffer (cell c p)).item d'
      → Agree (s.enq p) d'
      → IsSound c n (deq_moved d')
  unfolding deq_moved update
  deq_moved-IsSound d' begun begun' at agrees = record {
    enq_count = v.enq_count;
    deq_count = v.deq_count;
    enq_fresh = v.enq_fresh;
    deq_fresh = λ q le. ground (arith, v.deq_fresh q le, begun);
    enq_begun = v.enq_begun;
    deq_begun = λ q lt. ground (arith, v.deq_begun q lt, begun');
    first = v.first;
    enq_at = v.enq_at;
    deq_at =
        update-all
          (λ q d. DeqAt c q (s.queue.buffer (cell c q)).seq (s.queue.buffer (cell c q)).item d)
          s.deq p d' at (λ q off. v.deq_at q);
    agree = update-all (λ q d. Agree (s.enq q) d) s.deq p d' agrees (λ q off. v.agree q);
  }

  -- The number of a cell does not fall by a store.
  first_stored :
      (sl : Slot A)
      → Stores c p (s.queue.buffer (cell c p)).seq sl.seq
      → (q : ℕ) → q < c
      → q ≤ (update s.queue.buffer (cell c p) sl (cell c q)).seq
  first_stored sl st q lt =
      update-all {B = Slot A} (λ x b. q ≤ (s.queue.buffer x).seq → q ≤ b.seq) s.queue.buffer
        (cell c p) sl (λ le. ground (arith, st)) (λ x off le. le) (cell c q) (v.first q lt)

  -- A store with a step of the producer, or of the consumer.
  unfoldable pub enq_stored : Slot A → Enqueue A → System A
  enq_stored sl e' = record s {
    queue = record s.queue { buffer = update s.queue.buffer (cell c p) sl };
    enq = update s.enq p e';
  }

  pub enq_stored-IsSound :
      (sl : Slot A) (e' : Enqueue A)
      → s.enq p ≢ Enqueue.unclaimed
      → e' ≢ Enqueue.unclaimed
      → Stores c p (s.queue.buffer (cell c p)).seq sl.seq
      → EnqAt p sl.seq sl.item e'
      → DeqAt c p sl.seq sl.item (s.deq p)
      → Agree e' (s.deq p)
      → IsSound c n (enq_stored sl e')
  unfolding enq_stored update
  enq_stored-IsSound sl e' begun begun' st enq deq agrees = record {
    enq_count = v.enq_count;
    deq_count = v.deq_count;
    enq_fresh = λ q le. ground (arith, v.enq_fresh q le, begun);
    deq_fresh = v.deq_fresh;
    enq_begun = λ q lt. ground (arith, v.enq_begun q lt, begun');
    deq_begun = v.deq_begun;
    first = first_stored sl st;
    enq_at =
        update-calls EnqAt c p s.queue.buffer sl s.enq (update s.enq p e') cap
          (λ q e apart at. EnqAt-other c p q _ _ _ _ e two apart st at) (update-other s.enq p e')
          (subst (EnqAt p sl.seq sl.item) (sym (update-same s.enq p e' p refl)) enq) v.enq_at;
    deq_at =
        update-calls (DeqAt c) c p s.queue.buffer sl s.deq s.deq cap
          (λ q d apart at. DeqAt-other c p q _ _ _ _ d two apart st at) (λ q off. refl) deq
          v.deq_at;
    agree = update-all (λ q e. Agree e (s.deq q)) s.enq p e' agrees (λ q off. v.agree q);
  }

  unfoldable pub deq_stored : Slot A → Dequeue A → System A
  deq_stored sl d' = record s {
    queue = record s.queue { buffer = update s.queue.buffer (cell c p) sl };
    deq = update s.deq p d';
  }

  pub deq_stored-IsSound :
      (sl : Slot A) (d' : Dequeue A)
      → s.deq p ≢ Dequeue.unclaimed
      → d' ≢ Dequeue.unclaimed
      → Stores c p (s.queue.buffer (cell c p)).seq sl.seq
      → EnqAt p sl.seq sl.item (s.enq p)
      → DeqAt c p sl.seq sl.item d'
      → Agree (s.enq p) d'
      → IsSound c n (deq_stored sl d')
  unfolding deq_stored update
  deq_stored-IsSound sl d' begun begun' st enq deq agrees = record {
    enq_count = v.enq_count;
    deq_count = v.deq_count;
    enq_fresh = v.enq_fresh;
    deq_fresh = λ q le. ground (arith, v.deq_fresh q le, begun);
    enq_begun = v.enq_begun;
    deq_begun = λ q lt. ground (arith, v.deq_begun q lt, begun');
    first = first_stored sl st;
    enq_at =
        update-calls EnqAt c p s.queue.buffer sl s.enq s.enq cap
          (λ q e apart at. EnqAt-other c p q _ _ _ _ e two apart st at) (λ q off. refl) enq
          v.enq_at;
    deq_at =
        update-calls (DeqAt c) c p s.queue.buffer sl s.deq (update s.deq p d') cap
          (λ q d apart at. DeqAt-other c p q _ _ _ _ d two apart st at) (update-other s.deq p d')
          (subst (DeqAt c p sl.seq sl.item) (sym (update-same s.deq p d' p refl)) deq) v.deq_at;
    agree = update-all (λ q d. Agree (s.enq q) d) s.deq p d' agrees (λ q off. v.agree q);
  }
