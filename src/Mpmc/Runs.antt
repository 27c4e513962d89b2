-- ===== src/Mpmc/Runs.antt =====
-- What no access of src/concurrency/mpmc_queue.hpp takes back: the positions, and the calls that have returned.
use astral_runtime.Base.{ℕ, ◌≡◌, ◌≢◌, refl, ap, sym, ◌∙◌, inl, inr, arith, Bool-cases, ◌==◌, add64}
use astral_runtime.Spsc.{cell}
use astral_runtime.Mpmc.{
  Enqueue, Dequeue, System, update, put_item, put_seq, enqueue_step, dequeue_step, Work, enqueues,
  dequeues,
}

-- Accesses of calls already begun, one after another.
pub data Run {A : Type 0} (c : ℕ) : System A → System A → Type 0 where
  rest : {s : System A} → Run c s s
  goes : {s t u : System A} → Work c s t → Run c t u → Run c s u

pub Run-trans : {A : Type 0} {c : ℕ} {s t u : System A} → Run c s t → Run c t u → Run c s u
Run-trans rest r' = r'
Run-trans (goes w r) r' = goes w (Run-trans r r')

-- What no access of a call takes back.
pub record Keeps {A : Type 0} (s t : System A) : Type 0 where
  pub enqueue_pos_same : t.queue.enqueue_pos ≡ s.queue.enqueue_pos
  pub dequeue_pos_same : t.queue.dequeue_pos ≡ s.queue.dequeue_pos
  pub enq_left : (q : ℕ) (x : A) → s.enq q ≡ Enqueue.left x → t.enq q ≡ Enqueue.left x
  pub deq_left : (q : ℕ) (x : A) → s.deq q ≡ Dequeue.left x → t.deq q ≡ Dequeue.left x

pub Keeps-self : {A : Type 0} (s : System A) → Keeps s s
Keeps-self s = record {
  enqueue_pos_same = refl;
  dequeue_pos_same = refl;
  enq_left = λ q x e. e;
  deq_left = λ q x e. e;
}

pub Keeps-trans : {A : Type 0} {s t u : System A} → Keeps s t → Keeps t u → Keeps s u
Keeps-trans k l = record {
  enqueue_pos_same = l.enqueue_pos_same ∙ k.enqueue_pos_same;
  dequeue_pos_same = l.dequeue_pos_same ∙ k.dequeue_pos_same;
  enq_left = λ q x e. l.enq_left q x (k.enq_left q x e);
  deq_left = λ q x e. l.deq_left q x (k.deq_left q x e);
}

update-keeps :
    {B : Type 0} (f : ℕ → B) (p : ℕ) (b y : B) → f p ≢ y → (q : ℕ) → f q ≡ y → update f p b q ≡ y
unfolding update
update-keeps f p b y off q is = elim (Bool-cases (q == p)) [
  | inl e ↦ let same : q ≡ p = ground arith in absurd (off (ap f (sym same) ∙ is))
  | inr e ↦ rw e is
]

enqueue-Keeps :
    {A : Type 0} (c p : ℕ) (s : System A) (e : Enqueue A)
    → s.enq p ≡ e
    → Keeps s (enqueue_step c s p e)
unfolding enqueue_step put_item put_seq
enqueue-Keeps c p s Enqueue.unclaimed e = Keeps-self s
enqueue-Keeps c p s (Enqueue.left x) e = Keeps-self s
enqueue-Keeps c p s (Enqueue.waiting x) e =
    elim (Bool-cases ((s.queue.buffer (cell c p)).seq == p)) [
      | inl is ↦ rw is (record {
        enqueue_pos_same = refl;
        dequeue_pos_same = refl;
        enq_left = λ q y. update-keeps s.enq p (Enqueue.ready x) (Enqueue.left y) (ground arith) q;
        deq_left = λ q y d. d;
      })
      | inr off ↦ rw off (Keeps-self s)
    ]
enqueue-Keeps c p s (Enqueue.ready x) e = record {
  enqueue_pos_same = refl;
  dequeue_pos_same = refl;
  enq_left = λ q y. update-keeps s.enq p (Enqueue.written x) (Enqueue.left y) (ground arith) q;
  deq_left = λ q y d. d;
}
enqueue-Keeps c p s (Enqueue.written x) e = record {
  enqueue_pos_same = refl;
  dequeue_pos_same = refl;
  enq_left = λ q y. update-keeps s.enq p (Enqueue.left x) (Enqueue.left y) (ground arith) q;
  deq_left = λ q y d. d;
}

dequeue-Keeps :
    {A : Type 0} (c p : ℕ) (s : System A) (d : Dequeue A)
    → s.deq p ≡ d
    → Keeps s (dequeue_step c s p d)
unfolding dequeue_step put_seq
dequeue-Keeps c p s Dequeue.unclaimed e = Keeps-self s
dequeue-Keeps c p s (Dequeue.left x) e = Keeps-self s
dequeue-Keeps c p s Dequeue.waiting e =
    elim (Bool-cases ((s.queue.buffer (cell c p)).seq == add64 p 1)) [
      | inl is ↦ rw is (record {
        enqueue_pos_same = refl;
        dequeue_pos_same = refl;
        enq_left = λ q y d. d;
        deq_left = λ q y. update-keeps s.deq p Dequeue.ready (Dequeue.left y) (ground arith) q;
      })
      | inr off ↦ rw off (Keeps-self s)
    ]
dequeue-Keeps c p s Dequeue.ready e = record {
  enqueue_pos_same = refl;
  dequeue_pos_same = refl;
  enq_left = λ q y d. d;
  deq_left = λ q y. update-keeps s.deq p (Dequeue.read _) (Dequeue.left y) (ground arith) q;
}
dequeue-Keeps c p s (Dequeue.read x) e = record {
  enqueue_pos_same = refl;
  dequeue_pos_same = refl;
  enq_left = λ q y d. d;
  deq_left = λ q y. update-keeps s.deq p (Dequeue.left x) (Dequeue.left y) (ground arith) q;
}

pub Run-Keeps : {A : Type 0} {c : ℕ} {s t : System A} → Run c s t → Keeps s t
Run-Keeps {s = s} rest = Keeps-self s
Run-Keeps {c = c} {s = s} (goes (enqueues p) r) =
    Keeps-trans (enqueue-Keeps c p s (s.enq p) refl) (Run-Keeps r)
Run-Keeps {c = c} {s = s} (goes (dequeues p) r) =
    Keeps-trans (dequeue-Keeps c p s (s.deq p) refl) (Run-Keeps r)
