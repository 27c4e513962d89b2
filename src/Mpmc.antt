-- ===== src/Mpmc.antt =====
-- The queue of several producers and consumers, src/concurrency/mpmc_queue.hpp, whose cells carry a
-- sequence number. A call is the operation of the position it claims, which its thread alone goes on
-- with; the calls interleave in any order, one access of shared memory at a time.
pub mod Tickets
pub mod Sound
pub mod Delivery
pub mod Runs
pub mod Drain
mod Tests
use astral_runtime.Base.{ℕ, suc, ◌+◌, ◌<◌, Bool, ◌==◌, ltb, if◌then◌else◌, add64, sub64}
use astral_runtime.Spsc.{cell}

pub record Slot (A : Type 0) : Type 0 where
  pub seq : ℕ
  pub item : A

pub record MpmcQueue (A : Type 0) : Type 0 where
  pub enqueue_pos : ℕ
  pub dequeue_pos : ℕ
  pub buffer : ℕ → Slot A

unfoldable pub init : {A : Type 0} → (ℕ → A) → MpmcQueue A
init storage = record {
  enqueue_pos = 0;
  dequeue_pos = 0;
  buffer = λ i. record { seq = i; item = storage i };
}

-- A call of `enqueue_wait` at its position: not yet made, in its loop, past the loop, with the item
-- stored, and returned.
pub data Enqueue (A : Type 0) : Type 0 where
  unclaimed : Enqueue A
  waiting : A → Enqueue A
  ready : A → Enqueue A
  written : A → Enqueue A
  left : A → Enqueue A

-- A call of `dequeue_wait` with an `out` that is not null.
pub data Dequeue (A : Type 0) : Type 0 where
  unclaimed : Dequeue A
  waiting : Dequeue A
  ready : Dequeue A
  read : A → Dequeue A
  left : A → Dequeue A

unfoldable pub update : {B : Type 0} → (ℕ → B) → ℕ → B → ℕ → B
update f i b j = if j == i then b else f j

pub record System (A : Type 0) : Type 0 where
  pub queue : MpmcQueue A
  pub enq : ℕ → Enqueue A
  pub deq : ℕ → Dequeue A

abbrev pub start : {A : Type 0} → (ℕ → A) → System A
start storage = record {
  queue = init storage;
  enq = λ _. Enqueue.unclaimed;
  deq = λ _. Dequeue.unclaimed;
}

-- A store into one cell.
unfoldable pub put_item : {A : Type 0} → ℕ → MpmcQueue A → ℕ → A → MpmcQueue A
unfolding update
put_item c q pos x = record q {
  buffer = update q.buffer (cell c pos) (record { seq = (q.buffer (cell c pos)).seq; item = x });
}

unfoldable pub put_seq : {A : Type 0} → ℕ → MpmcQueue A → ℕ → ℕ → MpmcQueue A
unfolding update
put_seq c q pos n = record q {
  buffer = update q.buffer (cell c pos) (record { seq = n; item = (q.buffer (cell c pos)).item });
}

-- The `fetch_add` that begins a call.
unfoldable pub claim_enqueue : {A : Type 0} → System A → A → System A
unfolding update
claim_enqueue s x = record s {
  queue = record s.queue { enqueue_pos = add64 s.queue.enqueue_pos 1 };
  enq = update s.enq s.queue.enqueue_pos (Enqueue.waiting x);
}

unfoldable pub claim_dequeue : {A : Type 0} → System A → System A
unfolding update
claim_dequeue s = record s {
  queue = record s.queue { dequeue_pos = add64 s.queue.dequeue_pos 1 };
  deq = update s.deq s.queue.dequeue_pos Dequeue.waiting;
}

-- The next access of the call at a position.
unfoldable pub enqueue_step : {A : Type 0} → ℕ → System A → ℕ → Enqueue A → System A
unfolding update put_item put_seq
enqueue_step c s pos Enqueue.unclaimed = s
enqueue_step c s pos (Enqueue.waiting x) =
    if (s.queue.buffer (cell c pos)).seq == pos
    then record s { enq = update s.enq pos (Enqueue.ready x) }
    else s
enqueue_step c s pos (Enqueue.ready x) = record s {
  queue = put_item c s.queue pos x;
  enq = update s.enq pos (Enqueue.written x);
}
enqueue_step c s pos (Enqueue.written x) = record s {
  queue = put_seq c s.queue pos (add64 pos 1);
  enq = update s.enq pos (Enqueue.left x);
}
enqueue_step c s pos (Enqueue.left x) = s

unfoldable pub dequeue_step : {A : Type 0} → ℕ → System A → ℕ → Dequeue A → System A
unfolding update put_seq
dequeue_step c s pos Dequeue.unclaimed = s
dequeue_step c s pos Dequeue.waiting =
    if (s.queue.buffer (cell c pos)).seq == add64 pos 1
    then record s { deq = update s.deq pos Dequeue.ready }
    else s
dequeue_step c s pos Dequeue.ready = record s {
  deq = update s.deq pos (Dequeue.read (s.queue.buffer (cell c pos)).item);
}
dequeue_step c s pos (Dequeue.read x) = record s {
  queue = put_seq c s.queue pos (add64 pos c);
  deq = update s.deq pos (Dequeue.left x);
}
dequeue_step c s pos (Dequeue.left x) = s

-- An access of a call already begun.
pub data Work {A : Type 0} (c : ℕ) (s : System A) : System A → Type 0 where
  enqueues : (pos : ℕ) → Work c s (enqueue_step c s pos (s.enq pos))
  dequeues : (pos : ℕ) → Work c s (dequeue_step c s pos (s.deq pos))

-- The states that the calls reach from an empty queue, with so many calls begun.
pub data Reach {A : Type 0} (c : ℕ) (storage : ℕ → A) : ℕ → System A → Type 0 where
  here : Reach c storage 0 (start storage)
  enqueue_begins :
      {n : ℕ} {s : System A} (x : A)
      → Reach c storage n s
      → Reach c storage (suc n) (claim_enqueue s x)
  dequeue_begins :
      {n : ℕ} {s : System A} → Reach c storage n s → Reach c storage (suc n) (claim_dequeue s)
  works : {n : ℕ} {s t : System A} → Reach c storage n s → Work c s t → Reach c storage n t

unfoldable pub size : {A : Type 0} → MpmcQueue A → ℕ
size q =
    if ltb (sub64 q.enqueue_pos q.dequeue_pos) 0x8000_0000_0000_0000
    then sub64 q.enqueue_pos q.dequeue_pos
    else 0

pub empty : {A : Type 0} → MpmcQueue A → Bool
empty q = size q == 0
