-- ===== src/Mpmc/Tickets.antt =====
-- The cells of src/concurrency/mpmc_queue.hpp against the calls at their positions.
use astral_runtime.Base.{
  ℕ, suc, ◌+◌, ◌*◌, ◌/◌, ◌%◌, ◌≤◌, ◌<◌, ◌≡◌, ◌≢◌, refl, sym, subst, ◌∙◌, ◌⊎◌, inl, inr, arith,
  Bool-cases, ◌==◌,
}
use native.Mathlib.Nat.{div-add-mod, mul-le-mul_left, lt_of_mul-lt-mul_left}
use astral_runtime.Spsc.{cell}
use astral_runtime.Spsc.Cells.{IsCapacity, cell-mod}
use astral_runtime.Mpmc.{Slot, Enqueue, Dequeue, update}

-- Two positions of one cell lie a capacity apart at least.
pub same_cell : (c p q : ℕ) → IsCapacity c → cell c q ≡ cell c p → q < p → q + c ≤ p
same_cell c p q cap same lt = omega (
  arith,
  whole p,
  whole q,
  equal,
  lt,
  next (q / c),
  mul-le-mul_left c (
      lt_of_mul-lt-mul_left c {m = q / c} {n = p / c} (omega (arith, whole p, whole q, equal, lt))),
)
  where
    whole : (x : ℕ) → c * (x / c) + x % c ≡ x
    whole x = div-add-mod x c

    equal : q % c ≡ p % c
    equal = sym (cell-mod c q cap) ∙ same ∙ cell-mod c p cap

    next : (x : ℕ) → c * suc x ≡ c * x + c
    next x = omega arith

pub update-same : {B : Type 0} (f : ℕ → B) (i : ℕ) (b : B) (j : ℕ) → j ≡ i → update f i b j ≡ b
unfolding update
update-same f i b j e = ground arith

pub update-other : {B : Type 0} (f : ℕ → B) (i : ℕ) (b : B) (j : ℕ) → j ≢ i → update f i b j ≡ f j
unfolding update
update-other f i b j e = ground arith

-- A property of every call, after one of them has changed.
pub update-all :
    {B : Type 0} (P : ℕ → B → Type 0) (f : ℕ → B) (i : ℕ) (b : B)
    → P i b
    → ((p : ℕ) → p ≢ i → P p (f p))
    → (p : ℕ) → P p (update f i b p)
update-all P f i b here others p = elim (Bool-cases (p == i)) [
  | inl e ↦
      let same : i ≡ p = ground arith in
      subst (λ r. P r (update f i b r)) same (rw (update-same f i b i refl) here)
  | inr e ↦ let off : p ≢ i = ground arith in rw (update-other f i b p off) (others p off)
]

-- The stores of the calls at `p`: into the item before the cell is published, of the number then, and
-- of the number after the item is read.
abbrev pub Stores : ℕ → ℕ → ℕ → ℕ → Type 0
Stores c p s s' = ((s ≡ p) × (s' ≡ p)) ⊎ ((s ≡ p) × (s' ≡ p + 1)) ⊎ ((s ≡ p + 1) × (s' ≡ p + c))

module _ {A : Type 0} where
  -- What a cell with a sequence number and an item says of the calls at a position of it.
  abbrev pub EnqAt : ℕ → ℕ → A → Enqueue A → Type 0
  EnqAt p s v Enqueue.unclaimed = s ≤ p
  EnqAt p s v (Enqueue.waiting x) = s ≤ p
  EnqAt p s v (Enqueue.ready x) = s ≡ p
  EnqAt p s v (Enqueue.written x) = (s ≡ p) × (v ≡ x)
  EnqAt p s v (Enqueue.left x) = (p < s) × (s ≡ p + 1 → v ≡ x)

  abbrev pub DeqAt : ℕ → ℕ → ℕ → A → Dequeue A → Type 0
  DeqAt c p s v Dequeue.unclaimed = s ≤ p + 1
  DeqAt c p s v Dequeue.waiting = s ≤ p + 1
  DeqAt c p s v Dequeue.ready = s ≡ p + 1
  DeqAt c p s v (Dequeue.read x) = (s ≡ p + 1) × (v ≡ x)
  DeqAt c p s v (Dequeue.left x) = p + c ≤ s

  -- An item read is the item put in.
  abbrev pub Agree : Enqueue A → Dequeue A → Type 0
  Agree (Enqueue.left x) (Dequeue.left y) = y ≡ x
  Agree e d = Unit {0}

  -- They change nothing for the calls at another position of the cell.
  pub EnqAt-other :
      (c p q s s' : ℕ) (v v' : A) (e : Enqueue A)
      → 2 ≤ c
      → (q + c ≤ p) ⊎ (p + c ≤ q)
      → Stores c p s s'
      → EnqAt q s v e
      → EnqAt q s' v' e
  EnqAt-other c p q s s' v v' Enqueue.unclaimed two apart st at = ground arith
  EnqAt-other c p q s s' v v' (Enqueue.waiting x) two apart st at = ground arith
  EnqAt-other c p q s s' v v' (Enqueue.ready x) two apart st at = ground arith
  EnqAt-other c p q s s' v v' (Enqueue.written x) two apart st at = ground arith
  EnqAt-other c p q s s' v v' (Enqueue.left x) two apart st at =
      (ground arith, λ e. absurd (ground arith))

  pub DeqAt-other :
      (c p q s s' : ℕ) (v v' : A) (d : Dequeue A)
      → 2 ≤ c
      → (q + c ≤ p) ⊎ (p + c ≤ q)
      → Stores c p s s'
      → DeqAt c q s v d
      → DeqAt c q s' v' d
  DeqAt-other c p q s s' v v' Dequeue.unclaimed two apart st at = ground arith
  DeqAt-other c p q s s' v v' Dequeue.waiting two apart st at = ground arith
  DeqAt-other c p q s s' v v' Dequeue.ready two apart st at = ground arith
  DeqAt-other c p q s s' v v' (Dequeue.read x) two apart st at = ground arith
  DeqAt-other c p q s s' v v' (Dequeue.left x) two apart st at = ground arith

  -- The item, the publication and the release of the cell, for the other call of the position.
  pub DeqAt-item :
      (c p t : ℕ) (x y : A) (d : Dequeue A) → 2 ≤ c → t ≡ p → DeqAt c p t x d → DeqAt c p t y d
  DeqAt-item c p t x y Dequeue.unclaimed two e at = at
  DeqAt-item c p t x y Dequeue.waiting two e at = at
  DeqAt-item c p t x y Dequeue.ready two e at = at
  DeqAt-item c p t x y (Dequeue.read w) two e at = absurd (omega (arith, e, at.0))
  DeqAt-item c p t x y (Dequeue.left w) two e at = at

  pub DeqAt-published :
      (c p t t' : ℕ) (x : A) (d : Dequeue A)
      → 2 ≤ c
      → t ≡ p
      → t' ≡ p + 1
      → DeqAt c p t x d
      → DeqAt c p t' x d
  DeqAt-published c p t t' x Dequeue.unclaimed two e e' at = omega arith
  DeqAt-published c p t t' x Dequeue.waiting two e e' at = omega arith
  DeqAt-published c p t t' x Dequeue.ready two e e' at = e'
  DeqAt-published c p t t' x (Dequeue.read w) two e e' at = (e', at.1)
  DeqAt-published c p t t' x (Dequeue.left w) two e e' at = absurd (omega arith)

  pub EnqAt-released :
      (c p t t' : ℕ) (x : A) (d : Enqueue A)
      → 2 ≤ c
      → t ≡ p + 1
      → t' ≡ p + c
      → EnqAt p t x d
      → EnqAt p t' x d
  EnqAt-released c p t t' x Enqueue.unclaimed two e e' at = absurd (omega arith)
  EnqAt-released c p t t' x (Enqueue.waiting w) two e e' at = absurd (omega arith)
  EnqAt-released c p t t' x (Enqueue.ready w) two e e' at = absurd (omega arith)
  EnqAt-released c p t t' x (Enqueue.written w) two e e' at = absurd (omega (arith, e, at.0))
  EnqAt-released c p t t' x (Enqueue.left w) two e e' at =
      (omega arith, λ same. absurd (omega arith))

  -- A store at `p` keeps what the cells say of the calls, if it is right for the call at `p`.
  pub update-calls :
      {B : Type 0} (P : ℕ → ℕ → A → B → Type 0) (c p : ℕ) (b : ℕ → Slot A) (sl : Slot A)
      (f f' : ℕ → B)
      → IsCapacity c
      → ((q : ℕ) (e : B)
          → (q + c ≤ p) ⊎ (p + c ≤ q)
          → P q (b (cell c p)).seq (b (cell c p)).item e
          → P q sl.seq sl.item e)
      → ((q : ℕ) → q ≢ p → f' q ≡ f q)
      → P p sl.seq sl.item (f' p)
      → ((q : ℕ) → P q (b (cell c q)).seq (b (cell c q)).item (f q))
      → (q : ℕ)
      → P q (update b (cell c p) sl (cell c q)).seq (update b (cell c p) sl (cell c q)).item (f' q)
  update-calls P c p b sl f f' cap keeps others here all q = elim (Bool-cases (q == p)) [
    | inl e ↦
        let same : p ≡ q = ground arith in
        subst
          (λ r.
            P r (update b (cell c p) sl (cell c r)).seq (update b (cell c p) sl (cell c r)).item
              (f' r))
          same (rw (update-same b (cell c p) sl (cell c p) refl) here)
    | inr e ↦
        let off : q ≢ p = ground arith in
        elim (Bool-cases (cell c q == cell c p)) [
          | inl same ↦
              let at : cell c q ≡ cell c p = ground arith in
              rw (others q off, update-same b (cell c p) sl (cell c q) at)
                (keeps q (f q) (apart q off at)
                  (subst (λ x. P q (b x).seq (b x).item (f q)) at (all q)))
          | inr away ↦
              let off_cell : cell c q ≢ cell c p = ground arith in
              rw (others q off, update-other b (cell c p) sl (cell c q) off_cell) (all q)
        ]
  ]
    where
      apart : (r : ℕ) → r ≢ p → cell c r ≡ cell c p → (r + c ≤ p) ⊎ (p + c ≤ r)
      apart r off at = ground (arith, same_cell c p r cap at, same_cell c r p cap (sym at))
