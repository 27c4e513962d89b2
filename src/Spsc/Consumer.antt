-- ===== src/Spsc/Consumer.antt =====
-- The consumer's side of src/concurrency/spsc_ring.hpp.
use astral_runtime.Base.{
  ℕ, zero, suc, ◌+◌, ◌-◌, ◌≤◌, ◌<◌, ◌≡◌, refl, ap, ◌∙◌, sym, min, arith, ltb, ◌==◌, Bool-cases, ◌⊎◌,
  inl, inr, List, [], ◌++◌, add64, sub64,
}
use mathlib.Core.List.{foldl, foldl-append}
use astral_runtime.Spsc.{SpscRing, cell, release, reserve, pop_batch, each, consume_batch}
use astral_runtime.Spsc.Cells.{
  IsCapacity, tabulate, tabulate-append, copy_out-new, copy_out-old, cell-lt, cell-add,
}
use astral_runtime.Spsc.Queue.{IsValid, items, contents}

-- The consumer's copy of the head, loaded again.
unfoldable pub loaded : {A : Type 0} → SpscRing A → SpscRing A
loaded r = record r { consumer_head_cache = r.head }

pub loaded-IsValid : {A : Type 0} (c : ℕ) (r : SpscRing A) → IsValid c r → IsValid c (loaded r)
unfolding loaded
loaded-IsValid c r v = record {
  is_capacity = v.is_capacity;
  small = v.small;
  own_head = v.own_head;
  own_tail = v.own_tail;
  old_tail = v.old_tail;
  tail_below = omega (arith, v);
  old_head = omega arith;
  fits = v.fits;
  no_wrap = v.no_wrap;
}

pub release-IsValid :
    {A : Type 0} (c : ℕ) (r : SpscRing A) (n : ℕ)
    → IsValid c r
    → n ≤ r.consumer_head_cache - r.tail
    → IsValid c (release r n)
unfolding release
release-IsValid c r n v there = record {
  is_capacity = v.is_capacity;
  small = v.small;
  own_head = v.own_head;
  own_tail = refl;
  old_tail = omega (arith, v);
  tail_below = omega (arith, v);
  old_head = v.old_head;
  fits = v.fits;
  no_wrap = v.no_wrap;
}

-- The items released, then those left.
pub release-contents :
    {A : Type 0} (c : ℕ) (r : SpscRing A) (n : ℕ) (seen : ℕ → A)
    → IsValid c r
    → n ≤ r.consumer_head_cache - r.tail
    → ((i : ℕ) → i < n → seen i ≡ items c r i)
    → contents c r ≡ tabulate seen n ++ contents c (release r n)
unfolding contents release
release-contents {A = A} c r n seen v there same =
    tabulate-append _ _ _ n (r.head - add64 r.consumer_tail_cache n) (r.head - r.tail)
      (omega (arith, v)) (λ i lt. sym (same i lt)) left
  where
    left :
        (i : ℕ)
        → i < r.head - add64 r.consumer_tail_cache n
        → items c r (n + i) ≡ r.buffer (cell c (add64 r.consumer_tail_cache n + i))
    left i lt = ap (λ t. r.buffer (cell c t)) (omega (arith, v))

-- What the consumer reserves: the ring is as it was but for the copy of the head, which covers it.
reserve-cases :
    {A : Type 0} (c : ℕ) (r : SpscRing A) (count : ℕ)
    → IsValid c r
    → ((reserve r count ≡ (min count (r.head - r.tail), r))
        × (min count (r.head - r.tail) ≤ r.consumer_head_cache - r.tail))
      ⊎ (reserve r count ≡ (min count (r.head - r.tail), loaded r))
unfolding reserve loaded
reserve-cases c r count v =
    elim (Bool-cases (ltb (sub64 r.consumer_head_cache r.consumer_tail_cache) count)) [
      | inl short ↦ inr (rw (short) (ap (λ n. (n, loaded r)) (ground (arith, v))))
      | inr enough ↦
          inl
            (rw (enough) (ap (λ n. (n, r)) (ground (arith, v, enough))), ground (arith, v, enough))
    ]

each-fold :
    {A : Type 0} {S : Type 0} (fn : S → A → S) (s : S) (buffer : ℕ → A) (at n : ℕ)
    → each fn s buffer at n ≡ foldl fn s (tabulate (λ i. buffer (at + i)) n)
unfolding each tabulate
each-fold fn s buffer at zero = refl
each-fold fn s buffer at (suc n) =
    ap (λ b. each fn (fn s (buffer b)) buffer (at + 1) n) (omega arith)
    ∙ each-fold fn (fn s (buffer (at + 0))) buffer (at + 1) n
    ∙ ap (λ f. foldl fn (fn s (buffer (at + 0))) (tabulate f n)) (λ k i. buffer (shift i k))
  where
    shift : (i : ℕ) → at + 1 + i ≡ at + (1 + i)
    shift i = omega arith

-- The calls over the two parts of the buffer are the calls over the items in their order.
each-parts :
    {A : Type 0} {S : Type 0} (c : ℕ) (buffer : ℕ → A) (fn : S → A → S) (s : S) (tail first n : ℕ)
    → IsCapacity c
    → n ≤ c
    → first ≡ min n (c - cell c tail)
    → each fn (each fn s buffer (cell c tail) first) buffer 0 (n - first)
      ≡ foldl fn s (tabulate (λ i. buffer (cell c (tail + i))) n)
each-parts c buffer fn s tail first n p fits e =
    each-fold fn (each fn s buffer (cell c tail) first) buffer 0 (n - first)
    ∙ ap (λ t. foldl fn t (tabulate (λ i. buffer (0 + i)) (n - first)))
        (each-fold fn s buffer (cell c tail) first)
    ∙ sym (
        foldl-append fn s (tabulate (λ i. buffer (cell c tail + i)) first)
          (tabulate (λ i. buffer (0 + i)) (n - first)))
    ∙ ap (foldl fn s) (sym parts)
  where
    parts :
        tabulate (λ i. buffer (cell c (tail + i))) n
        ≡ tabulate (λ i. buffer (cell c tail + i)) first
          ++ tabulate (λ i. buffer (0 + i)) (n - first)
    parts =
        tabulate-append _ _ _ first (n - first) n (omega (arith, e))
          (λ i lt. ap buffer (
            grind
              (arith, cell-add c tail i p (omega (arith, fits, e, lt)), cell-lt c tail p, e, lt)))
          (λ i lt. ap buffer (
            grind (
              arith,
              cell-add c tail (first + i) p (omega (arith, fits, e, lt)),
              cell-lt c tail p,
              e,
              lt,
            )))

-- What a consumer's call of `count` items gives: so many as are there, the oldest, in order.
abbrev pub IsTaken : {A : Type 0} → ℕ → SpscRing A → ℕ → ℕ → List A → SpscRing A → Type 0
IsTaken c r count n seen r' =
    (n ≡ min count (r.head - r.tail)) × (contents c r ≡ seen ++ contents c r') × IsValid c r'

-- After a reservation that is not empty, the release.
reserve-IsTaken :
    {A : Type 0} (c : ℕ) (r : SpscRing A) (count : ℕ) (seen : ℕ → A)
    → IsValid c r
    → ((i : ℕ) → i < (reserve r count).0 → seen i ≡ items c r i)
    → IsTaken c r count
        (reserve r count).0
        (tabulate seen (reserve r count).0)
        (release (reserve r count).1 (reserve r count).0)
unfolding loaded contents
reserve-IsTaken c r count seen v same = elim (reserve-cases c r count v) [
  | inl (e, there) ↦ rw (e) (
    refl,
    release-contents c r _ seen v there (λ i lt. same i (rw (e) lt)),
    release-IsValid c r _ v there,
  )
  | inr e ↦ rw (e) (
    refl,
    release-contents c (loaded r) _ seen (loaded-IsValid c r v) (omega arith)
        (λ i lt. same i (rw (e) lt)),
    release-IsValid c (loaded r) _ (loaded-IsValid c r v) (omega arith),
  )
]

-- An empty reservation.
reserve-none :
    {A : Type 0} (c : ℕ) (r : SpscRing A) (count : ℕ)
    → IsValid c r
    → (reserve r count).0 ≡ 0
    → IsTaken c r count 0 [] (reserve r count).1
unfolding loaded contents
reserve-none c r count v none_there = elim (reserve-cases c r count v) [
  | inl (e, there) ↦ rw (e) (sym none_there ∙ ap (λ q. q.0) e, refl, v)
  | inr e ↦ rw (e) (sym none_there ∙ ap (λ q. q.0) e, refl, loaded-IsValid c r v)
]

reserve-count :
    {A : Type 0} (c : ℕ) (r : SpscRing A) (count : ℕ)
    → IsValid c r
    → (reserve r count).0 ≡ min count (r.head - r.tail)
reserve-count c r count v = elim (reserve-cases c r count v) [
  | inl (e, there) ↦ ap (λ q. q.0) e
  | inr e ↦ ap (λ q. q.0) e
]

few : {A : Type 0} (c : ℕ) (r : SpscRing A) (count : ℕ) → IsValid c r → (reserve r count).0 ≤ c
few c r count v = omega (arith, reserve-count c r count v, v)

-- In a valid ring, `pop_batch` of up to `count` items writes the oldest ones to `out` in order, as many as
-- are held, leaves the memory behind them and the items after them, and the ring stays valid.
pub pop_batch-IsTaken :
    {A : Type 0} (c : ℕ) (r : SpscRing A) (out : ℕ → A) (count : ℕ)
    → IsValid c r
    → let result = pop_batch c r out count in
      IsTaken c r count result.0 (tabulate result.1 result.0) result.2
      × ((i : ℕ) → result.0 ≤ i → result.1 i ≡ out i)
unfolding pop_batch tabulate
pop_batch-IsTaken c r out count v = elim (Bool-cases (count == 0)) [
  | inl nothing ↦ rw (nothing) ((ground (arith, nothing), refl, v), λ i le. refl)
  | inr something ↦ elim (Bool-cases ((reserve r count).0 == 0)) [
    | inl bare ↦
        rw (something, bare) (reserve-none c r count v (ground (arith, bare)), λ i le. refl)
    | inr there ↦
        rw (something, there)
          (
            reserve-IsTaken c r count _ v (λ i lt.
                copy_out-new c r.buffer r.consumer_tail_cache out _ i v.is_capacity
                  (few c r count v) lt
                ∙ ap (λ t. r.buffer (cell c (t + i))) v.own_tail),
            λ i le.
                copy_out-old c r.buffer r.consumer_tail_cache out _ i v.is_capacity
                  (few c r count v) le,
          )
  ]
]

-- In a valid ring, `consume_batch` of up to `count` items calls `fn` on the oldest ones in order, as many
-- as are held, leaves the items after them, and the ring stays valid.
pub consume_batch-IsTaken :
    {A : Type 0} {S : Type 0} (c : ℕ) (r : SpscRing A) (count : ℕ) (fn : S → A → S) (s : S)
    → IsValid c r
    → let result = consume_batch c r count fn s in
      IsTaken c r count result.0 (tabulate (items c r) result.0) result.2
      × (result.1 ≡ foldl fn s (tabulate (items c r) result.0))
unfolding consume_batch tabulate
consume_batch-IsTaken c r count fn s v = elim (Bool-cases (count == 0)) [
  | inl nothing ↦ rw (nothing) ((ground (arith, nothing), refl, v), refl)
  | inr something ↦ elim (Bool-cases ((reserve r count).0 == 0)) [
    | inl bare ↦ rw (something, bare) (reserve-none c r count v (ground (arith, bare)), refl)
    | inr there ↦
        rw (something, there)
          (
            reserve-IsTaken c r count _ v (λ i lt. refl),
            each-parts c r.buffer fn s r.consumer_tail_cache _ _ v.is_capacity (few c r count v)
                  (ground arith)
                ∙ ap
                    (λ t.
                      foldl fn s (tabulate (λ i. r.buffer (cell c (t + i))) (reserve r count).0))
                    v.own_tail,
          )
  ]
]
