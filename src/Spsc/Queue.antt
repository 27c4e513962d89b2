-- ===== src/Spsc/Queue.antt =====
-- The ring of src/concurrency/spsc_ring.hpp as a queue.
use astral_runtime.Base.{
  ℕ, ◌+◌, ◌-◌, ◌≤◌, ◌<◌, ◌≡◌, refl, ap, ◌∙◌, sym, min, arith, ltb, ◌==◌, true, Bool-cases, ◌⊎◌, inl,
  inr, List, ◌++◌, append-nil, add64, sub64, u64_mod,
}
use astral_runtime.Spsc.{SpscRing, cell, copy_in, store_batch, push_batch, size}
use astral_runtime.Spsc.Cells.{
  IsCapacity, tabulate, tabulate-append, copy_in-new, copy_in-old, cell-around,
}

-- Cursors that have not passed 2^64; the copies may be old, and the sides' own are not.
pub record IsValid {A : Type 0} (capacity : ℕ) (r : SpscRing A) : Type 0 where
  pub is_capacity : IsCapacity capacity
  pub small : capacity ≤ 0x8000_0000_0000_0000 - 1
  pub own_head : r.producer_head_cache ≡ r.head
  pub own_tail : r.consumer_tail_cache ≡ r.tail
  pub old_tail : r.producer_tail_cache ≤ r.tail
  pub tail_below : r.tail ≤ r.consumer_head_cache
  pub old_head : r.consumer_head_cache ≤ r.head
  pub fits : r.head ≤ r.producer_tail_cache + capacity
  pub no_wrap : r.head < u64_mod

-- The items between the cursors, oldest first.
abbrev pub items : {A : Type 0} → ℕ → SpscRing A → ℕ → A
items capacity r i = r.buffer (cell capacity (r.tail + i))

unfoldable pub contents : {A : Type 0} → ℕ → SpscRing A → List A
contents capacity r = tabulate (items capacity r) (r.head - r.tail)

pub size-eq : {A : Type 0} (c : ℕ) (r : SpscRing A) → IsValid c r → size r ≡ r.head - r.tail
unfolding size
size-eq c r v = ground (arith, v)

-- The ring with `n` more items.
unfoldable pub stored : {A : Type 0} → ℕ → SpscRing A → (ℕ → A) → ℕ → SpscRing A
stored c r new_items n = record r {
  buffer = copy_in c r.buffer r.producer_head_cache new_items n;
  producer_head_cache = add64 r.producer_head_cache n;
  head = add64 r.producer_head_cache n;
}

pub stored-IsValid :
    {A : Type 0} (c : ℕ) (r : SpscRing A) (new_items : ℕ → A) (n : ℕ)
    → IsValid c r
    → n ≤ c - (r.head - r.producer_tail_cache)
    → r.head + n < u64_mod
    → IsValid c (stored c r new_items n)
unfolding stored
stored-IsValid c r new_items n v room wrap = record {
  is_capacity = v.is_capacity;
  small = v.small;
  own_head = refl;
  own_tail = v.own_tail;
  old_tail = v.old_tail;
  tail_below = v.tail_below;
  old_head = omega (arith, v);
  fits = omega (arith, v);
  no_wrap = omega (arith, v);
}

pub stored-contents :
    {A : Type 0} (c : ℕ) (r : SpscRing A) (new_items : ℕ → A) (n : ℕ)
    → IsValid c r
    → n ≤ c - (r.head - r.producer_tail_cache)
    → r.head + n < u64_mod
    → contents c (stored c r new_items n) ≡ contents c r ++ tabulate new_items n
unfolding contents stored
stored-contents {A = A} c r new_items n v room wrap =
    tabulate-append _ _ _ (r.head - r.tail) n (add64 r.producer_head_cache n - r.tail)
      (omega (arith, v)) kept added
  where
    after : ℕ → A
    after = copy_in c r.buffer r.producer_head_cache new_items n

    kept :
        (i : ℕ) → i < r.head - r.tail → after (cell c (r.tail + i)) ≡ r.buffer (cell c (r.tail + i))
    kept i lt =
        ap after around
        ∙ copy_in-old c r.buffer r.producer_head_cache new_items n (c - (r.head - r.tail) + i)
            v.is_capacity (omega (arith, v)) (omega (arith, v, lt))
        ∙ ap r.buffer (sym around)
      where
        around : cell c (r.tail + i) ≡ cell c (r.producer_head_cache + (c - (r.head - r.tail) + i))
        around = sym (cell-around c (r.tail + i) v.is_capacity) ∙ ap (cell c) (omega (arith, v, lt))

    added : (i : ℕ) → i < n → after (cell c (r.tail + (r.head - r.tail + i))) ≡ new_items i
    added i lt =
        ap (λ t. after (cell c t)) (omega (arith, v, lt))
        ∙ copy_in-new c r.buffer r.producer_head_cache new_items n i v.is_capacity
            (omega (arith, v)) lt

-- The producer's copy of the tail, loaded again.
unfoldable pub refreshed : {A : Type 0} → SpscRing A → SpscRing A
refreshed r = record r { producer_tail_cache = r.tail }

pub refreshed-IsValid :
    {A : Type 0} (c : ℕ) (r : SpscRing A) → IsValid c r → IsValid c (refreshed r)
unfolding refreshed
refreshed-IsValid c r v = record {
  is_capacity = v.is_capacity;
  small = v.small;
  own_head = v.own_head;
  own_tail = v.own_tail;
  old_tail = omega arith;
  tail_below = v.tail_below;
  old_head = v.old_head;
  fits = omega (arith, v);
  no_wrap = v.no_wrap;
}

-- What is right of a push of `count` items: as many as there is room for are added, in order.
abbrev pub IsPushed : {A : Type 0} → ℕ → SpscRing A → (ℕ → A) → ℕ → ℕ × SpscRing A → Type 0
IsPushed c r new_items count result =
    (result.0 ≡ min count (c - (r.head - r.tail)))
    × (contents c result.1 ≡ contents c r ++ tabulate new_items result.0)
    × IsValid c result.1

pub stored-IsPushed :
    {A : Type 0} (c : ℕ) (r : SpscRing A) (new_items : ℕ → A) (count n : ℕ)
    → IsValid c r
    → n ≤ c - (r.head - r.producer_tail_cache)
    → r.head + count < u64_mod
    → n ≡ min count (c - (r.head - r.tail))
    → IsPushed c r new_items count (n, stored c r new_items n)
stored-IsPushed c r new_items count n v room wrap e = (
  e,
  stored-contents c r new_items n v room (omega (arith, e)),
  stored-IsValid c r new_items n v room (omega (arith, e)),
)

none-IsPushed :
    {A : Type 0} (c : ℕ) (r : SpscRing A) (new_items : ℕ → A) (count : ℕ)
    → IsValid c r
    → min count (c - (r.head - r.tail)) ≡ 0
    → IsPushed c r new_items count (0, r)
unfolding tabulate
none-IsPushed c r new_items count v e = (sym e, sym (append-nil (contents c r)), v)

-- The copy of the tail, when there is room enough by it, or when it is the tail.
store_batch-IsPushed :
    {A : Type 0} (c : ℕ) (r : SpscRing A) (new_items : ℕ → A) (count : ℕ)
    → IsValid c r
    → r.head + count < u64_mod
    → (r.producer_tail_cache ≡ r.tail)
      ⊎ (count ≤ sub64 c (sub64 r.producer_head_cache r.producer_tail_cache))
    → IsPushed c r new_items count (
        store_batch c r new_items count
          (sub64 c (sub64 r.producer_head_cache r.producer_tail_cache)))
unfolding store_batch stored
store_batch-IsPushed c r new_items count v wrap enough =
    stored-IsPushed c r new_items count _ v (ground (arith, v)) wrap (ground (arith, v, enough))

full_room :
    {A : Type 0} (c : ℕ) (r : SpscRing A) (count : ℕ)
    → IsValid c r
    → ((sub64 c (sub64 r.producer_head_cache r.tail)) == 0) ≡ true
    → min count (c - (r.head - r.tail)) ≡ 0
full_room c r count v full = ground (arith, v, full)

refreshed-IsPushed :
    {A : Type 0} (c : ℕ) (r : SpscRing A) (new_items : ℕ → A) (count : ℕ) (result : ℕ × SpscRing A)
    → IsPushed c (refreshed r) new_items count result
    → IsPushed c r new_items count result
unfolding refreshed contents
refreshed-IsPushed c r new_items count result pushed = pushed

-- In a valid ring whose head does not pass 2^64 by the batch, `push_batch` of `count` items adds the first
-- of them behind those held, in order, as many as the capacity leaves room for, and the ring stays
-- valid. An old copy of the tail changes nothing of that.
pub push_batch-IsPushed :
    {A : Type 0} (c : ℕ) (r : SpscRing A) (new_items : ℕ → A) (count : ℕ)
    → IsValid c r
    → r.head + count < u64_mod
    → IsPushed c r new_items count (push_batch c r new_items count)
unfolding push_batch refreshed
push_batch-IsPushed c r new_items count v wrap = elim (Bool-cases (count == 0)) [
  | inl nothing ↦ rw (nothing) (none-IsPushed c r new_items count v (ground (arith, nothing)))
  | inr something ↦
      elim (Bool-cases (ltb (sub64 c (sub64 r.producer_head_cache r.producer_tail_cache)) count)) [
        | inr roomy ↦
            rw (something, roomy)
              (store_batch-IsPushed c r new_items count v wrap (inr (ground (arith, roomy))))
        | inl tight ↦ elim (Bool-cases (sub64 c (sub64 r.producer_head_cache r.tail) == 0)) [
          | inl full ↦
              rw (something, tight, full)
                (refreshed-IsPushed c r new_items count (0, refreshed r)
                  (none-IsPushed c (refreshed r) new_items count (refreshed-IsValid c r v)
                    (full_room c r count v full)))
          | inr free ↦
              rw (something, tight, free)
                (refreshed-IsPushed c r new_items count _ (
                  store_batch-IsPushed c (refreshed r) new_items count (refreshed-IsValid c r v)
                    wrap (inl refl)))
        ]
      ]
]
