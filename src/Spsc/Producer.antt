-- ===== src/Spsc/Producer.antt =====
-- `push` and `pop` of src/concurrency/spsc_ring.hpp, one item at a time, and `reset`.
use astral_runtime.Base.{
  ℕ, ◌+◌, ◌-◌, ◌<◌, ◌≡◌, refl, ap, arith, leb, ltb, if◌then◌else◌, Bool, true, false, Bool-cases,
  inl, inr, List, [], ◌∷◌, ◌++◌, Option, some, none, add64, sub64, u64_mod,
}
use astral_runtime.Spsc.{
  SpscRing, cell, new, memcpy, publish, push, take_one, pop, copy_in, release, size, reset,
}
use astral_runtime.Spsc.Cells.{IsCapacity, tabulate, cell-lt}
use astral_runtime.Spsc.Queue.{
  IsValid, items, contents, stored, stored-IsValid, stored-contents, refreshed, refreshed-IsValid,
}
use astral_runtime.Spsc.Consumer.{loaded, loaded-IsValid, release-IsValid, release-contents}

copy_in-one :
    {A : Type 0} (c : ℕ) (buffer : ℕ → A) (head : ℕ) (item : A)
    → IsCapacity c
    → memcpy buffer (cell c head) (λ _. item) 0 1 ≡ copy_in c buffer head (λ _. item) 1
unfolding copy_in
copy_in-one c buffer head item p = elim (Bool-cases (ltb 1 (c - cell c head))) [
  | inl more ↦ rw (more) refl
  | inr last ↦
      let one : c - cell c head ≡ 1 = ground (arith, last, cell-lt c head p) in rw (last, one) refl
]

publish-stored :
    {A : Type 0} (c : ℕ) (r : SpscRing A) (item : A)
    → IsCapacity c
    → publish c r item ≡ stored c r (λ _. item) 1
unfolding publish stored
publish-stored c r item p =
    ap
      (λ b. record r {
        head = add64 r.producer_head_cache 1;
        producer_head_cache = add64 r.producer_head_cache 1;
        buffer = b;
      })
      (copy_in-one c r.buffer r.producer_head_cache item p)

-- What is right of a push: the item is the last, or the ring is full and holds what it held.
abbrev pub IsPushedOne : {A : Type 0} → ℕ → SpscRing A → A → Bool × SpscRing A → Type 0
IsPushedOne c r item result =
    (result.0 ≡ ltb (r.head - r.tail) c)
    × (contents c result.1 ≡ (if result.0 then contents c r ++ (item ∷ []) else contents c r))
    × IsValid c result.1

publish-IsPushedOne :
    {A : Type 0} (c : ℕ) (r : SpscRing A) (item : A)
    → IsValid c r
    → r.head + 1 < u64_mod
    → r.head - r.producer_tail_cache < c
    → IsPushedOne c r item (true, publish c r item)
unfolding tabulate
publish-IsPushedOne c r item v wrap room = rw (publish-stored c r item v.is_capacity) (
  ground (arith, v, room),
  stored-contents c r (λ _. item) 1 v (omega (arith, room)) wrap,
  stored-IsValid c r (λ _. item) 1 v (omega (arith, room)) wrap,
)

-- In a valid ring whose head does not pass 2^64 by it, `push` adds the item behind those held if there are
-- fewer than the capacity; otherwise it returns false and the ring holds what it held. It stays valid.
pub push-IsPushedOne :
    {A : Type 0} (c : ℕ) (r : SpscRing A) (item : A)
    → IsValid c r
    → r.head + 1 < u64_mod
    → IsPushedOne c r item (push c r item)
unfolding push refreshed contents
push-IsPushedOne c r item v wrap =
    elim (Bool-cases (ltb c (sub64 (add64 r.producer_head_cache 1) r.producer_tail_cache))) [
      | inr roomy ↦ rw (roomy) (publish-IsPushedOne c r item v wrap (ground (arith, v, roomy)))
      | inl tight ↦ elim (Bool-cases (ltb c (sub64 (add64 r.producer_head_cache 1) r.tail))) [
        | inl full ↦ rw (tight, full) (ground (arith, v, full), refl, refreshed-IsValid c r v)
        | inr free ↦
            rw (tight, free)
              (publish-IsPushedOne c (refreshed r) item (refreshed-IsValid c r v) wrap
                (ground (arith, v, free)))
      ]
    ]

-- What is right of a pop: the oldest item, or the ring is empty.
abbrev pub Popped : {A : Type 0} → Option A → List A → List A → Type 0
Popped none before after = (before ≡ []) × (after ≡ [])
Popped (some item) before after = before ≡ item ∷ after

abbrev pub IsPoppedOne : {A : Type 0} → ℕ → SpscRing A → Option A × SpscRing A → Type 0
IsPoppedOne c r result = Popped result.0 (contents c r) (contents c result.1) × IsValid c result.1

take_one-IsPoppedOne :
    {A : Type 0} (c : ℕ) (r : SpscRing A)
    → IsValid c r
    → r.tail < r.consumer_head_cache
    → IsPoppedOne c r (take_one c r)
unfolding take_one tabulate release
take_one-IsPoppedOne c r v there = (
  release-contents c r 1 (λ _. r.buffer (cell c r.consumer_tail_cache)) v (omega (arith, there))
      (λ i lt. ap (λ t. r.buffer (cell c t)) (omega (arith, lt, v))),
  release-IsValid c r 1 v (omega (arith, there)),
)

-- In a valid ring, `pop` gives the oldest item and leaves the others in order, or gives none when no item
-- is held; the ring stays valid.
pub pop-IsPoppedOne :
    {A : Type 0} (c : ℕ) (r : SpscRing A) → IsValid c r → IsPoppedOne c r (pop c r)
unfolding pop loaded contents tabulate
pop-IsPoppedOne c r v = elim (Bool-cases (leb r.consumer_head_cache r.consumer_tail_cache)) [
  | inr there ↦ rw (there) (take_one-IsPoppedOne c r v (ground (arith, v, there)))
  | inl short ↦ elim (Bool-cases (leb r.head r.consumer_tail_cache)) [
    | inl bare ↦
        let nothing : r.head - r.tail ≡ 0 = ground (arith, v, bare) in
        rw (short, bare)
          (
            (ap (tabulate (items c r)) nothing, ap (tabulate (items c r)) nothing),
            loaded-IsValid c r v,
          )
    | inr some_there ↦
        rw (short, some_there)
          (take_one-IsPoppedOne c (loaded r) (loaded-IsValid c r v) (ground (arith, v, some_there)))
  ]
]

-- A reset ring, of a capacity that is a power of two below 2^63, is valid and empty.
pub reset-empty :
    {A : Type 0} (c : ℕ) (r : SpscRing A)
    → IsCapacity c
    → c < 0x8000_0000_0000_0000
    → (contents c (reset r) ≡ []) × IsValid c (reset r)
unfolding reset new contents tabulate
reset-empty c r p small = (
  refl,
  record {
    is_capacity = p;
    small = omega arith;
    own_head = refl;
    own_tail = refl;
    old_tail = omega arith;
    tail_below = omega arith;
    old_head = omega arith;
    fits = omega arith;
    no_wrap = omega arith;
  },
)

-- A ring with every cursor at the last number of 64 bits.
abbrev pub last_cursor : {A : Type 0} → (ℕ → A) → SpscRing A
last_cursor storage = record {
  head = u64_mod - 1;
  tail = u64_mod - 1;
  producer_head_cache = u64_mod - 1;
  producer_tail_cache = u64_mod - 1;
  consumer_head_cache = u64_mod - 1;
  consumer_tail_cache = u64_mod - 1;
  buffer = storage;
}

-- In an empty ring of any capacity but 0 whose cursors stand at 2^64 - 1, a push succeeds and the size is 1, but the pop
-- finds nothing, since it compares the cursors and not their difference.
pub pop-wrapped :
    {A : Type 0} (c : ℕ) (storage : ℕ → A) (item : A)
    → 0 < c
    → let pushed = push c (last_cursor storage) item in
      (pushed.0 ≡ true) × (size pushed.1 ≡ 1) × ((pop c pushed.1).0 ≡ none)
unfolding push publish size pop
pop-wrapped c storage item pos = rw (room) (refl, refl, refl)
  where
    room : ltb c 1 ≡ false
    room = ground (arith, pos)
