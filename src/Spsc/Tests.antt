-- ===== src/Spsc/Tests.antt =====
-- Runs of the ring of four cells, and the theorems at them.
use astral_runtime.Base.{ℕ, ◌+◌, ◌<◌, ◌≤◌, true, none, some, [], ◌∷◌, ◌≡◌, refl, arith}
use mathlib.Core.List.{foldl}
use astral_runtime.Spsc.{
  SpscRing, cell, new, memcpy, push, take_one, pop, copy_in, copy_out, store_batch, push_batch,
  release, reserve, pop_batch, consume_batch, size,
}
use astral_runtime.Spsc.Cells.{IsCapacity, tabulate}
use astral_runtime.Spsc.Queue.{IsValid, IsPushed, contents, items, push_batch-IsPushed}
use astral_runtime.Spsc.Consumer.{IsTaken, pop_batch-IsTaken, consume_batch-IsTaken}
use astral_runtime.Spsc.Producer.{
  IsPushedOne, IsPoppedOne, push-IsPushedOne, pop-IsPoppedOne, pop-wrapped, last_cursor,
}

abbrev storage : ℕ → ℕ
storage i = 0

abbrev four : IsCapacity 4
four = record { bits = 2; power = refl }

-- Five items pass through; the last batch passes the end of the buffer.
abbrev busy : SpscRing ℕ
busy =
    (push_batch 4 (pop_batch 4 (push_batch 4 (new storage) (λ i. 10 + i) 3).1 storage 3).2
      (λ i. 20 + i) 5).1

busy-contents : contents 4 busy ≡ 20 ∷ 21 ∷ 22 ∷ 23 ∷ []
unfolding push_batch pop_batch store_batch copy_in copy_out memcpy release reserve new contents
    tabulate cell
busy-contents = refl

busy-pop : (pop 4 busy).0 ≡ some 20
unfolding push_batch pop_batch store_batch copy_in copy_out memcpy release reserve new contents
    tabulate cell pop take_one
busy-pop = refl

busy-IsValid : IsValid 4 busy
unfolding push_batch pop_batch store_batch copy_in copy_out memcpy release reserve new
busy-IsValid = record {
  is_capacity = four;
  small = omega arith;
  own_head = refl;
  own_tail = refl;
  old_tail = omega arith;
  tail_below = omega arith;
  old_head = omega arith;
  fits = omega arith;
  no_wrap = omega arith;
}

busy_head : busy.head + 2 < 0x1_0000_0000_0000_0000
unfolding push_batch pop_batch store_batch copy_in copy_out memcpy release reserve new
busy_head = omega arith

push_batch-IsPushed_example : IsPushed 4 busy (λ i. 30 + i) 2 (push_batch 4 busy (λ i. 30 + i) 2)
push_batch-IsPushed_example = push_batch-IsPushed 4 busy (λ i. 30 + i) 2 busy-IsValid busy_head

pop_batch-IsTaken_example :
    IsTaken 4 busy 3
      (pop_batch 4 busy storage 3).0
      (tabulate (pop_batch 4 busy storage 3).1 (pop_batch 4 busy storage 3).0)
      (pop_batch 4 busy storage 3).2
    × ((i : ℕ) → (pop_batch 4 busy storage 3).0 ≤ i → (pop_batch 4 busy storage 3).1 i ≡ storage i)
pop_batch-IsTaken_example = pop_batch-IsTaken 4 busy storage 3 busy-IsValid

consume_batch-IsTaken_example :
    IsTaken 4 busy 3
      (consume_batch 4 busy 3 (λ a b. a + b) 0).0
      (tabulate (items 4 busy) (consume_batch 4 busy 3 (λ a b. a + b) 0).0)
      (consume_batch 4 busy 3 (λ a b. a + b) 0).2
    × ((consume_batch 4 busy 3 (λ a b. a + b) 0).1
        ≡ foldl
            (λ a b. a + b)
            0
            (tabulate (items 4 busy) (consume_batch 4 busy 3 (λ a b. a + b) 0).0))
consume_batch-IsTaken_example = consume_batch-IsTaken 4 busy 3 (λ a b. a + b) 0 busy-IsValid

busy_next : busy.head + 1 < 0x1_0000_0000_0000_0000
unfolding push_batch pop_batch store_batch copy_in copy_out memcpy release reserve new
busy_next = omega arith

push-IsPushedOne_example : IsPushedOne 4 busy 99 (push 4 busy 99)
push-IsPushedOne_example = push-IsPushedOne 4 busy 99 busy-IsValid busy_next

pop-IsPoppedOne_example : IsPoppedOne 4 busy (pop 4 busy)
pop-IsPoppedOne_example = pop-IsPoppedOne 4 busy busy-IsValid

pop-wrapped_example :
    ((push 4 (last_cursor storage) 7).0 ≡ true)
    × (size (push 4 (last_cursor storage) 7).1 ≡ 1)
    × ((pop 4 (push 4 (last_cursor storage) 7).1).0 ≡ none)
pop-wrapped_example = pop-wrapped 4 storage 7 (omega arith)
