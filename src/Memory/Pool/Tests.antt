-- ===== src/Memory/Pool/Tests.antt =====
-- A run of a pool of two objects, and the theorem at it.
use astral_runtime.Base.{ℕ, ◌<◌, some, none, [], ◌∷◌, ◌≡◌, ◌⊎◌, refl, arith}
use astral_runtime.Memory.Pool.{ObjectPool, init, acquire, release, store}
use astral_runtime.Memory.Pool.Laws.{Run, count, acquire-fresh}

abbrev one_held : ObjectPool
one_held = (acquire (init 2)).1

both_held : (acquire (acquire one_held).1).0 ≡ none
unfolding acquire init
both_held = refl

back_again : (acquire (release (acquire one_held).1 (some 0))).0 ≡ some 0
unfolding acquire init release store
back_again = refl

one_held_run : Run 2 one_held (0 ∷ [])
unfolding acquire init
one_held_run = Run.acquired 0 Run.start refl

acquire-fresh_example :
    ((x : ℕ) × ((acquire one_held).0 ≡ some x) × (x < 2) × (count x (0 ∷ []) ≡ 0))
    ⊎ (((acquire one_held).0 ≡ none) × ((x : ℕ) → x < 2 → count x (0 ∷ []) ≡ 1))
acquire-fresh_example = acquire-fresh 2 one_held (0 ∷ []) (omega arith) one_held_run
