-- ===== src/Memory/Pool.antt =====
-- The object pools of src/memory/object_pool.hpp. An object is its index in `storage_`; the first word of
-- an object, the link while it is free, is what `next` says. A call runs under the pool's lock.
pub mod Laws
mod Tests
use astral_runtime.Base.{ℕ, ◌+◌, ◌-◌, Option, some, none, ltb, ◌==◌, if◌then◌else◌}

pub record ObjectPool : Type 0 where
  pub head : Option ℕ
  pub next : ℕ → Option ℕ

-- A store of the first word of an object.
unfoldable pub store : (ℕ → Option ℕ) → ℕ → Option ℕ → ℕ → Option ℕ
store next x link y = if y == x then link else next y

-- `max_objects` is more than 0, by the static assertion.
unfoldable pub init : ℕ → ObjectPool
init max_objects = record {
  head = some 0;
  next = λ i. if ltb i (max_objects - 1) then some (i + 1) else none;
}

unfoldable pub acquire : ObjectPool → Option ℕ × ObjectPool
acquire p = elim p.head [ none ↦ (none, p) | some x ↦ (some x, record p { head = p.next x }) ]

-- A release of the null pointer does nothing.
unfoldable pub release : ObjectPool → Option ℕ → ObjectPool
release p none = p
release p (some x) = record { head = some x; next = store p.next x p.head }

-- The pool of one thread, without the lock and without the test for null.
unfoldable pub local_init : ℕ → ObjectPool
local_init max_objects = record {
  head = some 0;
  next = λ i. if ltb (i + 1) max_objects then some (i + 1) else none;
}

unfoldable pub local_acquire : ObjectPool → Option ℕ × ObjectPool
local_acquire p = elim p.head [ none ↦ (none, p) | some x ↦ (some x, record p { head = p.next x }) ]

unfoldable pub local_release : ObjectPool → ℕ → ObjectPool
local_release p x = record { head = some x; next = store p.next x p.head }
