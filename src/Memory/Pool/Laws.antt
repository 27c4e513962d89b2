-- ===== src/Memory/Pool/Laws.antt =====
-- No object of a pool of src/memory/object_pool.hpp is handed out twice.
use astral_runtime.Base.{
  ℕ, zero, suc, ◌⊎◌, true, false, ◌+◌, ◌-◌, ◌<◌, Option, some, none, List, [], ◌∷◌, ◌≡◌, ◌≢◌, refl,
  subst, sym, ◌∙◌, inl, inr, ltb, ◌==◌, Bool-cases, if◌then◌else◌, arith,
}
use mathlib.Core.Option.{some-injective}
use astral_runtime.Memory.Pool.{
  ObjectPool, store, init, acquire, release, local_init, local_acquire, local_release,
}

store-other :
    (next : ℕ → Option ℕ) (x y : ℕ) (value : Option ℕ) → y ≢ x → store next x value y ≡ next y
unfolding store
store-other next x y value other = ground (arith, other)

store-same : (next : ℕ → Option ℕ) (x : ℕ) (value : Option ℕ) → store next x value x ≡ value
unfolding store
store-same next x value = ground arith

-- How often an object stands in a list.
unfoldable pub count : ℕ → List ℕ → ℕ
count x [] = 0
count x (y ∷ ys) = (if x == y then 1 else 0) + count x ys

-- The list without one occurrence.
unfoldable pub remove : ℕ → List ℕ → List ℕ
remove x [] = []
remove x (y ∷ ys) = if x == y then ys else y ∷ remove x ys

count-remove :
    (x y : ℕ) (ys : List ℕ)
    → 0 < count x ys
    → count y (remove x ys) + (if y == x then 1 else 0) ≡ count y ys
unfolding count remove
count-remove x y [] held = absurd (omega (arith, held))
count-remove x y (z ∷ zs) held = elim (Bool-cases (x == z)) [
  | inl same ↦ rw (same) (ground (arith, same))
  | inr other ↦ rw (other) (grind (arith, other, held, count-remove x y zs))
]

-- The free list from a link on.
unfoldable pub Links : (ℕ → Option ℕ) → Option ℕ → List ℕ → Type 0
Links next from [] = from ≡ none
Links next from (x ∷ xs) = (from ≡ some x) × Links next (next x) xs

-- A store into an object that is not in the list leaves the list.
Links-store :
    (next : ℕ → Option ℕ) (from : Option ℕ) (xs : List ℕ) (x : ℕ) (value : Option ℕ)
    → count x xs ≡ 0
    → Links next from xs
    → Links (store next x value) from xs
unfolding count Links
Links-store next from [] x value away links = links
Links-store next from (y ∷ ys) x value away links = (
  links.0,
  subst (λ l. Links (store next x value) l ys) (sym kept)
      (Links-store next (next y) ys x value (ground (arith, away)) links.1),
)
  where
    kept : store next x value y ≡ next y
    kept = store-other next x y value (ground (arith, away))

-- `k` numbers from `i` on.
from_on : ℕ → ℕ → List ℕ
from_on i zero = []
from_on i (suc k) = i ∷ from_on (i + 1) k

count-from_on :
    (x i k : ℕ) → count x (from_on i k) ≡ (if ltb x i then 0 else if ltb x (i + k) then 1 else 0)
unfolding count from_on
count-from_on x i zero = ground arith
count-from_on x i (suc k) = ground (arith, count-from_on x (i + 1) k)

Links-init :
    (n i k : ℕ)
    → 0 < k
    → i + k ≡ n
    → Links (λ j. if ltb j (n - 1) then some (j + 1) else none) (some i) (from_on i k)
unfolding Links from_on
Links-init n i zero pos e = absurd (omega (arith, pos))
Links-init n i (suc zero) pos e = (refl, rw (last) refl)
  where
    last : ltb i (n - 1) ≡ false
    last = ground (arith, e)
Links-init n i (suc (suc k)) pos e =
    (refl, rw (more) (Links-init n (i + 1) (suc k) (omega arith) (omega (arith, e))))
  where
    more : ltb i (n - 1) ≡ true
    more = ground (arith, e)

-- A pool and what its clients hold, after calls of `acquire`, releases of what is held, and writes
-- of the clients to the objects they hold.
pub data Run (n : ℕ) : ObjectPool → List ℕ → Type 0 where
  start : Run n (init n) []
  acquired :
      {p : ObjectPool} {held : List ℕ} (x : ℕ)
      → Run n p held
      → (acquire p).0 ≡ some x
      → Run n (acquire p).1 (x ∷ held)
  refused :
      {p : ObjectPool} {held : List ℕ}
      → Run n p held
      → (acquire p).0 ≡ none
      → Run n (acquire p).1 held
  released :
      {p : ObjectPool} {held : List ℕ} (x : ℕ)
      → Run n p held
      → 0 < count x held
      → Run n (release p (some x)) (remove x held)
  written :
      {p : ObjectPool} {held : List ℕ} (x : ℕ) (value : Option ℕ)
      → Run n p held
      → 0 < count x held
      → Run n (record p { next = store p.next x value }) held

-- Each object is free or held, once.
record IsShared (n : ℕ) (p : ObjectPool) (held : List ℕ) : Type 0 where
  free : List ℕ
  links : Links p.next p.head free
  once : (x : ℕ) → count x free + count x held ≡ (if ltb x n then 1 else 0)

acquire-cases :
    (n : ℕ) (p : ObjectPool) (held : List ℕ)
    → IsShared n p held
    → (((acquire p).0 ≡ none)
        × IsShared n (acquire p).1 held
        × ((x : ℕ) → x < n → count x held ≡ 1))
      ⊎ ((x : ℕ) × ((acquire p).0 ≡ some x)
          × (x < n)
          × (count x held ≡ 0)
          × IsShared n (acquire p).1 (x ∷ held))
unfolding acquire Links count
acquire-cases n p held s = go s.free s.links s.once
  where
    go :
        (free : List ℕ)
        → Links p.next p.head free
        → ((x : ℕ) → count x free + count x held ≡ (if ltb x n then 1 else 0))
        → (((acquire p).0 ≡ none)
            × IsShared n (acquire p).1 held
            × ((x : ℕ) → x < n → count x held ≡ 1))
          ⊎ ((x : ℕ) × ((acquire p).0 ≡ some x)
              × (x < n)
              × (count x held ≡ 0)
              × IsShared n (acquire p).1 (x ∷ held))
    go [] links once = inl (
        rw (links) (
          refl,
          record { free = []; links = refl; once = once },
          λ x lt. ground (arith, once x, lt),
        ))
    go (x ∷ xs) links once = inr (
      x,
      rw (links.0) refl,
      ground (arith, once x),
      ground (arith, once x),
      rw (links.0) (record { free = xs; links = links.1; once = λ y. omega (arith, once y) }),
    )

release-IsShared :
    (n : ℕ) (p : ObjectPool) (held : List ℕ) (x : ℕ)
    → IsShared n p held
    → 0 < count x held
    → IsShared n (release p (some x)) (remove x held)
unfolding release Links count
release-IsShared n p held x s there = record {
  free = x ∷ s.free;
  links = (
    refl,
    subst (λ l. Links (store p.next x p.head) l s.free) (sym (store-same p.next x p.head))
        (Links-store p.next p.head s.free x p.head (ground (arith, there, s.once x)) s.links),
  );
  once = λ y. ground (arith, s.once y, count-remove x y held there);
}

Run-IsShared : (n : ℕ) (p : ObjectPool) (held : List ℕ) → 0 < n → Run n p held → IsShared n p held
unfolding init count
Run-IsShared n _ _ pos start = record {
  free = from_on 0 n;
  links = Links-init n 0 n pos (omega arith);
  once = λ x. ground (arith, count-from_on x 0 n);
}
Run-IsShared n _ _ pos (acquired {p = p} {held = held} x run e) =
    elim (acquire-cases n p held (Run-IsShared n p held pos run)) [
      | inl (none_left, _, _) ↦ absurd (ground (arith, none_left, e))
      | inr (y, found, _, _, shared) ↦
          subst (λ z. IsShared n (acquire p).1 (z ∷ held)) (some-injective y x (sym found ∙ e))
            shared
    ]
Run-IsShared n _ _ pos (refused {p = p} {held = held} run e) =
    elim (acquire-cases n p held (Run-IsShared n p held pos run)) [
      | inl (_, shared, _) ↦ shared
      | inr (y, found, _, _, _) ↦ absurd (ground (arith, found, e))
    ]
Run-IsShared n _ _ pos (released {p = p} {held = held} x run there) =
    release-IsShared n p held x (Run-IsShared n p held pos run) there
Run-IsShared n _ _ pos (written {p = p} {held = held} x value run there) =
    let s = Run-IsShared n p held pos run in
    record {
      free = s.free;
      links = Links-store p.next p.head s.free x value (ground (arith, there, s.once x)) s.links;
      once = s.once;
    }

-- In any run of a pool of `n` objects, where clients release and write only what they hold, an
-- `acquire` gives an object of the pool that nobody holds, or gives none when each one is held.
pub acquire-fresh :
    (n : ℕ) (p : ObjectPool) (held : List ℕ)
    → 0 < n
    → Run n p held
    → ((x : ℕ) × ((acquire p).0 ≡ some x) × (x < n) × (count x held ≡ 0))
      ⊎ (((acquire p).0 ≡ none) × ((x : ℕ) → x < n → count x held ≡ 1))
acquire-fresh n p held pos run = elim (acquire-cases n p held (Run-IsShared n p held pos run)) [
  | inl (nothing, _, all) ↦ inr (nothing, all)
  | inr (x, found, lt, fresh, _) ↦ inl (x, found, lt, fresh)
]

-- The pool of one thread takes the same steps: the same constructor, `acquire` and `release`.
pub local_eq :
    (n : ℕ) (p : ObjectPool) (x : ℕ)
    → ((i : ℕ) → (local_init n).next i ≡ (init n).next i)
      × (local_acquire p ≡ acquire p)
      × (local_release p x ≡ release p (some x))
unfolding local_init init local_acquire acquire local_release release
local_eq n p x = (λ i. ground arith, refl, refl)
