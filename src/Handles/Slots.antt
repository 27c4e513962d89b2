-- ===== src/Handles/Slots.antt =====
-- The slots of src/core/handles.hpp: valid tables, the search for a free slot, and what one slot
-- answers to a handle.
use astral_runtime.Base.{
  ℕ, zero, suc, ◌+◌, ◌%◌, ◌≤◌, ◌<◌, not, some, none, ◌≡◌, ◌≢◌, refl, ap, ◌∙◌, sym, ◌||◌, arith, inl,
  inr, leb, ◌==◌, if◌then◌else◌, Bool-cases, u64_mod, u32_mod,
}
use astral_runtime.Handles.{
  Slot, HandleTable, max_handles, make_handle, handle_kind, handle_index, handle_generation, init,
  put, find_free, next_generation, fill, unregister_handle, lookup,
}
use astral_runtime.Handles.Kind.{HandleKind}
use astral_runtime.Handles.Fields.{make_handle_fields, make_handle_of_fields, handle_fields}

-- Generations fit 32 bits, and the search starts within the table.
pub record IsValid (t : HandleTable) : Type 0 where
  pub generations : (i : ℕ) → (t.slots i).generation < u32_mod
  pub next : t.next_index < max_handles

pub init-IsValid : IsValid init
unfolding init
init-IsValid = record { generations = λ i. omega arith; next = omega arith }

pub next_generation_bounds : (g : ℕ) → (0 < next_generation g) × (next_generation g < u32_mod)
unfolding next_generation
next_generation_bounds g = ground arith

pub fill-IsValid :
    (t : HandleTable) (i : ℕ) (k : HandleKind) (p : ℕ) → IsValid t → IsValid (fill t i k p)
unfolding fill put
fill-IsValid t i k p v = record {
  generations = λ j. ground (arith, v.generations j, next_generation_bounds (t.slots i).generation);
  next = omega arith;
}

pub unregister_handle-IsValid :
    (t : HandleTable) (h : ℕ) (k : HandleKind) → IsValid t → IsValid (unregister_handle t h k)
unfolding unregister_handle put
unregister_handle-IsValid t h k v = record {
  generations = λ j. ground (arith, v.generations j, v.generations (handle_index h));
  next = ground (arith, v.next);
}

-- The search stops at a free slot, and finds one if there is one.
pub find_free_sound :
    (slots : ℕ → Slot) (start rounds i idx : ℕ)
    → find_free slots start rounds i ≡ some idx
    → ((slots idx).ptr ≡ 0) × (idx < max_handles)
unfolding find_free
find_free_sound slots start zero i idx e = absurd (ground arith)
find_free_sound slots start (suc rounds) i idx e =
    ground (arith, find_free_sound slots start rounds (i + 1) idx)

pub find_free-none :
    (slots : ℕ → Slot) (start rounds i j : ℕ)
    → find_free slots start rounds i ≡ none
    → i ≤ j
    → j < i + rounds
    → (slots ((start + j) % max_handles)).ptr ≢ 0
unfolding find_free
find_free-none slots start zero i j e lo hi = absurd (omega arith)
find_free-none slots start (suc rounds) i j e lo hi =
    grind (arith, find_free-none slots start rounds (i + 1) j)

-- `lookup`, once the slot of the handle's index is read.
unfoldable pub probe : Slot → ℕ → HandleKind → ℕ
probe slot h expected =
    if h == 0 || expected == 0
    then 0
    else if not (handle_kind h == expected)
    then 0
    else if leb max_handles (handle_index h)
    then 0
    else if handle_generation h == 0
    then 0
    else if slot.ptr == 0
    then 0
    else if not (slot.kind == expected) || not (slot.generation == handle_generation h)
    then 0
    else slot.ptr

pub lookup-probe :
    (t : HandleTable) (h : ℕ) (e : HandleKind) → lookup t h e ≡ probe (t.slots (handle_index h)) h e
unfolding lookup probe
lookup-probe t h e = refl

pub put-same : (slots : ℕ → Slot) (i : ℕ) (s : Slot) (j : ℕ) → j ≡ i → put slots i s j ≡ s
unfolding put
put-same slots i s j e = ground arith

pub put-other : (slots : ℕ → Slot) (i : ℕ) (s : Slot) (j : ℕ) → j ≢ i → put slots i s j ≡ slots j
unfolding put
put-other slots i s j e = ground arith

-- A slot just written answers for the handle made of its fields, and for no other.
pub probe_made :
    (i : ℕ) (k : HandleKind) (g p : ℕ)
    → i < max_handles
    → 0 < k
    → k < 256
    → 0 < g
    → g < u32_mod
    → (h : ℕ) (e : HandleKind) → h < u64_mod
    → handle_index h ≡ i
    → probe (record { ptr = p; generation = g; kind = k }) h e
      ≡ (if h == make_handle k i g then (if e == k then p else 0) else 0)
unfolding probe
probe_made i k g p hi k0 k256 g0 gs h e small at = elim (Bool-cases (h == make_handle k i g)) [
  | inl same ↦
      ground (arith, at, handle_fields h, make_handle_fields k i g k256 (omega (arith, hi)) gs)
  | inr other ↦ ground (arith, at, handle_fields h, made)
]
  where
    made : handle_kind h ≡ k → handle_generation h ≡ g → h ≡ make_handle k i g
    made a b = rw (sym a, sym b, sym at) (sym (make_handle_of_fields h small))

-- A free slot answers for nothing.
pub probe_free : (s : Slot) → s.ptr ≡ 0 → (h : ℕ) (e : HandleKind) → probe s h e ≡ 0
unfolding probe
probe_free s free h e = ground (arith, free)

pub made_elsewhere :
    (t : HandleTable) (i : ℕ) (k : HandleKind) (g h : ℕ)
    → k < 256
    → i < max_handles
    → g < u32_mod
    → handle_index h ≢ i
    → h ≢ make_handle k i g
made_elsewhere t i k g h hk hi hg other same =
    other (ap handle_index same ∙ (make_handle_fields k i g hk (omega (arith, hi)) hg).1)

-- A handle is looked up under its own kind only.
pub lookup-other_kind :
    (t : HandleTable) (h : ℕ) (e : HandleKind) → handle_kind h ≢ e → lookup t h e ≡ 0
unfolding lookup
lookup-other_kind t h e other = ground (arith, other)

-- What a slot that holds a handle's fields answers to another handle.
pub probe_one :
    (s : Slot) (h h' : ℕ) (e : HandleKind)
    → h < u64_mod
    → h' < u64_mod
    → handle_index h' ≡ handle_index h
    → s.kind ≡ handle_kind h
    → s.generation ≡ handle_generation h
    → h' ≢ h
    → probe s h' e ≡ 0
unfolding probe
probe_one s h h' e small small' index kind generation other =
    ground (arith, kind, generation, apart)
  where
    apart : handle_kind h' ≡ handle_kind h → handle_generation h' ≢ handle_generation h
    apart a b =
        other
          (sym (make_handle_of_fields h' small') ∙ rw (a, b, index) (make_handle_of_fields h small))
