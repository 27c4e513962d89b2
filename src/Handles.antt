-- ===== src/Handles.antt =====
-- The generation-tagged handle table: src/core/handles.hpp. A pointer is a number, 0 the null pointer;
-- each call runs under the table's lock, or reads one slot.
pub mod Kind
pub mod Fields
mod Slots
pub mod Lookup
mod Tests
use Kind.{HandleKind}
use astral_runtime.Base.{
  ℕ, zero, suc, ◌+◌, ◌*◌, ◌/◌, ◌%◌, ◌^◌, bit_and, bit_or, Bool, true, false, not, ◌&&◌, ◌||◌,
  Option, some, none, ◌==◌, leb, if◌then◌else◌, add32, u64_mod,
}

abbrev pub max_handles : ℕ
max_handles = 8192

unfoldable pub make_handle : HandleKind → ℕ → ℕ → ℕ
make_handle kind index generation =
    bit_or (bit_or (kind * 2 ^ 56 % u64_mod) (bit_and index 0xFF_FFFF * 2 ^ 32)) generation

pub handle_kind : ℕ → HandleKind
handle_kind h = bit_and (h / 2 ^ 56) 0xFF

pub handle_index : ℕ → ℕ
handle_index h = bit_and (h / 2 ^ 32) 0xFF_FFFF

pub handle_generation : ℕ → ℕ
handle_generation h = bit_and h 0xFFFF_FFFF

pub record Slot : Type 0 where
  pub ptr : ℕ
  pub generation : ℕ
  pub kind : HandleKind

pub record HandleTable : Type 0 where
  pub slots : ℕ → Slot
  pub next_index : ℕ

unfoldable pub init : HandleTable
init = record {
  slots = λ i. record { ptr = 0; generation = 0; kind = Kind.invalid };
  next_index = 0;
}

unfoldable pub put : (ℕ → Slot) → ℕ → Slot → ℕ → Slot
put slots i s j = if j == i then s else slots j

-- The search of `register_ptr`, with so many rounds left.
unfoldable pub find_free : (ℕ → Slot) → ℕ → ℕ → ℕ → Option ℕ
find_free slots start zero i = none
find_free slots start (suc rounds) i =
    let index = (start + i) % max_handles in
    let rest = find_free slots start rounds (i + 1) in
    if not ((slots index).ptr == 0) then rest else some index

unfoldable pub next_generation : ℕ → ℕ
next_generation g = if add32 g 1 == 0 then 1 else add32 g 1

unfoldable pub fill : HandleTable → ℕ → HandleKind → ℕ → HandleTable
fill t index kind ptr = record {
  slots =
      put t.slots index (record {
        ptr = ptr;
        generation = next_generation (t.slots index).generation;
        kind = kind;
      });
  next_index = (index + 1) % max_handles;
}

-- The handle, 0 for none, and the table behind the call.
unfoldable pub register_ptr : HandleTable → HandleKind → ℕ → ℕ × HandleTable
unfolding fill next_generation
register_ptr t kind ptr =
    if ptr == 0 || kind == Kind.invalid
    then (0, t)
    else elim (find_free t.slots t.next_index max_handles 0) [
      | none ↦ (0, t)
      | some index ↦ (
        make_handle kind index (next_generation (t.slots index).generation),
        fill t index kind ptr,
      )
    ]

unfoldable pub unregister_handle : HandleTable → ℕ → HandleKind → HandleTable
unregister_handle t h expected =
    if h == 0 || expected == Kind.invalid
    then t
    else if leb max_handles (handle_index h)
    then t
    else if handle_generation h == 0
    then t
    else let slot = t.slots (handle_index h) in
      if slot.ptr == 0
      then t
      else if not (slot.kind == expected) || not (slot.generation == handle_generation h)
      then t
      else record t {
        slots =
            put t.slots (handle_index h)
              (record { ptr = 0; generation = slot.generation; kind = Kind.invalid });
      }

unfoldable pub lookup : HandleTable → ℕ → HandleKind → ℕ
lookup t h expected =
    if h == 0 || expected == Kind.invalid
    then 0
    else if not (handle_kind h == expected)
    then 0
    else if leb max_handles (handle_index h)
    then 0
    else if handle_generation h == 0
    then 0
    else let slot = t.slots (handle_index h) in
      if slot.ptr == 0
      then 0
      else if not (slot.kind == expected) || not (slot.generation == handle_generation h)
      then 0
      else slot.ptr

pub is_valid : HandleTable → ℕ → Bool
is_valid t h =
    if handle_kind h == Kind.invalid then false else not (lookup t h (handle_kind h) == 0)
