-- ===== src/StringBuilder.antt =====
-- The builder of strings, src/utils/string_builder.hpp: a buffer inside the object, and behind it a block of
-- the template's allocator, which is an argument here: what the memory of a new block of so many bytes
-- holds, or `none` for null.
pub mod Growth
pub mod Copied
pub mod Appended
pub mod Decimal
pub mod Signed
mod Tests
use astral_runtime.Base.{
  ℕ, zero, suc, ◌+◌, ◌-◌, ◌*◌, ◌/◌, min, Bool, true, false, Option, none, some, List, [], ◌∷◌,
  length, get_or, ltb, leb, ◌==◌, if◌then◌else◌, add32, sub32, sub64, u32_mod, u64_mod,
}
use astral_runtime.Spsc.{memcpy}
use astral_runtime.Spsc.Cells.{tabulate}

pub data StringOverflowPolicy : Type 0 where
  spill truncate : StringOverflowPolicy

pub record StringBuilder : Type 0 where
  pub buffer : ℕ → ℕ
  pub capacity : ℕ
  pub length_ : ℕ
  pub spilled : Bool
  pub truncated : Bool

-- What a byte store leaves in the buffer.
unfoldable pub put : (ℕ → ℕ) → ℕ → ℕ → ℕ → ℕ
put buffer at byte i = if i == at then byte else buffer i

unfoldable pub new : ℕ → (ℕ → ℕ) → StringBuilder
new inline_capacity storage = record {
  buffer = put storage 0 0;
  capacity = inline_capacity;
  length_ = 0;
  spilled = false;
  truncated = false;
}

unfoldable pub bytes_of : List ℕ → ℕ → ℕ
bytes_of text i = get_or text i 0

-- `size` bytes behind the others, and the terminator.
unfoldable pub copy_append : StringBuilder → (ℕ → ℕ) → ℕ → StringBuilder
copy_append b src size = record b {
  buffer = put (memcpy b.buffer b.length_ src 0 size) (add32 b.length_ size) 0;
  length_ = add32 b.length_ size;
}

-- The loop that doubles the capacity. 32 rounds are enough for a capacity that is not 0.
unfoldable pub doubled : ℕ → ℕ → ℕ → ℕ
doubled zero new_capacity required = new_capacity
doubled (suc rounds) new_capacity required =
    let rest = doubled rounds (new_capacity * 2) required in
    if ltb new_capacity required
    then if ltb ((u32_mod - 1) / 2) new_capacity then required else rest
    else new_capacity

unfoldable pub moved : StringBuilder → ℕ → (ℕ → ℕ) → StringBuilder
moved b new_capacity next = record b {
  buffer = memcpy next 0 b.buffer 0 (b.length_ + 1);
  capacity = new_capacity;
  spilled = true;
}

-- The 64-bit sum of two lengths of 32 bits does not wrap, and no capacity of 32 bits is a `size_t`'s largest.
unfoldable pub grow_for : (ℕ → Option (ℕ → ℕ)) → StringBuilder → ℕ → Option StringBuilder
grow_for allocate b additional =
    let required = b.length_ + additional in
    let new_capacity = doubled 32 b.capacity required in
    if ltb (u32_mod - 1) required
    then none
    else if leb (u64_mod - 1) new_capacity
    then none
    else elim (allocate (new_capacity + 1)) [
      | none ↦ none
      | some next ↦ some (moved b new_capacity next)
    ]

-- As many bytes as there is room for.
unfoldable pub cut : StringBuilder → List ℕ → StringBuilder
cut b text =
    record (copy_append b (bytes_of text) (min (length text) (sub32 b.capacity b.length_))) {
      truncated = true;
    }

unfoldable pub overflow :
    StringOverflowPolicy → (ℕ → Option (ℕ → ℕ)) → StringBuilder → List ℕ → Bool × StringBuilder
overflow StringOverflowPolicy.spill allocate b text = elim (grow_for allocate b (length text)) [
  | some b' ↦ (true, copy_append b' (bytes_of text) (length text))
  | none ↦ (false, cut b text)
]
overflow StringOverflowPolicy.truncate allocate b text = (false, cut b text)

unfoldable pub append :
    StringOverflowPolicy → (ℕ → Option (ℕ → ℕ)) → StringBuilder → List ℕ → Bool × StringBuilder
append policy allocate b text =
    if length text == 0
    then (true, b)
    else if leb (length text) (sub32 b.capacity b.length_)
    then (true, copy_append b (bytes_of text) (length text))
    else overflow policy allocate b text

unfoldable pub append_char :
    StringOverflowPolicy → (ℕ → Option (ℕ → ℕ)) → StringBuilder → ℕ → Bool × StringBuilder
append_char policy allocate b value = append policy allocate b (value ∷ [])

-- The digits of a number, written from the end of an array to the front: `none` is a write in front of it.
unfoldable pub digits : ℕ → ℕ → List ℕ → Option (List ℕ)
digits zero value text = none
digits (suc room) value text =
    let longer = (b'0' + (value - value / 10 * 10)) ∷ text in
    let rest = digits room (value / 10) longer in if value / 10 == 0 then some longer else rest

-- The arrays of the unsigned and the signed formats, for numbers of 64 bits (`wide`) and of 32.
abbrev pub unsigned_room : Bool → ℕ
unsigned_room wide = if wide then 20 else 10

abbrev pub modulus : Bool → ℕ
modulus wide = if wide then u64_mod else u32_mod

unfoldable pub append_unsigned :
    StringOverflowPolicy
    → (ℕ → Option (ℕ → ℕ))
    → StringBuilder
    → Bool
    → ℕ
    → Option (Bool × StringBuilder)
append_unsigned policy allocate b wide value = elim (digits (unsigned_room wide) value []) [
  | none ↦ none
  | some text ↦ some (append policy allocate b text)
]

-- The sign of a number in two's complement.
abbrev pub negative : Bool → ℕ → Bool
negative wide value = leb (modulus wide / 2) value

unfoldable pub magnitude : Bool → ℕ → ℕ
magnitude wide value = if negative wide value then modulus wide - value else value

-- One byte in front, if the array has it.
unfoldable pub signed_text : Bool → ℕ → Option (List ℕ)
signed_text wide value = elim (digits (unsigned_room wide + 1) (magnitude wide value) []) [
  | none ↦ none
  | some text ↦
      if negative wide value
      then if ltb (length text) (unsigned_room wide + 1) then some (b'-' ∷ text) else none
      else some text
]

unfoldable pub append_signed :
    StringOverflowPolicy
    → (ℕ → Option (ℕ → ℕ))
    → StringBuilder
    → Bool
    → ℕ
    → Option (Bool × StringBuilder)
append_signed policy allocate b wide value = elim (signed_text wide value) [
  | none ↦ none
  | some text ↦ some (append policy allocate b text)
]

-- `std::to_chars` is an argument.
unfoldable pub append_f32 :
    {F : Type 0}
    → (F → ℕ → Option (List ℕ))
    → StringOverflowPolicy
    → (ℕ → Option (ℕ → ℕ))
    → StringBuilder
    → F
    → ℕ
    → Bool × StringBuilder
append_f32 to_chars policy allocate b value decimals =
    if ltb 9 decimals then (false, b) else elim (to_chars value decimals) [
      | none ↦ (false, b)
      | some text ↦ append policy allocate b text
    ]

unfoldable pub reset : StringBuilder → StringBuilder
reset b = record b { length_ = 0; truncated = false; buffer = put b.buffer 0 0 }

-- `freeze`: the bytes of the span.
unfoldable pub freeze : StringBuilder → List ℕ
freeze b = tabulate b.buffer b.length_

abbrev pub empty : StringBuilder → Bool
empty b = b.length_ == 0
