-- ===== src/KeyTable.antt =====
-- The table from keys to slots of the memory index, src/inference/memory_index.cpp: open addressing, where a removed
-- key leaves a tombstone.
pub mod Capacity
pub mod Places
pub mod Cover
pub mod Indexed
pub mod Changes
mod Tests
use astral_runtime.Base.{
  ℕ, zero, suc, ◌+◌, ◌-◌, ◌*◌, ◌/◌, ◌%◌, ◌^◌, Bool, true, false, not, ◌&&◌, ◌||◌, Option, none,
  some, bit_and, bit_xor, ◌==◌, if◌then◌else◌, ltb, add32, sub32, u32_mod, u64_mod,
}

-- The fields of `MemorySlot` that the table reads.
pub record MemorySlot : Type 0 where
  pub occupied : Bool
  pub key : ℕ

pub record MemoryIndex : Type 0 where
  pub key_table : ℕ → ℕ
  pub key_table_capacity : ℕ
  pub key_table_mask : ℕ
  pub slots : ℕ → MemorySlot

abbrev pub key_table_empty : ℕ
key_table_empty = 0

abbrev pub key_table_tombstone : ℕ
key_table_tombstone = 0xFFFF_FFFF

abbrev pub slot_to_key_ref : ℕ → ℕ
slot_to_key_ref slot = add32 slot 1

abbrev pub key_ref_to_slot : ℕ → ℕ
key_ref_to_slot ref = sub32 ref 1

unfoldable pub key_hash_mix : ℕ → ℕ
key_hash_mix x =
    let a = bit_xor x (x / 2 ^ 30) in
    let b = a * 0xBF58_476D_1CE4_E5B9 % u64_mod in
    let c = bit_xor b (b / 2 ^ 27) in
    let d = c * 0x94D0_49BB_1331_11EB % u64_mod in bit_xor d (d / 2 ^ 31)

unfoldable pub first_pos : MemoryIndex → ℕ → ℕ
first_pos index hash = bit_and (hash % u32_mod) index.key_table_mask

abbrev pub following_pos : MemoryIndex → ℕ → ℕ
following_pos index table_pos = bit_and (add32 table_pos 1) index.key_table_mask

-- A cell that names an occupied slot with the key.
unfoldable pub names_key : MemoryIndex → ℕ → ℕ → Bool
names_key index ref key =
    not (ref == key_table_tombstone)
    && (index.slots (key_ref_to_slot ref)).occupied
    && (index.slots (key_ref_to_slot ref)).key == key

-- The loop of the search; `kU32Max` is `none`.
unfoldable pub find_rounds : MemoryIndex → ℕ → ℕ → ℕ → Option ℕ
find_rounds index key zero table_pos = none
find_rounds index key (suc probes) table_pos =
    let rest = find_rounds index key probes (following_pos index table_pos) in
    if index.key_table table_pos == key_table_empty
    then none
    else if names_key index (index.key_table table_pos) key
    then some (key_ref_to_slot (index.key_table table_pos))
    else rest

unfoldable pub find_slot_by_key_hashed : MemoryIndex → ℕ → ℕ → Option ℕ
find_slot_by_key_hashed index key hash =
    find_rounds index key index.key_table_capacity (first_pos index hash)

unfoldable pub find_slot_by_key : MemoryIndex → ℕ → Option ℕ
find_slot_by_key index key = find_slot_by_key_hashed index key (key_hash_mix key)

-- The cell that an insertion writes, with the tombstone seen first.
unfoldable pub insert_place : MemoryIndex → ℕ → ℕ → Option ℕ → Option ℕ
insert_place index zero table_pos tombstone_pos = tombstone_pos
insert_place index (suc probes) table_pos tombstone_pos =
    let seen : Option ℕ = elim tombstone_pos [
      | some pos ↦ some pos
      | none ↦ if index.key_table table_pos == key_table_tombstone then some table_pos else none
    ] in
    let rest = insert_place index probes (following_pos index table_pos) seen in
    if index.key_table table_pos == key_table_empty
    then elim tombstone_pos [ some pos ↦ some pos | none ↦ some table_pos ]
    else rest

unfoldable pub write_ref : MemoryIndex → ℕ → ℕ → MemoryIndex
write_ref index pos ref = record index {
  key_table = λ i. if i == pos then ref else index.key_table i;
}

-- `none` is the error, for want of room.
unfoldable pub key_table_insert_new_hashed : MemoryIndex → ℕ → ℕ → Option MemoryIndex
key_table_insert_new_hashed index hash slot =
    elim (insert_place index index.key_table_capacity (first_pos index hash) none) [
      | none ↦ none
      | some pos ↦ some (write_ref index pos (slot_to_key_ref slot))
    ]

unfoldable pub remove_rounds : MemoryIndex → ℕ → ℕ → ℕ → MemoryIndex
remove_rounds index key zero table_pos = index
remove_rounds index key (suc probes) table_pos =
    let rest = remove_rounds index key probes (following_pos index table_pos) in
    if index.key_table table_pos == key_table_empty
    then index
    else if names_key index (index.key_table table_pos) key
    then write_ref index table_pos key_table_tombstone
    else rest

unfoldable pub key_table_remove : MemoryIndex → ℕ → MemoryIndex
key_table_remove index key =
    remove_rounds index key index.key_table_capacity (first_pos index (key_hash_mix key))

-- What the callers store in a slot beside the table.
unfoldable pub set_slot : MemoryIndex → ℕ → MemorySlot → MemoryIndex
set_slot index slot content = record index {
  slots = λ i. if i == slot then content else index.slots i;
}

abbrev pub vacant : MemorySlot
vacant = record { occupied = false; key = 0 }

-- The loop that doubles, which the shift of 32 bits ends at 0; `none` is a loop that has not ended.
unfoldable pub table_doubled : ℕ → ℕ → ℕ → Option ℕ
table_doubled zero target table_capacity = none
table_doubled (suc rounds) target table_capacity =
    let rest = table_doubled rounds target (table_capacity * 2 % u32_mod) in
    if ltb table_capacity target then rest else some table_capacity

unfoldable pub key_table_capacity_for : ℕ → ℕ → Option ℕ
key_table_capacity_for rounds capacity =
    table_doubled rounds (if ltb capacity 2 then 4 else capacity * 2 % u32_mod) 1
