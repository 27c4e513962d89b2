-- ===== src/KeyTable/Tests.antt =====
-- The key table of src/inference/memory_index.cpp on concrete keys; the key 5 starts at the first cell.
use astral_runtime.Base.{
  ℕ, ◌<◌, ◌≡◌, ◌≢◌, refl, sym, ◌∙◌, ◌⊎◌, inl, inr, arith, true, Bool-cases, none, some, ◌==◌,
  if◌then◌else◌, ◌≤◌, ◌^◌,
}
use astral_runtime.KeyTable.{
  key_table_capacity_for, MemoryIndex, MemorySlot, key_table_tombstone, key_hash_mix, first_pos,
  names_key, find_rounds, find_slot_by_key, find_slot_by_key_hashed, key_table_insert_new_hashed,
  key_table_remove, set_slot, vacant,
}
use astral_runtime.KeyTable.Capacity.{key_table_capacity_for-ends}
use astral_runtime.KeyTable.Places.{walk, IsFree}
use astral_runtime.KeyTable.Cover.{IsSized}
use astral_runtime.KeyTable.Indexed.{Holds, IsPlaced, IsIndexed}
use astral_runtime.KeyTable.Changes.{
  key_table_insert_new_hashed-IsIndexed, key_table_remove-IsIndexed,
}

abbrev no_keys : MemoryIndex
no_keys = record {
  key_table = λ _. 0;
  key_table_capacity = 4;
  key_table_mask = 3;
  slots = λ _. vacant;
}

abbrev five : MemorySlot
five = record { occupied = true; key = 5 }

-- A tombstone stands where the search for the key starts.
abbrev one_key : MemoryIndex
one_key = record {
  key_table = λ i. if i == 0 then key_table_tombstone else if i == 1 then 1 else 0;
  key_table_capacity = 4;
  key_table_mask = 3;
  slots = λ i. if i == 0 then five else vacant;
}

no_keys-IsIndexed : IsIndexed no_keys
no_keys-IsIndexed = record {
  small = λ slot occupied. absurd (ground (arith, occupied));
  distinct = λ slot other key has _. absurd (ground (arith, has.0));
  placed = λ slot key has. absurd (ground (arith, has.0));
}

no_keys-IsSized : IsSized no_keys
no_keys-IsSized = record { bits = 2; word = omega arith; capacity = refl; mask = refl }

only_slot : (slot key : ℕ) → Holds one_key slot key → (slot ≡ 0) × (key ≡ 5)
only_slot slot key (occupied, named) = elim (Bool-cases (slot == 0)) [
  | inl first ↦ (ground (arith, first), sym named ∙ rw first refl)
  | inr later ↦ absurd (ground (arith, rw later at occupied))
]

five-IsPlaced : IsPlaced one_key 0 5
unfolding walk first_pos key_hash_mix
five-IsPlaced = (1, omega arith, (λ e lt same. ground arith), refl)

one_key-IsIndexed : IsIndexed one_key
one_key-IsIndexed = record {
  small =
      λ slot occupied. ground (arith, (only_slot slot (one_key.slots slot).key (occupied, refl)).0);
  distinct =
      λ slot other key has have. (only_slot slot key has).0 ∙ sym (only_slot other key have).0;
  placed =
      λ slot key has. rw ((only_slot slot key has).0, (only_slot slot key has).1) five-IsPlaced;
}

no_five : find_slot_by_key no_keys 5 ≡ none
unfolding find_slot_by_key find_slot_by_key_hashed find_rounds first_pos key_hash_mix
no_five = refl

some_five : find_slot_by_key one_key 5 ≡ some 0
unfolding find_slot_by_key find_slot_by_key_hashed find_rounds first_pos key_hash_mix names_key
some_five = refl

key_table_insert_new_hashed-IsIndexed_example :
    ((key_table_insert_new_hashed no_keys (key_hash_mix 5) 2 ≡ none)
      × ((pos : ℕ) → pos < 4 → IsFree no_keys pos → ⊥))
    ⊎ ((after : MemoryIndex) × (key_table_insert_new_hashed no_keys (key_hash_mix 5) 2 ≡ some after)
        × IsIndexed (set_slot after 2 five)
        × (find_slot_by_key (set_slot after 2 five) 5 ≡ some 2)
        × ((other : ℕ)
            → other ≢ 5
            → find_slot_by_key (set_slot after 2 five) other ≡ find_slot_by_key no_keys other))
key_table_insert_new_hashed-IsIndexed_example =
    key_table_insert_new_hashed-IsIndexed no_keys 5 2 no_keys-IsIndexed no_keys-IsSized refl
      (omega arith) no_five

key_table_remove-IsIndexed_example :
    IsIndexed (set_slot (key_table_remove one_key 5) 0 vacant)
    × (find_slot_by_key (set_slot (key_table_remove one_key 5) 0 vacant) 5 ≡ none)
    × ((other : ℕ)
        → other ≢ 5
        → find_slot_by_key (set_slot (key_table_remove one_key 5) 0 vacant) other
          ≡ find_slot_by_key one_key other)
key_table_remove-IsIndexed_example =
    key_table_remove-IsIndexed one_key 5 0 one_key-IsIndexed some_five

key_table_capacity_for-ends_example :
    (100 ≤ 2 ^ 30
      → (k : ℕ) × (key_table_capacity_for 32 100 ≡ some (2 ^ k))
        × (4 ≤ 2 ^ k)
        × (200 ≤ 2 ^ k)
        × ((2 ^ k ≡ 4) ⊎ (2 ^ k < 400)))
    × (2 ^ 30 < 100 → (rounds : ℕ) → key_table_capacity_for rounds 100 ≡ none)
key_table_capacity_for-ends_example = key_table_capacity_for-ends 100 (omega arith) (omega arith)
