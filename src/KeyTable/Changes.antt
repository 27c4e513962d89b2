-- ===== src/KeyTable/Changes.antt =====
-- An insertion into the key table of src/inference/memory_index.cpp and a removal from it, with what their callers
-- store in the slot.
use astral_runtime.Base.{
  ℕ, zero, suc, ◌+◌, ◌<◌, ◌≡◌, ◌≢◌, refl, sym, subst, ◌∙◌, ◌⊎◌, inl, inr, arith, true, false,
  Bool-cases, none, some, Option-cases, ◌==◌,
}
use astral_runtime.KeyTable.{
  MemoryIndex, MemorySlot, key_table_tombstone, slot_to_key_ref, key_ref_to_slot, following_pos,
  key_hash_mix, names_key, find_rounds, find_slot_by_key, find_slot_by_key_hashed, write_ref,
  key_table_insert_new_hashed, remove_rounds, key_table_remove, set_slot, vacant,
}
use astral_runtime.KeyTable.Places.{walk, IsFree, insert_place-cases}
use astral_runtime.KeyTable.Cover.{IsSized, walk-reach}
use astral_runtime.KeyTable.Indexed.{
  start, Holds, IsIndexed, find_slot_by_key-Holds, written, written-IsIndexed, find-written,
  IsPlaced-new, Holds-new, Holds-slot, Holds-other,
}

-- A key that no slot has, inserted for a slot that is free, in an index where no two slots have one key and each
-- is found, whose table has a power of two of cells, up to 2 ^ 31, and a mask of one less; the slot's number and
-- one are less than a tombstone. No cell of the table is free, and the insertion fails; or, with the key stored
-- in the slot, the index is such a one again, the key is found in the slot, and every other key as before.
pub key_table_insert_new_hashed-IsIndexed :
    (index : MemoryIndex) (key slot : ℕ)
    → IsIndexed index
    → IsSized index
    → (index.slots slot).occupied ≡ false
    → slot + 1 < key_table_tombstone
    → find_slot_by_key index key ≡ none
    → ((key_table_insert_new_hashed index (key_hash_mix key) slot ≡ none)
        × ((pos : ℕ) → pos < index.key_table_capacity → IsFree index pos → ⊥))
      ⊎ ((after : MemoryIndex) × (key_table_insert_new_hashed index (key_hash_mix key) slot
            ≡ some after)
          × IsIndexed (set_slot after slot (record { occupied = true; key = key }))
          × (find_slot_by_key (set_slot after slot (record { occupied = true; key = key })) key
              ≡ some slot)
          × ((other : ℕ)
              → other ≢ key
              → find_slot_by_key (set_slot after slot (record { occupied = true; key = key })) other
                ≡ find_slot_by_key index other))
unfolding key_table_insert_new_hashed written
key_table_insert_new_hashed-IsIndexed index key slot v sized unused small missing =
    elim (insert_place-cases index index.key_table_capacity (start index key)) [
      | inl (nowhere, none_free) ↦ inl (
        rw (key_table_insert_new_hashed, nowhere) refl,
        λ pos lt vacant_there.
            let (d, within, there) = walk-reach index sized (key_hash_mix key) pos lt in
            none_free d within (subst (IsFree index) (sym there) vacant_there),
      )
      | inr (d, lt, place, free, whole) ↦
          let content : MemorySlot = record { occupied = true; key = key } in
          let pos = walk index (start index key) d in
          let ref = slot_to_key_ref slot in
          let is : ref ≡ slot + 1 = omega (arith, small) in
          let absent : (other : ℕ) → Holds index other key → ⊥ = λ other has.
            ground (arith, missing, (find_slot_by_key-Holds index key other v).1 has) in
          let w =
            written-IsIndexed index pos ref slot content v (λ e. omega (arith, e, is))
              (λ other k off has e. ground (arith, free, e, v.small other has.0))
              (λ e. (
                small,
                IsPlaced-new index pos ref slot content key d lt whole refl is,
                λ other off. absent other,
              )) in
          inr (
            write_ref index pos ref,
            rw (key_table_insert_new_hashed, place) refl,
            w,
            (find_slot_by_key-Holds (written index pos ref slot content) key slot w).1
                (Holds-new index pos ref slot content key refl refl),
            λ other off.
                find-written index pos ref slot content other v w
                  (λ has. ground (arith, has.0, unused))
                  (λ has. off (sym (Holds-slot index pos ref slot content other has).1)),
          )
    ]

-- The cell that a removal writes is the one that the search stopped at.
remove_rounds-found :
    (index : MemoryIndex) (key probes table_pos slot : ℕ)
    → find_rounds index key probes table_pos ≡ some slot
    → (pos : ℕ) × (remove_rounds index key probes table_pos
        ≡ write_ref index pos key_table_tombstone)
      × (key_ref_to_slot (index.key_table pos) ≡ slot)
unfolding find_rounds remove_rounds
remove_rounds-found index key zero table_pos slot found = absurd (ground arith)
remove_rounds-found index key (suc probes) table_pos slot found =
    elim (Bool-cases (index.key_table table_pos == 0)) [
      | inl gap ↦ absurd (ground (arith, rw gap at found))
      | inr full ↦ elim (Bool-cases (names_key index (index.key_table table_pos) key)) [
        | inl here ↦ (table_pos, rw (full, here) refl, ground (arith, rw (full, here) at found))
        | inr later ↦
            let (pos, wrote, at) =
              remove_rounds-found index key probes (following_pos index table_pos) slot
                (rw (full, later) at found) in
            (pos, rw (full, later) wrote, at)
      ]
    ]

removed :
    (index : MemoryIndex) (key slot pos : ℕ)
    → IsIndexed index
    → find_slot_by_key index key ≡ some slot
    → key_ref_to_slot (index.key_table pos) ≡ slot
    → IsIndexed (written index pos key_table_tombstone slot vacant)
      × (find_slot_by_key (written index pos key_table_tombstone slot vacant) key ≡ none)
      × ((other : ℕ)
          → other ≢ key
          → find_slot_by_key (written index pos key_table_tombstone slot vacant) other
            ≡ find_slot_by_key index other)
removed index key slot pos v found at =
    let after = written index pos key_table_tombstone slot vacant in
    let has = (find_slot_by_key-Holds index key slot v).0 found in
    let emptied : (k : ℕ) → Holds after slot k → ⊥ =
      λ k now. ground (arith, (Holds-slot index pos key_table_tombstone slot vacant k now).0) in
    let w : IsIndexed after =
      written-IsIndexed index pos key_table_tombstone slot vacant v (λ e. omega (arith, e))
        (λ other k off old e. off (omega (arith, at, e, v.small other old.0)))
        (λ e. absurd (ground arith)) in
    (
      w,
      elim (Option-cases (find_slot_by_key after key)) [
        | inl missing ↦ missing
        | inr (other, again) ↦
            let now = (find_slot_by_key-Holds after key other w).0 again in
            let off : other ≢ slot = λ e. emptied key (subst (λ o. Holds after o key) e now) in
            absurd (
              off (
                v.distinct other slot key
                  (Holds-other index pos key_table_tombstone slot vacant other key off now) has))
      ],
      λ other away.
          find-written index pos key_table_tombstone slot vacant other v w
            (λ old. away (sym old.1 ∙ has.1)) (emptied other),
    )

-- A key that is found, removed from such an index and its slot emptied: the index is such a one again, the key
-- is not found, and every other key as before.
pub key_table_remove-IsIndexed :
    (index : MemoryIndex) (key slot : ℕ)
    → IsIndexed index
    → find_slot_by_key index key ≡ some slot
    → IsIndexed (set_slot (key_table_remove index key) slot vacant)
      × (find_slot_by_key (set_slot (key_table_remove index key) slot vacant) key ≡ none)
      × ((other : ℕ)
          → other ≢ key
          → find_slot_by_key (set_slot (key_table_remove index key) slot vacant) other
            ≡ find_slot_by_key index other)
unfolding key_table_remove written find_slot_by_key find_slot_by_key_hashed
key_table_remove-IsIndexed index key slot v found =
    let (pos, wrote, at) =
      remove_rounds-found index key index.key_table_capacity (start index key) slot found in
    rw wrote (removed index key slot pos v found at)
