-- ===== src/KeyTable/Places.antt =====
-- The cells that the searches of src/inference/memory_index.cpp visit.
use astral_runtime.Base.{
  ℕ, zero, suc, ◌<◌, ◌≡◌, ◌≢◌, refl, ◌⊎◌, inl, inr, arith, true, false, Bool-cases, none, some,
  ◌==◌,
}
use astral_runtime.KeyTable.{
  MemoryIndex, key_table_empty, key_table_tombstone, key_ref_to_slot, following_pos, names_key,
  find_rounds, insert_place,
}

-- The cell after so many steps.
unfoldable pub walk : MemoryIndex → ℕ → ℕ → ℕ
walk index table_pos zero = table_pos
walk index table_pos (suc d) = walk index (following_pos index table_pos) d

-- No cell before the step `d` is empty.
abbrev pub NoGap : MemoryIndex → ℕ → ℕ → Type 0
NoGap index table_pos d =
    (e : ℕ) → e < d → index.key_table (walk index table_pos e) ≢ key_table_empty

NoGap-next :
    (index : MemoryIndex) (table_pos d : ℕ)
    → NoGap index table_pos (suc d)
    → NoGap index (following_pos index table_pos) d
unfolding walk
NoGap-next index table_pos d whole e lt = whole (suc e) (omega arith)

pub NoGap-suc :
    (index : MemoryIndex) (table_pos d : ℕ)
    → index.key_table table_pos ≢ key_table_empty
    → NoGap index (following_pos index table_pos) d
    → NoGap index table_pos (suc d)
unfolding walk
NoGap-suc index table_pos d full rest zero lt = full
NoGap-suc index table_pos d full rest (suc e) lt = rest e (omega arith)

-- A search answers with a slot that has the key.
pub find_rounds_sound :
    (index : MemoryIndex) (key probes table_pos slot : ℕ)
    → find_rounds index key probes table_pos ≡ some slot
    → ((index.slots slot).occupied ≡ true) × ((index.slots slot).key ≡ key)
unfolding find_rounds names_key
find_rounds_sound index key zero table_pos slot found = absurd (ground arith)
find_rounds_sound index key (suc probes) table_pos slot found =
    ground (arith, find_rounds_sound index key probes (following_pos index table_pos) slot)

-- And with some slot, if a cell that names the key is reached with no gap.
pub find_rounds_complete :
    (index : MemoryIndex) (key probes table_pos d : ℕ)
    → d < probes
    → NoGap index table_pos d
    → index.key_table (walk index table_pos d) ≢ key_table_empty
    → names_key index (index.key_table (walk index table_pos d)) key ≡ true
    → (slot : ℕ) × (find_rounds index key probes table_pos ≡ some slot)
unfolding find_rounds walk
find_rounds_complete index key zero table_pos d lt whole full names = absurd (omega arith)
find_rounds_complete index key (suc probes) table_pos zero lt whole full names =
    let test : index.key_table table_pos == 0 ≡ false = ground arith in
    (key_ref_to_slot (index.key_table table_pos), rw (test, names) refl)
find_rounds_complete index key (suc probes) table_pos (suc d) lt whole full names =
    let first = whole 0 (omega arith) in
    let test : index.key_table table_pos == 0 ≡ false = ground arith in
    elim (Bool-cases (names_key index (index.key_table table_pos) key)) [
      | inl here ↦ (key_ref_to_slot (index.key_table table_pos), rw (test, here) refl)
      | inr later ↦
          let (slot, found) =
            find_rounds_complete index key probes (following_pos index table_pos) d (omega arith)
              (NoGap-next index table_pos d whole) full names in
          (slot, rw (test, later) found)
    ]

-- A tombstone that was seen is taken.
insert_place_seen :
    (index : MemoryIndex) (probes table_pos pos : ℕ)
    → insert_place index probes table_pos (some pos) ≡ some pos
unfolding insert_place
insert_place_seen index zero table_pos pos = refl
insert_place_seen index (suc probes) table_pos pos =
    ground (arith, insert_place_seen index probes (following_pos index table_pos) pos)

abbrev pub IsFree : MemoryIndex → ℕ → Type 0
IsFree index pos =
    (index.key_table pos ≡ key_table_empty) ⊎ (index.key_table pos ≡ key_table_tombstone)

later_free :
    (index : MemoryIndex) (probes table_pos : ℕ)
    → index.key_table table_pos == 0 ≡ false
    → index.key_table table_pos == 0xFFFF_FFFF ≡ false
    → ((d : ℕ) → d < probes → IsFree index (walk index (following_pos index table_pos) d) → ⊥)
    → (d : ℕ) → d < suc probes
    → IsFree index (walk index table_pos d)
    → ⊥
unfolding walk
later_free index probes table_pos full taken later zero lt vacant = ground arith
later_free index probes table_pos full taken later (suc d) lt vacant = later d (omega arith) vacant

-- An insertion writes the first cell that is free.
pub insert_place-cases :
    (index : MemoryIndex) (probes table_pos : ℕ)
    → ((insert_place index probes table_pos none ≡ none)
        × ((d : ℕ) → d < probes → IsFree index (walk index table_pos d) → ⊥))
      ⊎ ((d : ℕ) × (d < probes)
          × (insert_place index probes table_pos none ≡ some (walk index table_pos d))
          × IsFree index (walk index table_pos d)
          × NoGap index table_pos d)
unfolding insert_place walk
insert_place-cases index zero table_pos = inl (refl, λ d lt. absurd (omega arith))
insert_place-cases index (suc probes) table_pos =
    elim (Bool-cases (index.key_table table_pos == 0)) [
      | inl gap ↦
          inr (0, omega arith, rw gap refl, inl (ground arith), λ e lt. absurd (omega arith))
      | inr full ↦ elim (Bool-cases (index.key_table table_pos == 0xFFFF_FFFF)) [
        | inl tombstone ↦ inr (
          0,
          omega arith,
          rw (full, tombstone)
              (insert_place_seen index probes (following_pos index table_pos) table_pos),
          inr (ground arith),
          λ e lt. absurd (omega arith),
        )
        | inr taken ↦ elim (insert_place-cases index probes (following_pos index table_pos)) [
          | inl (nowhere, none_free) ↦
              inl (rw (full, taken) nowhere, later_free index probes table_pos full taken none_free)
          | inr (d, lt, place, vacant, whole) ↦ inr (
            suc d,
            omega arith,
            rw (full, taken) place,
            vacant,
            NoGap-suc index table_pos d (ground arith) whole,
          )
        ]
      ]
    ]
