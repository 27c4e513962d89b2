-- ===== src/KeyTable/Indexed.antt =====
-- The key table of src/inference/memory_index.cpp as a map from keys to slots.
use astral_runtime.Base.{
  ℕ, zero, suc, ◌+◌, ◌<◌, ◌≡◌, ◌≢◌, refl, ap, sym, subst, ◌∙◌, ◌⊎◌, inl, inr, arith, true, false,
  Bool-cases, some, Option-cases, ◌==◌,
}
use astral_runtime.KeyTable.{
  MemoryIndex, MemorySlot, key_table_empty, key_table_tombstone, key_ref_to_slot, following_pos,
  key_hash_mix, first_pos, names_key, find_slot_by_key, find_slot_by_key_hashed, write_ref,
  set_slot,
}
use astral_runtime.KeyTable.Places.{walk, NoGap, find_rounds_sound, find_rounds_complete}

abbrev pub start : MemoryIndex → ℕ → ℕ
start index key = first_pos index (key_hash_mix key)

abbrev pub Holds : MemoryIndex → ℕ → ℕ → Type 0
Holds index slot key = ((index.slots slot).occupied ≡ true) × ((index.slots slot).key ≡ key)

-- A cell for the slot is reached from the key with no gap.
abbrev pub IsPlaced : MemoryIndex → ℕ → ℕ → Type 0
IsPlaced index slot key =
    (d : ℕ) × (d < index.key_table_capacity)
    × NoGap index (start index key) d
    × (index.key_table (walk index (start index key) d) ≡ slot + 1)

-- No two occupied slots have one key, and each is placed for its key.
pub record IsIndexed (index : MemoryIndex) : Type 0 where
  pub small : (slot : ℕ) → (index.slots slot).occupied ≡ true → slot + 1 < key_table_tombstone
  pub distinct : (slot other key : ℕ) → Holds index slot key → Holds index other key → slot ≡ other
  pub placed : (slot key : ℕ) → Holds index slot key → IsPlaced index slot key

names_slot :
    (index : MemoryIndex) (slot key : ℕ)
    → slot + 1 < key_table_tombstone
    → Holds index slot key
    → names_key index (slot + 1) key ≡ true
unfolding names_key
names_slot index slot key small (occupied, named) =
    let at : key_ref_to_slot (slot + 1) ≡ slot = omega (arith, small) in
    let whole : (slot + 1 == 0xFFFF_FFFF) ≡ false = ground (arith, small) in
    let test : ((index.slots slot).key == key) ≡ true = ground (arith, named) in
    rw (whole, at, occupied, test) refl

-- In such an index, a search for a key answers with a slot exactly when that slot is occupied under the key.
pub find_slot_by_key-Holds :
    (index : MemoryIndex) (key slot : ℕ)
    → IsIndexed index
    → (find_slot_by_key index key ≡ some slot → Holds index slot key)
      × (Holds index slot key → find_slot_by_key index key ≡ some slot)
unfolding find_slot_by_key find_slot_by_key_hashed
find_slot_by_key-Holds index key slot v = (
  λ found. find_rounds_sound index key index.key_table_capacity (start index key) slot found,
  λ has.
      let (d, lt, whole, there) = v.placed slot key has in
      let (other, found) =
        find_rounds_complete index key index.key_table_capacity (start index key) d lt whole
          (λ e. omega (arith, e, there))
          (rw there (names_slot index slot key (v.small slot has.0) has)) in
      let same =
        v.distinct other slot key
          (find_rounds_sound index key index.key_table_capacity (start index key) other found)
          has in
      found ∙ ap some same,
)

-- An index with a cell and a slot written.
module _ (index : MemoryIndex) (pos ref slot : ℕ) (content : MemorySlot) where
  unfoldable pub written : MemoryIndex
  written = set_slot (write_ref index pos ref) slot content

  walk-written : (table_pos d : ℕ) → walk written table_pos d ≡ walk index table_pos d
  unfolding walk written set_slot write_ref
  walk-written table_pos zero = refl
  walk-written table_pos (suc d) = walk-written (following_pos index table_pos) d

  cell_same : (i : ℕ) → i ≢ pos → written.key_table i ≡ index.key_table i
  unfolding written set_slot write_ref
  cell_same i off = ground arith

  cell_new : (i : ℕ) → i ≡ pos → written.key_table i ≡ ref
  unfolding written set_slot write_ref
  cell_new i at = ground arith

  cell_full :
      (i : ℕ)
      → ref ≢ key_table_empty
      → index.key_table i ≢ key_table_empty
      → written.key_table i ≢ key_table_empty
  cell_full i some_ref full gap = elim (Bool-cases (i == pos)) [
    | inl at ↦ some_ref (sym (cell_new i (ground arith)) ∙ gap)
    | inr off ↦ full (sym (cell_same i (ground arith)) ∙ gap)
  ]

  walk-start : (key d : ℕ) → walk written (start written key) d ≡ walk index (start index key) d
  unfolding first_pos written set_slot write_ref
  walk-start key d = walk-written (start index key) d

  capacity_same : written.key_table_capacity ≡ index.key_table_capacity
  unfolding written set_slot write_ref
  capacity_same = refl

  gaps_kept :
      (key d : ℕ)
      → ref ≢ key_table_empty
      → NoGap index (start index key) d
      → NoGap written (start written key) d
  gaps_kept key d some_ref whole e lt gap =
      cell_full (walk index (start index key) e) some_ref (whole e lt)
        (ap written.key_table (sym (walk-start key e)) ∙ gap)

  -- A placed slot stays placed if its cell is not the one written.
  IsPlaced-kept :
      (other key : ℕ)
      → ref ≢ key_table_empty
      → index.key_table pos ≢ other + 1
      → IsPlaced index other key
      → IsPlaced written other key
  IsPlaced-kept other key some_ref off (d, lt, whole, there) = (
    d,
    omega (arith, lt, capacity_same),
    gaps_kept key d some_ref whole,
    ap written.key_table (walk-start key d)
        ∙ cell_same (walk index (start index key) d) (λ e. off (sym (ap index.key_table e) ∙ there))
        ∙ there,
  )

  pub IsPlaced-new :
      (key d : ℕ)
      → d < index.key_table_capacity
      → NoGap index (start index key) d
      → walk index (start index key) d ≡ pos
      → ref ≡ slot + 1
      → IsPlaced written slot key
  IsPlaced-new key d lt whole at is = (
    d,
    omega (arith, lt, capacity_same),
    gaps_kept key d (λ e. omega (arith, e, is)) whole,
    ap written.key_table (walk-start key d) ∙ cell_new (walk index (start index key) d) at ∙ is,
  )

  pub Holds-other : (other key : ℕ) → other ≢ slot → Holds written other key → Holds index other key
  unfolding written set_slot write_ref
  Holds-other other key off has = ground arith

  pub Holds-slot :
      (key : ℕ) → Holds written slot key → (content.occupied ≡ true) × (content.key ≡ key)
  unfolding written set_slot write_ref
  Holds-slot key has = ground arith

  Holds-still : (other key : ℕ) → other ≢ slot → Holds index other key → Holds written other key
  unfolding written set_slot write_ref
  Holds-still other key off has = ground arith

  pub Holds-new : (key : ℕ) → content.occupied ≡ true → content.key ≡ key → Holds written slot key
  unfolding written set_slot write_ref
  Holds-new key occupied named = ground arith

  -- A slot occupied afterwards is the one written or one from before.
  new_or_old :
      (other key : ℕ)
      → Holds written other key
      → ((other ≡ slot) × (content.occupied ≡ true) × (content.key ≡ key))
        ⊎ ((other ≢ slot) × Holds index other key)
  new_or_old other key has = elim (Bool-cases (other == slot)) [
    | inl is ↦
        let same : other ≡ slot = ground arith in
        let (occupied, named) = Holds-slot key (subst (λ s. Holds written s key) same has) in
        inl (same, occupied, named)
    | inr away ↦ let off : other ≢ slot = ground arith in inr (off, Holds-other other key off has)
  ]

  -- The index stays one, if the slots that stay are not those of the cell, and the new one is placed.
  pub written-IsIndexed :
      IsIndexed index
      → ref ≢ key_table_empty
      → ((other key : ℕ) → other ≢ slot → Holds index other key → index.key_table pos ≢ other + 1)
      → (content.occupied ≡ true
          → (slot + 1 < key_table_tombstone)
            × IsPlaced written slot content.key
            × ((other : ℕ) → other ≢ slot → Holds index other content.key → ⊥))
      → IsIndexed written
  written-IsIndexed v some_ref away new = record {
    small = λ other has. elim (new_or_old other (written.slots other).key (has, refl)) [
      | inl (same, occupied, named) ↦ omega (arith, same, (new occupied).0)
      | inr (off, old) ↦ v.small other old.0
    ];
    distinct = λ one other key has has'. elim (new_or_old one key has) [
      | inl (same, occupied, named) ↦ elim (new_or_old other key has') [
        | inl (same', occupied', named') ↦ same ∙ sym same'
        | inr (off, old) ↦
            absurd ((new occupied).2 other off (subst (Holds index other) (sym named) old))
      ]
      | inr (off, old) ↦ elim (new_or_old other key has') [
        | inl (same', occupied', named') ↦
            absurd ((new occupied').2 one off (subst (Holds index one) (sym named') old))
        | inr (off', old') ↦ v.distinct one other key old old'
      ]
    ];
    placed = λ other key has. elim (new_or_old other key has) [
      | inl (same, occupied, named) ↦
          subst (λ o. IsPlaced written o key) (sym same)
            (subst (IsPlaced written slot) named (new occupied).1)
      | inr (off, old) ↦
          IsPlaced-kept other key some_ref (away other key off old) (v.placed other key old)
    ];
  }

  -- A key of a slot that stays is found as before.
  pub find-written :
      (key : ℕ)
      → IsIndexed index
      → IsIndexed written
      → (Holds index slot key → ⊥)
      → (Holds written slot key → ⊥)
      → find_slot_by_key written key ≡ find_slot_by_key index key
  find-written key v w before after = elim (Option-cases (find_slot_by_key index key)) [
    | inr (other, found) ↦
        let has = (find_slot_by_key-Holds index key other v).0 found in
        let off : other ≢ slot = λ e. before (subst (λ o. Holds index o key) e has) in
        (find_slot_by_key-Holds written key other w).1 (Holds-still other key off has) ∙ sym found
    | inl missing ↦ elim (Option-cases (find_slot_by_key written key)) [
      | inl missing' ↦ missing' ∙ sym missing
      | inr (other, found) ↦
          let has = (find_slot_by_key-Holds written key other w).0 found in
          let off : other ≢ slot = λ e. after (subst (λ o. Holds written o key) e has) in
          absurd (
            ground (
              arith,
              missing,
              (find_slot_by_key-Holds index key other v).1 (Holds-other other key off has),
            ))
    ]
  ]
