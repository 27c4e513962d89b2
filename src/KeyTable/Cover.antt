-- ===== src/KeyTable/Cover.antt =====
-- The searches of src/inference/memory_index.cpp visit every cell of a table whose size is a power of two.
use astral_runtime.Base.{
  ℕ, zero, suc, ◌+◌, ◌-◌, ◌%◌, ◌^◌, ◌≤◌, ◌<◌, ◌≡◌, refl, ap, ◌∙◌, inl, inr, arith, Bool-cases, ltb,
  bit_and, add32, u32_mod, bit_and_mask, two_pow_positive,
}
use native.Mathlib.Nat.{pow-le-pow_right, mod-lt, mod-eq_of_lt, mod_self}
use astral_runtime.KeyTable.{MemoryIndex, following_pos, first_pos}
use astral_runtime.KeyTable.Places.{walk}

-- The size is a power of two, as `key_table_capacity_for` chooses it, and the mask is one less.
pub record IsSized (index : MemoryIndex) : Type 0 where
  pub bits : ℕ
  pub word : bits ≤ 31
  pub capacity : index.key_table_capacity ≡ 2 ^ bits
  pub mask : index.key_table_mask ≡ 2 ^ bits - 1

module _ (index : MemoryIndex) (v : IsSized index) where
  small : 2 ^ v.bits ≤ 2 ^ 31
  small = pow-le-pow_right (omega arith) v.word

  next_cell : (p : ℕ) → p < 2 ^ v.bits → following_pos index p ≡ (p + 1) % 2 ^ v.bits
  next_cell p lt =
      let whole : add32 p 1 ≡ p + 1 = omega (arith, lt, small) in
      ap (bit_and (add32 p 1)) v.mask
      ∙ bit_and_mask v.bits (add32 p 1)
      ∙ ap (λ a. a % 2 ^ v.bits) whole

  further : (p : ℕ) → p + 1 < 2 ^ v.bits → following_pos index p ≡ p + 1
  further p lt = next_cell p (omega (arith, lt)) ∙ mod-eq_of_lt lt

  around : (p : ℕ) → p + 1 ≡ 2 ^ v.bits → following_pos index p ≡ 0
  around p last =
      next_cell p (omega (arith, last)) ∙ ap (λ a. a % 2 ^ v.bits) last ∙ mod_self (2 ^ v.bits)

  forward : (d p : ℕ) → p + d < 2 ^ v.bits → walk index p d ≡ p + d
  unfolding walk
  forward zero p lt = omega arith
  forward (suc d) p lt =
      rw (further p (omega (arith, lt))) (forward d (p + 1) (omega (arith, lt)) ∙ omega arith)

  walk-next : (p d : ℕ) → walk index p (suc d) ≡ walk index (following_pos index p) d
  unfolding walk
  walk-next p d = refl

  wrapped :
      (k p cell : ℕ)
      → p + suc k ≡ 2 ^ v.bits
      → cell < 2 ^ v.bits
      → walk index p (suc (k + cell)) ≡ cell
  wrapped zero p cell last lt =
      walk-next p (0 + cell)
      ∙ ap (λ q. walk index q (0 + cell)) (around p last)
      ∙ forward (0 + cell) 0 (omega (arith, lt))
      ∙ omega arith
  wrapped (suc k) p cell last lt =
      walk-next p (suc k + cell)
      ∙ ap (λ q. walk index q (suc k + cell)) (further p (omega (arith, last)))
      ∙ ap (walk index (p + 1)) shift
      ∙ wrapped k (p + 1) cell (omega (arith, last)) lt
    where
      shift : suc k + cell ≡ suc (k + cell)
      shift = omega arith

  reach :
      (p cell : ℕ)
      → p < 2 ^ v.bits
      → cell < 2 ^ v.bits
      → (d : ℕ) × (d < 2 ^ v.bits) × (walk index p d ≡ cell)
  reach p cell from to = elim (Bool-cases (ltb cell p)) [
    | inr ahead ↦ (
      cell - p,
      ground (arith, ahead, to),
      forward (cell - p) p (ground (arith, ahead, to)) ∙ ground (arith, ahead),
    )
    | inl behind ↦
        let k = 2 ^ v.bits - p - 1 in
        (suc (k + cell), ground (arith, behind, from), wrapped k p cell (omega (arith, from)) to)
  ]

  -- From the cell where any hash starts, every cell is visited within as many rounds as there are cells.
  pub walk-reach :
      (hash cell : ℕ)
      → cell < index.key_table_capacity
      → (d : ℕ) × (d < index.key_table_capacity) × (walk index (first_pos index hash) d ≡ cell)
  unfolding first_pos
  walk-reach hash cell lt =
      let from : first_pos index hash ≡ hash % u32_mod % 2 ^ v.bits =
        ap (bit_and (hash % u32_mod)) v.mask ∙ bit_and_mask v.bits (hash % u32_mod) in
      let (d, within, there) =
        reach (first_pos index hash) cell
          (omega (arith, from, mod-lt (hash % u32_mod) (two_pow_positive v.bits)))
          (omega (arith, lt, v.capacity)) in
      (d, omega (arith, within, v.capacity), there)
