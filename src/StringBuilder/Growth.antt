-- ===== src/StringBuilder/Growth.antt =====
-- The block behind a full builder of src/utils/string_builder.hpp.
use astral_runtime.Base.{
  ℕ, zero, suc, ◌+◌, ◌-◌, ◌*◌, ◌/◌, ◌^◌, ◌≤◌, ◌<◌, ◌≡◌, refl, ap, ◌⊎◌, inl, inr, arith, Bool-cases,
  false, Option, none, some, ltb, leb, u32_mod, u64_mod, Option-cases,
}
use native.Mathlib.Nat.{pow-suc}
use astral_runtime.StringBuilder.{StringBuilder, doubled, moved, grow_for}

-- A capacity after so many rounds at most: what is asked for fits, and it is a number of 32 bits.
doubled-bounds :
    (rounds c required : ℕ)
    → c < u32_mod
    → required < u32_mod
    → required ≤ c * 2 ^ rounds
    → (c ≤ doubled rounds c required)
      × (required ≤ doubled rounds c required)
      × (doubled rounds c required < u32_mod)
unfolding doubled
doubled-bounds zero c required small fits enough = (omega arith, omega arith, omega arith)
doubled-bounds (suc rounds) c required small fits enough = elim (Bool-cases (ltb c required)) [
  | inr done ↦ rw done (omega arith, ground arith, small)
  | inl more ↦ rw more (elim (Bool-cases (ltb ((u32_mod - 1) / 2) c)) [
    | inl large ↦ rw large (ground arith, omega arith, fits)
    | inr half ↦ rw half (
        let next =
          doubled-bounds rounds (c * 2) required (ground arith) fits (omega (arith, twice)) in
        (omega (arith, next.0), next.1, next.2))
  ])
]
  where
    twice : c * 2 * 2 ^ rounds ≡ c * 2 ^ suc rounds
    twice = omega (arith, ap (λ t. c * t) (pow-suc 2 rounds))

pub doubled_enough :
    (c required : ℕ)
    → 0 < c
    → c < u32_mod
    → required < u32_mod
    → (c ≤ doubled 32 c required)
      × (required ≤ doubled 32 c required)
      × (doubled 32 c required < u32_mod)
doubled_enough c required some_room small fits =
    doubled-bounds 32 c required small fits (omega arith)

leb_small : (n : ℕ) → n < u32_mod → leb (u64_mod - 1) n ≡ false
leb_small n small = ground arith

-- Growth fails for a length of more than 32 bits and for want of memory only; otherwise the builder is the
-- same in a block with room for the rest.
pub record IsGrown (allocate : ℕ → Option (ℕ → ℕ)) (b : StringBuilder) (additional : ℕ)
    (b' : StringBuilder) : Type 0 where
  pub room : b.length_ + additional ≤ b'.capacity
  pub small : b'.capacity < u32_mod
  pub next : ℕ → ℕ
  pub same : b' ≡ moved b b'.capacity next

pub grow_for-cases :
    (allocate : ℕ → Option (ℕ → ℕ)) (b : StringBuilder) (additional : ℕ)
    → 0 < b.capacity
    → b.capacity < u32_mod
    → ((grow_for allocate b additional ≡ none)
        × (b.length_ + additional < u32_mod → (n : ℕ) × (allocate n ≡ none)))
      ⊎ ((b' : StringBuilder) × (grow_for allocate b additional ≡ some b')
          × IsGrown allocate b additional b')
unfolding grow_for moved
grow_for-cases allocate b additional some_room small =
    elim (Bool-cases (ltb (u32_mod - 1) (b.length_ + additional))) [
      | inl large ↦ inl (rw large refl, λ lt. absurd (ground arith))
      | inr fits ↦
          let grown =
            doubled_enough b.capacity (b.length_ + additional) some_room small (ground arith) in
          let within : leb (u64_mod - 1) (doubled 32 b.capacity (b.length_ + additional)) ≡ false =
            leb_small _ (grown.2) in
          elim (Option-cases (allocate (doubled 32 b.capacity (b.length_ + additional) + 1))) [
            | inl null ↦ inl (rw (fits, within, null) refl, λ lt. (_, null))
            | inr (next, block) ↦ inr (
              _,
              rw (fits, within, block) refl,
              record { room = grown.1; small = grown.2; next = next; same = refl },
            )
          ]
    ]
