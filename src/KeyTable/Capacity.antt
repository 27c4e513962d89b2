-- ===== src/KeyTable/Capacity.antt =====
-- The size of the key table in src/inference/memory_index.cpp.
use astral_runtime.Base.{
  ℕ, zero, suc, ◌+◌, ◌*◌, ◌%◌, ◌^◌, ◌≤◌, ◌<◌, ◌≡◌, refl, ap, ◌∙◌, ◌⊎◌, inl, inr, arith, Bool-cases,
  none, some, ltb, u32_mod, true, false, ◌-◌, ◌/◌,
}
use native.Mathlib.Nat.{pow-suc, pow-le-pow_right}
use astral_runtime.KeyTable.{table_doubled, key_table_capacity_for}

top_power : (n : ℕ) → n ≤ 31 → 2 ^ n ≤ 2 ^ 31
top_power n le = pow-le-pow_right (omega arith) le

last_power : (n : ℕ) → n ≡ 31 → 2 ^ n ≡ 2 ^ 31
last_power n same = ap (λ k. 2 ^ k) same

four : table_doubled 32 4 1 ≡ some 4
unfolding table_doubled
four = refl

-- The power of two that the loop ends with, from one that it meets.
doubled-power :
    (left n target : ℕ)
    → n + left ≡ 31
    → target ≤ 2 ^ 31
    → (k : ℕ) × (table_doubled (suc left) target (2 ^ n) ≡ some (2 ^ k))
      × (target ≤ 2 ^ k)
      × ((k ≡ n) ⊎ (2 ^ k < 2 * target))
unfolding table_doubled
doubled-power zero n target last fits =
    let whole : 2 ^ n ≡ 2 ^ 31 = last_power n (omega (arith, last)) in
    let done : ltb (2 ^ n) target ≡ false = ground (arith, whole, fits) in
    (n, rw done refl, omega (arith, whole, fits), inl refl)
doubled-power (suc left) n target last fits = elim (Bool-cases (ltb (2 ^ n) target)) [
  | inr done ↦ (n, rw done refl, ground (arith, done), inl refl)
  | inl more ↦
      let (k, ends, enough, least) = doubled-power left (suc n) target (omega (arith, last)) fits in
      let twice : 2 ^ n * 2 % u32_mod ≡ 2 ^ suc n =
        omega (arith, pow-suc 2 n, top_power (suc n) (omega (arith, last))) in
      (
        k,
        rw (more, twice) ends,
        enough,
        elim least [
          | inr small ↦ inr small
          | inl same ↦ inr (ground (arith, more, pow-suc 2 n, ap (λ e. 2 ^ e) same))
        ],
      )
]

zero_hangs : (rounds target : ℕ) → 0 < target → table_doubled rounds target 0 ≡ none
unfolding table_doubled
zero_hangs zero target some_target = refl
zero_hangs (suc rounds) target some_target = ground (arith, zero_hangs rounds target some_target)

power_hangs :
    (rounds n target : ℕ) → n ≤ 31 → 2 ^ 31 < target → table_doubled rounds target (2 ^ n) ≡ none
unfolding table_doubled
power_hangs zero n target le large = refl
power_hangs (suc rounds) n target le large =
    let below : 2 ^ n ≤ 2 ^ 31 = top_power n le in
    let more : ltb (2 ^ n) target ≡ true = ground (arith, below, large) in
    rw more (elim (Bool-cases (ltb n 31)) [
      | inl small ↦
          let twice : 2 ^ n * 2 % u32_mod ≡ 2 ^ suc n =
            omega (arith, pow-suc 2 n, top_power (suc n) (ground (arith, small))) in
          rw twice (power_hangs rounds (suc n) target (ground (arith, small)) large)
      | inr last ↦
          let whole : 2 ^ n ≡ 2 ^ 31 = last_power n (ground (arith, last, le)) in
          let wrapped : 2 ^ n * 2 % u32_mod ≡ 0 = omega (arith, whole) in
          rw wrapped (zero_hangs rounds target (omega (arith, large)))
    ])

-- For a capacity that is not 0 and at most half the largest number of 32 bits: up to 2 ^ 30, the loop ends within 32
-- rounds with a power of two, which is at least 4, at least twice the capacity, and less than four times it unless
-- it is 4; above 2 ^ 30, the loop never ends.
pub key_table_capacity_for-ends :
    (capacity : ℕ)
    → 0 < capacity
    → capacity ≤ (u32_mod - 1) / 2
    → (capacity ≤ 2 ^ 30
        → (k : ℕ) × (key_table_capacity_for 32 capacity ≡ some (2 ^ k))
          × (4 ≤ 2 ^ k)
          × (capacity * 2 ≤ 2 ^ k)
          × ((2 ^ k ≡ 4) ⊎ (2 ^ k < 4 * capacity)))
      × (2 ^ 30 < capacity → (rounds : ℕ) → key_table_capacity_for rounds capacity ≡ none)
unfolding key_table_capacity_for
key_table_capacity_for-ends capacity some_room through = (
  λ small. elim (Bool-cases (ltb capacity 2)) [
    | inl one ↦
        let is : capacity ≡ 1 = ground (arith, one, some_room) in
        (2, rw one four, omega arith, omega (arith, is), inl refl)
    | inr more ↦
        let twice : capacity * 2 % u32_mod ≡ capacity * 2 = omega (arith, small) in
        let asked : key_table_capacity_for 32 capacity ≡ table_doubled 32 (capacity * 2) 1 =
          rw (more, twice) refl in
        let (k, ends, enough, least) =
          doubled-power 31 0 (capacity * 2) refl (omega (arith, small)) in
        (
          k,
          asked ∙ ends,
          ground (arith, more, enough),
          enough,
          elim least [
            | inl first ↦ absurd (ground (arith, more, enough, ap (λ e. 2 ^ e) first))
            | inr bound ↦ inr (omega (arith, bound))
          ],
        )
  ],
  λ large rounds.
      let more : ltb capacity 2 ≡ false = ground (arith, large) in
      let twice : capacity * 2 % u32_mod ≡ capacity * 2 = omega (arith, through) in
      rw (more, twice) (power_hangs rounds 0 (capacity * 2) (omega arith) (omega (arith, large))),
)
