-- ===== src/ModelSources/Slots.antt =====
-- The slots of src/core/model_sources.cpp as a map from identifiers to sources.
use astral_runtime.Base.{
  ℕ, zero, suc, ◌<◌, ◌≡◌, ◌≢◌, refl, ap, sym, subst, ◌∙◌, ◌⊎◌, inl, inr, arith, false, Bool-cases,
  Option, none, some, List, [], ◌∷◌, length, get_elem?, set, replicate, ◌==◌, if◌then◌else◌,
  Option-cases,
}
use astral_runtime.ModelSources.{Slot, free, find}

module _ {A : Type 0} where
  -- The source behind an identifier that is not 0.
  unfoldable pub source_of : List (Slot A) → ℕ → Option A
  source_of [] k = none
  source_of (s ∷ slots) k = let rest = source_of slots k in if s.id == k then some s.src else rest

  -- No identifier stands in two slots.
  unfoldable pub Distinct : List (Slot A) → Type 0
  Distinct [] = Unit {0}
  Distinct (s ∷ slots) = ((s.id ≡ 0) ⊎ (source_of slots s.id ≡ none)) × Distinct slots

  -- The slot that is found.
  pub find-cases :
      (slots : List (Slot A)) (k : ℕ)
      → ((find slots k ≡ none) × (source_of slots k ≡ none))
        ⊎ ((i : ℕ) × (s : Slot A) × (find slots k ≡ some i)
            × (get_elem? slots i ≡ some s)
            × (s.id ≡ k)
            × (source_of slots k ≡ some s.src))
  unfolding find source_of
  find-cases [] k = inl (refl, refl)
  find-cases (s ∷ slots) k = elim (Bool-cases (s.id == k)) [
    | inl is ↦ inr (0, s, rw is refl, refl, ground arith, rw is refl)
    | inr off ↦ elim (find-cases slots k) [
      | inl (unfound, unmapped) ↦ inl (rw (off, unfound) refl, rw off unmapped)
      | inr (i, t, found, there, named, mapped) ↦
          inr (suc i, t, rw (off, found) refl, there, named, rw off mapped)
    ]
  ]

  -- Another identifier keeps its source when a slot is written.
  pub source_of-set_other :
      (slots : List (Slot A)) (i k : ℕ) (old s : Slot A)
      → get_elem? slots i ≡ some old
      → old.id ≢ k
      → s.id ≢ k
      → source_of (set slots i s) k ≡ source_of slots k
  unfolding source_of
  source_of-set_other [] i k old s there was is = refl
  source_of-set_other (t ∷ slots) zero k old s there was is =
      let before : t.id == k ≡ false = ground arith in
      let after : s.id == k ≡ false = ground arith in rw (before, after) refl
  source_of-set_other (t ∷ slots) (suc i) k old s there was is =
      ap (λ r. if t.id == k then some t.src else r)
        (source_of-set_other slots i k old s there was is)

  -- A source is put into a free slot.
  pub source_of-put :
      (slots : List (Slot A)) (i k : ℕ) (x : A)
      → i < length slots
      → source_of slots k ≡ none
      → source_of (set slots i (record { id = k; src = x })) k ≡ some x
  unfolding source_of
  source_of-put [] i k x lt new = absurd (omega arith)
  source_of-put (t ∷ slots) zero k x lt new = ground arith
  source_of-put (t ∷ slots) (suc i) k x lt new = elim (Bool-cases (t.id == k)) [
    | inl is ↦ absurd (ground arith)
    | inr off ↦ rw off (source_of-put slots i k x (omega arith) (rw off at new))
  ]

  pub unmapped_cons :
      (t : Slot A) (slots : List (Slot A)) (k : ℕ)
      → source_of (t ∷ slots) k ≡ none
      → (t.id ≢ k) × (source_of slots k ≡ none)
  unfolding source_of
  unmapped_cons t slots k new = ground arith

  -- A slot given back maps nothing.
  pub unmapped-free :
      (slots : List (Slot A)) (i k : ℕ) (x : A)
      → k ≢ 0
      → source_of slots k ≡ none
      → source_of (set slots i (free x)) k ≡ none
  unfolding source_of
  unmapped-free [] i k x named new = refl
  unmapped-free (t ∷ slots) zero k x named new = ground arith
  unmapped-free (t ∷ slots) (suc i) k x named new =
      let (off, tail) = unmapped_cons t slots k new in
      let test : t.id == k ≡ false = ground arith in rw test (unmapped-free slots i k x named tail)

  pub Distinct-put :
      (slots : List (Slot A)) (i k : ℕ) (x : A) (old : Slot A)
      → get_elem? slots i ≡ some old
      → old.id ≡ 0
      → source_of slots k ≡ none
      → Distinct slots
      → Distinct (set slots i (record { id = k; src = x }))
  unfolding Distinct source_of
  Distinct-put [] i k x old there zeroed new d = d
  Distinct-put (t ∷ slots) zero k x old there zeroed new d =
      (inr ((unmapped_cons t slots k new).1), d.1)
  Distinct-put (t ∷ slots) (suc i) k x old there zeroed new d =
      let (off, tail) = unmapped_cons t slots k new in
      (
        elim d.0 [
          | inl is ↦ inl is
          | inr away ↦ elim (Bool-cases (t.id == 0)) [
            | inl is ↦ inl (ground arith)
            | inr named ↦ inr (
                source_of-set_other slots i t.id old (record { id = k; src = x }) there
                  (ground arith) (λ e. off (sym e))
                ∙ away)
          ]
        ],
        Distinct-put slots i k x old there zeroed tail d.1,
      )

  -- A slot is given back: its identifier is gone, and no other.
  pub source_of-free :
      (slots : List (Slot A)) (i k : ℕ) (x : A)
      → find slots k ≡ some i
      → k ≢ 0
      → Distinct slots
      → source_of (set slots i (free x)) k ≡ none
  unfolding Distinct source_of find
  source_of-free [] i k x found named d = refl
  source_of-free (t ∷ slots) i k x found named d = elim (Bool-cases (t.id == k)) [
    | inl is ↦
        let first : i ≡ 0 = ground (arith, rw is at found) in
        let named_so : t.id ≡ k = ground arith in
        let skip : 0 == k ≡ false = ground arith in
        rw (first, skip)
          (elim d.0 [
            | inl zeroed ↦ absurd (named (sym named_so ∙ zeroed))
            | inr away ↦ subst (λ r. source_of slots r ≡ none) named_so away
          ])
    | inr off ↦ elim (Option-cases (find slots k)) [
      | inl unfound ↦ absurd (ground (arith, rw (off, unfound) at found))
      | inr (j, later) ↦
          let place : i ≡ suc j = ground (arith, rw (off, later) at found) in
          rw (place, off) (source_of-free slots j k x later named d.1)
    ]
  ]

  pub Distinct-free :
      (slots : List (Slot A)) (i : ℕ) (x : A) → Distinct slots → Distinct (set slots i (free x))
  unfolding Distinct
  Distinct-free [] i x d = d
  Distinct-free (t ∷ slots) zero x d = (inl refl, d.1)
  Distinct-free (t ∷ slots) (suc i) x d = (
    elim d.0 [
      | inl is ↦ inl is
      | inr away ↦ elim (Bool-cases (t.id == 0)) [
        | inl is ↦ inl (ground arith)
        | inr named ↦ inr (unmapped-free slots i t.id x (ground arith) away)
      ]
    ],
    Distinct-free slots i x d.1,
  )

  pub find-none_all :
      (slots : List (Slot A)) (k i : ℕ) (s : Slot A)
      → find slots k ≡ none
      → get_elem? slots i ≡ some s
      → s.id ≢ k
  unfolding find
  find-none_all [] k i s unfound there = absurd (ground arith)
  find-none_all (t ∷ slots) k zero s unfound there = ground arith
  find-none_all (t ∷ slots) k (suc i) s unfound there = elim (Bool-cases (t.id == k)) [
    | inl is ↦ absurd (ground (arith, rw is at unfound))
    | inr off ↦ elim (Option-cases (find slots k)) [
      | inl later ↦ find-none_all slots k i s later there
      | inr (j, later) ↦ absurd (ground (arith, rw (off, later) at unfound))
    ]
  ]

  pub get_elem?-lt :
      (slots : List (Slot A)) (i : ℕ) (s : Slot A) → get_elem? slots i ≡ some s → i < length slots
  get_elem?-lt [] i s there = absurd (ground arith)
  get_elem?-lt (t ∷ slots) zero s there = omega arith
  get_elem?-lt (t ∷ slots) (suc i) s there = omega (arith, get_elem?-lt slots i s there)

  pub source_of-replicate : (n k : ℕ) (x : A) → k ≢ 0 → source_of (replicate n (free x)) k ≡ none
  unfolding source_of
  source_of-replicate zero k x named = refl
  source_of-replicate (suc n) k x named =
      let skip : 0 == k ≡ false = ground arith in rw skip (source_of-replicate n k x named)

  pub Distinct-replicate : (n : ℕ) (x : A) → Distinct (replicate n (free x))
  unfolding Distinct
  Distinct-replicate zero x = tt
  Distinct-replicate (suc n) x = (inl refl, Distinct-replicate n x)
