-- ===== src/ModelSources/Registry.antt =====
-- The registry of src/core/model_sources.cpp as a map from identifiers to sources.
use astral_runtime.Base.{
  ℕ, ◌≤◌, ◌<◌, ◌≡◌, ◌≢◌, refl, sym, ◌∙◌, ◌⊎◌, inl, inr, arith, Bool, true, false, Bool-cases,
  Option, none, some, get_elem?, set, ◌==◌, if◌then◌else◌, u64_mod,
}
use astral_runtime.ModelSources.{
  Slot, Sources, free, init, find, model_source_take, model_source_release, model_source_present,
}
use astral_runtime.ModelSources.Slots.{
  source_of, Distinct, find-cases, source_of-set_other, source_of-free, Distinct-free,
  unmapped-free, source_of-replicate, Distinct-replicate,
}

-- The map that the registry holds. No source has the identifier 0.
abbrev pub source : {A : Type 0} → Sources A → ℕ → Option A
source t k = if k == 0 then none else source_of t.slots k

abbrev pub is_some : {A : Type 0} → Option A → Bool
is_some none = false
is_some (some x) = true

-- Identifiers are given out in turn, each to one slot at most.
pub record IsValid {A : Type 0} (t : Sources A) : Type 0 where
  pub positive : 0 < t.next_id
  pub small : t.next_id < u64_mod
  pub fresh : (k : ℕ) → t.next_id ≤ k → source_of t.slots k ≡ none
  pub distinct : Distinct t.slots

pub init-IsValid : {A : Type 0} (none_yet : A) → IsValid (init none_yet)
unfolding init
init-IsValid none_yet = record {
  positive = omega arith;
  small = omega arith;
  fresh = λ k le. source_of-replicate 64 k none_yet (λ e. omega arith);
  distinct = Distinct-replicate 64 none_yet;
}

-- What a call that removes an identifier leaves.
pub record IsRemoved {A : Type 0} (t : Sources A) (id : ℕ) (t' : Sources A) : Type 0 where
  pub valid : IsValid t'
  pub gone : source t' id ≡ none
  pub others : (k : ℕ) → k ≢ id → source t' k ≡ source t k

module _ {A : Type 0} (none_yet : A) (t : Sources A) (id : ℕ) (v : IsValid t) where
  nothing-IsRemoved : source t id ≡ none → IsRemoved t id t
  nothing-IsRemoved none_there = record { valid = v; gone = none_there; others = λ k off. refl }

  one-IsRemoved :
      (i : ℕ) (s : Slot A)
      → id ≢ 0
      → find t.slots id ≡ some i
      → get_elem? t.slots i ≡ some s
      → s.id ≡ id
      → IsRemoved t id (record t { slots = set t.slots i (free none_yet) })
  one-IsRemoved i s named found there is =
      let test : id == 0 ≡ false = ground arith in
      let kept : (k : ℕ)
          → k ≢ 0
          → k ≢ id
          → source_of (set t.slots i (free none_yet)) k ≡ source_of t.slots k =
        λ k nonzero off.
          source_of-set_other t.slots i k s (free none_yet) there (λ e. off (sym e ∙ is))
            (λ e. nonzero (sym e)) in
      let gone' = source_of-free t.slots i id none_yet found named v.distinct in
      record {
        valid = record {
          positive = v.positive;
          small = v.small;
          fresh =
              λ k le. unmapped-free t.slots i k none_yet (omega (arith, v.positive)) (v.fresh k le);
          distinct = Distinct-free t.slots i none_yet v.distinct;
        };
        gone = rw test gone';
        others = λ k off. elim (Bool-cases (k == 0)) [
          | inl e ↦ rw e refl
          | inr e ↦ rw e (kept k (ground arith) off)
        ];
      }

  IsRemoved-cases :
      ((source t id ≡ none)
        × (model_source_take none_yet t id true ≡ (none, t))
        × (model_source_release none_yet t id ≡ t)
        × (model_source_present t id ≡ false))
      ⊎ ((x : A) × (t' : Sources A) × (source t id ≡ some x)
          × (model_source_take none_yet t id true ≡ (some x, t'))
          × (model_source_release none_yet t id ≡ t')
          × (model_source_present t id ≡ true)
          × IsRemoved t id t')
  unfolding model_source_take model_source_release model_source_present
  IsRemoved-cases = elim (Bool-cases (id == 0)) [
    | inl zeroed ↦ inl (rw zeroed refl, rw zeroed refl, rw zeroed refl, rw zeroed refl)
    | inr nonzero ↦ elim (find-cases t.slots id) [
      | inl (unfound, unmapped) ↦ inl (
        rw (nonzero, unmapped) refl,
        rw (nonzero, unfound) refl,
        rw (nonzero, unfound) refl,
        rw (nonzero, unfound) refl,
      )
      | inr (i, s, found, there, is, mapped) ↦ inr (
        s.src,
        _,
        rw (nonzero, mapped) refl,
        rw (nonzero, found, there) refl,
        rw (nonzero, found) refl,
        rw (nonzero, found) refl,
        one-IsRemoved i s (ground arith) found there is,
      )
    ]
  ]

-- Taking a source out of a registry whose slots name different identifiers: the answer is the source under
-- the identifier, if there is one, as the presence test tells beforehand; afterwards there is none under it, and
-- all other identifiers have the sources they had. A release leaves the same registry, and the registry stays valid.
pub model_source_take-IsRemoved :
    {A : Type 0} (none_yet : A) (t : Sources A) (id : ℕ)
    → IsValid t
    → ((model_source_take none_yet t id true).0 ≡ source t id)
      × IsRemoved t id (model_source_take none_yet t id true).1
      × (model_source_release none_yet t id ≡ (model_source_take none_yet t id true).1)
      × (model_source_present t id ≡ is_some (source t id))
model_source_take-IsRemoved none_yet t id v = elim (IsRemoved-cases none_yet t id v) [
  | inl (unmapped, takes, releases, presents) ↦
      rw (takes, releases, presents, unmapped)
        (refl, nothing-IsRemoved none_yet t id v unmapped, refl, refl)
  | inr (x, t', mapped, takes, releases, presents, removed) ↦
      rw (takes, releases, presents, mapped) (refl, removed, refl, refl)
]
