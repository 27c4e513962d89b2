-- ===== src/ModelSources/Registration.antt =====
-- A registration with src/core/model_sources.cpp, on every branch.
use astral_runtime.Base.{
  ℕ, ◌+◌, ◌≤◌, ◌<◌, ◌≡◌, ◌≢◌, refl, sym, ◌∙◌, inl, inr, arith, Bool, true, false, not, ◌||◌,
  Bool-cases, none, some, List, [], ◌++◌, length, get_elem?, set, ltb, ◌==◌, add64, add64-small,
  u64_mod,
}
use astral_runtime.Base.Span.{ok, invalid, busy}
use astral_runtime.StringBuilder.Decimal.{read_decimal}
use astral_runtime.ModelSources.{
  Slot, Sources, Registered, refused, free, prefix, find, format_token, model_source_register,
}
use astral_runtime.ModelSources.Token.{token_answer, format_token-answer}
use astral_runtime.ModelSources.Slots.{
  source_of, find-cases, source_of-set_other, source_of-put, Distinct-put, Distinct-free,
  unmapped-free, find-none_all, get_elem?-lt,
}
use astral_runtime.ModelSources.Registry.{source, IsValid}

-- What a registration answers, `r`, and leaves, `t'`.
pub data Outcome {A : Type 0} (t : Sources A) (x : A) (out_id out_token : Bool) (cap : ℕ)
    : Registered → Sources A → Type 0 where
  -- A pointer is null or the token has no room: nothing changes.
  bad_call :
      not out_id || not out_token || cap == 0 ≡ true
      → Outcome t x out_id out_token cap (refused invalid none) t
  -- No slot is free: nothing changes.
  full :
      ((i : ℕ) (s : Slot A) → get_elem? t.slots i ≡ some s → s.id ≢ 0)
      → Outcome t x out_id out_token cap (refused busy none) t
  -- The token of the next identifier does not fit: the token is empty, and no source has changed.
  no_room :
      {t' : Sources A} (number : List ℕ)
      → read_decimal number ≡ some t.next_id
      → cap ≤ length prefix + length number
      → ((k : ℕ) → source t' k ≡ source t k)
      → Outcome t x out_id out_token cap (refused invalid (some [])) t'
  -- The source has the next identifier, which none had; its token fits, and names the identifier; no other
  -- source has changed.
  granted :
      {t' : Sources A} (number : List ℕ)
      → read_decimal number ≡ some t.next_id
      → length prefix + length number < cap
      → source t t.next_id ≡ none
      → source t' t.next_id ≡ some x
      → ((k : ℕ) → k ≢ t.next_id → source t' k ≡ source t k)
      → Outcome t x out_id out_token cap
          (record { err = ok; out_id = some t.next_id; out_token = some (prefix ++ number) })
          t'

module _ {A : Type 0} (none_yet : A) (storage : ℕ → ℕ) (t : Sources A) (x : A) (v : IsValid t)
    (i : ℕ) (s : Slot A) (there : get_elem? t.slots i ≡ some s) (zeroed : s.id ≡ 0) where
  -- The registry with the next identifier used up, and a slot written.
  written : Slot A → Sources A
  written new = record t { next_id = add64 t.next_id 1; slots = set t.slots i new }

  kept :
      (new : Slot A) (k : ℕ)
      → k ≢ 0
      → k ≢ new.id
      → source_of (set t.slots i new) k ≡ source_of t.slots k
  kept new k nonzero off =
      source_of-set_other t.slots i k s new there (λ e. nonzero (sym e ∙ zeroed)) (λ e. off (sym e))

  kept_source : (new : Slot A) (k : ℕ) → (k ≢ 0 → k ≢ new.id) → source (written new) k ≡ source t k
  unfolding written
  kept_source new k off = elim (Bool-cases (k == 0)) [
    | inl e ↦ rw e refl
    | inr e ↦ let nonzero : k ≢ 0 = ground arith in rw e (kept new k nonzero (off nonzero))
  ]

  put_IsValid : t.next_id + 1 < u64_mod → IsValid (written (record { id = t.next_id; src = x }))
  unfolding written
  put_IsValid room =
      let next = add64-small t.next_id 1 room in
      record {
        positive = omega (arith, next);
        small = omega (arith, next, room);
        fresh = λ k le.
            kept (record { id = t.next_id; src = x }) k (omega (arith, next, le))
              (omega (arith, next, le))
            ∙ v.fresh k (omega (arith, next, le));
        distinct =
            Distinct-put t.slots i t.next_id x s there zeroed (v.fresh t.next_id (omega arith))
              v.distinct;
      }

  freed_IsValid : t.next_id + 1 < u64_mod → IsValid (written (free none_yet))
  unfolding written
  freed_IsValid room =
      let next = add64-small t.next_id 1 room in
      record {
        positive = omega (arith, next);
        small = omega (arith, next, room);
        fresh = λ k le.
            unmapped-free t.slots i k none_yet (omega (arith, next, le))
              (v.fresh k (omega (arith, next, le)));
        distinct = Distinct-free t.slots i none_yet v.distinct;
      }

  put_there : source (written (record { id = t.next_id; src = x })) t.next_id ≡ some x
  unfolding written
  put_there =
      let nonzero : t.next_id == 0 ≡ false = ground (arith, v.positive) in
      rw nonzero (
        source_of-put t.slots i t.next_id x (get_elem?-lt t.slots i s there)
          (v.fresh t.next_id (omega arith)))

  new_to_all : source t t.next_id ≡ none
  new_to_all =
      let nonzero : t.next_id == 0 ≡ false = ground (arith, v.positive) in
      rw nonzero (v.fresh t.next_id (omega arith))

  -- With a slot that is free, and the digits of the next identifier.
  register_free :
      (cap : ℕ) (number : List ℕ)
      → cap == 0 ≡ false
      → t.next_id + 1 < u64_mod
      → find t.slots 0 ≡ some i
      → read_decimal number ≡ some t.next_id
      → format_token storage t.next_id true cap ≡ some (token_answer cap number)
      → (r : Registered) × (t' : Sources A) × (model_source_register none_yet storage t x true true
            cap
          ≡ some (r, t'))
        × IsValid t'
        × Outcome t x true true cap r t'
  unfolding written model_source_register
  register_free cap number some_room room found read made =
      let nonzero : t.next_id == 0 ≡ false = ground (arith, v.positive) in
      elim (Bool-cases (ltb (length prefix + length number) cap)) [
        | inl fits ↦
            let long : length prefix + length number == 0 ≡ false = ground arith in
            (
              _,
              written (record { id = t.next_id; src = x }),
              rw (model_source_register, some_room, found, nonzero, made, fits, long) refl,
              put_IsValid room,
              Outcome.granted number read (ground arith) new_to_all put_there
                  (λ k off. kept_source (record { id = t.next_id; src = x }) k (λ e. off)),
            )
        | inr over ↦ (
          _,
          written (free none_yet),
          rw (model_source_register, some_room, found, nonzero, made, over) refl,
          freed_IsValid room,
          Outcome.no_room number read (ground arith) (λ k. kept_source (free none_yet) k (λ e. e)),
        )
      ]

-- A registration in a valid registry, before the identifiers of 64 bits run out, on every branch: it is refused
-- as invalid for a null pointer or an empty buffer, and as busy if every slot is taken, and then changes
-- nothing; it is refused as invalid if the token does not fit, and then no source has changed; else the source
-- stands under the next identifier, which no other had, the token reads back as that identifier, and no
-- other source has changed. No digit is written out of its array, and the registry stays valid.
pub model_source_register-Outcome :
    {A : Type 0} (none_yet : A) (storage : ℕ → ℕ) (t : Sources A) (x : A) (out_id out_token : Bool)
    (cap : ℕ)
    → IsValid t
    → t.next_id + 1 < u64_mod
    → (r : Registered) × (t' : Sources A) × (model_source_register none_yet storage t x out_id
          out_token cap
        ≡ some (r, t'))
      × IsValid t'
      × Outcome t x out_id out_token cap r t'
unfolding model_source_register
model_source_register-Outcome none_yet storage t x false out_token cap v room =
    (refused invalid none, t, refl, v, Outcome.bad_call refl)
model_source_register-Outcome none_yet storage t x true false cap v room =
    (refused invalid none, t, refl, v, Outcome.bad_call refl)
model_source_register-Outcome none_yet storage t x true true cap v room =
    elim (Bool-cases (cap == 0)) [
      | inl bad ↦ (refused invalid none, t, rw bad refl, v, Outcome.bad_call bad)
      | inr some_room ↦ elim (find-cases t.slots 0) [
        | inl (unfound, unmapped) ↦ (
          refused busy none,
          t,
          rw (some_room, unfound) refl,
          v,
          Outcome.full (λ i s there. find-none_all t.slots 0 i s unfound there),
        )
        | inr (i, s, found, there, zeroed, mapped) ↦
            let (number, read, made) =
              format_token-answer storage t.next_id cap v.small (ground arith) in
            register_free none_yet storage t x v i s there zeroed cap number some_room room found
              read made
      ]
    ]
