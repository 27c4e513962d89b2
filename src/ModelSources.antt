-- ===== src/ModelSources.antt =====
-- The sources of models that wait for a back end, src/core/model_sources.cpp: a registry of 64 slots under
-- a lock, and the token by which a source is named.
pub mod Token
pub mod Slots
pub mod Registry
pub mod Registration
mod Tests
use astral_runtime.Base.{
  ℕ, zero, suc, ◌+◌, Bool, true, false, not, ◌||◌, Option, none, some, List, [], ◌∷◌, ◌++◌,
  get_elem?, set, replicate, leb, ◌==◌, if◌then◌else◌, add64,
}
use astral_runtime.Base.Span.{Err, ok, invalid, busy}
use astral_runtime.StringBuilder.{
  StringBuilder, StringOverflowPolicy, append, append_unsigned, freeze,
}
use astral_runtime.StringBuilder as Builder

-- `kMaxSources`.
abbrev pub max_sources : ℕ
max_sources = 64

pub record Slot (A : Type 0) : Type 0 where
  pub id : ℕ
  pub src : A

pub record Sources (A : Type 0) : Type 0 where
  pub next_id : ℕ
  pub slots : List (Slot A)

-- A slot that is free, its source a `ModelSource{}`.
abbrev pub free : {A : Type 0} → A → Slot A
free none_yet = record { id = 0; src = none_yet }

unfoldable pub init : {A : Type 0} → A → Sources A
init none_yet = record { next_id = 1; slots = replicate max_sources (free none_yet) }

-- The text "astral-src:".
abbrev pub prefix : List ℕ
prefix = 97 ∷ 115 ∷ 116 ∷ 114 ∷ 97 ∷ 108 ∷ 45 ∷ 115 ∷ 114 ∷ 99 ∷ 58 ∷ []

-- A builder of 31 bytes that does not spill, after the text.
unfoldable pub begun : (ℕ → ℕ) → Bool × StringBuilder
begun storage = append StringOverflowPolicy.truncate (λ n. none) (Builder.new 31 storage) prefix

-- What is copied from a token to a buffer of `cap` bytes.
unfoldable pub copy_token : StringBuilder → ℕ → ℕ × Option (List ℕ)
copy_token token cap =
    if token.truncated || leb cap token.length_
    then (0, some [])
    else (token.length_, some (freeze token))

-- The answer, and the text that a token buffer of `cap` bytes is given, if any. `none` is a write out of the
-- array of the digits. `storage` is what the builder's memory holds.
unfoldable pub format_token : (ℕ → ℕ) → ℕ → Bool → ℕ → Option (ℕ × Option (List ℕ))
format_token storage id out_token cap =
    if not out_token || cap == 0
    then some (0, none)
    else elim (append_unsigned StringOverflowPolicy.truncate (λ n. none) (begun storage).1 true
        id) [ none ↦ none | some (appended, token) ↦ some (copy_token token cap) ]

-- The first slot with an identifier.
unfoldable pub find : {A : Type 0} → List (Slot A) → ℕ → Option ℕ
find [] id = none
find (s ∷ slots) id =
    let rest = find slots id in
    if s.id == id then some 0 else elim rest [ none ↦ none | some i ↦ some (suc i) ]

-- What a registration answers and stores through its pointers.
pub record Registered : Type 0 where
  pub err : Err
  pub out_id : Option ℕ
  pub out_token : Option (List ℕ)

abbrev pub refused : Err → Option (List ℕ) → Registered
refused e text = record { err = e; out_id = none; out_token = text }

-- The pointers are given as whether they are not null.
unfoldable pub model_source_register :
    {A : Type 0} → A → (ℕ → ℕ) → Sources A → A → Bool → Bool → ℕ → Option (Registered × Sources A)
model_source_register none_yet storage t source out_id out_token token_cap =
    if not out_id || not out_token || token_cap == 0
    then some (refused invalid none, t)
    else elim (find t.slots 0) [
      | none ↦ some (refused busy none, t)
      | some slot_idx ↦
          let id = t.next_id in
          let counted = record t { next_id = add64 t.next_id 1 } in
          if id == 0
          then some (refused busy none, counted)
          else elim (format_token storage id out_token token_cap) [
            | none ↦ none
            | some (n, text) ↦
                if n == 0
                then some (
                  refused invalid text,
                  record counted { slots = set t.slots slot_idx (free none_yet) },
                )
                else some (
                  record { err = ok; out_id = some id; out_token = text },
                  record counted {
                    slots = set t.slots slot_idx (record { id = id; src = source });
                  },
                )
          ]
    ]

-- `out_source` is given as whether it is not null.
unfoldable pub model_source_take : {A : Type 0} → A → Sources A → ℕ → Bool → Option A × Sources A
model_source_take none_yet t id out_source =
    if id == 0 || not out_source then (none, t) else elim (find t.slots id) [
      | none ↦ (none, t)
      | some i ↦ elim (get_elem? t.slots i) [
        | none ↦ (none, t)
        | some s ↦ (some s.src, record t { slots = set t.slots i (free none_yet) })
      ]
    ]

unfoldable pub model_source_release : {A : Type 0} → A → Sources A → ℕ → Sources A
model_source_release none_yet t id = if id == 0 then t else elim (find t.slots id) [
  | none ↦ t
  | some i ↦ record t { slots = set t.slots i (free none_yet) }
]

unfoldable pub model_source_present : {A : Type 0} → Sources A → ℕ → Bool
model_source_present t id =
    if id == 0 then false else elim (find t.slots id) [ none ↦ false | some i ↦ true ]
