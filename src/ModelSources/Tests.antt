-- ===== src/ModelSources/Tests.antt =====
-- The registry of src/core/model_sources.cpp on concrete calls.
use astral_runtime.Base.{ℕ, ◌≡◌, refl, arith, true, some, [], ◌∷◌, ◌++◌, inl, inr}
use astral_runtime.Spsc.{memcpy}
use astral_runtime.Spsc.Cells.{tabulate}
use astral_runtime.StringBuilder as Builder
use astral_runtime.ModelSources.{
  Sources, Registered, init, prefix, begun, copy_token, format_token, find, model_source_register,
  model_source_take, model_source_release, model_source_present,
}
use astral_runtime.ModelSources.Registry.{
  source, IsValid, init-IsValid, IsRemoved, is_some, model_source_take-IsRemoved,
}
use astral_runtime.ModelSources.Slots.{source_of, Distinct}
use astral_runtime.ModelSources.Registration.{Outcome, model_source_register-Outcome}

abbrev storage : ℕ → ℕ
storage i = 0

abbrev empty_registry : Sources ℕ
empty_registry = init 0

-- A buffer of 13 bytes holds the text, one digit and the terminator; 12 bytes do not.
fits : format_token storage 7 true 13 ≡ some (12, some (prefix ++ (55 ∷ [])))
unfolding format_token begun copy_token Builder.append Builder.append_unsigned Builder.digits
    Builder.copy_append Builder.put Builder.new Builder.bytes_of Builder.freeze memcpy tabulate
fits = refl

too_short : format_token storage 7 true 12 ≡ some (0, some [])
unfolding format_token begun copy_token Builder.append Builder.append_unsigned Builder.digits
    Builder.copy_append Builder.put Builder.new Builder.bytes_of Builder.freeze memcpy tabulate
too_short = refl

model_source_register-Outcome_example :
    (r : Registered) × (t' : Sources ℕ) × (model_source_register 0 storage empty_registry 9 true
        true 32
      ≡ some (r, t'))
    × IsValid t'
    × Outcome empty_registry 9 true true 32 r t'
unfolding init
model_source_register-Outcome_example =
    model_source_register-Outcome 0 storage empty_registry 9 true true 32 (init-IsValid 0)
      (omega arith)

-- A registry after one registration.
abbrev one_source : Sources ℕ
one_source = record {
  next_id = 2;
  slots = record { id = 1; src = 9 } ∷ record { id = 0; src = 0 } ∷ [];
}

one_source-IsValid : IsValid one_source
unfolding source_of Distinct
one_source-IsValid = record {
  positive = omega arith;
  small = omega arith;
  fresh = λ k le. ground arith;
  distinct = (inr refl, (inl refl, tt));
}

takes : (model_source_take 0 one_source 1 true).0 ≡ some 9
unfolding model_source_take find
takes = refl

model_source_take-IsRemoved_example :
    ((model_source_take 0 one_source 1 true).0 ≡ source one_source 1)
    × IsRemoved one_source 1 (model_source_take 0 one_source 1 true).1
    × (model_source_release 0 one_source 1 ≡ (model_source_take 0 one_source 1 true).1)
    × (model_source_present one_source 1 ≡ is_some (source one_source 1))
model_source_take-IsRemoved_example = model_source_take-IsRemoved 0 one_source 1 one_source-IsValid
