-- ===== src/Utf8/Tests.antt =====
-- Runs of src/utils/utf8.cpp, and its theorems at concrete texts.
use astral_runtime.Base.{ℕ, ◌≡◌, refl, List, [], ◌∷◌, ◌++◌, true, false, ◌↔◌, arith, replicate}
use astral_runtime.Utf8.{is_ascii, is_cont, next, next2, next3, next4, validate, count_codepoints}
use astral_runtime.Utf8.{is_lead2, is_lead3, is_lead4, point2, point3, point4}
use astral_runtime.Utf8.Encoding.{encode, encode_all, count_codepoints-encode_all}
use astral_runtime.Utf8.Decoding.{IsEncoded, validate_iff}
use astral_runtime.Utf8.Vector.{all_ascii, validate_neon, validate_simd, neon}
use astral_runtime.Utf8.Vector.Laws.{validate_simd-eq, validate_neon_rejects}

-- U+E9, U+20AC, U+1F600.
abbrev mixed : List ℕ
mixed = 0xC3 ∷ 0xA9 ∷ 0xE2 ∷ 0x82 ∷ 0xAC ∷ 0xF0 ∷ 0x9F ∷ 0x98 ∷ 0x80 ∷ []

abbrev points : List ℕ
points = 0xE9 ∷ 0x20AC ∷ 0x1F600 ∷ []

-- U+E9 over the end of the first 16 bytes.
abbrev crossing : List ℕ
crossing = replicate 15 97 ++ (0xC3 ∷ 0xA9 ∷ replicate 47 98)

abbrev plain : List ℕ
plain = replicate 70 97

mixed_valid : validate mixed ≡ true
unfolding validate next next2 next3 next4 is_ascii is_cont is_lead2 is_lead3 is_lead4 point2 point3
    point4
mixed_valid = refl

-- An overlong form, a surrogate, a text cut short.
refused :
    (validate (0xC0 ∷ 0x80 ∷ []) ≡ false)
    × (validate (0xED ∷ 0xA0 ∷ 0x80 ∷ []) ≡ false)
    × (validate (0xE2 ∷ 0x82 ∷ []) ≡ false)
unfolding validate next next2 next3 next4 is_ascii is_cont is_lead2 is_lead3 is_lead4 point2 point3
    point4
refused = (refl, refl, refl)

mixed_encodes : encode_all points ≡ mixed
unfolding encode_all encode
mixed_encodes = refl

crossing_valid : validate crossing ≡ true
unfolding validate next next2 next3 next4 is_ascii is_cont is_lead2 is_lead3 is_lead4 point2 point3
    point4
crossing_valid = refl

validate_iff_example : (validate mixed ≡ true) ↔ IsEncoded mixed
validate_iff_example = validate_iff mixed (omega arith)

count_codepoints-encode_all_example : count_codepoints (encode_all points) ≡ 3
count_codepoints-encode_all_example = count_codepoints-encode_all points (
  record { in_range = omega arith; no_surrogate = omega arith },
  (
    record { in_range = omega arith; no_surrogate = omega arith },
    (record { in_range = omega arith; no_surrogate = omega arith }, tt),
  ),
)

validate_simd-eq_example : validate_simd neon false mixed ≡ validate mixed
validate_simd-eq_example = validate_simd-eq neon false mixed (λ _. refl)

validate_neon_rejects_example : validate_neon crossing ≡ false
unfolding all_ascii is_ascii is_cont
validate_neon_rejects_example =
    validate_neon_rejects crossing 0xA9 (omega arith) refl refl (omega arith) refl
