-- ===== src/Utf8/Encoding.antt =====
-- What src/utils/utf8.cpp promises, independently of how it checks: the encoding of Unicode scalar
-- values (Unicode Standard, chapter 3), and that `validate` accepts every encoded text.
use astral_runtime.Base.{
  ℕ, zero, suc, ◌+◌, ◌/◌, ◌%◌, ◌≤◌, ◌<◌, List, [], ◌∷◌, ◌++◌, ◌≡◌, refl, ◌⊎◌, true, some, arith,
  ltb, if◌then◌else◌, length, length-append, ◌∙◌, inl, inr, Bool-cases,
}
use astral_runtime.Utf8.{next, next2, next3, next4, validate_loop, validate, count_codepoints}
use astral_runtime.Utf8.Bytes.{
  is_ascii-eq, is_cont-eq, is_lead2-eq, is_lead3-eq, is_lead4-eq, point2-eq, point3-eq, point4-eq,
}

-- A code point that is no surrogate and no more than U+10FFFF.
pub record IsScalar (cp : ℕ) : Type 0 where
  pub in_range : cp ≤ 0x10FFFF
  pub no_surrogate : (cp < 0xD800) ⊎ (0xDFFF < cp)

abbrev pub encode2 : ℕ → List ℕ
encode2 cp = (0xC0 + cp / 64) ∷ (0x80 + cp % 64) ∷ []

abbrev pub encode3 : ℕ → List ℕ
encode3 cp = (0xE0 + cp / 4096) ∷ (0x80 + cp / 64 % 64) ∷ (0x80 + cp % 64) ∷ []

abbrev pub encode4 : ℕ → List ℕ
encode4 cp =
    (0xF0 + cp / 262144) ∷ (0x80 + cp / 4096 % 64) ∷ (0x80 + cp / 64 % 64) ∷ (0x80 + cp % 64) ∷ []

unfoldable pub encode : ℕ → List ℕ
encode cp =
    if ltb cp 0x80
    then cp ∷ []
    else if ltb cp 0x800
    then encode2 cp
    else if ltb cp 0x10000
    then encode3 cp
    else encode4 cp

unfoldable pub encode_all : List ℕ → List ℕ
encode_all [] = []
encode_all (cp ∷ cps) = encode cp ++ encode_all cps

abbrev pub All {ℓ} : (ℕ → Type ℓ) → List ℕ → Type ℓ
All P [] = Unit
All P (x ∷ xs) = P x × All P xs

next-ascii : (cp : ℕ) (rest : List ℕ) → cp < 0x80 → next cp rest ≡ some rest
unfolding next
next-ascii cp rest h = ground (arith, is_ascii-eq cp (omega arith))

next-encode2 :
    (cp : ℕ) (rest : List ℕ)
    → 0x80 ≤ cp
    → cp < 0x800
    → next (0xC0 + cp / 64) ((0x80 + cp % 64) ∷ rest) ≡ some rest
unfolding next next2
next-encode2 cp rest lo hi = ground (
  arith,
  is_ascii-eq (0xC0 + cp / 64) (omega arith),
  is_lead2-eq (0xC0 + cp / 64) (omega arith),
  is_cont-eq (0x80 + cp % 64) (omega arith),
  point2-eq (0xC0 + cp / 64) (0x80 + cp % 64) (omega arith) (omega arith),
)

next-encode3 :
    (cp : ℕ) (rest : List ℕ)
    → 0x800 ≤ cp
    → cp < 0x10000
    → IsScalar cp
    → next (0xE0 + cp / 4096) ((0x80 + cp / 64 % 64) ∷ (0x80 + cp % 64) ∷ rest) ≡ some rest
unfolding next next3
next-encode3 cp rest lo hi s = ground (
  arith,
  is_ascii-eq (0xE0 + cp / 4096) (omega arith),
  is_lead2-eq (0xE0 + cp / 4096) (omega arith),
  is_lead3-eq (0xE0 + cp / 4096) (omega arith),
  is_cont-eq (0x80 + cp / 64 % 64) (omega arith),
  is_cont-eq (0x80 + cp % 64) (omega arith),
  point3-eq (0xE0 + cp / 4096) (0x80 + cp / 64 % 64) (0x80 + cp % 64) (omega arith) (omega arith)
      (omega arith),
)

next-encode4 :
    (cp : ℕ) (rest : List ℕ)
    → 0x10000 ≤ cp
    → cp ≤ 0x10FFFF
    → next
        (0xF0 + cp / 262144)
        ((0x80 + cp / 4096 % 64) ∷ (0x80 + cp / 64 % 64) ∷ (0x80 + cp % 64) ∷ rest)
      ≡ some rest
unfolding next next4
next-encode4 cp rest lo hi = ground (
  arith,
  is_ascii-eq (0xF0 + cp / 262144) (omega arith),
  is_lead2-eq (0xF0 + cp / 262144) (omega arith),
  is_lead3-eq (0xF0 + cp / 262144) (omega arith),
  is_lead4-eq (0xF0 + cp / 262144) (omega arith),
  is_cont-eq (0x80 + cp / 4096 % 64) (omega arith),
  is_cont-eq (0x80 + cp / 64 % 64) (omega arith),
  is_cont-eq (0x80 + cp % 64) (omega arith),
  point4-eq (0xF0 + cp / 262144) (0x80 + cp / 4096 % 64) (0x80 + cp / 64 % 64) (0x80 + cp % 64)
      (omega arith) (omega arith) (omega arith) (omega arith),
)

-- What `encode` gives starts with a byte at which `next` takes it off.
pub encode_head :
    (cp : ℕ) (rest : List ℕ)
    → IsScalar cp
    → (b : ℕ) × (bs : List ℕ) × (encode cp ++ rest ≡ b ∷ bs) × (next b bs ≡ some rest)
unfolding encode
encode_head cp rest s = elim (Bool-cases (ltb cp 0x80)) [
  | inl h1 ↦ (cp, rest, rw h1, next-ascii cp rest (ground arith))
  | inr h1 ↦ elim (Bool-cases (ltb cp 0x800)) [
    | inl h2 ↦ (_, _, rw (h1, h2), next-encode2 cp rest (ground arith) (ground arith))
    | inr h2 ↦ elim (Bool-cases (ltb cp 0x10000)) [
      | inl h3 ↦ (_, _, rw (h1, h2, h3), next-encode3 cp rest (ground arith) (ground arith) s)
      | inr h3 ↦ (_, _, rw (h1, h2, h3), next-encode4 cp rest (ground arith) s.in_range)
    ]
  ]
]

-- A round of the loop that `next` lets pass.
validate_loop-round :
    (fuel : ℕ) (s : List ℕ) (b : ℕ) (bs rest : List ℕ)
    → s ≡ b ∷ bs
    → next b bs ≡ some rest
    → validate_loop (suc fuel) s ≡ validate_loop fuel rest
unfolding validate_loop
validate_loop-round fuel s b bs rest e n = rw (e, n, validate_loop)

length-encode : (cp : ℕ) → 1 ≤ length (encode cp)
unfolding encode
length-encode cp = ground arith

validate_loop-encode_all :
    (cps : List ℕ) (fuel : ℕ)
    → All IsScalar cps
    → length (encode_all cps) ≤ fuel
    → validate_loop fuel (encode_all cps) ≡ true
unfolding encode_all
validate_loop-encode_all [] zero s h = unfold validate_loop in refl
validate_loop-encode_all [] (suc fuel) s h = unfold validate_loop in refl
validate_loop-encode_all (cp ∷ cps) zero s h =
    absurd (omega (arith, length-encode cp, length-append {0} (encode cp) (encode_all cps)))
validate_loop-encode_all (cp ∷ cps) (suc fuel) s h =
    let (b, bs, e, n) = encode_head cp (encode_all cps) s.0 in
    validate_loop-round fuel _ b bs (encode_all cps) e n
    ∙ validate_loop-encode_all cps fuel s.1
        (omega (arith, length-encode cp, length-append {0} (encode cp) (encode_all cps)))

-- `validate` accepts the encoding of every sequence of Unicode scalar values.
pub validate-encode_all : (cps : List ℕ) → All IsScalar cps → validate (encode_all cps) ≡ true
unfolding validate
validate-encode_all cps s = validate_loop-encode_all cps _ s (omega arith)

count-encode :
    (cp : ℕ) (rest : List ℕ)
    → IsScalar cp
    → count_codepoints (encode cp ++ rest) ≡ count_codepoints rest + 1
unfolding count_codepoints encode
count-encode cp rest s = elim (Bool-cases (ltb cp 0x80)) [
  | inl h1 ↦ rw h1 (ground (arith, is_cont-eq cp (ground arith)))
  | inr h1 ↦ elim (Bool-cases (ltb cp 0x800)) [
    | inl h2 ↦
        rw (h1, h2)
          (ground (
            arith,
            is_cont-eq (0xC0 + cp / 64) (ground arith),
            is_cont-eq (0x80 + cp % 64) (omega arith),
          ))
    | inr h2 ↦ elim (Bool-cases (ltb cp 0x10000)) [
      | inl h3 ↦
          rw (h1, h2, h3)
            (ground (
              arith,
              is_cont-eq (0xE0 + cp / 4096) (ground arith),
              is_cont-eq (0x80 + cp / 64 % 64) (omega arith),
              is_cont-eq (0x80 + cp % 64) (omega arith),
            ))
      | inr h3 ↦
          rw (h1, h2, h3)
            (ground (
              arith,
              is_cont-eq (0xF0 + cp / 262144) (omega arith),
              is_cont-eq (0x80 + cp / 4096 % 64) (omega arith),
              is_cont-eq (0x80 + cp / 64 % 64) (omega arith),
              is_cont-eq (0x80 + cp % 64) (omega arith),
            ))
    ]
  ]
]

-- On a valid text `count_codepoints` counts the scalar values that the text encodes.
pub count_codepoints-encode_all :
    (cps : List ℕ) → All IsScalar cps → count_codepoints (encode_all cps) ≡ length cps
unfolding encode_all
count_codepoints-encode_all [] s = unfold count_codepoints in refl
count_codepoints-encode_all (cp ∷ cps) s =
    omega (arith, count-encode cp (encode_all cps) s.0, count_codepoints-encode_all cps s.1)
