-- ===== src/Utf8/Decoding.antt =====
-- `validate` of src/utils/utf8.cpp accepts nothing but encoded texts: what it accepts can be decoded.
use astral_runtime.Base.{
  ℕ, zero, suc, ◌+◌, ◌*◌, ◌%◌, ◌<◌, List, [], ◌∷◌, ◌++◌, ◌≡◌, refl, ap, sym, subst, ◌∙◌, ◌↔◌, true,
  some, arith, inl, inr, Bool-cases, Option-cases,
}
use astral_runtime.Utf8.{
  next, next2, next3, next4, validate_loop, validate, is_ascii, is_lead2, is_lead3, is_lead4,
}
use astral_runtime.Utf8.Bytes.{
  is_ascii-eq, is_cont-eq, is_lead2-eq, is_lead3-eq, is_lead4-eq, point2-eq, point3-eq, point4-eq,
}
use astral_runtime.Utf8.Encoding.{IsScalar, encode, encode_all, All, validate-encode_all}

abbrev pub IsByte : ℕ → Type 0
IsByte b = b < 256

-- The input starts with the encoding of a scalar value.
abbrev pub Decodes : ℕ → List ℕ → List ℕ → Type 0
Decodes b bs rest = (cp : ℕ) × IsScalar cp × (b ∷ bs ≡ encode cp ++ rest)

next2-Decodes :
    (b1 : ℕ) (bs rest : List ℕ)
    → IsByte b1
    → All IsByte bs
    → is_lead2 b1 ≡ true
    → next2 b1 bs ≡ some rest
    → Decodes b1 bs rest
unfolding next2 encode
next2-Decodes b1 [] rest h t l e = cc
next2-Decodes b1 (b2 ∷ r) rest h t l e = (
  b1 % 32 * 64 + b2 % 64,
  ground (arith, is_lead2-eq b1 h, is_cont-eq b2 t.0, point2-eq b1 b2 h t.0),
  ground (arith, is_lead2-eq b1 h, is_cont-eq b2 t.0, point2-eq b1 b2 h t.0),
)

next3-Decodes :
    (b1 : ℕ) (bs rest : List ℕ)
    → IsByte b1
    → All IsByte bs
    → is_lead3 b1 ≡ true
    → next3 b1 bs ≡ some rest
    → Decodes b1 bs rest
unfolding next3 encode
next3-Decodes b1 [] rest h t l e = cc
next3-Decodes b1 (b2 ∷ []) rest h t l e = cc
next3-Decodes b1 (b2 ∷ b3 ∷ r) rest h t l e = (
  b1 % 16 * 4096 + b2 % 64 * 64 + b3 % 64,
  ground (
    arith,
    is_lead3-eq b1 h,
    is_cont-eq b2 t.0,
    is_cont-eq b3 t.1.0,
    point3-eq b1 b2 b3 h t.0 t.1.0,
  ),
  ground (
    arith,
    is_lead3-eq b1 h,
    is_cont-eq b2 t.0,
    is_cont-eq b3 t.1.0,
    point3-eq b1 b2 b3 h t.0 t.1.0,
  ),
)

next4-Decodes :
    (b1 : ℕ) (bs rest : List ℕ)
    → IsByte b1
    → All IsByte bs
    → is_lead4 b1 ≡ true
    → next4 b1 bs ≡ some rest
    → Decodes b1 bs rest
unfolding next4 encode
next4-Decodes b1 [] rest h t l e = cc
next4-Decodes b1 (b2 ∷ []) rest h t l e = cc
next4-Decodes b1 (b2 ∷ b3 ∷ []) rest h t l e = cc
next4-Decodes b1 (b2 ∷ b3 ∷ b4 ∷ r) rest h t l e = (
  b1 % 8 * 262144 + b2 % 64 * 4096 + b3 % 64 * 64 + b4 % 64,
  ground (
    arith,
    is_lead4-eq b1 h,
    is_cont-eq b2 t.0,
    is_cont-eq b3 t.1.0,
    is_cont-eq b4 t.1.1.0,
    point4-eq b1 b2 b3 b4 h t.0 t.1.0 t.1.1.0,
  ),
  ground (
    arith,
    is_lead4-eq b1 h,
    is_cont-eq b2 t.0,
    is_cont-eq b3 t.1.0,
    is_cont-eq b4 t.1.1.0,
    point4-eq b1 b2 b3 b4 h t.0 t.1.0 t.1.1.0,
  ),
)

next_ascii-Decodes :
    (b : ℕ) (bs rest : List ℕ) → IsByte b → is_ascii b ≡ true → bs ≡ rest → Decodes b bs rest
unfolding encode
next_ascii-Decodes b bs rest h a e =
    (b, ground (arith, is_ascii-eq b h), ground (arith, is_ascii-eq b h))

-- What `next` takes off the input is the encoding of a scalar value.
pub next-Decodes :
    (b : ℕ) (bs rest : List ℕ)
    → IsByte b
    → All IsByte bs
    → next b bs ≡ some rest
    → Decodes b bs rest
unfolding next
next-Decodes b bs rest h t e = elim (Bool-cases (is_ascii b)) [
  | inl a ↦ next_ascii-Decodes b bs rest h a (ground arith)
  | inr a ↦ elim (Bool-cases (is_lead2 b)) [
    | inl l ↦ next2-Decodes b bs rest h t l (rw (a, l) at e)
    | inr l ↦ elim (Bool-cases (is_lead3 b)) [
      | inl m ↦ next3-Decodes b bs rest h t m (rw (a, l, m) at e)
      | inr m ↦ elim (Bool-cases (is_lead4 b)) [
        | inl n ↦ next4-Decodes b bs rest h t n (rw (a, l, m, n) at e)
        | inr n ↦ absurd (ground arith)
      ]
    ]
  ]
]

All-drop_prefix : (xs ys : List ℕ) → All IsByte (xs ++ ys) → All IsByte ys
All-drop_prefix [] ys h = h
All-drop_prefix (x ∷ xs) ys h = All-drop_prefix xs ys h.1

-- The text is the encoding of a sequence of Unicode scalar values.
abbrev pub IsEncoded : List ℕ → Type 0
IsEncoded s = (cps : List ℕ) × All IsScalar cps × (s ≡ encode_all cps)

validate_loop-IsEncoded :
    (fuel : ℕ) (s : List ℕ) → All IsByte s → validate_loop fuel s ≡ true → IsEncoded s
unfolding validate_loop encode_all
validate_loop-IsEncoded fuel [] h e = ([], tt, refl)
validate_loop-IsEncoded zero (b ∷ bs) h e = cc
validate_loop-IsEncoded (suc fuel) (b ∷ bs) h e = elim (Option-cases (next b bs)) [
  | inl n ↦ absurd (ground arith)
  | inr (rest, n) ↦
      let (cp, sc, d) = next-Decodes b bs rest h.0 h.1 n in
      let (cps, scs, r) =
        validate_loop-IsEncoded fuel rest
          (All-drop_prefix (encode cp) rest (subst (All IsByte) d h)) (ground arith) in
      (cp ∷ cps, (sc, scs), d ∙ ap (λ t. encode cp ++ t) r)
]

-- `validate` accepts exactly the encodings of sequences of Unicode scalar values: no overlong form,
-- no surrogate, nothing above U+10FFFF, nothing cut short, and every text that is none of these.
pub validate_iff : (s : List ℕ) → All IsByte s → (validate s ≡ true) ↔ IsEncoded s
unfolding validate
validate_iff s h = (
  validate_loop-IsEncoded _ s h,
  λ (cps, scs, e). subst (λ t. validate t ≡ true) (sym e) (validate-encode_all cps scs),
)
