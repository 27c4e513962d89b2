-- ===== src/Utf8/Vector/Laws.antt =====
-- The vector paths of src/utils/utf8.cpp against the scalar ones.
use astral_runtime.Base.{
  ℕ, zero, suc, ◌+◌, ◌-◌, ◌≤◌, ◌<◌, List, [], ◌∷◌, ◌++◌, Bool, true, false, some, ◌≡◌, refl, arith,
  leb, length, take, drop, get_elem?, length-drop, length-take, take-append-drop, ◌∙◌, sym, ap, inl,
  inr, Bool-cases,
}
use astral_runtime.Utf8.{is_ascii, is_cont, next, validate, validate_loop, count_codepoints}
use astral_runtime.Utf8.Bytes.{is_ascii-eq, is_cont-eq, is_lead2-eq, is_lead3-eq, is_lead4-eq}
use astral_runtime.Utf8.Vector.{
  all_ascii, count_cont, count_start, avx2_loop, validate_avx2, neon_loop, validate_neon, Target,
  x86_64, neon, other, validate_simd, count_chunks, count_simd,
}

validate-ascii : (b : ℕ) (bs : List ℕ) → is_ascii b ≡ true → validate (b ∷ bs) ≡ validate bs
unfolding validate validate_loop next
validate-ascii b bs a = rw (a, validate_loop)

-- Leading ASCII bytes do not matter to `validate`.
validate-drop :
    (n : ℕ) (s : List ℕ) → all_ascii (take n s) ≡ true → validate s ≡ validate (drop n s)
unfolding all_ascii
validate-drop zero s h = refl
validate-drop (suc n) [] h = refl
validate-drop (suc n) (b ∷ bs) h =
    validate-ascii b bs (ground arith) ∙ validate-drop n bs (ground arith)

avx2_loop-eq : (fuel : ℕ) (s : List ℕ) → length s < fuel → avx2_loop fuel s ≡ validate s
unfolding avx2_loop
avx2_loop-eq zero s h = absurd (omega arith)
avx2_loop-eq (suc fuel) s h = elim (Bool-cases (leb 32 (length s))) [
  | inr e ↦ rw (e, avx2_loop)
  | inl e ↦ elim (Bool-cases (all_ascii (take 32 s))) [
    | inr a ↦ rw (e, a, avx2_loop)
    | inl a ↦
        rw (e, a, avx2_loop)
          (avx2_loop-eq fuel (drop 32 s) (ground (arith, length-drop 32 s))
            ∙ sym (validate-drop 32 s a))
  ]
]

-- The AVX2 path gives what the scalar loop gives, on every input.
pub validate_avx2-eq : (s : List ℕ) → validate_avx2 s ≡ validate s
unfolding validate_avx2
validate_avx2-eq s = ground (arith, avx2_loop-eq (suc (length s)) s (omega arith))

-- Whatever the processor reports, the dispatch gives what the scalar loop gives, unless it takes the
-- NEON path.
pub validate_simd-eq :
    (t : Target) (has : Bool) (s : List ℕ)
    → (t ≡ neon → has ≡ false)
    → validate_simd t has s ≡ validate s
unfolding validate_simd
validate_simd-eq x86_64 has s h = ground (arith, validate_avx2-eq s)
validate_simd-eq neon has s h = rw (h refl)
validate_simd-eq other has s h = refl

neon_loop_sound : (fuel : ℕ) (s : List ℕ) → neon_loop fuel s ≡ true → validate s ≡ true
unfolding neon_loop
neon_loop_sound zero s h = cc
neon_loop_sound (suc fuel) s h = elim (Bool-cases (leb 16 (length s))) [
  | inr e ↦ rw (e, neon_loop) at h
  | inl e ↦ elim (Bool-cases (all_ascii (take 16 s))) [
    | inr a ↦ ground arith
    | inl a ↦ validate-drop 16 s a ∙ neon_loop_sound fuel (drop 16 s) (rw (e, a, neon_loop) at h)
  ]
]

-- What the NEON path accepts is valid.
pub validate_neon_sound : (s : List ℕ) → validate_neon s ≡ true → validate s ≡ true
unfolding validate_neon
validate_neon_sound s h = ground (arith, neon_loop_sound (suc (length s)) s)

validate-cont : (c : ℕ) (bs : List ℕ) → c < 256 → is_cont c ≡ true → validate (c ∷ bs) ≡ false
unfolding validate validate_loop next
validate-cont c bs h e =
    ground
      (arith, is_cont-eq c h, is_ascii-eq c h, is_lead2-eq c h, is_lead3-eq c h, is_lead4-eq c h)

drop-get_elem :
    (n : ℕ) (s : List ℕ) (c : ℕ) → get_elem? s n ≡ some c → drop n s ≡ c ∷ drop (suc n) s
drop-get_elem zero [] c e = cc
drop-get_elem zero (x ∷ s) c e = ground arith
drop-get_elem (suc n) [] c e = cc
drop-get_elem (suc n) (x ∷ s) c e = drop-get_elem n s c e

-- The NEON path refuses valid text: where a sequence crosses the end of the first 16 bytes of a text of
-- 64 bytes or more, so that byte 16 is a continuation, the answer is false whatever `validate` says.
pub validate_neon_rejects :
    (s : List ℕ) (c : ℕ)
    → 64 ≤ length s
    → all_ascii (take 16 s) ≡ false
    → get_elem? s 16 ≡ some c
    → c < 256
    → is_cont c ≡ true
    → validate_neon s ≡ false
unfolding validate_neon neon_loop
validate_neon_rejects s c len a g h e =
    ground (arith, drop-get_elem 16 s c g, validate-cont c (drop 17 s) h e)

count_codepoints-append :
    (xs ys : List ℕ) → count_codepoints (xs ++ ys) ≡ count_codepoints xs + count_codepoints ys
unfolding count_codepoints
count_codepoints-append [] ys = omega arith
count_codepoints-append (x ∷ xs) ys = ground (arith, count_codepoints-append xs ys)

count_cont-codepoints : (xs : List ℕ) → count_codepoints xs + count_cont xs ≡ length xs
unfolding count_codepoints count_cont
count_cont-codepoints [] = omega arith
count_cont-codepoints (x ∷ xs) = ground (arith, count_cont-codepoints xs)

count_start-codepoints : (xs : List ℕ) → count_start xs ≡ count_codepoints xs
unfolding count_codepoints count_start
count_start-codepoints [] = omega arith
count_start-codepoints (x ∷ xs) = ground (arith, count_start-codepoints xs)

count_chunks-eq :
    (width : ℕ) (chunk : List ℕ → ℕ)
    → ((xs : List ℕ) → length xs ≡ width → chunk xs ≡ count_codepoints xs)
    → (fuel : ℕ) (s : List ℕ) → count_chunks width chunk fuel s ≡ count_codepoints s
unfolding count_chunks
count_chunks-eq width chunk lanes zero s = refl
count_chunks-eq width chunk lanes (suc fuel) s = elim (Bool-cases (leb width (length s))) [
  | inr e ↦ rw (e, count_chunks)
  | inl e ↦
      rw (e, count_chunks)
        (omega (
          arith,
          lanes (take width s) (ground (arith, length-take width s)),
          count_chunks-eq width chunk lanes fuel (drop width s),
          count_codepoints-append (take width s) (drop width s),
          ap count_codepoints (take-append-drop width s),
        ))
]

-- Whatever the target and the processor, `count_codepoints` counts what its scalar loop counts.
pub count_simd-eq : (t : Target) (has : Bool) (s : List ℕ) → count_simd t has s ≡ count_codepoints s
unfolding count_simd
count_simd-eq x86_64 has s = ground (
  arith,
  count_chunks-eq 32 (λ c. 32 - count_cont c) (λ xs e. omega (arith, count_cont-codepoints xs))
      (length s) s,
)
count_simd-eq neon has s =
    ground (arith, count_chunks-eq 16 count_start (λ xs e. count_start-codepoints xs) (length s) s)
count_simd-eq other has s = refl
