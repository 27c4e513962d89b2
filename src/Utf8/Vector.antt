-- ===== src/Utf8/Vector.antt =====
-- The vector paths of src/utils/utf8.cpp: `validate_avx2`, `validate_neon`, the loops of
-- `count_codepoints`, and the choice between them. A vector register is the list of its lanes.
pub mod Laws
use astral_runtime.Base.{
  ℕ, zero, suc, ◌+◌, ◌-◌, List, [], ◌∷◌, Bool, true, false, not, ◌&&◌, leb, ltb, if◌then◌else◌,
  length, take, drop,
}
use astral_runtime.Utf8.{is_ascii, is_cont, validate, count_codepoints}

-- The sign mask of the lanes is zero.
unfoldable pub all_ascii : List ℕ → Bool
all_ascii [] = true
all_ascii (b ∷ bs) = is_ascii b && all_ascii bs

-- The population count of the continuation mask.
pub count_cont : List ℕ → ℕ
count_cont [] = 0
count_cont (b ∷ bs) = if is_cont b then count_cont bs + 1 else count_cont bs

-- The pairwise sums of the lanes that are no continuation.
pub count_start : List ℕ → ℕ
count_start [] = 0
count_start (b ∷ bs) = (if is_cont b then 0 else 1) + count_start bs

pub avx2_loop : ℕ → List ℕ → Bool
avx2_loop zero s = false
avx2_loop (suc fuel) s = elim (leb 32 (length s)) [
  | true ↦ elim (all_ascii (take 32 s)) [ true ↦ avx2_loop fuel (drop 32 s) | false ↦ validate s ]
  | false ↦ validate s
]

pub validate_avx2 : List ℕ → Bool
validate_avx2 s = if ltb (length s) 64 then validate s else avx2_loop (suc (length s)) s

unfoldable pub neon_loop : ℕ → List ℕ → Bool
neon_loop zero s = false
neon_loop (suc fuel) s = elim (leb 16 (length s)) [
  | true ↦ elim (all_ascii (take 16 s)) [
    | true ↦ neon_loop fuel (drop 16 s)
    | false ↦ if not (validate s) then false else validate (drop 16 s)
  ]
  | false ↦ validate s
]

unfoldable pub validate_neon : List ℕ → Bool
validate_neon s = if ltb (length s) 64 then validate s else neon_loop (suc (length s)) s

-- What the build targets and what the processor reports.
pub data Target : Type 0 where
  x86_64 neon other : Target

pub validate_simd : Target → Bool → List ℕ → Bool
validate_simd x86_64 has s = if has then validate_avx2 s else validate s
validate_simd neon has s = if has then validate_neon s else validate s
validate_simd other has s = validate s

-- A vector loop of `count_codepoints` over chunks of `width` lanes, and its scalar rest.
pub count_chunks : ℕ → (List ℕ → ℕ) → ℕ → List ℕ → ℕ
count_chunks width chunk zero s = count_codepoints s
count_chunks width chunk (suc fuel) s = elim (leb width (length s)) [
  | true ↦ chunk (take width s) + count_chunks width chunk fuel (drop width s)
  | false ↦ count_codepoints s
]

pub count_simd : Target → Bool → List ℕ → ℕ
count_simd x86_64 has s =
    if has && leb 32 (length s)
    then count_chunks 32 (λ c. 32 - count_cont c) (length s) s
    else count_codepoints s
count_simd neon has s =
    if has && leb 16 (length s)
    then count_chunks 16 count_start (length s) s
    else count_codepoints s
count_simd other has s = count_codepoints s
