-- ===== src/Chunking/Emit/Tokens.antt =====
-- `token_chunk_count` and `token_chunk_ranges` of src/inference/chunking.cpp.
use astral_runtime.Base.{
  ℕ, zero, suc, ◌+◌, ◌-◌, ◌*◌, ◌/◌, ◌≤◌, ◌<◌, List, [], ◌∷◌, true, some, ◌≡◌, refl, ap, ◌∙◌, subst,
  arith, ltb, if◌then◌else◌, add32, sub32, u32_mod,
}
use native.Mathlib.Nat.{div-add-mod, mod-lt}
use native.Mathlib.Decide.{dec_le}
use astral_runtime.Base.Span.{ok}
use astral_runtime.Chunking.{ChunkerDesc, ChunkRange, token, desc_valid, fill_token_range}
use astral_runtime.Chunking.Emit.{
  finish, token_chunk_count_fast, token_loop, emit_token_chunks, token_chunk_ranges, is_token,
}
use astral_runtime.Chunking.Emit.Progress.{HasUnits}
use astral_runtime.Chunking.Emit.Counts.{desc_valid-HasUnits}

-- Windows of `max_units` tokens from `b` on, each starting `overlap_units` before the end of the one
-- above it, the last one ending with the tokens and starting before their end.
abbrev pub Windows : ChunkerDesc → ℕ → ℕ → List ChunkRange → Type 0
Windows d n b [] = ⊥
Windows d n b (r ∷ []) = (r.token_begin ≡ b) × (r.token_end ≡ n) × (b < n) × (n ≤ b + d.max_units)
Windows d n b (r ∷ s ∷ rs) =
    (r.token_begin ≡ b)
    × (r.token_end ≡ b + d.max_units)
    × (b + d.max_units < n)
    × Windows d n (b + d.max_units - d.overlap_units) (s ∷ rs)

mul-pred : (r s : ℕ) → 0 < r → r * s ≡ (r - 1) * s + s
mul-pred zero s h = absurd (omega arith)
mul-pred (suc r) s h = omega (arith, ap (λ t. t * s) same)
  where
    same : suc r - 1 ≡ r
    same = omega arith

div_bounds : (x s : ℕ) → 0 < s → (x / s * s ≤ x) × (x < x / s * s + s) × (x / s ≤ x)
div_bounds x s h = (
  omega (arith, div-add-mod x s),
  omega (arith, div-add-mod x s, mod-lt x h),
  grind (arith, div-add-mod x s),
)

-- The count is the least number of windows that reach the end.
token_count-least :
    (d : ChunkerDesc) (n : ℕ)
    → HasUnits d
    → n < u32_mod
    → 0 < n
    → (c : ℕ) × (token_chunk_count_fast d n ≡ suc c)
      × (n ≤ c * (d.max_units - d.overlap_units) + d.max_units)
      × (0 < c → (c - 1) * (d.max_units - d.overlap_units) + d.max_units < n)
unfolding token_chunk_count_fast
token_count-least d n uo small some_tokens = elim (dec_le n d.max_units) [
  | yes one ↦ (0, ground arith, omega arith, λ h. absurd (omega arith))
  | no more ↦ (
    (n - d.overlap_units - 1) / stride,
    ground (arith, ap (λ t. t / stride) (same (omega arith)), bounds, uo.overlap_small),
    omega (arith, bounds, uo.overlap_small),
    λ h.
        omega
          (arith, bounds, mul-pred ((n - d.overlap_units - 1) / stride) stride h, uo.overlap_small),
  )
]
  where
    stride : ℕ
    stride = d.max_units - d.overlap_units

    bounds :
        ((n - d.overlap_units - 1) / stride * stride ≤ n - d.overlap_units - 1)
        × (n - d.overlap_units - 1 < (n - d.overlap_units - 1) / stride * stride + stride)
        × ((n - d.overlap_units - 1) / stride ≤ n - d.overlap_units - 1)
    bounds = div_bounds (n - d.overlap_units - 1) stride (omega (arith, uo.overlap_small))

    same : d.max_units < n → sub32 (add32 (n - d.max_units) stride) 1 ≡ n - d.overlap_units - 1
    same h = omega (arith, uo.overlap_small)

token_loop-Windows :
    (d : ChunkerDesc) (n r id b : ℕ)
    → HasUnits d
    → n + d.max_units ≤ u32_mod
    → b < n
    → n ≤ b + r * (d.max_units - d.overlap_units) + d.max_units
    → (0 < r → b + (r - 1) * (d.max_units - d.overlap_units) + d.max_units < n)
    → Windows d n b (token_loop d n (suc r) id b)
unfolding token_loop fill_token_range
token_loop-Windows d n zero id b uo small inside reach least = ground (arith, uo.overlap_small)
token_loop-Windows d n (suc r) id b uo small inside reach least = (
  refl,
  ground (arith, far),
  far,
  subst
      (λ k.
        Windows d n k (token_loop d n (suc r) (id + 1) (add32 b (d.max_units - d.overlap_units))))
      next
      (token_loop-Windows d n r (id + 1) (add32 b (d.max_units - d.overlap_units)) uo small
        (omega (arith, next, far, uo.overlap_small)) (omega (arith, next, uo.overlap_small))
        (λ h. omega (
          arith,
          next,
          uo.overlap_small,
          least (omega arith),
          mul-pred r (d.max_units - d.overlap_units) h,
          shift,
        ))),
)
  where
    shift : (suc r - 1) * (d.max_units - d.overlap_units) ≡ r * (d.max_units - d.overlap_units)
    shift = ap (λ t. t * (d.max_units - d.overlap_units)) (omega arith)

    far : b + d.max_units < n
    far = omega (arith, least (omega arith))

    next : add32 b (d.max_units - d.overlap_units) ≡ b + d.max_units - d.overlap_units
    next = omega (arith, far, uo.overlap_small)

valid_token :
    (d : ChunkerDesc) → desc_valid (some d) ≡ true → d.mode ≡ token → is_token (some d) ≡ true
valid_token d v m = ground arith

-- `token_chunk_ranges` with room for every window writes exactly the windows: each of at most
-- `max_units` tokens, each starting `overlap_units` before the end of the one above it, from token 0 to
-- the end, where the tokens and one window more are at most 2 ^ 32.
pub token_chunk_ranges-Windows :
    (d : ChunkerDesc) (token_count slots : ℕ)
    → desc_valid (some d) ≡ true
    → d.mode ≡ token
    → token_count + d.max_units ≤ u32_mod
    → 0 < token_count
    → token_chunk_count_fast d token_count ≤ slots
    → let r = token_chunk_ranges (some d) token_count (some slots) slots true in
      (r.code ≡ ok) × Windows d token_count 0 r.written
unfolding token_chunk_ranges emit_token_chunks finish
token_chunk_ranges-Windows d n slots v m small some_tokens fits =
    let uo = desc_valid-HasUnits d v (omega arith) in
    let (c, count, reach, least) = token_count-least d n uo (omega arith) some_tokens in
    let tail =
      token_loop-Windows d n c 0 0 uo small some_tokens (omega arith)
        (λ h. omega (arith, least h)) in
    rw (v, valid_token d v m)
      (ground arith, subst (λ k. Windows d n 0 (token_loop d n k 0 0)) (ground arith) tail)

positive_factor : (c s n m : ℕ) → n ≤ c * s + m → m < n → 0 < c
positive_factor zero s n m h k = absurd (omega arith)
positive_factor (suc c) s n m h k = omega arith

-- Where a window would end beyond 2 ^ 32 its end wraps: the second range ends before it begins.
pub token_chunk_ranges_wrap :
    (d : ChunkerDesc) (token_count : ℕ)
    → desc_valid (some d) ≡ true
    → d.mode ≡ token
    → token_count < u32_mod
    → d.max_units < token_count
    → u32_mod ≤ (d.max_units - d.overlap_units) + d.max_units
    → (r s : ChunkRange) × ((token_chunk_ranges (some d) token_count (some 2) 2 true).written
        ≡ r ∷ s ∷ [])
      × (s.token_end < s.token_begin)
unfolding token_chunk_ranges emit_token_chunks finish
token_chunk_ranges_wrap d n v m small more wraps =
    let uo = desc_valid-HasUnits d v (omega arith) in
    let (c, count, reach, least) = token_count-least d n uo small (omega arith) in
    let stride = d.max_units - d.overlap_units in
    let positive : 0 < c = positive_factor c stride n d.max_units reach more in
    let two : (if ltb 2 (token_chunk_count_fast d n) then 2 else token_chunk_count_fast d n) ≡ 2 =
      ground (arith, count, positive) in
    (
      fill_token_range d 0 0 (if ltb n (add32 0 d.max_units) then n else add32 0 d.max_units),
      fill_token_range d (0 + 1) (add32 0 stride) (
          if ltb n (add32 (add32 0 stride) d.max_units)
          then n
          else add32 (add32 0 stride) d.max_units),
      rw (v, valid_token d v m) (ap (λ k. token_loop d n k 0 0) two ∙ (unfold token_loop in refl)),
      unfold fill_token_range in ground (arith, uo.overlap_small),
    )
