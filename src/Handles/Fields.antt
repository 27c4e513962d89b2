-- ===== src/Handles/Fields.antt =====
-- The fields of a handle of src/core/handles.hpp.
use astral_runtime.Base.{
  ℕ, ◌+◌, ◌*◌, ◌/◌, ◌%◌, ◌^◌, ◌<◌, bit_or, ◌≡◌, ap, ap₂, ◌∙◌, arith, u64_mod, u32_mod,
  bit_or-shifted, bit_and_mask8, bit_and_mask24, bit_and_mask32,
}
use astral_runtime.Handles.{make_handle, handle_kind, handle_index, handle_generation}

pub make_handle-eq :
    (k i g : ℕ)
    → k < 256
    → i < 0x100_0000
    → g < u32_mod
    → make_handle k i g ≡ k * 0x100_0000_0000_0000 + i * u32_mod + g
unfolding make_handle
make_handle-eq k i g hk hi hg =
    ap₂ (λ a b. bit_or (bit_or a (b * 2 ^ 32)) g) high (bit_and_mask24 i ∙ omega arith)
    ∙ ap (λ t. bit_or t g) (bit_or-shifted 56 k (i * 2 ^ 32) (omega arith))
    ∙ ap (λ t. bit_or t g) whole
    ∙ bit_or-shifted 32 (k * 0x100_0000 + i) g hg
    ∙ omega arith
  where
    high : k * 2 ^ 56 % u64_mod ≡ k * 2 ^ 56
    high = omega arith

    whole : k * 2 ^ 56 + i * 2 ^ 32 ≡ (k * 0x100_0000 + i) * 2 ^ 32
    whole = omega arith

pub handle_fields :
    (h : ℕ)
    → (handle_kind h ≡ h / 0x100_0000_0000_0000 % 256)
      × (handle_index h ≡ h / u32_mod % 0x100_0000)
      × (handle_generation h ≡ h % u32_mod)
unfolding handle_kind handle_index handle_generation
handle_fields h = (bit_and_mask8 (h / 2 ^ 56), bit_and_mask24 (h / 2 ^ 32), bit_and_mask32 h)

-- A handle of 64 bits is its three fields, and a made handle gives its fields back.
pub make_handle_fields :
    (k i g : ℕ)
    → k < 256
    → i < 0x100_0000
    → g < u32_mod
    → (handle_kind (make_handle k i g) ≡ k)
      × (handle_index (make_handle k i g) ≡ i)
      × (handle_generation (make_handle k i g) ≡ g)
make_handle_fields k i g hk hi hg =
    omega (arith, make_handle-eq k i g hk hi hg, handle_fields (make_handle k i g))

-- Making a handle from the fields of one of 64 bits gives it back.
pub make_handle_of_fields :
    (h : ℕ) → h < u64_mod → make_handle (handle_kind h) (handle_index h) (handle_generation h) ≡ h
make_handle_of_fields h small = omega (
  arith,
  make_handle-eq (handle_kind h) (handle_index h) (handle_generation h)
      (omega (arith, handle_fields h)) (omega (arith, handle_fields h))
      (omega (arith, handle_fields h)),
  handle_fields h,
)
