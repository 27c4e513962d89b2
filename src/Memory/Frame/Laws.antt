-- ===== src/Memory/Frame/Laws.antt =====
-- What `alloc` of src/memory/frame_allocator.hpp returns.
use astral_runtime.Base.{
  ℕ, zero, suc, ◌/◌, ◌⊎◌, ap₂, ◌+◌, ◌-◌, ◌*◌, ◌%◌, ◌^◌, ◌≤◌, ◌<◌, bit_and, Option, some, none, ◌≡◌,
  refl, ap, sym, ◌∙◌, inl, inr, arith, ltb, Bool-cases, false, add64, sub64, u64_mod,
  bit_and-round_down, two_pow_positive,
}
use native.Mathlib.Nat.{
  pow-suc, mod-lt, div-add-mod, mul-mod_right, mul-le-mul_left, lt_of_mul-lt-mul_left,
}
use astral_runtime.Memory.Frame.{FrameAllocator, align_mask, aligned_offset, alloc}

-- The region lies below 2^64, with room to round an address in it up to `2 ^ bits`.
pub record IsValid (bits : ℕ) (f : FrameAllocator) : Type 0 where
  pub used_fits : f.used ≤ f.capacity
  pub high : ℕ
  pub word : bits + high ≡ 64
  pub region : f.base + f.capacity + 2 ^ bits ≤ u64_mod

-- The next multiple of the alignment, at or after the current address.
pub round_up : ℕ → ℕ → ℕ
round_up align a = (a + align - 1) - (a + align - 1) % align

round_up-bounds :
    (align a : ℕ) → 0 < align → (a ≤ round_up align a) × (round_up align a < a + align)
unfolding round_up
round_up-bounds align a pos = omega (arith, mod-lt (a + align - 1) pos, pos)

two_pow-add : (a b : ℕ) → 2 ^ a * 2 ^ b ≡ 2 ^ (a + b)
two_pow-add zero b = omega (arith, ap (λ t. 2 ^ t) (zero_plus b))
  where
    zero_plus : (n : ℕ) → 0 + n ≡ n
    zero_plus n = omega arith
two_pow-add (suc a) b =
    ap (λ t. t * 2 ^ b) (pow-suc 2 a)
    ∙ regroup
    ∙ ap (λ t. 2 * t) (two_pow-add a b)
    ∙ sym twice
    ∙ ap (λ t. 2 ^ t) shift
  where
    regroup : 2 ^ a * 2 * 2 ^ b ≡ 2 * (2 ^ a * 2 ^ b)
    regroup = ground arith

    twice : 2 ^ suc (a + b) ≡ 2 * 2 ^ (a + b)
    twice = omega (arith, pow-suc 2 (a + b))

    shift : suc (a + b) ≡ suc a + b
    shift = omega arith

mul_pred : (x y : ℕ) → 0 < y → x * (y - 1) + x ≡ x * y
mul_pred x zero pos = absurd (omega (arith, pos))
mul_pred x (suc y) pos = ap (λ t. x * t + x) pred ∙ omega arith
  where
    pred : suc y - 1 ≡ y
    pred = omega arith

mask_round :
    (bits high a : ℕ)
    → bits + high ≡ 64
    → a < u64_mod
    → bit_and a (align_mask (2 ^ bits)) ≡ a - a % 2 ^ bits
mask_round bits high a e small =
    ap (bit_and a) mask ∙ bit_and-round_down bits high a (omega (arith, whole, small))
  where
    whole : 2 ^ bits * 2 ^ high ≡ u64_mod
    whole = two_pow-add bits high ∙ ap (λ t. 2 ^ t) e

    mask : align_mask (2 ^ bits) ≡ 2 ^ bits * (2 ^ high - 1)
    mask = omega (
      arith,
      whole,
      mul_pred (2 ^ bits) (2 ^ high) (two_pow_positive high),
      two_pow_positive bits,
    )

aligned_offset-eq :
    (bits : ℕ) (f : FrameAllocator)
    → IsValid bits f
    → aligned_offset f (2 ^ bits) ≡ round_up (2 ^ bits) (f.base + f.used) - f.base
unfolding round_up
aligned_offset-eq bits f v =
    ap (λ a. sub64 (bit_and a (align_mask (2 ^ bits))) f.base) end
    ∙ ap (λ a. sub64 a f.base)
        (mask_round bits v.high (f.base + f.used + 2 ^ bits - 1) v.word (omega (arith, v)))
    ∙ last
  where
    end : sub64 (add64 (add64 f.base f.used) (2 ^ bits)) 1 ≡ f.base + f.used + 2 ^ bits - 1
    end = omega (arith, v, two_pow_positive bits)

    last :
        sub64 (f.base + f.used + 2 ^ bits - 1 - (f.base + f.used + 2 ^ bits - 1) % 2 ^ bits) f.base
        ≡ f.base + f.used + 2 ^ bits - 1 - (f.base + f.used + 2 ^ bits - 1) % 2 ^ bits - f.base
    last = omega (
      arith,
      v,
      two_pow_positive bits,
      mod-lt (f.base + f.used + 2 ^ bits - 1) (two_pow_positive bits),
    )

round_up-multiple : (align a : ℕ) → 0 < align → round_up align a % align ≡ 0
unfolding round_up
round_up-multiple align a pos =
    ap (λ t. t % align) (omega (arith, div-add-mod (a + align - 1) align))
    ∙ mul-mod_right align ((a + align - 1) / align)

-- Where the rounded address leaves room for the size, the block begins
-- there, its end is the new end of what is used; otherwise nothing is returned or changed.
pub alloc-cases :
    (bits : ℕ) (f : FrameAllocator) (size : ℕ)
    → IsValid bits f
    → size + f.capacity + 2 ^ bits < u64_mod
    → let at = round_up (2 ^ bits) (f.base + f.used) in
      ((at + size ≤ f.base + f.capacity)
        × (alloc f size (2 ^ bits) ≡ (some at, record f { used = at + size - f.base })))
      ⊎ ((f.base + f.capacity < at + size) × (alloc f size (2 ^ bits) ≡ (none, f)))
unfolding alloc
alloc-cases bits f size v no_overflow =
    elim (Bool-cases (ltb f.capacity (add64 (aligned_offset f (2 ^ bits)) size))) [
      | inl over ↦ inr (ground (arith, over, offset, bounds, no_overflow, v), rw (over) refl)
      | inr within ↦ inl (
        ground (arith, within, offset, bounds, no_overflow, v),
        rw (within) (
            ap₂ (λ a b. (some a, record f { used = b }))
              (omega (arith, offset, bounds, no_overflow, v))
              (omega (arith, offset, bounds, no_overflow, v))),
      )
    ]
  where
    offset : aligned_offset f (2 ^ bits) ≡ round_up (2 ^ bits) (f.base + f.used) - f.base
    offset = aligned_offset-eq bits f v

    bounds :
        (f.base + f.used ≤ round_up (2 ^ bits) (f.base + f.used))
        × (round_up (2 ^ bits) (f.base + f.used) < f.base + f.used + 2 ^ bits)
    bounds = round_up-bounds (2 ^ bits) (f.base + f.used) (two_pow_positive bits)

-- No multiple of the alignment lies between an address and its rounding.
round_up-least : (align a b : ℕ) → 0 < align → a ≤ b → b % align ≡ 0 → round_up align a ≤ b
unfolding round_up
round_up-least align a b pos le multiple =
    elim (Bool-cases (ltb b (a + align - 1 - (a + align - 1) % align))) [
      | inr not_below ↦ ltb-false not_below
      | inl below ↦ absurd (beyond (ground (arith, below)))
    ]
  where
    quotient : ℕ
    quotient = (a + align - 1) / align

    whole : align * quotient ≡ a + align - 1 - (a + align - 1) % align
    whole = omega (arith, div-add-mod (a + align - 1) align)

    b_whole : align * (b / align) ≡ b
    b_whole = omega (arith, div-add-mod b align, multiple)

    ltb-false :
        ltb b (a + align - 1 - (a + align - 1) % align) ≡ false
        → a + align - 1 - (a + align - 1) % align ≤ b
    ltb-false h = ground (arith, h)

    next : (q : ℕ) → align * suc q ≡ align * q + align
    next q = omega arith

    beyond : b < a + align - 1 - (a + align - 1) % align → ⊥
    beyond below = omega (
      arith,
      below,
      le,
      pos,
      whole,
      b_whole,
      next (b / align),
      mul-le-mul_left align (
          lt_of_mul-lt-mul_left align {m = b / align} {n = quotient}
            (omega (arith, below, whole, b_whole))),
    )

-- What is right of a call: a block is aligned, begins at or after what was used, ends in the region and
-- at what is used now; and where none is returned, nothing changes and no aligned address fits.
abbrev pub IsAllocated : FrameAllocator → ℕ → ℕ → Option ℕ × FrameAllocator → Type 0
IsAllocated f size align (some at, f') =
    (at % align ≡ 0)
    × (f.base + f.used ≤ at)
    × (at + size ≤ f.base + f.capacity)
    × (f' ≡ record f { used = at + size - f.base })
IsAllocated f size align (none, f') =
    (f' ≡ f) × ((at : ℕ) → f.base + f.used ≤ at → at % align ≡ 0 → f.base + f.capacity < at + size)

-- The block that `alloc` returns is aligned, begins at or after what was used, ends in the region and is
-- what is used now; it returns null, and changes nothing, only where no aligned address leaves room. The
-- alignment is a power of two, the end of the region and the alignment add up to 2^64 at most, and the size, the
-- capacity and the alignment add up to less than 2^64.
pub alloc-IsAllocated :
    (bits : ℕ) (f : FrameAllocator) (size : ℕ)
    → IsValid bits f
    → size + f.capacity + 2 ^ bits < u64_mod
    → IsAllocated f size (2 ^ bits) (alloc f size (2 ^ bits))
alloc-IsAllocated bits f size v no_overflow = elim (alloc-cases bits f size v no_overflow) [
  | inl (fits, e) ↦ rw (e) (
    round_up-multiple (2 ^ bits) (f.base + f.used) (two_pow_positive bits),
    (round_up-bounds (2 ^ bits) (f.base + f.used) (two_pow_positive bits)).0,
    fits,
    refl,
  )
  | inr (over, e) ↦ rw (e) (
    refl,
    λ at le multiple. omega (
      arith,
      over,
      round_up-least (2 ^ bits) (f.base + f.used) at (two_pow_positive bits) le multiple,
    ),
  )
]

-- A size near 2^64 makes the end wrap: with an alignment of 1, the call for all but the used bytes of
-- the address space returns a block, and nothing is in use after it.
pub alloc_wraps :
    (f : FrameAllocator)
    → 0 < f.used
    → f.used ≤ f.capacity
    → f.base + f.capacity < u64_mod
    → alloc f (u64_mod - f.used) 1 ≡ (some (f.base + f.used), record f { used = 0 })
unfolding alloc
alloc_wraps f some_used fits region = rw (offset) (
    rw (within) (
      ap₂ (λ a b. (some a, record f { used = b })) (omega (arith, region, fits))
        (omega (arith, region, fits, some_used))))
  where
    plain : round_up 1 (f.base + f.used) - f.base ≡ f.used
    plain = omega (arith, round_up-bounds 1 (f.base + f.used) (omega arith))

    offset : aligned_offset f 1 ≡ f.used
    offset =
        aligned_offset-eq 0 f
          (record { used_fits = fits; high = 64; word = refl; region = omega (arith, region) })
        ∙ plain

    within : ltb f.capacity (add64 f.used (u64_mod - f.used)) ≡ false
    within = ground (arith, fits, region, some_used)
