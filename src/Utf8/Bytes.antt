-- ===== src/Utf8/Bytes.antt =====
-- The mask tests and the code points of src/utils/utf8.cpp as ranges and arithmetic, over bytes.
use astral_runtime.Base.{
  ℕ, ◌+◌, ◌*◌, ◌%◌, ◌^◌, ◌<◌, bit_and, bit_or, ◌≡◌, refl, Bool, true, ◌&&◌, not, arith, ltb, leb,
  ◌==◌, ==_iff, if◌then◌else◌, all_below, all_below-true, bit_or-shifted,
}
use astral_runtime.Utf8.{is_ascii, is_cont, is_lead2, is_lead3, is_lead4, point2, point3, point4}

abbrev same : Bool → Bool → Bool
same a b = if a then b else not b

same-eq : (a b : Bool) → same a b ≡ true → a ≡ b
same-eq a b h = ground arith

-- A test on bytes that agrees with another on all 256 values.
by_table :
    (p q : ℕ → Bool) → all_below 256 (λ b. same (p b) (q b)) ≡ true → (b : ℕ) → b < 256 → p b ≡ q b
by_table p q t b h = same-eq (p b) (q b) (all_below-true 256 (λ c. same (p c) (q c)) b t h)

pub is_ascii-eq : (b : ℕ) → b < 256 → is_ascii b ≡ ltb b 0x80
unfolding is_ascii all_below
is_ascii-eq = by_table is_ascii (λ b. ltb b 0x80) refl

pub is_cont-eq : (b : ℕ) → b < 256 → is_cont b ≡ (leb 0x80 b && ltb b 0xC0)
unfolding is_cont all_below
is_cont-eq = by_table is_cont (λ b. leb 0x80 b && ltb b 0xC0) refl

pub is_lead2-eq : (b : ℕ) → b < 256 → is_lead2 b ≡ (leb 0xC0 b && ltb b 0xE0)
unfolding is_lead2 all_below
is_lead2-eq = by_table is_lead2 (λ b. leb 0xC0 b && ltb b 0xE0) refl

pub is_lead3-eq : (b : ℕ) → b < 256 → is_lead3 b ≡ (leb 0xE0 b && ltb b 0xF0)
unfolding is_lead3 all_below
is_lead3-eq = by_table is_lead3 (λ b. leb 0xE0 b && ltb b 0xF0) refl

pub is_lead4-eq : (b : ℕ) → b < 256 → is_lead4 b ≡ (leb 0xF0 b && ltb b 0xF8)
unfolding is_lead4 all_below
is_lead4-eq = by_table is_lead4 (λ b. leb 0xF0 b && ltb b 0xF8) refl

-- A mask of the low bits of a byte.
low_bits :
    (m k : ℕ)
    → all_below 256 (λ b. bit_and b m == b % k) ≡ true
    → (b : ℕ) → b < 256
    → bit_and b m ≡ b % k
low_bits m k t b h =
    (==_iff (bit_and b m) (b % k)).0 (all_below-true 256 (λ c. bit_and c m == c % k) b t h)

low3 : (b : ℕ) → b < 256 → bit_and b 0x07 ≡ b % 8
unfolding all_below
low3 = low_bits 0x07 8 refl

low4 : (b : ℕ) → b < 256 → bit_and b 0x0F ≡ b % 16
unfolding all_below
low4 = low_bits 0x0F 16 refl

low5 : (b : ℕ) → b < 256 → bit_and b 0x1F ≡ b % 32
unfolding all_below
low5 = low_bits 0x1F 32 refl

low6 : (b : ℕ) → b < 256 → bit_and b 0x3F ≡ b % 64
unfolding all_below
low6 = low_bits 0x3F 64 refl

-- Two fields joined by `|`, the lower of `k` bits.
join : (k q r n : ℕ) → n ≡ q * 2 ^ k → r < 2 ^ k → bit_or n r ≡ n + r
join k q r n e h = rw e (bit_or-shifted k q r h)

pub point2-eq : (b1 b2 : ℕ) → b1 < 256 → b2 < 256 → point2 b1 b2 ≡ b1 % 32 * 64 + b2 % 64
unfolding point2
point2-eq b1 b2 h1 h2 =
    rw (low5 b1 h1, low6 b2 h2) (join 6 (b1 % 32) (b2 % 64) _ (omega arith) (omega arith))

pub point3-eq :
    (b1 b2 b3 : ℕ)
    → b1 < 256
    → b2 < 256
    → b3 < 256
    → point3 b1 b2 b3 ≡ b1 % 16 * 4096 + b2 % 64 * 64 + b3 % 64
unfolding point3
point3-eq b1 b2 b3 h1 h2 h3 =
    rw
      (
        low4 b1 h1,
        low6 b2 h2,
        low6 b3 h3,
        join 12 (b1 % 16) (b2 % 64 * 64) (b1 % 16 * 4096) refl (omega arith),
      )
      (join 6 (b1 % 16 * 64 + b2 % 64) (b3 % 64) _ (omega arith) (omega arith))

pub point4-eq :
    (b1 b2 b3 b4 : ℕ)
    → b1 < 256
    → b2 < 256
    → b3 < 256
    → b4 < 256
    → point4 b1 b2 b3 b4 ≡ b1 % 8 * 262144 + b2 % 64 * 4096 + b3 % 64 * 64 + b4 % 64
unfolding point4
point4-eq b1 b2 b3 b4 h1 h2 h3 h4 =
    rw
      (
        low3 b1 h1,
        low6 b2 h2,
        low6 b3 h3,
        low6 b4 h4,
        join 18 (b1 % 8) (b2 % 64 * 4096) (b1 % 8 * 262144) refl (omega arith),
        join 12 (b1 % 8 * 64 + b2 % 64) (b3 % 64 * 64) (b1 % 8 * 262144 + b2 % 64 * 4096)
            (omega arith) (omega arith),
      )
      (join 6 (b1 % 8 * 4096 + b2 % 64 * 64 + b3 % 64) (b4 % 64) _ (omega arith) (omega arith))
