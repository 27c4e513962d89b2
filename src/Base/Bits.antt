-- ===== src/Base/Bits.antt =====
-- Facts about `bit_and` and `bit_or`: over a byte by evaluation, for disjoint fields at every width.
use Prim.Native.Nat.{
  ℕ, zero, suc, ◌+◌, ◌-◌, ◌*◌, ◌/◌, ◌%◌, ◌^◌, ◌≤◌, ◌<◌, min, max, bit_and, bit_or, digits,
  bit_and-bitwise, bit_or-bitwise,
}
use mathlib.Core.Path.{◌≡◌, refl, ap, ap₂, ◌∙◌}
use mathlib.Core.Bool.{Bool, true, ◌&&◌}
use native.Mathlib.Nat.{pow-suc, le_refl, mod-eq_of_lt, mul-add-mod_self_left, div-add-mod}
use native.Mathlib.Omega.{arith}
use astral_runtime.Base.Tests.{◌==◌}

-- Every value below `n` passes the test.
unfoldable pub all_below : ℕ → (ℕ → Bool) → Bool
all_below zero p = true
all_below (suc n) p = p n && all_below n p

pub all_below-true : (n : ℕ) (p : ℕ → Bool) (x : ℕ) → all_below n p ≡ true → x < n → p x ≡ true
unfolding all_below
all_below-true zero p x h lt = absurd (omega arith)
all_below-true (suc n) p x h lt = ground (arith, all_below-true n p x)

-- The digits of a number with `k` zero digits at its end, joined with a number of `k` digits.
or_digits : (n k q a r : ℕ) → a ≡ q * 2 ^ k → a ≤ n → r < 2 ^ k → digits (λ b. b) max n a r ≡ a + r
or_digits zero k q zero r e h lt = omega arith
or_digits zero k q (suc a) r e h lt = absurd (omega arith)
or_digits (suc n) k q zero r e h lt = omega arith
or_digits (suc n) zero q (suc a) r e h lt = omega (
  arith,
  or_digits n zero (suc a / 2) (suc a / 2) (r / 2) (omega arith) (omega arith) (omega arith),
)
or_digits (suc n) (suc k) q (suc a) r e h lt = omega (
  arith,
  or_digits n k q (suc a / 2) (r / 2) (omega (arith, twice)) (omega arith)
      (omega (arith, pow-suc 2 k)),
  twice,
)
  where
    twice : q * 2 ^ suc k ≡ 2 * (q * 2 ^ k)
    twice = omega (arith, ap (λ (t : ℕ). q * t) (pow-suc 2 k))

-- `(q << k) | r` is a sum where `r` fits `k` bits.
pub bit_or-shifted : (k q r : ℕ) → r < 2 ^ k → bit_or (q * 2 ^ k) r ≡ q * 2 ^ k + r
bit_or-shifted k q r h =
    simp bit_or-bitwise (or_digits (q * 2 ^ k) k q (q * 2 ^ k) r refl (le_refl _) h)

-- `bit_and` by its digits: fuel beyond the first number changes nothing.
abbrev and_digits : ℕ → ℕ → ℕ → ℕ
and_digits = digits (λ _. 0) min

and_digits-enough : (a n m b : ℕ) → a ≤ n → a ≤ m → and_digits n a b ≡ and_digits m a b
and_digits-enough a n m b = by_fuel n m a b
  where
    by_fuel : (n m a b : ℕ) → a ≤ n → a ≤ m → and_digits n a b ≡ and_digits m a b
    by_fuel zero zero a b hn hm = refl
    by_fuel (suc n) zero zero b hn hm = refl
    by_fuel zero (suc m) zero b hn hm = refl
    by_fuel (suc n) (suc m) zero b hn hm = refl
    by_fuel zero (suc m) (suc a) b hn hm = absurd (omega arith)
    by_fuel (suc n) zero (suc a) b hn hm = absurd (omega arith)
    by_fuel (suc n) (suc m) (suc a) b hn hm =
        ap (λ t. t * 2 + min (suc a % 2) (b % 2))
          (by_fuel n m (suc a / 2) (b / 2) (omega arith) (omega arith))

and_digits-le : (n a b : ℕ) → a ≤ n → and_digits n a b ≤ a
and_digits-le zero a b h = omega arith
and_digits-le (suc n) zero b h = omega arith
and_digits-le (suc n) (suc a) b h = omega (arith, and_digits-le n (suc a / 2) (b / 2) (omega arith))

pub bit_and-le : (a b : ℕ) → bit_and a b ≤ a
bit_and-le a b = omega (arith, bit_and-bitwise a b, and_digits-le a a b (le_refl a))

bit_and-halves : (a b : ℕ) → bit_and a b ≡ bit_and (a / 2) (b / 2) * 2 + min (a % 2) (b % 2)
bit_and-halves zero b = omega (arith, bit_and-bitwise 0 b, bit_and-bitwise (0 / 2) (b / 2))
bit_and-halves (suc a) b = omega (
  arith,
  bit_and-bitwise (suc a) b,
  bit_and-bitwise (suc a / 2) (b / 2),
  and_digits-enough (suc a / 2) a (suc a / 2) (b / 2) (omega arith) (omega arith),
)

-- `bit_and` works on the low digit to base `m` and on the rest, each by itself.
abbrev Splits : ℕ → Type 0
Splits m = (a b : ℕ) → bit_and a b ≡ bit_and (a % m) (b % m) + m * bit_and (a / m) (b / m)

Splits-two : Splits 2
Splits-two a b = omega (
  arith,
  bit_and-halves a b,
  bit_and-halves (a % 2) (b % 2),
  ap₂ bit_and (low a) (low b),
  bit_and-le 0 0,
)
  where
    low : (n : ℕ) → n % 2 / 2 ≡ 0
    low n = omega arith

Splits-square :
    (m k : ℕ)
    → k ≡ m * m
    → ((n : ℕ) → n % k % m ≡ n % m)
    → ((n : ℕ) → n % k / m ≡ n / m % m)
    → ((n : ℕ) → n / m / m ≡ n / k)
    → Splits m
    → Splits k
Splits-square m k e low middle high split a b = omega (
  arith,
  split a b,
  split (a % k) (b % k),
  ap (λ t. m * t) (split (a / m) (b / m)),
  ap₂ bit_and (low a) (low b),
  ap (λ t. m * t) (ap₂ bit_and (middle a) (middle b)),
  ap (λ t. k * t) (ap₂ bit_and (high a) (high b)),
  ap (λ t. t * bit_and (a / m / m) (b / m / m)) e,
)

pub bit_and-low_byte :
    (a b : ℕ) → bit_and a b ≡ bit_and (a % 256) (b % 256) + 256 * bit_and (a / 256) (b / 256)
bit_and-low_byte =
    Splits-square 16 256 refl (λ n. omega arith) (λ n. omega arith) (λ n. omega arith)
      (Splits-square 4 16 refl (λ n. omega arith) (λ n. omega arith) (λ n. omega arith)
        (Splits-square 2 4 refl (λ n. omega arith) (λ n. omega arith) (λ n. omega arith)
          Splits-two))

and_digits-zero : (n a : ℕ) → and_digits n a 0 ≡ 0
and_digits-zero zero a = refl
and_digits-zero (suc n) zero = refl
and_digits-zero (suc n) (suc a) = omega (arith, and_digits-zero n (suc a / 2))

bit_and-zero : (a : ℕ) → bit_and a 0 ≡ 0
bit_and-zero a = bit_and-bitwise a 0 ∙ and_digits-zero a a

-- Masks of whole bytes are remainders.
bit_and-byte_table : all_below 256 (λ b. bit_and b 255 == b) ≡ true
unfolding all_below
bit_and-byte_table = refl

byte_mask : (b : ℕ) → b < 256 → bit_and b 255 ≡ b
byte_mask b h = ground (arith, all_below-true 256 (λ c. bit_and c 255 == c) b bit_and-byte_table h)

pub bit_and_mask8 : (a : ℕ) → bit_and a 0xFF ≡ a % 256
bit_and_mask8 a =
    omega (arith, bit_and-low_byte a 255, byte_mask (a % 256) (omega arith), bit_and-zero (a / 256))

bit_and_mask16 : (a : ℕ) → bit_and a 0xFFFF ≡ a % 65536
bit_and_mask16 a =
    omega
      (arith, bit_and-low_byte a 0xFFFF, byte_mask (a % 256) (omega arith), bit_and_mask8 (a / 256))

pub bit_and_mask24 : (a : ℕ) → bit_and a 0xFF_FFFF ≡ a % 0x100_0000
bit_and_mask24 a = omega (
  arith,
  bit_and-low_byte a 0xFF_FFFF,
  byte_mask (a % 256) (omega arith),
  bit_and_mask16 (a / 256),
)

pub bit_and_mask32 : (a : ℕ) → bit_and a 0xFFFF_FFFF ≡ a % 0x1_0000_0000
bit_and_mask32 a = omega (
  arith,
  bit_and-low_byte a 0xFFFF_FFFF,
  byte_mask (a % 256) (omega arith),
  bit_and_mask24 (a / 256),
)

pub two_pow_positive : (k : ℕ) → 0 < 2 ^ k
two_pow_positive zero = omega arith
two_pow_positive (suc k) = omega (arith, pow-suc 2 k, two_pow_positive k)

mod_twice : (a m : ℕ) → 0 < m → a % (2 * m) ≡ a % 2 + 2 * (a / 2 % m)
mod_twice a m pos =
    ap (λ t. t % (2 * m)) whole
    ∙ mul-add-mod_self_left (2 * m) (a / 2 / m) (a % 2 + 2 * (a / 2 % m))
    ∙ mod-eq_of_lt (omega (arith, pos))
  where
    whole : a ≡ 2 * m * (a / 2 / m) + (a % 2 + 2 * (a / 2 % m))
    whole = omega (arith, div-add-mod (a / 2) m)

-- A mask of `k` ones is the remainder by `2 ^ k`.
pub bit_and_mask : (k a : ℕ) → bit_and a (2 ^ k - 1) ≡ a % 2 ^ k
bit_and_mask zero a = omega (arith, bit_and-zero a)
bit_and_mask (suc k) a = omega (
  arith,
  bit_and-halves a (2 ^ suc k - 1),
  ap (bit_and (a / 2)) half,
  bit_and_mask k (a / 2),
  mod_twice a (2 ^ k) (two_pow_positive k),
  ap (λ t. a % t) twice,
  twice,
  two_pow_positive k,
)
  where
    half : (2 ^ suc k - 1) / 2 ≡ 2 ^ k - 1
    half = omega (arith, pow-suc 2 k, two_pow_positive k)

    twice : 2 ^ suc k ≡ 2 * 2 ^ k
    twice = omega (arith, pow-suc 2 k)

-- A mask that clears the last `k` of `k + j` bits rounds down to a multiple of `2 ^ k`.
pub bit_and-round_down :
    (k j a : ℕ) → a < 2 ^ k * 2 ^ j → bit_and a (2 ^ k * (2 ^ j - 1)) ≡ a - a % 2 ^ k
bit_and-round_down zero j a small =
    ap (bit_and a) (omega arith)
    ∙ bit_and_mask j a
    ∙ mod-eq_of_lt (omega (arith, small))
    ∙ omega arith
bit_and-round_down (suc k) j a small = omega (
  arith,
  bit_and-halves a (2 ^ suc k * (2 ^ j - 1)),
  ap (bit_and (a / 2)) half,
  bit_and-round_down k j (a / 2) (omega (arith, small, double, doubled (2 ^ j))),
  mod_twice a (2 ^ k) (two_pow_positive k),
  ap (λ t. a % t) double,
  double,
  doubled (2 ^ j - 1),
)
  where
    double : 2 ^ suc k ≡ 2 * 2 ^ k
    double = omega (arith, pow-suc 2 k)

    doubled : (x : ℕ) → 2 ^ suc k * x ≡ 2 * (2 ^ k * x)
    doubled x = ap (λ t. t * x) double ∙ omega arith

    half : 2 ^ suc k * (2 ^ j - 1) / 2 ≡ 2 ^ k * (2 ^ j - 1)
    half = omega (arith, doubled (2 ^ j - 1))
