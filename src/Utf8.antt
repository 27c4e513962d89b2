-- ===== src/Utf8.antt =====
-- UTF-8 validation and code point counting: src/utils/utf8.cpp and utf8.hpp. A span is the list of
-- its bytes; a pointer into it is the list of the bytes that are left.
pub mod Bytes
pub mod Encoding
pub mod Decoding
pub mod Vector
mod Tests
use astral_runtime.Base.{
  ℕ, zero, suc, ◌+◌, ◌-◌, ◌*◌, ◌^◌, bit_and, bit_or, List, [], ◌∷◌, Bool, true, false, not, ◌&&◌,
  ◌||◌, Option, none, some, ltb, leb, ◌==◌, if◌then◌else◌, length, take, drop,
}

-- The classes of a byte, by the masks of the source.
unfoldable pub is_ascii : ℕ → Bool
is_ascii b = bit_and b 0x80 == 0

unfoldable pub is_cont : ℕ → Bool
is_cont b = bit_and b 0xC0 == 0x80

unfoldable pub is_lead2 : ℕ → Bool
is_lead2 b = bit_and b 0xE0 == 0xC0

unfoldable pub is_lead3 : ℕ → Bool
is_lead3 b = bit_and b 0xF0 == 0xE0

unfoldable pub is_lead4 : ℕ → Bool
is_lead4 b = bit_and b 0xF8 == 0xF0

-- The code point that a sequence of two, three or four bytes stands for.
unfoldable pub point2 : ℕ → ℕ → ℕ
point2 b1 b2 = bit_or (bit_and b1 0x1F * 2 ^ 6) (bit_and b2 0x3F)

unfoldable pub point3 : ℕ → ℕ → ℕ → ℕ
point3 b1 b2 b3 =
    bit_or (bit_or (bit_and b1 0x0F * 2 ^ 12) (bit_and b2 0x3F * 2 ^ 6)) (bit_and b3 0x3F)

unfoldable pub point4 : ℕ → ℕ → ℕ → ℕ → ℕ
point4 b1 b2 b3 b4 =
    bit_or
      (bit_or (bit_or (bit_and b1 0x07 * 2 ^ 18) (bit_and b2 0x3F * 2 ^ 12))
        (bit_and b3 0x3F * 2 ^ 6))
      (bit_and b4 0x3F)

-- What is left behind the first sequence; `none` is a `return false`.
pub next2 : ℕ → List ℕ → Option (List ℕ)
next2 b1 [] = none
next2 b1 (b2 ∷ rest) =
    if not (is_cont b2) then none else if ltb (point2 b1 b2) 0x80 then none else some rest

pub next3 : ℕ → List ℕ → Option (List ℕ)
next3 b1 [] = none
next3 b1 (b2 ∷ []) = none
next3 b1 (b2 ∷ b3 ∷ rest) =
    if not (is_cont b2)
    then none
    else if not (is_cont b3)
    then none
    else if ltb (point3 b1 b2 b3) 0x800
    then none
    else if leb 0xD800 (point3 b1 b2 b3) && leb (point3 b1 b2 b3) 0xDFFF
    then none
    else some rest

pub next4 : ℕ → List ℕ → Option (List ℕ)
next4 b1 [] = none
next4 b1 (b2 ∷ []) = none
next4 b1 (b2 ∷ b3 ∷ []) = none
next4 b1 (b2 ∷ b3 ∷ b4 ∷ rest) =
    if not (is_cont b2)
    then none
    else if not (is_cont b3)
    then none
    else if not (is_cont b4)
    then none
    else if ltb (point4 b1 b2 b3 b4) 0x10000
    then none
    else if ltb 0x10FFFF (point4 b1 b2 b3 b4)
    then none
    else some rest

pub next : ℕ → List ℕ → Option (List ℕ)
next b1 rest =
    if is_ascii b1
    then some rest
    else if is_lead2 b1
    then next2 b1 rest
    else if is_lead3 b1
    then next3 b1 rest
    else if is_lead4 b1
    then next4 b1 rest
    else none

-- The loop of `validate`. Each round takes a byte at least, so the length is enough fuel.
pub validate_loop : ℕ → List ℕ → Bool
validate_loop fuel [] = true
validate_loop zero (b ∷ bs) = false
validate_loop (suc fuel) (b ∷ bs) = elim (next b bs) [
  | none ↦ false
  | some rest ↦ validate_loop fuel rest
]

pub validate : List ℕ → Bool
unfolding validate_loop
validate s = validate_loop (length s) s

-- The scalar loop of `count_codepoints`.
pub count_codepoints : List ℕ → ℕ
count_codepoints [] = 0
count_codepoints (b ∷ bs) = if is_cont b then count_codepoints bs else count_codepoints bs + 1
