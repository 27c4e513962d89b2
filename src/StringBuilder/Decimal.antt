-- ===== src/StringBuilder/Decimal.antt =====
-- The decimal formats of src/utils/string_builder.hpp, against a reader of numbers.
use astral_runtime.Base.{
  ℕ, zero, suc, ◌+◌, ◌-◌, ◌*◌, ◌/◌, ◌%◌, ◌^◌, ◌≤◌, ◌<◌, ◌≡◌, ◌≢◌, refl, ap, subst, ◌∙◌, arith, inl,
  inr, Bool, true, false, Bool-cases, Option, none, some, List, [], ◌∷◌, ◌&&◌, length, leb, ◌==◌,
  if◌then◌else◌,
}
use native.Mathlib.Nat.{pow-suc, div-add-mod, mod-lt}
use astral_runtime.StringBuilder.{
  StringBuilder, StringOverflowPolicy, append, append_unsigned, digits, unsigned_room, modulus,
}

-- A digit's value, and that of a text of digits read behind a number.
unfoldable pub read_digits : ℕ → List ℕ → Option ℕ
read_digits n [] = some n
read_digits n (d ∷ text) =
    let rest = read_digits (n * 10 + (d - b'0')) text in
    if leb b'0' d && leb d b'9' then rest else none

-- No text, and no zero in front of other digits, is read.
unfoldable pub read_decimal : List ℕ → Option ℕ
read_decimal [] = none
read_decimal (d ∷ []) = read_digits 0 (d ∷ [])
read_decimal (d ∷ e ∷ text) = if d == b'0' then none else read_digits 0 (d ∷ e ∷ text)

-- The digit in front moves to the number before it.
read_digits-step :
    (value : ℕ) (text : List ℕ)
    → read_digits (value / 10) ((b'0' + (value - value / 10 * 10)) ∷ text) ≡ read_digits value text
unfolding read_digits
read_digits-step value text =
    let small : value % 10 < 10 = mod-lt value (omega arith) in
    let lower : leb 48 (48 + (value - value / 10 * 10)) ≡ true = ground arith in
    let upper : leb (48 + (value - value / 10 * 10)) 57 ≡ true =
      ground (arith, div-add-mod value 10, small) in
    rw (lower, upper) (ap (λ n. read_digits n text) (omega (arith, div-add-mod value 10, small)))

-- What the digits of a number are in an array with room for them.
record IsDigits (room value : ℕ) (text out : List ℕ) : Type 0 where
  in_room : length out ≤ room + length text
  value_read : read_digits 0 out ≡ read_digits value text
  nonzero : value ≢ 0 → (d : ℕ) × (rest : List ℕ) × (out ≡ d ∷ rest) × (d ≢ b'0')
  zero_out : value ≡ 0 → out ≡ b'0' ∷ text

more_room : (room value : ℕ) → value < 10 ^ suc room → value / 10 == 0 ≡ false → 0 < room
more_room zero value fits more = ground (arith, pow-suc 10 0)
more_room (suc room) value fits more = omega arith

digits-IsDigits :
    (room value : ℕ) (text : List ℕ)
    → value < 10 ^ room
    → 0 < room
    → (out : List ℕ) × (digits room value text ≡ some out) × IsDigits room value text out
unfolding digits
digits-IsDigits zero value text fits some_room = absurd (omega arith)
digits-IsDigits (suc room) value text fits some_room = elim (Bool-cases (value / 10 == 0)) [
  | inl done ↦
      let last : value / 10 ≡ 0 = ground arith in
      (
        (b'0' + (value - value / 10 * 10)) ∷ text,
        rw done refl,
        record {
          in_room = omega arith;
          value_read =
              subst
                (λ q.
                  read_digits q ((b'0' + (value - value / 10 * 10)) ∷ text)
                  ≡ read_digits value text)
                last (read_digits-step value text);
          nonzero = λ e. (b'0' + (value - value / 10 * 10), text, refl, ground arith);
          zero_out = λ e. ap (λ d. d ∷ text) (ground arith);
        },
      )
  | inr more ↦
      let (out, is, v) =
        digits-IsDigits room (value / 10) ((b'0' + (value - value / 10 * 10)) ∷ text)
          (ground (arith, pow-suc 10 room)) (more_room room value fits more) in
      (
        out,
        rw more is,
        record {
          in_room = omega (arith, v.in_room);
          value_read = v.value_read ∙ read_digits-step value text;
          nonzero = λ e. v.nonzero (ground arith);
          zero_out = λ e. absurd (ground arith);
        },
      )
]

IsDigits-read :
    (room value : ℕ) (out : List ℕ)
    → IsDigits room value [] out
    → (length out ≤ room) × (read_decimal out ≡ some value)
unfolding read_decimal read_digits
IsDigits-read room zero out v = (omega (arith, v.in_room), rw (v.zero_out refl) refl)
IsDigits-read room (suc value) out v =
    let (d, rest, is, off) = v.nonzero (λ e. ground arith) in
    (omega (arith, v.in_room), read rest d is off)
  where
    read : (rest : List ℕ) (d : ℕ) → out ≡ d ∷ rest → d ≢ b'0' → read_decimal out ≡ some (suc value)
    read [] d is off = rw is (subst (λ o. read_digits 0 o ≡ some (suc value)) is v.value_read)
    read (e ∷ rest) d is off =
        let test : (d == b'0') ≡ false = ground arith in
        rw (is, test) (subst (λ o. read_digits 0 o ≡ some (suc value)) is v.value_read)

pub unsigned_digits :
    (wide : Bool) (value : ℕ)
    → value < modulus wide
    → (text : List ℕ) × (digits (unsigned_room wide) value [] ≡ some text)
      × (length text ≤ unsigned_room wide)
      × (read_decimal text ≡ some value)
unsigned_digits true value small =
    let (text, is, v) = digits-IsDigits 20 value [] (omega arith) (omega arith) in
    let read = IsDigits-read 20 value text v in (text, is, read.0, read.1)
unsigned_digits false value small =
    let (text, is, v) = digits-IsDigits 10 value [] (omega arith) (omega arith) in
    let read = IsDigits-read 10 value text v in (text, is, read.0, read.1)

pub append_unsigned-text :
    (policy : StringOverflowPolicy) (allocate : ℕ → Option (ℕ → ℕ)) (b : StringBuilder)
    (wide : Bool) (value : ℕ) (text : List ℕ)
    → digits (unsigned_room wide) value [] ≡ some text
    → append_unsigned policy allocate b wide value ≡ some (append policy allocate b text)
unfolding append_unsigned
append_unsigned-text policy allocate b wide value text is = rw (append_unsigned, is) refl

-- A 64-bit or 32-bit unsigned number appended to a builder, under either policy: its decimal digits fit into
-- the array that they are written to from the end, they are appended, and read in decimal they are the
-- number, with no zero in front.
pub append_unsigned-decimal :
    (policy : StringOverflowPolicy) (allocate : ℕ → Option (ℕ → ℕ)) (b : StringBuilder)
    (wide : Bool) (value : ℕ)
    → value < modulus wide
    → (text : List ℕ) × (append_unsigned policy allocate b wide value
        ≡ some (append policy allocate b text))
      × (read_decimal text ≡ some value)
append_unsigned-decimal policy allocate b wide value small =
    let (text, is, room, read) = unsigned_digits wide value small in
    (text, append_unsigned-text policy allocate b wide value text is, read)
