-- ===== src/StringBuilder/Signed.antt =====
-- The signed decimal formats of src/utils/string_builder.hpp, against a reader of numbers with a sign.
use astral_runtime.Base.{
  ℕ, zero, suc, ◌+◌, ◌-◌, ◌/◌, ◌≤◌, ◌<◌, ◌≡◌, ◌≢◌, refl, ap, sym, ◌∙◌, arith, inl, inr, Bool, true,
  false, Bool-cases, Option, none, some, List, [], ◌∷◌, ◌&&◌, length, ltb, leb, ◌==◌, if◌then◌else◌,
}
use astral_runtime.StringBuilder.{
  StringBuilder, StringOverflowPolicy, append, append_signed, digits, unsigned_room, modulus,
  negative, magnitude, signed_text,
}
use astral_runtime.StringBuilder.Decimal.{read_digits, read_decimal, unsigned_digits}

-- A number with its sign read back to two's complement, which has one zero.
unfoldable pub read_signed : Bool → List ℕ → Option ℕ
unfolding read_decimal
read_signed wide [] = none
read_signed wide (d ∷ text) =
    if d == b'-'
    then elim (read_decimal text) [
      | none ↦ none
      | some m ↦ if ltb 0 m && leb m (modulus wide / 2) then some (modulus wide - m) else none
    ]
    else elim (read_decimal (d ∷ text)) [
      | none ↦ none
      | some m ↦ if ltb m (modulus wide / 2) then some m else none
    ]

half_twice : (wide : Bool) → modulus wide / 2 + modulus wide / 2 ≡ modulus wide
half_twice true = refl
half_twice false = refl

magnitude-le :
    (wide : Bool) (value : ℕ) → value < modulus wide → magnitude wide value ≤ modulus wide / 2
unfolding magnitude
magnitude-le wide value small = ground (arith, half_twice wide)

-- One more place in the array changes nothing.
digits-more :
    (room value : ℕ) (text out : List ℕ)
    → digits room value text ≡ some out
    → digits (suc room) value text ≡ some out
unfolding digits
digits-more zero value text out is = absurd (ground arith)
digits-more (suc room) value text out is = elim (Bool-cases (value / 10 == 0)) [
  | inl done ↦ rw done (rw done at is)
  | inr more ↦ rw more (digits-more room (value / 10) _ out (rw more at is))
]

sign_unread : (text : List ℕ) → read_decimal (b'-' ∷ text) ≡ none
unfolding read_decimal read_digits
sign_unread [] = refl
sign_unread (d ∷ text) = refl

-- What is read in decimal does not begin with a sign.
no_sign : (d : ℕ) (text : List ℕ) (m : ℕ) → read_decimal (d ∷ text) ≡ some m → d == b'-' ≡ false
no_sign d text m read = elim (Bool-cases (d == b'-')) [
  | inr off ↦ off
  | inl is ↦
      let same : d ≡ b'-' = ground arith in
      let unread : read_decimal (d ∷ text) ≡ none = rw same (sign_unread text) in
      absurd (ground arith)
]

none_read : (m : ℕ) → read_decimal [] ≢ some m
unfolding read_decimal
none_read m e = ground arith

unsigned_read :
    (wide : Bool) (text : List ℕ) (m : ℕ)
    → read_decimal text ≡ some m
    → m < modulus wide / 2
    → read_signed wide text ≡ some m
unfolding read_signed
unsigned_read wide [] m read small = absurd (none_read m read)
unsigned_read wide (d ∷ text) m read small =
    let test : ltb m (modulus wide / 2) ≡ true = ground arith in
    rw (no_sign d text m read, read, test) refl

signed_read :
    (wide : Bool) (text : List ℕ) (m : ℕ)
    → read_decimal text ≡ some m
    → 0 < m
    → m ≤ modulus wide / 2
    → read_signed wide (b'-' ∷ text) ≡ some (modulus wide - m)
unfolding read_signed
signed_read wide text m read positive small =
    let low : ltb 0 m ≡ true = ground arith in
    let high : leb m (modulus wide / 2) ≡ true = ground arith in rw (read, low, high) refl

room_more :
    (wide : Bool) (value : ℕ) (text : List ℕ)
    → digits (unsigned_room wide) value [] ≡ some text
    → digits (unsigned_room wide + 1) value [] ≡ some text
room_more true value text is = digits-more 20 value [] text is
room_more false value text is = digits-more 10 value [] text is

magnitude_below :
    (wide : Bool) (value : ℕ)
    → negative wide value ≡ true
    → magnitude wide value ≡ modulus wide - value
unfolding magnitude
magnitude_below wide value below = rw below refl

magnitude_above :
    (wide : Bool) (value : ℕ) → negative wide value ≡ false → magnitude wide value ≡ value
unfolding magnitude
magnitude_above wide value above = rw above refl

signed_text-cases :
    (wide : Bool) (value m : ℕ) (text : List ℕ)
    → value < modulus wide
    → magnitude wide value ≡ m
    → m ≤ modulus wide / 2
    → digits (unsigned_room wide + 1) m [] ≡ some text
    → length text ≤ unsigned_room wide
    → read_decimal text ≡ some m
    → (out : List ℕ) × (signed_text wide value ≡ some out) × (read_signed wide out ≡ some value)
unfolding signed_text
signed_text-cases wide value m text small is half written room read =
    elim (Bool-cases (negative wide value)) [
      | inl below ↦
          let test : ltb (length text) (unsigned_room wide + 1) ≡ true = ground arith in
          let amount : modulus wide - value ≡ m = sym (magnitude_below wide value below) ∙ is in
          (
            b'-' ∷ text,
            rw (signed_text, is, written, below, test) refl,
            signed_read wide text m read (omega (arith, amount, small)) half
                ∙ ap some (omega (arith, amount, small)),
          )
      | inr above ↦
          let amount : value ≡ m = sym (magnitude_above wide value above) ∙ is in
          (
            text,
            rw (signed_text, is, written, above) refl,
            unsigned_read wide text m read (ground (arith, amount)) ∙ ap some (sym amount),
          )
    ]

signed_text-read :
    (wide : Bool) (value : ℕ)
    → value < modulus wide
    → (out : List ℕ) × (signed_text wide value ≡ some out) × (read_signed wide out ≡ some value)
signed_text-read wide value small =
    let half = magnitude-le wide value small in
    let (text, is, room, read) =
      unsigned_digits wide (magnitude wide value) (omega (arith, half_twice wide, half, small)) in
    signed_text-cases wide value (magnitude wide value) text small refl half
      (room_more wide (magnitude wide value) text is) room read

-- A number of 64 or 32 bits in two's complement, appended as a signed decimal under either policy: its text fits
-- into the array, and read back with its sign is the number, also for the least one, which has no negative.
pub append_signed-decimal :
    (policy : StringOverflowPolicy) (allocate : ℕ → Option (ℕ → ℕ)) (b : StringBuilder)
    (wide : Bool) (value : ℕ)
    → value < modulus wide
    → (text : List ℕ) × (append_signed policy allocate b wide value
        ≡ some (append policy allocate b text))
      × (read_signed wide text ≡ some value)
unfolding append_signed
append_signed-decimal policy allocate b wide value small =
    let (text, is, read) = signed_text-read wide value small in
    (text, rw (append_signed, is) refl, read)
