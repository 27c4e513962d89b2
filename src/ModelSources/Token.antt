-- ===== src/ModelSources/Token.antt =====
-- The token of a source, src/core/model_sources.cpp: its 31 bytes are always enough.
use astral_runtime.Base.{
  ℕ, ◌+◌, ◌≤◌, ◌<◌, ◌≡◌, refl, ap, ap₂, ◌∙◌, arith, inl, inr, true, false, Bool-cases, Option, none,
  some, List, [], ◌++◌, length, take, ltb, leb, ◌==◌, if◌then◌else◌, u64_mod,
}
use astral_runtime.Spsc.Cells.{tabulate}
use astral_runtime.StringBuilder.{StringBuilder, StringOverflowPolicy, append, freeze, new}
use astral_runtime.StringBuilder.Appended.{append-IsAppended}
use astral_runtime.StringBuilder.Copied.{IsValid, new-IsValid, take-all}
use astral_runtime.StringBuilder.Decimal.{read_decimal, unsigned_digits, append_unsigned-text}
use astral_runtime.ModelSources.{prefix, begun, copy_token, format_token}

-- A builder that all of a text was appended to.
record IsWhole (b : StringBuilder) (text : List ℕ) (b' : StringBuilder) : Type 0 where
  valid : IsValid b'
  text_after : freeze b' ≡ freeze b ++ text
  length_after : b'.length_ ≡ b.length_ + length text
  capacity_after : b'.capacity ≡ b.capacity
  truncated_after : b'.truncated ≡ b.truncated

append-IsWhole :
    (b : StringBuilder) (text : List ℕ)
    → IsValid b
    → b.length_ + length text ≤ b.capacity
    → IsWhole b text (append StringOverflowPolicy.truncate (λ n. none) b text).1
append-IsWhole b text v room =
    let a = append-IsAppended StringOverflowPolicy.truncate (λ n. none) b text v in
    let w = a.whole (a.fits room) in
    record {
      valid = a.valid;
      text_after =
          a.text_after ∙ ap (λ l. freeze b ++ l) (ap (λ k. take k text) w.0 ∙ take-all text);
      length_after = omega (arith, a.length_after, w.0);
      capacity_after = a.fixed refl;
      truncated_after = w.1;
    }

begun-IsWhole : (storage : ℕ → ℕ) → IsWhole (new 31 storage) prefix (begun storage).1
unfolding new begun
begun-IsWhole storage =
    append-IsWhole (new 31 storage) prefix (new-IsValid 31 storage (omega arith) (omega arith))
      (omega arith)

-- What a buffer of `cap` bytes is given for an identifier with these digits.
abbrev pub token_answer : ℕ → List ℕ → ℕ × Option (List ℕ)
token_answer cap number =
    if ltb (length prefix + length number) cap
    then (length prefix + length number, some (prefix ++ number))
    else (0, some [])

copy_token-answer :
    (token : StringBuilder) (number : List ℕ) (cap : ℕ)
    → token.truncated ≡ false
    → token.length_ ≡ length prefix + length number
    → freeze token ≡ prefix ++ number
    → copy_token token cap ≡ token_answer cap number
unfolding copy_token freeze
copy_token-answer token number cap whole size text =
    elim (Bool-cases (ltb (length prefix + length number) cap)) [
      | inl fits ↦
          let test : leb cap token.length_ ≡ false = ground (arith, size) in
          rw (whole, test, fits) (ap₂ (λ n t. (n, some t)) size text)
      | inr over ↦
          let test : leb cap token.length_ ≡ true = ground (arith, size) in
          rw (whole, test, over) refl
    ]

-- The token of an identifier of 64 bits, in a buffer of `cap` bytes: the builder has room for it always; the
-- text is "astral-src:" and the identifier in decimal, as a reader of numbers reads it back, and the answer
-- is the count of its bytes. If they and a terminator do not fit, the text is empty and the answer is 0.
pub format_token-answer :
    (storage : ℕ → ℕ) (id cap : ℕ)
    → id < u64_mod
    → 0 < cap
    → (number : List ℕ) × (read_decimal number ≡ some id)
      × (format_token storage id true cap ≡ some (token_answer cap number))
unfolding new format_token freeze tabulate
format_token-answer storage id cap small some_room =
    let (number, is, room, read) = unsigned_digits true id small in
    let first = begun-IsWhole storage in
    let w =
      append-IsWhole (begun storage).1 number first.valid
        (omega (arith, first.length_after, first.capacity_after, room)) in
    let written =
      append_unsigned-text StringOverflowPolicy.truncate (λ n. none) (begun storage).1 true id
        number is in
    let test : (cap == 0) ≡ false = ground arith in
    (
      number,
      read,
      rw (format_token, test, written)
          (ap some (
            copy_token-answer
              (append StringOverflowPolicy.truncate (λ n. none) (begun storage).1 number).1 number
              cap (w.truncated_after ∙ first.truncated_after)
              (omega (arith, w.length_after, first.length_after))
              (w.text_after ∙ ap (λ l. l ++ number) first.text_after))),
    )
