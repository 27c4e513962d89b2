-- ===== src/Tooling/Json/Strings.antt =====
-- Strings as src/inference/tooling.cpp reads and skips them.
use astral_runtime.Base.{
  ℕ, zero, suc, ◌+◌, ◌-◌, ◌≤◌, ◌<◌, true, false, some, none, List, length, ltb, leb, ◌==◌, ◌≡◌,
  refl, ap, sym, ◌∙◌, ◌⊎◌, inl, inr, arith, Bool-cases,
}
use mathlib.Core.Option.{some-injective}
use astral_runtime.Tooling.Json.{escape, after, close_quote, skip_string, fuel_for}
use astral_runtime.Tooling.Json.Bounds.{after-forward}
use astral_runtime.Tooling.Json.Objects.{
  byte, byte-inside, IsString, quote, plain, escaped, IsString-inside,
}

pub IsString-bounds : (text : List ℕ) (p e : ℕ) → IsString text p e → (p < e) × (e ≤ length text)
IsString-bounds text p e (quote closes last) =
    (omega (arith, last), omega (arith, last, byte-inside text p (ground (arith, closes))))
IsString-bounds text p e (plain lt a b rest) =
    let later = IsString-bounds text (p + 1) e rest in (omega (arith, later), later.1)
IsString-bounds text p e (escaped backslash rest) =
    let later = IsString-bounds text (p + 2) e rest in (omega (arith, later), later.1)

pub close_quote-IsString :
    (text : List ℕ) (fuel p e : ℕ) → close_quote text fuel p ≡ some e → IsString text p (e + 1)
unfolding close_quote after escape
close_quote-IsString text zero p e h = absurd (ground (arith, h))
close_quote-IsString text (suc fuel) p e h = elim (Bool-cases (leb (length text) p)) [
  | inl past ↦ absurd (ground (arith, rw past at h))
  | inr within ↦ elim (Bool-cases (byte text p == 0x22)) [
    | inl closes ↦
        let here : p ≡ e = some-injective _ _ (rw (within, closes) at h) in
        quote (ground (arith, closes)) (omega (arith, here))
    | inr goes_on ↦ elim (Bool-cases (byte text p == 0x5C)) [
      | inr simple ↦
          plain (ground (arith, within)) (ground (arith, goes_on)) (ground (arith, simple))
            (close_quote-IsString text fuel (p + 1) e (rw (within, goes_on, simple) at h))
      | inl backslash ↦ elim (Bool-cases (ltb (p + 1) (length text))) [
        | inl two ↦
            escaped (ground (arith, backslash))
              (close_quote-IsString text fuel (p + 2) e (rw (within, goes_on, backslash, two) at h))
        | inr last ↦ absurd (
            ground (
              arith,
              last,
              IsString-inside text (p + 1) (e + 1) (
                  close_quote-IsString text fuel (p + 1) e
                    (rw (within, goes_on, backslash, last) at h)),
            ))
      ]
    ]
  ]
]

pub IsString-close_quote :
    (text : List ℕ) (fuel p e : ℕ)
    → IsString text p e
    → length text < fuel + p
    → close_quote text fuel p ≡ some (e - 1)
unfolding close_quote after escape
IsString-close_quote text zero p e s enough =
    absurd (omega (arith, enough, IsString-inside text p e s))
IsString-close_quote text (suc fuel) p e (quote closes last) enough =
    let within : leb (length text) p ≡ false =
      ground (arith, byte-inside text p (ground (arith, closes))) in
    let is : (byte text p == 0x22) ≡ true = ground (arith, closes) in
    rw (within, is) (ap some (omega (arith, last)))
IsString-close_quote text (suc fuel) p e (plain lt no_quote no_escape rest) enough =
    let within : leb (length text) p ≡ false = ground (arith, lt) in
    let is : (byte text p == 0x22) ≡ false = ground (arith, no_quote) in
    let simple : (byte text p == 0x5C) ≡ false = ground (arith, no_escape) in
    rw (within, is, simple) (IsString-close_quote text fuel (p + 1) e rest (omega (arith, enough)))
IsString-close_quote text (suc fuel) p e (escaped backslash rest) enough =
    let inside = IsString-inside text (p + 2) e rest in
    let within : leb (length text) p ≡ false = ground (arith, inside) in
    let two : ltb (p + 1) (length text) ≡ true = ground (arith, inside) in
    let is : (byte text p == 0x22) ≡ false = ground (arith, backslash) in
    let slash : (byte text p == 0x5C) ≡ true = ground (arith, backslash) in
    rw (within, is, slash, two)
      (IsString-close_quote text fuel (p + 2) e rest (omega (arith, enough)))

-- A string that ends is skipped to its end, by the same bytes as above.
pub skip_string-close_quote :
    (text : List ℕ) (fuel p : ℕ)
    → length text < fuel + p
    → ((e : ℕ) × (close_quote text fuel p ≡ some e) × (skip_string text fuel p ≡ e + 1))
      ⊎ ((close_quote text fuel p ≡ none) × (length text ≤ skip_string text fuel p))
unfolding close_quote skip_string
skip_string-close_quote text zero p enough = inr (refl, omega (arith, enough))
skip_string-close_quote text (suc fuel) p enough = elim (Bool-cases (leb (length text) p)) [
  | inl past ↦ inr (rw past refl, rw past (ground (arith, past)))
  | inr within ↦ elim (Bool-cases (byte text p == 0x22)) [
    | inl closes ↦ inl (p, rw (within, closes) refl, rw (within, closes) refl)
    | inr goes_on ↦
        rw (within, goes_on)
          (skip_string-close_quote text fuel (after text p)
            (omega (arith, enough, after-forward text p)))
  ]
]

pub skip_string-IsString :
    (text : List ℕ) (p e : ℕ) → IsString text p e → skip_string text (fuel_for text) p ≡ e
skip_string-IsString text p e s =
    elim (skip_string-close_quote text (fuel_for text) p (omega arith)) [
      | inl (end, closes, skips) ↦
          let same =
            some-injective _ _
              (sym closes ∙ IsString-close_quote text (fuel_for text) p e s (omega arith)) in
          omega (arith, skips, same, (IsString-bounds text p e s).0)
      | inr (unclosed, past) ↦
          absurd (
            ground (arith, unclosed, IsString-close_quote text (fuel_for text) p e s (omega arith)))
    ]
