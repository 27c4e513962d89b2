-- ===== src/Chunking/Units.antt =====
-- The unit scanners of src/inference/chunking.cpp: where units lie, and what words are.
use astral_runtime.Base.{
  ℕ, zero, suc, ◌+◌, ◌≤◌, ◌<◌, List, [], ◌∷◌, true, false, some, none, ◌≡◌, refl, ap, arith, leb,
  Bool-cases, inl, inr, if◌then◌else◌, length, get_or, drop, drop-cons, drop-drop, drop-all,
  length-drop,
}
use native.Mathlib.Numerals.{add-one}
use native.Mathlib.Decide.{dec_le}
use astral_runtime.Chunking.{
  UnitRange, Next, is_space, can_be_space, find_byte, skip_space, word_end, utf8_width, utf8_step,
  at, next_char_unit,
}
use astral_runtime.Chunking.Scan.{AllBytes, AllBytes-drop, find_byte-shift, find_candidate-eq}

-- What the emitting loops need of a scanner over a text of `len` bytes.
pub record IsScanner (len : ℕ) (next : ℕ → Next) : Type 0 where
  pub finds :
      (pos : ℕ) (u : UnitRange)
      → (next pos).0 ≡ some u
      → (pos ≤ u.begin) × (u.begin < u.end) × (u.end ≤ len) × ((next pos).1 ≡ u.end)
  pub stops : (pos : ℕ) → (next pos).0 ≡ none → len ≤ (next pos).1

pub utf8_step_bounds :
    (text : List ℕ) (pos : ℕ)
    → pos < length text
    → (pos < utf8_step text pos) × (utf8_step text pos ≤ length text)
unfolding utf8_step utf8_width
utf8_step_bounds text pos h = ground arith

pub next_char_unit-IsScanner : (text : List ℕ) → IsScanner (length text) (next_char_unit text)
unfolding next_char_unit
next_char_unit-IsScanner text = record {
  finds = λ pos u e. ground (arith, utf8_step_bounds text pos);
  stops = λ pos e. ground arith;
}

-- A character unit starts where the scan stands.
pub next_char_unit_begin :
    (text : List ℕ) (pos : ℕ) (u : UnitRange) → (next_char_unit text pos).0 ≡ some u → u.begin ≡ pos
unfolding next_char_unit
next_char_unit_begin text pos u e = ground arith

-- How many spaces a text starts with, and how many bytes that are no space.
pub spaces : List ℕ → ℕ
spaces [] = 0
spaces (c ∷ rest) = if is_space c then spaces rest + 1 else 0

pub word_length : List ℕ → ℕ
word_length [] = 0
word_length (c ∷ rest) = if is_space c then 0 else word_length rest + 1

pub spaces-le : (bs : List ℕ) → spaces bs ≤ length bs
unfolding spaces
spaces-le [] = omega arith
spaces-le (c ∷ bs) = ground (arith, spaces-le bs)

pub word_length-le : (bs : List ℕ) → word_length bs ≤ length bs
unfolding word_length
word_length-le [] = omega arith
word_length-le (c ∷ bs) = ground (arith, word_length-le bs)

pub skip_space-eq : (bs : List ℕ) (p : ℕ) → skip_space bs p ≡ p + spaces bs
unfolding skip_space spaces
skip_space-eq [] p = omega arith
skip_space-eq (c ∷ bs) p = ground (arith, skip_space-eq bs (p + 1))

-- A word that does not start with a space is not empty.
pub word_length-pos :
    (bs : List ℕ) → 0 < length bs → is_space (get_or bs 0 0) ≡ false → 0 < word_length bs
unfolding word_length
word_length-pos [] h e = h
word_length-pos (c ∷ bs) h e = ground arith

-- Behind the spaces stands a byte that is none.
pub spaces-stop : (bs : List ℕ) → spaces bs < length bs → is_space (get_or bs (spaces bs) 0) ≡ false
unfolding spaces
spaces-stop [] h = absurd (omega arith)
spaces-stop (c ∷ bs) h = elim (Bool-cases (is_space c)) [
  | inr e ↦ rw (e, spaces) e
  | inl e ↦ rw (e, spaces, add-one) (spaces-stop bs (ground arith))
]

space_candidate : (c : ℕ) → is_space c ≡ true → can_be_space c ≡ true
unfolding is_space can_be_space
space_candidate c h = ground arith

find_byte-le : (bs : List ℕ) → find_byte bs 0 ≤ length bs
unfolding find_byte
find_byte-le [] = omega arith
find_byte-le (c ∷ bs) = ground (arith, find_byte-shift bs 1 0, find_byte-le bs)

-- The byte search stops within the word, or at its end.
word_length-find :
    (bs : List ℕ) → word_length bs ≡ find_byte bs 0 + word_length (drop (find_byte bs 0) bs)
unfolding word_length find_byte
word_length-find [] = refl
word_length-find (c ∷ bs) = elim (Bool-cases (can_be_space c)) [
  | inl e ↦ rw e (omega arith)
  | inr e ↦ ground (
    arith,
    space_candidate c,
    word_length-find bs,
    find_byte-shift bs 1 0,
    ap (λ n. word_length (drop n (c ∷ bs))) next,
  )
]
  where
    next : find_byte bs 1 ≡ suc (find_byte bs 0)
    next = omega (arith, find_byte-shift bs 1 0)

-- The loop of `next_word_unit`, with its candidates, ends where the word ends.
pub word_end-eq :
    (fuel : ℕ) (text : List ℕ) (p : ℕ)
    → AllBytes text
    → length text ≤ p + fuel
    → word_end fuel text p ≡ p + word_length (drop p text)
unfolding word_end
word_end-eq zero text p h f = unfold word_length in rw (drop-all p text (omega arith)) (omega arith)
word_end-eq (suc fuel) text p h f = elim (dec_le (length text) p) [
  | yes out ↦ ground (arith, ap word_length (drop-all p text out), word_length_nil)
  | no inside ↦ ground (
    arith,
    find_candidate-eq (length text) (drop p text) p (AllBytes-drop p text h),
    find_byte-shift (drop p text) p 0,
    ap (find_byte (drop p text)) same,
    find_byte-le (drop p text),
    length-drop p text,
    word_length-find (drop p text),
    ap word_length (drop-drop p (find_byte (drop p text) 0) text),
    at_candidate (p + find_byte (drop p text) 0),
    word_end-eq fuel text (p + find_byte (drop p text) 0 + 1) h,
  )
]
  where
    same : p + 0 ≡ p
    same = omega arith

    word_length_nil : word_length [] ≡ 0
    word_length_nil = unfold word_length in refl

    at_candidate :
        (q : ℕ)
        → word_length (drop q text) ≡ (
            if leb (length text) q
            then 0
            else if is_space (at text q)
            then 0
            else word_length (drop (q + 1) text) + 1)
    at_candidate q = elim (dec_le (length text) q) [
      | yes out ↦ ground (arith, ap word_length (drop-all q text out), word_length_nil)
      | no inside ↦ rw (drop-cons q text 0 (omega arith)) (unfold word_length in ground arith)
    ]
