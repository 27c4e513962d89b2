-- ===== src/Chunking/Scanners.antt =====
-- The scanners of src/inference/chunking.cpp as the emitting loops use them.
use astral_runtime.Base.{
  ℕ, zero, suc, ◌+◌, ◌≤◌, ◌<◌, List, some, none, ◌≡◌, ap, arith, leb, Bool-cases, inl, inr,
  if◌then◌else◌, length, drop, length-drop, get_or, get_or-drop, ◌∙◌, sym, subst,
}
use mathlib.Core.Path.{fun_ext}
use astral_runtime.Chunking.{
  ChunkerDesc, UnitRange, Next, is_space, skip_space, sentence_end, utf8_step, next_word_unit,
  next_sentence_unit,
}
use astral_runtime.Chunking.Scan.{AllBytes}
use astral_runtime.Chunking.Units.{
  IsScanner, spaces, word_length, word_length-le, skip_space-eq, spaces-stop, word_end-eq,
  utf8_step_bounds, word_length-pos,
}

-- The next word by its definition: past the spaces, as far as no space stands.
abbrev pub first_word : List ℕ → ℕ → Next
first_word text pos =
    let b = pos + spaces (drop pos text) in
    if leb (length text) b
    then (none, b)
    else let e = b + word_length (drop b text) in (some (record { begin = b; end = e }), e)

-- `next_word_unit`, which searches by words of eight bytes, gives the next maximal run of bytes that
-- are no space, or the end of the text where only spaces are left.
pub next_word_unit-first_word :
    (text : List ℕ) (pos : ℕ) → AllBytes text → next_word_unit text pos ≡ first_word text pos
unfolding next_word_unit
next_word_unit-first_word text pos h = rw (
  skip_space-eq (drop pos text) pos,
  word_end-eq (suc (length text)) text (pos + spaces (drop pos text)) h (omega arith),
)

first_word-IsScanner : (text : List ℕ) → IsScanner (length text) (first_word text)
first_word-IsScanner text = record { finds = finds; stops = λ pos e. ground arith }
  where
    open_word :
        (pos : ℕ)
        → pos + spaces (drop pos text) < length text
        → (0 < word_length (drop (pos + spaces (drop pos text)) text))
    open_word pos h =
        word_length-pos _ (omega (arith, length-drop (pos + spaces (drop pos text)) text)) (
          ap is_space (
            get_or-drop (pos + spaces (drop pos text)) 0 text 0
            ∙ ap (λ i. get_or text i 0) same
            ∙ sym (get_or-drop pos (spaces (drop pos text)) text 0))
          ∙ spaces-stop (drop pos text) (omega (arith, length-drop pos text)))
      where
        same : pos + spaces (drop pos text) + 0 ≡ pos + spaces (drop pos text)
        same = omega arith

    finds :
        (pos : ℕ) (u : UnitRange)
        → (first_word text pos).0 ≡ some u
        → (pos ≤ u.begin)
          × (u.begin < u.end)
          × (u.end ≤ length text)
          × ((first_word text pos).1 ≡ u.end)
    finds pos u e = elim (Bool-cases (leb (length text) (pos + spaces (drop pos text)))) [
      | inl out ↦ absurd (ground arith)
      | inr inside ↦ ground (
        arith,
        open_word pos (ground arith),
        word_length-le (drop (pos + spaces (drop pos text)) text),
        length-drop (pos + spaces (drop pos text)) text,
      )
    ]

pub next_word_unit-IsScanner :
    (text : List ℕ) → AllBytes text → IsScanner (length text) (next_word_unit text)
next_word_unit-IsScanner text h =
    subst (IsScanner (length text)) (sym (fun_ext (λ p. next_word_unit-first_word text p h)))
      (first_word-IsScanner text)

sentence_end_bounds :
    (d : ChunkerDesc) (fuel : ℕ) (text : List ℕ) (p : ℕ)
    → p ≤ length text
    → (p ≤ sentence_end d fuel text p) × (sentence_end d fuel text p ≤ length text)
unfolding sentence_end
sentence_end_bounds d zero text p h = omega arith
sentence_end_bounds d (suc fuel) text p h =
    ground (arith, utf8_step_bounds text p, sentence_end_bounds d fuel text (utf8_step text p))

sentence_end_moves :
    (d : ChunkerDesc) (fuel : ℕ) (text : List ℕ) (p : ℕ)
    → p < length text
    → p < sentence_end d (suc fuel) text p
unfolding sentence_end
sentence_end_moves d fuel text p h =
    ground (arith, utf8_step_bounds text p, sentence_end_bounds d fuel text (utf8_step text p))

pub next_sentence_unit-IsScanner :
    (d : ChunkerDesc) (text : List ℕ) → IsScanner (length text) (next_sentence_unit d text)
unfolding next_sentence_unit
next_sentence_unit-IsScanner d text = record {
  finds = λ pos u e. ground (
    arith,
    skip_space-eq (drop pos text) pos,
    sentence_end_bounds d (suc (length text)) text (skip_space (drop pos text) pos),
    sentence_end_moves d (length text) text (skip_space (drop pos text) pos),
  );
  stops = λ pos e. ground arith;
}
