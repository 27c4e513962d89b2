-- ===== src/Chunking/Emit/Counts.antt =====
-- The results of `chunk_ranges` and `chunk_count` of src/inference/chunking.cpp.
use astral_runtime.Base.{
  ℕ, zero, suc, ◌-◌, ◌≤◌, ◌<◌, List, [], Bool, true, false, Option, some, none, ◌≡◌, refl, ◌⊎◌, inl,
  inr, subst, sym, arith, ltb, leb, Bool-cases, Option-cases, length, min, add32, u32_mod,
}
use astral_runtime.Base.Span.{Span, span, span_bytes, ok, nomem}
use astral_runtime.Chunking.{
  ChunkerDesc, ChunkRange, Next, Mode, whole, char, word, sentence, token, unknown, desc_valid,
  text_valid, next_unit, next_char_unit, next_word_unit, next_sentence_unit,
}
use astral_runtime.Chunking.Scan.{AllBytes}
use astral_runtime.Chunking.Units.{next_char_unit-IsScanner}
use astral_runtime.Chunking.Scanners.{next_word_unit-IsScanner, next_sentence_unit-IsScanner}
use astral_runtime.Chunking.Emit.{
  Slots, Reply, finish, finish_loop, gather, emit_loop, emit_word_chunks, emit_mode, emit_whole,
  emit_text_chunks, chunk_count, chunk_ranges, is_token,
}
use astral_runtime.Chunking.Emit.Progress.{All, InText, HasUnits, Ends, emit_loop-Ends}

-- The modes whose loops end: in `sentence` mode only without overlap.
abbrev pub Terminates : ChunkerDesc → Type 0
Terminates d = (d.mode ≡ char) ⊎ (d.mode ≡ word) ⊎ ((d.mode ≡ sentence) × (d.overlap_units ≡ 0))

abbrev loop_count : Option (ℕ × List ChunkRange) → Option ℕ
loop_count none = none
loop_count (some (required, out)) = some required

-- The counter of the loop does not depend on the array.
emit_loop-count :
    (next : ℕ → Next) (restore : Bool) (d : ChunkerDesc) (len : ℕ) (s t : Slots)
    (fuel pos required : ℕ) (out out' : List ChunkRange)
    → loop_count (emit_loop next restore d len s fuel pos required out)
      ≡ loop_count (emit_loop next restore d len t fuel pos required out')
unfolding emit_loop
emit_loop-count next restore d len s t zero pos required out out' = refl
emit_loop-count next restore d len s t (suc fuel) pos required out out' =
    elim (Bool-cases (ltb pos len)) [
      | inr over ↦ rw (over, emit_loop)
      | inl more ↦ elim (Option-cases (next pos).0) [
        | inl n ↦ rw (more, n, emit_loop)
        | inr (u, n) ↦
            let g = gather next restore d (d.max_units - 1) 1 (next pos).1 u.end u.begin in
            elim (Bool-cases (leb len g.0)) [
              | inl ended ↦ rw (more, n, emit_loop, ended)
              | inr goes_on ↦
                  rw (more, n, emit_loop, goes_on)
                    (emit_loop-count next restore d len s t fuel _ (add32 required 1) _ _)
            ]
      ]
    ]

abbrev pub reply_count : Option Reply → Option (Option ℕ)
reply_count none = none
reply_count (some r) = some r.count

finish_loop-count :
    (s t : Slots) (a b : Option (ℕ × List ChunkRange))
    → loop_count a ≡ loop_count b
    → reply_count (finish_loop s a) ≡ reply_count (finish_loop t b)
unfolding finish
finish_loop-count s t none none e = refl
finish_loop-count s t none (some b) e = cc
finish_loop-count s t (some a) none e = cc
finish_loop-count s t (some a) (some b) e = ground arith

emit_mode-count :
    (fuel : ℕ) (d : ChunkerDesc) (m : Mode) (text : List ℕ) (s t : Slots)
    → reply_count (emit_mode fuel d m text s) ≡ reply_count (emit_mode fuel d m text t)
unfolding emit_mode emit_word_chunks emit_whole finish
emit_mode-count fuel d whole text s t = ground arith
emit_mode-count fuel d word text s t =
    finish_loop-count s t _ _ (emit_loop-count _ _ _ _ s t _ _ _ _ _)
emit_mode-count fuel d char text s t =
    finish_loop-count s t _ _ (emit_loop-count _ _ _ _ s t _ _ _ _ _)
emit_mode-count fuel d sentence text s t =
    finish_loop-count s t _ _ (emit_loop-count _ _ _ _ s t _ _ _ _ _)
emit_mode-count fuel d token text s t =
    finish_loop-count s t _ _ (emit_loop-count _ _ _ _ s t _ _ _ _ _)
emit_mode-count fuel d unknown text s t =
    finish_loop-count s t _ _ (emit_loop-count _ _ _ _ s t _ _ _ _ _)

-- `chunk_count` reports the number that `chunk_ranges` reports, for every descriptor, text and array,
-- and they refuse the same arguments: the caller may ask for the number first.
pub chunk_ranges-chunk_count :
    (fuel : ℕ) (d : Option ChunkerDesc) (text : Span) (n : ℕ) (has_count : Bool)
    → reply_count (chunk_ranges fuel d text (some n) n has_count)
      ≡ reply_count (chunk_count fuel d text has_count)
unfolding chunk_ranges chunk_count emit_text_chunks
chunk_ranges-chunk_count fuel none text n has_count = refl
chunk_ranges-chunk_count fuel (some d) text n has_count =
    ground (arith, emit_mode-count fuel d d.mode (span_bytes text) (some n) none)

-- A finished call with room for `n` ranges: the counter is at most the length of the text, so many
-- ranges are written as fit, each lies in the text and is not empty, and the code says whether they fit.
pub record Chunked (len n : ℕ) (r : Reply) : Type 0 where
  pub required : ℕ
  pub counted : r.count ≡ some required
  pub bounded : required ≤ len
  pub filled : length r.written ≡ min required n
  pub in_text : All (InText len) r.written
  pub code_fits : required ≤ n → r.code ≡ ok
  pub code_short : n < required → r.code ≡ nomem

finish_loop-Chunked :
    (len n : ℕ) (o : Option (ℕ × List ChunkRange))
    → Ends len (some n) o
    → (r : Reply) × (finish_loop (some n) o ≡ some r) × Chunked len n r
unfolding finish
finish_loop-Chunked len n none h = absurd h
finish_loop-Chunked len n (some (required, out)) h = (
  finish (some n) required out,
  refl,
  record {
    required = required;
    counted = refl;
    bounded = h.0;
    filled = h.1;
    in_text = h.2;
    code_fits = λ q. ground arith;
    code_short = λ q. ground arith;
  },
)

module _ (fuel : ℕ) (d : ChunkerDesc) (text : List ℕ) (n : ℕ) (units_ok : HasUnits d)
    (bytes : AllBytes text) (small : length text < u32_mod) (enough : length text < fuel) where
  char_Chunked :
      (r : Reply) × (finish_loop
          (some n)
          (emit_loop (next_char_unit text) true d (length text) (some n) fuel 0 0 [])
        ≡ some r)
      × Chunked (length text) n r
  char_Chunked = finish_loop-Chunked (length text) n _ (
      emit_loop-Ends (next_char_unit text) true d (length text) (next_char_unit-IsScanner text)
        units_ok (some n) fuel 0 0 [] (inr stops) (omega arith) small (omega arith)
        (omega arith, omega arith, tt))
    where
      stops : (p : ℕ) → (next_char_unit text p).0 ≡ none → length text ≤ p
      stops p e = unfold next_char_unit in ground arith

  word_Chunked :
      (r : Reply) × (emit_word_chunks fuel d text (some n) ≡ some r) × Chunked (length text) n r
  unfolding emit_word_chunks
  word_Chunked = finish_loop-Chunked (length text) n _ (
      emit_loop-Ends (next_word_unit text) false d (length text)
        (next_word_unit-IsScanner text bytes) units_ok (some n) fuel 0 0 []
        (inr (next_word_unit-IsScanner text bytes).stops) (omega arith) small (omega arith)
        (omega arith, omega arith, tt))

  sentence_Chunked :
      d.overlap_units ≡ 0
      → (r : Reply) × (finish_loop
            (some n)
            (emit_loop (next_sentence_unit d text) true d (length text) (some n) fuel 0 0 [])
          ≡ some r)
        × Chunked (length text) n r
  sentence_Chunked z = finish_loop-Chunked (length text) n _ (
      emit_loop-Ends (next_sentence_unit d text) true d (length text)
        (next_sentence_unit-IsScanner d text) units_ok (some n) fuel 0 0 [] (inl z) (omega arith)
        small (omega arith) (omega arith, omega arith, tt))

  emit_text_chunks-Chunked :
      Terminates d
      → (r : Reply) × (emit_text_chunks fuel d text (some n) ≡ some r) × Chunked (length text) n r
  unfolding emit_text_chunks next_unit
  emit_text_chunks-Chunked t = elim t [
    | inl m ↦ subst Good (sym m) char_Chunked
    | inr (inl m) ↦ subst Good (sym m) word_Chunked
    | inr (inr (m, z)) ↦ subst Good (sym m) (sentence_Chunked z)
  ]
    where
      Good : Mode → Type 0
      Good m = (r : Reply) × (emit_mode fuel d m text (some n) ≡ some r) × Chunked (length text) n r

pub desc_valid-HasUnits :
    (d : ChunkerDesc) → desc_valid (some d) ≡ true → d.max_units < u32_mod → HasUnits d
unfolding desc_valid
desc_valid-HasUnits d v f = ground arith

-- `chunk_ranges` with an array of `n` slots ends, in the modes `char` and `word` and in the mode `sentence` without
-- overlap, with a result as `Chunked` says: at most as many ranges as the text has bytes, as many of them written as
-- there are slots, each in the text and not empty, and the code for their fitting or not. The descriptor is valid,
-- the text has less than 2 ^ 32 bytes, and the rounds are more than these.
pub chunk_ranges-Chunked :
    (fuel : ℕ) (d : ChunkerDesc) (text : List ℕ) (n : ℕ)
    → desc_valid (some d) ≡ true
    → d.max_units < u32_mod
    → Terminates d
    → AllBytes text
    → length text < u32_mod
    → length text < fuel
    → (r : Reply) × (chunk_ranges fuel (some d) (span text) (some n) n true ≡ some r)
      × Chunked (length text) n r
unfolding chunk_ranges
chunk_ranges-Chunked fuel d text n valid fits ends bytes small enough =
    rw (valid, text_known, not_token)
      (emit_text_chunks-Chunked fuel d text n (desc_valid-HasUnits d valid fits) bytes small enough
        ends)
  where
    text_known : text_valid (span text) ≡ true
    text_known = unfold text_valid in refl

    not_token : is_token (some d) ≡ false
    not_token = elim ends [
      | inl m ↦ ground arith
      | inr (inl m) ↦ ground arith
      | inr (inr (m, z)) ↦ ground arith
    ]
