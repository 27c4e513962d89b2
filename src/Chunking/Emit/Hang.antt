-- ===== src/Chunking/Emit/Hang.antt =====
-- Where the general loop of src/inference/chunking.cpp does not end: sentences with overlap, and spaces
-- behind the last one.
use astral_runtime.Base.{
  ℕ, zero, suc, ◌-◌, ◌<◌, List, [], true, false, some, none, ◌≡◌, refl, ap, sym, subst, arith, ltb,
  leb, ◌==◌, length,
}
use astral_runtime.Base.Span.{span}
use astral_runtime.Chunking.{
  ChunkerDesc, ChunkRange, Next, Mode, sentence, desc_valid, text_valid, next_unit,
  next_sentence_unit,
}
use astral_runtime.Chunking.Emit.{
  Slots, finish_loop, gather, emit_loop, emit_mode, emit_text_chunks, chunk_count, is_token,
}

module _ (next : ℕ → Next) (d : ChunkerDesc) (len e : ℕ)
    (first : next 0 ≡ (some (record { begin = 0; end = e }), e)) (short : e < len)
    (last : (next e).0 ≡ none) (over : 0 < d.overlap_units) (two : 1 < d.max_units) where
  -- The overlap restarts the scan at the sentence that it has just emitted.
  gather_back : gather next true d (d.max_units - 1) 1 e e 0 ≡ (e, e, 0)
  unfolding gather
  gather_back = rw more (rw (last, gather))
    where
      more : d.max_units - 1 ≡ suc (d.max_units - 2)
      more = omega arith

  emit_loop-none :
      (slots : Slots) (fuel required : ℕ) (out : List ChunkRange)
      → emit_loop next true d len slots fuel 0 required out ≡ none
  unfolding emit_loop
  emit_loop-none slots zero required out = refl
  emit_loop-none slots (suc fuel) required out =
      rw (inside, one, at_end, gather_back, goes_on, emit_loop)
        (rw (overlap, at_end, gather_back) (emit_loop-none slots fuel _ _))
    where
      one : (next 0).0 ≡ some (record { begin = 0; end = e })
      one = ap (λ r. r.0) first

      at_end : (next 0).1 ≡ e
      at_end = ap (λ r. r.1) first

      inside : ltb 0 len ≡ true
      inside = ground arith

      goes_on : leb len e ≡ false
      goes_on = ground arith

      overlap : (d.overlap_units == 0) ≡ false
      overlap = ground arith

-- `chunk_count` never returns in `sentence` mode with an overlap of at least one unit, on a text whose
-- first unit starts at 0 and has only spaces behind it, one at least: no number of rounds is enough.
pub chunk_count_hangs :
    (d : ChunkerDesc) (text : List ℕ) (e : ℕ)
    → desc_valid (some d) ≡ true
    → d.mode ≡ sentence
    → 0 < d.overlap_units
    → next_sentence_unit d text 0 ≡ (some (record { begin = 0; end = e }), e)
    → e < length text
    → (next_sentence_unit d text e).0 ≡ none
    → (fuel : ℕ) → chunk_count fuel (some d) (span text) true ≡ none
unfolding chunk_count emit_text_chunks next_unit
chunk_count_hangs d text e valid m over first short last fuel =
    rw (valid, text_known, not_token) (subst Hangs (sym m) hangs)
  where
    Hangs : Mode → Type 0
    Hangs mode = emit_mode fuel d mode text none ≡ none

    two : 1 < d.max_units
    two = unfold desc_valid in ground arith

    hangs : Hangs sentence
    hangs = ap (finish_loop none) (
        emit_loop-none (next_sentence_unit d text) d (length text) e first short last over two none
          fuel 0 [])

    text_known : text_valid (span text) ≡ true
    text_known = unfold text_valid in refl

    not_token : is_token (some d) ≡ false
    not_token = ground arith
