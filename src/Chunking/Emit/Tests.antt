-- ===== src/Chunking/Emit/Tests.antt =====
-- Runs of src/inference/chunking.cpp, and its theorems at concrete texts.
use astral_runtime.Base.{ℕ, ◌<◌, ◌≡◌, refl, List, [], ◌∷◌, true, false, none, some, inl, inr, arith}
use astral_runtime.Base.Span.{span, null, ok}
use astral_runtime.Chunking.{
  ChunkerDesc, ChunkRange, Mode, char, word, sentence, token, desc_valid, desc_size, text_valid,
  mode_known, next_sentence_unit, next_word_unit, is_space, can_be_space, skip_space, word_end,
  sentence_end, utf8_step, utf8_width, is_sentence_delim, find_candidate, find_byte,
  trailing_zero_bits, space_mask, load_word,
}
use astral_runtime.Chunking.Scan.{find_candidate-eq}
use astral_runtime.Chunking.Scanners.{first_word, next_word_unit-first_word}
use astral_runtime.Chunking.Emit.{
  Reply, chunk_count, chunk_ranges, emit_text_chunks, emit_word_chunks, emit_loop, gather, finish,
  token_chunk_ranges, token_chunk_count_fast,
}
use astral_runtime.Chunking.Emit.Counts.{
  Chunked, reply_count, chunk_ranges-Chunked, chunk_ranges-chunk_count,
}
use astral_runtime.Chunking.Emit.Tiling.{copy_all, copy_all-chunk_ranges}
use astral_runtime.Chunking.Emit.Hang.{chunk_count_hangs}
use astral_runtime.Chunking.Emit.Tokens.{
  Windows, token_chunk_ranges-Windows, token_chunk_ranges_wrap,
}

abbrev desc : Mode → ℕ → ℕ → ChunkerDesc
desc mode max_units overlap_units = record {
  size = desc_size;
  mode = mode;
  max_units = max_units;
  overlap_units = overlap_units;
  document_id = 7;
  group_id = 1;
  keep_empty = false;
  delimiters = null 0;
}

-- "ab  cd e" and "a. ".
abbrev words : List ℕ
words = b'a' ∷ b'b' ∷ 32 ∷ 32 ∷ b'c' ∷ b'd' ∷ 32 ∷ b'e' ∷ []

abbrev one_sentence : List ℕ
one_sentence = b'a' ∷ b'.' ∷ 32 ∷ []

-- Two words to a chunk, the last of them again in the next one.
words_run : reply_count (chunk_count 9 (some (desc word 2 1)) (span words) true) ≡ some (some 2)
unfolding chunk_count desc_valid mode_known text_valid emit_text_chunks emit_word_chunks emit_loop
    gather finish next_word_unit is_space can_be_space skip_space word_end find_candidate find_byte
    trailing_zero_bits space_mask load_word
words_run = refl

word_valid : desc_valid (some (desc word 2 1)) ≡ true
unfolding desc_valid mode_known
word_valid = refl

find_candidate-eq_example : find_candidate 9 words 0 ≡ find_byte words 0
find_candidate-eq_example = find_candidate-eq 9 words 0 (omega arith)

next_word_unit-first_word_example : next_word_unit words 2 ≡ first_word words 2
next_word_unit-first_word_example = next_word_unit-first_word words 2 (omega arith)

chunk_ranges-Chunked_example :
    (r : Reply) × (chunk_ranges 9 (some (desc word 2 1)) (span words) (some 1) 1 true ≡ some r)
    × Chunked 8 1 r
chunk_ranges-Chunked_example =
    chunk_ranges-Chunked 9 (desc word 2 1) words 1 word_valid (omega arith) (inr (inl refl))
      (omega arith) (omega arith) (omega arith)

chunk_ranges-chunk_count_example :
    reply_count (chunk_ranges 9 (some (desc word 2 1)) (span words) (some 1) 1 true)
    ≡ reply_count (chunk_count 9 (some (desc word 2 1)) (span words) true)
chunk_ranges-chunk_count_example =
    chunk_ranges-chunk_count 9 (some (desc word 2 1)) (span words) 1 true

copy_all-chunk_ranges_example :
    (r : Reply) × (chunk_ranges 9 (some (desc char 3 0)) (span words) (some 8) 8 true ≡ some r)
    × (copy_all words r.written ≡ words)
unfolding desc_valid mode_known
copy_all-chunk_ranges_example =
    copy_all-chunk_ranges 9 (desc char 3 0) words 8 refl (omega arith) refl refl (omega arith)
      (omega arith) (omega arith) (omega arith)

chunk_count_hangs_example :
    chunk_count 1000 (some (desc sentence 2 1)) (span one_sentence) true ≡ none
unfolding desc_valid mode_known next_sentence_unit skip_space is_space sentence_end
    is_sentence_delim utf8_step utf8_width
chunk_count_hangs_example =
    chunk_count_hangs (desc sentence 2 1) one_sentence 2 refl refl (omega arith) refl (omega arith)
      refl 1000

token_chunk_ranges-Windows_example :
    let r = token_chunk_ranges (some (desc token 4 1)) 10 (some 3) 3 true in
    (r.code ≡ ok) × Windows (desc token 4 1) 10 0 r.written
unfolding desc_valid mode_known token_chunk_count_fast
token_chunk_ranges-Windows_example =
    token_chunk_ranges-Windows (desc token 4 1) 10 3 refl refl (omega arith) (omega arith)
      (omega arith)

token_chunk_ranges_wrap_example :
    (r s : ChunkRange) × ((token_chunk_ranges
        (some (desc token 0x8000_0001 0))
        0xFFFF_FFFF
        (some 2)
        2
        true).written
      ≡ r ∷ s ∷ [])
    × (s.token_end < s.token_begin)
unfolding desc_valid mode_known
token_chunk_ranges_wrap_example =
    token_chunk_ranges_wrap (desc token 0x8000_0001 0) 0xFFFF_FFFF refl refl (omega arith)
      (omega arith) (omega arith)
