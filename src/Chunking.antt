-- ===== src/Chunking.antt =====
-- Text and token chunking: src/inference/chunking.cpp. A text is the list of its bytes; a position is
-- below 2 ^ 32, so no addition to one wraps where the source tests it against the length.
pub mod Scan
pub mod Units
pub mod Scanners
pub mod Emit
use astral_runtime.Base.{
  ℕ, zero, suc, ◌+◌, ◌-◌, ◌*◌, ◌/◌, ◌%◌, ◌^◌, bit_and, List, [], ◌∷◌, ◌++◌, Bool, true, false, not,
  ◌&&◌, ◌||◌, Option, none, some, ltb, leb, ◌==◌, if◌then◌else◌, length, get_or, take, drop, add32,
  sub64, u64_mod,
}
use astral_runtime.Base.Span.{
  Span, span, null, span_len, span_bytes, span_null, Err, ok, invalid, nomem,
}

-- `AstralChunkMode`; `unknown` is any other number.
pub data Mode : Type 0 where
  whole char word sentence token unknown : Mode

pub record ChunkerDesc : Type 0 where
  pub size : ℕ
  pub mode : Mode
  pub max_units : ℕ
  pub overlap_units : ℕ
  pub document_id : ℕ
  pub group_id : ℕ
  pub keep_empty : Bool
  pub delimiters : Span

pub record ChunkRange : Type 0 where
  pub size : ℕ
  pub document_id : ℕ
  pub chunk_id : ℕ
  pub group_id : ℕ
  pub byte_begin : ℕ
  pub byte_end : ℕ
  pub token_begin : ℕ
  pub token_end : ℕ

pub record UnitRange : Type 0 where
  pub begin : ℕ
  pub end : ℕ

abbrev pub desc_size : ℕ
desc_size = 48

abbrev pub range_size : ℕ
range_size = 32

abbrev pub no_token_range : ℕ
no_token_range = 0xFFFF_FFFF

pub mode_known : Mode → Bool
mode_known unknown = false
mode_known _ = true

-- A null descriptor is `none`.
pub desc_valid : Option ChunkerDesc → Bool
unfolding mode_known
desc_valid none = false
desc_valid (some d) =
    if not (d.size == desc_size) || d.max_units == 0
    then false
    else if leb d.max_units d.overlap_units
    then false
    else mode_known d.mode

pub text_valid : Span → Bool
text_valid s = not (span_null s) || span_len s == 0

-- The byte at a position; the code reads only below the length.
abbrev pub at : List ℕ → ℕ → ℕ
at text p = get_or text p 0

pub is_space : ℕ → Bool
is_space c = c == b' ' || c == 0x0A || c == 0x0D || c == 0x09 || c == 0x0C || c == 0x0B

pub can_be_space : ℕ → Bool
can_be_space c = leb c 0x20

-- Eight bytes as a little-endian word.
pub load_word : List ℕ → ℕ
load_word [] = 0
load_word (b ∷ bs) = b + 256 * load_word bs

pub space_mask : ℕ → ℕ
space_mask w =
    bit_and (bit_and (sub64 w 0x2121_2121_2121_2121) (u64_mod - 1 - w)) 0x8080_8080_8080_8080

pub trailing_zero_bits : ℕ → ℕ → ℕ
trailing_zero_bits zero mask = 0
trailing_zero_bits (suc n) mask = elim (mask % 2 == 1) [
  | true ↦ 0
  | false ↦ suc (trailing_zero_bits n (mask / 2))
]

-- The byte loop behind the word loop, over what is left of the text.
pub find_byte : List ℕ → ℕ → ℕ
find_byte [] pos = pos
find_byte (c ∷ rest) pos = if can_be_space c then pos else find_byte rest (pos + 1)

-- `find_ascii_space_candidate`; the list is the text from `pos` on.
pub find_candidate : ℕ → List ℕ → ℕ → ℕ
find_candidate zero rest pos = find_byte rest pos
find_candidate (suc fuel) rest pos = elim (leb 8 (length rest)) [
  | true ↦ elim (space_mask (load_word (take 8 rest)) == 0) [
    | true ↦ find_candidate fuel (drop 8 rest) (pos + 8)
    | false ↦ pos + trailing_zero_bits 64 (space_mask (load_word (take 8 rest))) / 8
  ]
  | false ↦ find_byte rest pos
]

pub utf8_width : ℕ → ℕ
utf8_width c =
    if bit_and c 0xE0 == 0xC0
    then 2
    else if bit_and c 0xF0 == 0xE0
    then 3
    else if bit_and c 0xF8 == 0xF0
    then 4
    else 1

pub utf8_step : List ℕ → ℕ → ℕ
utf8_step text pos =
    if leb (length text) pos
    then pos
    else if bit_and (at text pos) 0x80 == 0
    then pos + 1
    else if leb (utf8_width (at text pos)) (length text - pos)
    then pos + utf8_width (at text pos)
    else pos + 1

pub mem_byte : ℕ → List ℕ → Bool
mem_byte c [] = false
mem_byte c (d ∷ ds) = d == c || mem_byte c ds

pub default_delimiters : List ℕ
default_delimiters = b'.' ∷ b'!' ∷ b'?' ∷ 0x0A ∷ []

pub is_sentence_delim : ChunkerDesc → ℕ → Bool
unfolding mem_byte default_delimiters
is_sentence_delim d c =
    if not (span_null d.delimiters) && not (span_len d.delimiters == 0)
    then mem_byte c (span_bytes d.delimiters)
    else mem_byte c default_delimiters

-- `*pos` at the return, and the unit if there is one.
abbrev pub Next : Type 0
Next = Option UnitRange × ℕ

pub next_char_unit : List ℕ → ℕ → Next
next_char_unit text pos =
    if leb (length text) pos
    then (none, pos)
    else (some (record { begin = pos; end = utf8_step text pos }), utf8_step text pos)

-- The first position from `p` on that holds no space; the list is the text from `p` on.
pub skip_space : List ℕ → ℕ → ℕ
skip_space [] p = p
skip_space (c ∷ rest) p = if is_space c then skip_space rest (p + 1) else p

-- The second loop of `next_word_unit`; each round moves on, so the length is enough fuel.
pub word_end : ℕ → List ℕ → ℕ → ℕ
word_end zero text p = p
word_end (suc fuel) text p =
    let q = find_candidate (length text) (drop p text) p in
    let rest = word_end fuel text (q + 1) in
    if leb (length text) p
    then p
    else if leb (length text) q
    then q
    else if is_space (at text q)
    then q
    else rest

pub next_word_unit : List ℕ → ℕ → Next
next_word_unit text pos =
    let p = skip_space (drop pos text) pos in
    if leb (length text) p
    then (none, p)
    else let e = word_end (suc (length text)) text p in (some (record { begin = p; end = e }), e)

pub sentence_end : ChunkerDesc → ℕ → List ℕ → ℕ → ℕ
sentence_end d zero text p = p
sentence_end d (suc fuel) text p =
    let rest = sentence_end d fuel text (utf8_step text p) in
    if leb (length text) p
    then p
    else if is_sentence_delim d (at text p)
    then utf8_step text p
    else rest

pub next_sentence_unit : ChunkerDesc → List ℕ → ℕ → Next
next_sentence_unit d text pos =
    let p = skip_space (drop pos text) pos in
    if leb (length text) p
    then (none, p)
    else let e = sentence_end d (suc (length text)) text p in
      (some (record { begin = p; end = e }), e)

pub next_unit : ChunkerDesc → Mode → List ℕ → ℕ → Next
next_unit d char text = next_char_unit text
next_unit d word text = next_word_unit text
next_unit d sentence text = next_sentence_unit d text
next_unit d _ text = λ pos. (none, pos)

pub fill_text_range : ChunkerDesc → ℕ → ℕ → ℕ → ChunkRange
fill_text_range d id b e = record {
  size = range_size;
  document_id = d.document_id;
  chunk_id = id;
  group_id = d.group_id;
  byte_begin = b;
  byte_end = e;
  token_begin = no_token_range;
  token_end = no_token_range;
}

pub fill_token_range : ChunkerDesc → ℕ → ℕ → ℕ → ChunkRange
fill_token_range d id b e = record {
  size = range_size;
  document_id = d.document_id;
  chunk_id = id;
  group_id = d.group_id;
  byte_begin = 0;
  byte_end = 0;
  token_begin = b;
  token_end = e;
}
