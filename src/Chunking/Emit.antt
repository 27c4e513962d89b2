-- ===== src/Chunking/Emit.antt =====
-- The entry points of src/inference/chunking.cpp and their loops. What the caller's array receives is
-- the list of the ranges written, in the order of their slots; the loops run on fuel, and `none` is a
-- loop that has not ended.
pub mod Progress
pub mod Counts
pub mod Tiling
pub mod Hang
pub mod Tokens
mod Tests
use astral_runtime.Base.{
  ℕ, zero, suc, ◌+◌, ◌-◌, ◌/◌, List, [], ◌∷◌, ◌++◌, Bool, true, false, not, ◌&&◌, ◌||◌, Option,
  none, some, ltb, leb, ◌==◌, if◌then◌else◌, length, take, drop, add32, sub32, min,
}
use astral_runtime.Base.Span.{Span, span, null, span_len, span_bytes, Err, ok, invalid, nomem}
use astral_runtime.Chunking.{
  ChunkerDesc, ChunkRange, UnitRange, Mode, whole, word, token, Next, desc_valid, text_valid,
  next_unit, next_word_unit, fill_text_range, fill_token_range, range_size,
}

-- The caller's array: none (a null pointer), or so many slots.
abbrev pub Slots : Type 0
Slots = Option ℕ

abbrev pub room : Slots → ℕ
room none = 0
room (some n) = n

-- What a call gives back: the code, `*out_count` if it was written, and the ranges written.
pub record Reply : Type 0 where
  pub code : Err
  pub count : Option ℕ
  pub written : List ChunkRange

abbrev pub refused : Reply
refused = record { code = invalid; count = none; written = [] }

-- `NOMEM` if an array was given that is too short.
pub finish : Slots → ℕ → List ChunkRange → Reply
finish slots required out = record {
  code = elim slots [ none ↦ ok | some n ↦ if ltb n required then nomem else ok ];
  count = some required;
  written = out;
}

-- The inner loop: at most `rounds` more units. `restore` is the `scan = before` of the general loop,
-- which the loop for words does not have. The result is `scan`, `chunk_end` and `overlap_begin`.
pub gather : (ℕ → Next) → Bool → ChunkerDesc → ℕ → ℕ → ℕ → ℕ → ℕ → ℕ × ℕ × ℕ
gather next restore d zero units scan e overlap_begin = (scan, e, overlap_begin)
gather next restore d (suc rounds) units scan e overlap_begin = elim (next scan).0 [
  | none ↦ (if restore then scan else (next scan).1, e, overlap_begin)
  | some u ↦ gather next restore d rounds (units + 1) (next scan).1 u.end (
      if not (d.overlap_units == 0) && add32 units d.overlap_units == d.max_units
      then u.begin
      else overlap_begin)
]

-- The outer loop, as far as the counter and the ranges written.
pub emit_loop :
    (ℕ → Next)
    → Bool
    → ChunkerDesc
    → ℕ
    → Slots
    → ℕ
    → ℕ
    → ℕ
    → List ChunkRange
    → Option (ℕ × List ChunkRange)
emit_loop next restore d len slots zero pos required out = none
emit_loop next restore d len slots (suc fuel) pos required out = elim (ltb pos len) [
  | false ↦ some (required, out)
  | true ↦ elim (next pos).0 [
    | none ↦ some (required, out)
    | some first ↦
        let (scan, e, overlap_begin) =
          gather next restore d (d.max_units - 1) 1 (next pos).1 first.end first.begin in
        let out' =
          (if ltb required (room slots)
            then out ++ (fill_text_range d required first.begin e ∷ [])
            else out) in
        elim (leb len scan) [
          | true ↦ some (add32 required 1, out')
          | false ↦
              emit_loop next restore d len slots fuel
                (if not (d.overlap_units == 0) then overlap_begin else scan) (add32 required 1) out'
        ]
  ]
]

abbrev pub finish_loop : Slots → Option (ℕ × List ChunkRange) → Option Reply
finish_loop slots none = none
finish_loop slots (some (required, out)) = some (finish slots required out)

pub emit_word_chunks : ℕ → ChunkerDesc → List ℕ → Slots → Option Reply
emit_word_chunks fuel d text slots =
    finish_loop slots (emit_loop (next_word_unit text) false d (length text) slots fuel 0 0 [])

-- Mode `whole`: one range, or none for an empty text that is not to be kept.
pub emit_whole : ChunkerDesc → List ℕ → Slots → Reply
emit_whole d text slots =
    if not (length text == 0) || d.keep_empty
    then finish slots 1
        (if not (room slots == 0) then fill_text_range d 0 0 (length text) ∷ [] else [])
    else finish slots 0 []

pub emit_mode : ℕ → ChunkerDesc → Mode → List ℕ → Slots → Option Reply
emit_mode fuel d whole text slots = some (emit_whole d text slots)
emit_mode fuel d word text slots = emit_word_chunks fuel d text slots
emit_mode fuel d m text slots =
    finish_loop slots (emit_loop (next_unit d m text) true d (length text) slots fuel 0 0 [])

pub emit_text_chunks : ℕ → ChunkerDesc → List ℕ → Slots → Option Reply
unfolding emit_mode
emit_text_chunks fuel d text slots = emit_mode fuel d d.mode text slots

abbrev is_token : Option ChunkerDesc → Bool
is_token none = false
is_token (some d) = elim d.mode [ token ↦ true | _ ↦ false ]

-- `has_count` tells whether `out_count` is not null.
pub chunk_count : ℕ → Option ChunkerDesc → Span → Bool → Option Reply
chunk_count fuel none text has_count = some refused
chunk_count fuel (some d) text has_count =
    if not (desc_valid (some d)) || is_token (some d) || not (text_valid text) || not has_count
    then some refused
    else emit_text_chunks fuel d (span_bytes text) none

-- The array is its slots: `none` is a null pointer, passed with the length `max_ranges`.
pub chunk_ranges : ℕ → Option ChunkerDesc → Span → Slots → ℕ → Bool → Option Reply
chunk_ranges fuel none text slots max_ranges has_count = some refused
chunk_ranges fuel (some d) text none max_ranges has_count =
    if not (desc_valid (some d))
      || is_token (some d)
      || not (text_valid text)
      || not has_count
      || not (max_ranges == 0)
    then some refused
    else emit_text_chunks fuel d (span_bytes text) none
chunk_ranges fuel (some d) text (some n) max_ranges has_count =
    if not (desc_valid (some d)) || is_token (some d) || not (text_valid text) || not has_count
    then some refused
    else emit_text_chunks fuel d (span_bytes text) (some n)

-- `chunk_text_copy`: the code, `*out_len` and the bytes written. The output span is null with length
-- 0 (a query), null with another length, or a buffer.
pub chunk_text_copy : Span → Option ChunkRange → Span → Bool → Err × Option ℕ × List ℕ
chunk_text_copy text none buffer has_len = (invalid, none, [])
chunk_text_copy text (some r) buffer has_len =
    if not (text_valid text) || not (r.size == range_size) || not has_len
    then (invalid, none, [])
    else if ltb r.byte_end r.byte_begin || ltb (span_len text) r.byte_end
    then (invalid, none, [])
    else let n = r.byte_end - r.byte_begin in
      elim buffer [
        | null zero ↦ (ok, some n, [])
        | null (suc m) ↦ (nomem, some n, [])
        | span b ↦
            if ltb (length b) n
            then (nomem, some n, [])
            else (ok, some n, take n (drop r.byte_begin (span_bytes text)))
      ]

pub token_chunk_count_fast : ChunkerDesc → ℕ → ℕ
token_chunk_count_fast d token_count =
    if token_count == 0
    then 0
    else if leb token_count d.max_units
    then 1
    else let stride = d.max_units - d.overlap_units in
      let remaining = token_count - d.max_units in
      add32 1 (sub32 (add32 remaining stride) 1 / stride)

-- The loop of `emit_token_chunks` with so many rounds left.
pub token_loop : ChunkerDesc → ℕ → ℕ → ℕ → ℕ → List ChunkRange
token_loop d token_count zero id begin = []
token_loop d token_count (suc rounds) id begin =
    fill_token_range d id begin
      (if ltb token_count (add32 begin d.max_units) then token_count else add32 begin d.max_units)
    ∷ token_loop d token_count rounds (id + 1) (add32 begin (d.max_units - d.overlap_units))

pub emit_token_chunks : ChunkerDesc → ℕ → Slots → Reply
emit_token_chunks d token_count slots =
    let required = token_chunk_count_fast d token_count in
    finish slots required
      (token_loop d token_count (if ltb (room slots) required then room slots else required) 0 0)

pub token_chunk_count : Option ChunkerDesc → ℕ → Bool → Reply
token_chunk_count none token_count has_count = refused
token_chunk_count (some d) token_count has_count =
    if not (desc_valid (some d)) || not (is_token (some d)) || not has_count
    then refused
    else record { code = ok; count = some (token_chunk_count_fast d token_count); written = [] }

pub token_chunk_ranges : Option ChunkerDesc → ℕ → Slots → ℕ → Bool → Reply
token_chunk_ranges none token_count slots max_ranges has_count = refused
token_chunk_ranges (some d) token_count none max_ranges has_count =
    if not (desc_valid (some d))
      || not (is_token (some d))
      || not has_count
      || not (max_ranges == 0)
    then refused
    else emit_token_chunks d token_count none
token_chunk_ranges (some d) token_count (some n) max_ranges has_count =
    if not (desc_valid (some d)) || not (is_token (some d)) || not has_count
    then refused
    else emit_token_chunks d token_count (some n)
