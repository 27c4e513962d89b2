-- ===== src/Chunking/Emit/Tiling.antt =====
-- Character chunks without overlap, and `chunk_text_copy` of src/inference/chunking.cpp: the copies of
-- the chunks, in order, are the text.
use astral_runtime.Base.{
  ℕ, zero, suc, ◌+◌, ◌-◌, ◌≤◌, ◌<◌, List, [], ◌∷◌, ◌++◌, true, Option, some, none, ◌≡◌, refl, inl,
  inr, ap, subst, sym, ◌∙◌, arith, ltb, leb, Bool-cases, Option-cases, length, take, drop, add32,
  u32_mod, take-append-drop, drop-drop, drop-all, append_assoc, append-nil,
}
use astral_runtime.Base.Span.{span, ok}
use astral_runtime.Chunking.{
  ChunkerDesc, ChunkRange, char, desc_valid, text_valid, next_unit, next_char_unit, fill_text_range,
}
use astral_runtime.Chunking.Units.{next_char_unit-IsScanner, next_char_unit_begin}
use astral_runtime.Chunking.Emit.{
  Slots, room, Reply, gather, emit_loop, emit_mode, emit_text_chunks, finish, finish_loop,
  chunk_ranges, chunk_text_copy,
}
use astral_runtime.Chunking.Scan.{AllBytes}
use astral_runtime.Chunking.Emit.Counts.{chunk_ranges-Chunked, desc_valid-HasUnits}
use astral_runtime.Chunking.Emit.Progress.{All, InText, HasUnits, gather_bounds}

-- The ranges lead from one position to another with no gap.
abbrev pub Tiles : ℕ → List ChunkRange → ℕ → Type 0
Tiles p [] q = p ≡ q
Tiles p (r ∷ rs) q = (r.byte_begin ≡ p) × Tiles r.byte_end rs q

Tiles-snoc :
    (p : ℕ) (rs : List ChunkRange) (q : ℕ) (r : ChunkRange)
    → Tiles p rs q
    → r.byte_begin ≡ q
    → Tiles p (rs ++ r ∷ []) r.byte_end
Tiles-snoc p [] q r t e = (e ∙ sym t, refl)
Tiles-snoc p (x ∷ rs) q r t e = (t.0, Tiles-snoc x.byte_end rs q r t.1 e)

-- The scan stands at the end of the chunk, however many characters there were.
gather_char :
    (text : List ℕ) (d : ChunkerDesc) (rounds units scan e ob : ℕ)
    → scan ≡ e
    → let (s', e', o') = gather (next_char_unit text) true d rounds units scan e ob in s' ≡ e'
unfolding gather
gather_char text d zero units scan e ob h = h
gather_char text d (suc rounds) units scan e ob h =
    elim (Option-cases (next_char_unit text scan).0) [
      | inl n ↦ rw (n, gather) h
      | inr (u, n) ↦
          rw (n, gather)
            (gather_char text d rounds (units + 1) _ u.end _
              ((next_char_unit-IsScanner text).finds scan u n).3)
    ]

abbrev TilesTo : ℕ → Option (ℕ × List ChunkRange) → Type 0
TilesTo len none = Unit
TilesTo len (some (required, out)) = Tiles 0 out len

emit_loop-Tiles :
    (text : List ℕ) (d : ChunkerDesc) (slots : Slots) (fuel pos required : ℕ)
    (out : List ChunkRange)
    → HasUnits d
    → d.overlap_units ≡ 0
    → length text ≤ room slots
    → length text < u32_mod
    → pos ≤ length text
    → required ≤ pos
    → Tiles 0 out pos
    → TilesTo
        (length text)
        (emit_loop (next_char_unit text) true d (length text) slots fuel pos required out)
unfolding emit_loop
emit_loop-Tiles text d slots zero pos required out uo z fits small inside behind t = tt
emit_loop-Tiles text d slots (suc fuel) pos required out uo z fits small inside behind t =
    elim (Bool-cases (ltb pos (length text))) [
      | inr over ↦ rw (over, emit_loop) (subst (Tiles 0 out) (ground arith) t)
      | inl more ↦ elim (Option-cases (next_char_unit text pos).0) [
        | inl n ↦ absurd (unfold next_char_unit in ground arith)
        | inr (u, n) ↦
            let (lo, open_u, hi, at_end) = (next_char_unit-IsScanner text).finds pos u n in
            let g =
              gather (next_char_unit text) true d (d.max_units - 1) 1 (next_char_unit text pos).1
                u.end u.begin in
            let bounds =
              gather_bounds (next_char_unit text) true d (length text)
                (next_char_unit-IsScanner text) uo (d.max_units - 1) 1 (next_char_unit text pos).1
                u.end u.begin at_end hi in
            let same = gather_char text d (d.max_units - 1) 1 _ u.end u.begin at_end in
            let has_room : ltb required (room slots) ≡ true = ground arith in
            let longer =
              Tiles-snoc 0 out pos (fill_text_range d required u.begin g.1) t
                (unfold fill_text_range in next_char_unit_begin text pos u n) in
            let tiled : Tiles 0 (out ++ fill_text_range d required u.begin g.1 ∷ []) g.1 =
              (unfold fill_text_range in longer) in
            elim (Bool-cases (leb (length text) g.0)) [
              | inl ended ↦
                  rw (more, n, emit_loop, ended, has_room)
                    (subst (Tiles 0 (out ++ fill_text_range d required u.begin g.1 ∷ []))
                      (ground arith) tiled)
              | inr goes_on ↦
                  rw (more, n, emit_loop, goes_on, has_room)
                    (emit_loop-Tiles text d slots fuel _ (add32 required 1) _ uo z fits small
                      (ground arith) (ground arith)
                      (subst (Tiles 0 (out ++ fill_text_range d required u.begin g.1 ∷ []))
                        (ground arith) tiled))
            ]
      ]
    ]

-- What `chunk_text_copy` writes for a range, into a buffer as long as the text.
abbrev pub copy : List ℕ → ChunkRange → List ℕ
copy text r = (chunk_text_copy (span text) (some r) (span text) true).2

abbrev pub copy_all : List ℕ → List ChunkRange → List ℕ
copy_all text [] = []
copy_all text (r ∷ rs) = copy text r ++ copy_all text rs

-- A range in the text is copied as the bytes from its begin to its end.
pub copy_lem :
    (text : List ℕ) (r : ChunkRange)
    → InText (length text) r
    → chunk_text_copy (span text) (some r) (span text) true ≡ (
      ok,
      some (r.byte_end - r.byte_begin),
      take (r.byte_end - r.byte_begin) (drop r.byte_begin text),
    )
unfolding chunk_text_copy text_valid
copy_lem text r h = ground arith

copy_all-Tiles :
    (text : List ℕ) (p q : ℕ) (rs : List ChunkRange)
    → All (InText (length text)) rs
    → Tiles p rs q
    → copy_all text rs ++ drop q text ≡ drop p text
copy_all-Tiles text p q [] h t = ap (λ k. drop k text) (sym t)
copy_all-Tiles text p q (r ∷ rs) h t =
    append_assoc (copy text r) (copy_all text rs) (drop q text)
    ∙ ap (λ s. copy text r ++ s) (copy_all-Tiles text r.byte_end q rs h.1 t.1)
    ∙ ap (λ c. c.2 ++ drop r.byte_end text) (copy_lem text r h.0)
    ∙ ap (λ s. take (r.byte_end - r.byte_begin) (drop r.byte_begin text) ++ s) rest
    ∙ take-append-drop (r.byte_end - r.byte_begin) (drop r.byte_begin text)
    ∙ ap (λ k. drop k text) t.0
  where
    end : r.byte_begin + (r.byte_end - r.byte_begin) ≡ r.byte_end
    end = omega arith

    rest : drop r.byte_end text ≡ drop (r.byte_end - r.byte_begin) (drop r.byte_begin text)
    rest = sym (drop-drop r.byte_begin (r.byte_end - r.byte_begin) text ∙ ap (λ k. drop k text) end)

finish_loop-written :
    (len n : ℕ) (o : Option (ℕ × List ChunkRange)) (r : Reply)
    → TilesTo len o
    → finish_loop (some n) o ≡ some r
    → Tiles 0 r.written len
unfolding finish
finish_loop-written len n none r t e = cc
finish_loop-written len n (some (required, out)) r t e =
    subst (λ rs. Tiles 0 rs len) (ground arith) t

emit_char-Tiles :
    (fuel : ℕ) (d : ChunkerDesc) (text : List ℕ) (n : ℕ) (r : Reply)
    → HasUnits d
    → d.mode ≡ char
    → d.overlap_units ≡ 0
    → length text ≤ n
    → length text < u32_mod
    → emit_text_chunks fuel d text (some n) ≡ some r
    → Tiles 0 r.written (length text)
unfolding emit_text_chunks next_unit
emit_char-Tiles fuel d text n r uo m z room_ok small =
    subst (λ mode. emit_mode fuel d mode text (some n) ≡ some r → Tiles 0 r.written (length text))
      (sym m)
      (finish_loop-written (length text) n _ r (
        emit_loop-Tiles text d (some n) fuel 0 0 [] uo z room_ok small (omega arith) (omega arith)
          refl))

-- In `char` mode without overlap, with as many slots as the text has bytes, `chunk_ranges` ends, and
-- what `chunk_text_copy` gives for its ranges, one after the other, is the text.
pub copy_all-chunk_ranges :
    (fuel : ℕ) (d : ChunkerDesc) (text : List ℕ) (n : ℕ)
    → desc_valid (some d) ≡ true
    → d.max_units < u32_mod
    → d.mode ≡ char
    → d.overlap_units ≡ 0
    → AllBytes text
    → length text < u32_mod
    → length text ≤ n
    → length text < fuel
    → (r : Reply) × (chunk_ranges fuel (some d) (span text) (some n) n true ≡ some r)
      × (copy_all text r.written ≡ text)
unfolding chunk_ranges
copy_all-chunk_ranges fuel d text n valid fits m z bytes small room_ok enough =
    let (r, e, c) = chunk_ranges-Chunked fuel d text n valid fits (inl m) bytes small enough in
    let tiles =
      emit_char-Tiles fuel d text n r (desc_valid-HasUnits d valid fits) m z room_ok small
        (ground (arith, e, text_known)) in
    (
      r,
      e,
      sym (append-nil _)
          ∙ ap (λ s. copy_all text r.written ++ s) (sym (drop-all (length text) text (omega arith)))
          ∙ copy_all-Tiles text 0 (length text) r.written c.in_text tiles,
    )
  where
    text_known : text_valid (span text) ≡ true
    text_known = unfold text_valid in refl
