-- ===== src/Chunking/Emit/Progress.antt =====
-- The loops of src/inference/chunking.cpp end, and write ranges that lie in the text.
use astral_runtime.Base.{
  ℕ, zero, suc, ◌+◌, ◌-◌, ◌≤◌, ◌<◌, List, [], ◌∷◌, ◌++◌, Bool, true, false, not, ◌&&◌, Option, some,
  none, ◌≡◌, refl, ◌⊎◌, inl, inr, arith, ltb, leb, ◌==◌, Bool-cases, Option-cases, if◌then◌else◌,
  length, length-append, min, add32, u32_mod,
}
use astral_runtime.Chunking.{ChunkerDesc, ChunkRange, UnitRange, Next, fill_text_range, range_size}
use astral_runtime.Chunking.Units.{IsScanner}
use astral_runtime.Chunking.Emit.{Slots, room, gather, emit_loop}

abbrev pub All : (ChunkRange → Type 0) → List ChunkRange → Type 0
All P [] = Unit
All P (r ∷ rs) = P r × All P rs

pub All-snoc :
    (P : ChunkRange → Type 0) (rs : List ChunkRange) (r : ChunkRange)
    → All P rs
    → P r
    → All P (rs ++ r ∷ [])
All-snoc P [] r h p = (p, tt)
All-snoc P (x ∷ rs) r h p = (h.0, All-snoc P rs r h.1 p)

-- A range of bytes of the text, not empty, with its size field set.
abbrev pub InText : ℕ → ChunkRange → Type 0
InText len r = (r.size ≡ range_size) × (r.byte_begin < r.byte_end) × (r.byte_end ≤ len)

All-add :
    (P : ChunkRange → Type 0) (b : Bool) (rs : List ChunkRange) (r : ChunkRange)
    → All P rs
    → P r
    → All P (if b then rs ++ r ∷ [] else rs)
All-add P true rs r h p = All-snoc P rs r h p
All-add P false rs r h p = h

-- A slot is filled if there is one.
length-add :
    (required n : ℕ) (rs : List ChunkRange) (r : ChunkRange)
    → required + 1 < u32_mod
    → length rs ≡ min required n
    → length (if ltb required n then rs ++ r ∷ [] else rs) ≡ min (add32 required 1) n
length-add required n rs r h e = ground (arith, length-append rs (r ∷ []))

-- What `desc_valid` leaves of the two counts.
pub record HasUnits (d : ChunkerDesc) : Type 0 where
  pub some_units : 0 < d.max_units
  pub overlap_small : d.overlap_units < d.max_units
  pub fits : d.max_units < u32_mod

-- What a run of the outer loop leaves: it has ended, the counter has not wrapped, as many ranges were
-- written as there is room for, and they lie in the text.
abbrev pub Ends : ℕ → Slots → Option (ℕ × List ChunkRange) → Type 0
Ends len slots none = ⊥
Ends len slots (some (required, out)) =
    (required ≤ len) × (length out ≡ min required (room slots)) × All (InText len) out

module _ (next : ℕ → Next) (restore : Bool) (d : ChunkerDesc) (len : ℕ)
    (scanner : IsScanner len next) (units_ok : HasUnits d) where
  -- Where no unit is left, the position is at the end of the text.
  abbrev pub StopsAtEnd : Type 0
  StopsAtEnd = (p : ℕ) → (next p).0 ≡ none → len ≤ (if restore then p else (next p).1)

  pub gather_bounds :
      (rounds units scan e ob : ℕ)
      → scan ≡ e
      → e ≤ len
      → let (s', e', o') = gather next restore d rounds units scan e ob in
        (e ≤ e') × (e' ≤ len) × (e' ≤ s')
  unfolding gather
  gather_bounds zero units scan e ob same h = omega arith
  gather_bounds (suc rounds) units scan e ob same h = elim (Option-cases (next scan).0) [
    | inl n ↦ rw (n, gather) (ground (arith, scanner.stops scan n))
    | inr (u, n) ↦
        let (lo, open_u, hi, at_end) = scanner.finds scan u n in
        let (grows, inside, behind) =
          gather_bounds rounds (units + 1) (next scan).1 u.end
            (if not (d.overlap_units == 0) && add32 units d.overlap_units == d.max_units
              then u.begin
              else ob)
            at_end hi in
        rw (n, gather) (omega arith, inside, behind)
  ]

  gather_progress :
      (b rounds units scan e ob : ℕ)
      → StopsAtEnd
      → 0 < d.overlap_units
      → units + rounds ≡ d.max_units
      → b < scan
      → (d.max_units < units + d.overlap_units → b < ob)
      → let (s', e', o') = gather next restore d rounds units scan e ob in (len ≤ s') ⊎ (b < o')
  unfolding gather
  gather_progress b zero units scan e ob stops over count past set =
      inr (set (omega (arith, count)))
  gather_progress b (suc rounds) units scan e ob stops over count past set =
      elim (Option-cases (next scan).0) [
        | inl n ↦ rw (n, gather) (inl (stops scan n))
        | inr (u, n) ↦
            let (lo, open_u, hi, at_end) = scanner.finds scan u n in
            rw (n, gather)
              (gather_progress b rounds (units + 1) (next scan).1 u.end _ stops over (omega arith)
                (omega arith) (ground (arith, units_ok.fits)))
      ]

  -- The next round starts further on, if there is one.
  next_position :
      (pos : ℕ) (u : UnitRange)
      → (d.overlap_units ≡ 0) ⊎ StopsAtEnd
      → (next pos).0 ≡ some u
      → let (s', e', o') = gather next restore d (d.max_units - 1) 1 (next pos).1 u.end u.begin in
        (len ≤ s') ⊎ (pos < (if not (d.overlap_units == 0) then o' else s'))
  next_position pos u why n =
      let (lo, open_u, hi, at_end) = scanner.finds pos u n in
      let bounds = gather_bounds (d.max_units - 1) 1 (next pos).1 u.end u.begin at_end hi in
      elim (Bool-cases (d.overlap_units == 0)) [
        | inl z ↦ rw z (inr (omega arith))
        | inr z ↦ elim why [
          | inl z' ↦ absurd (ground arith)
          | inr stops ↦
              elim (gather_progress u.begin (d.max_units - 1) 1 (next pos).1 u.end u.begin stops
                (ground arith) (omega (arith, units_ok.some_units)) (omega arith)
                (omega (arith, units_ok.overlap_small))) [
                  | inl over ↦ inl over
                  | inr past ↦ rw z (inr (omega arith))
                ]
        ]
      ]

  pub emit_loop-Ends :
      (slots : Slots) (fuel pos required : ℕ) (out : List ChunkRange)
      → (d.overlap_units ≡ 0) ⊎ StopsAtEnd
      → len - pos < fuel
      → len < u32_mod
      → required ≤ pos
      → Ends len slots (some (required, out))
      → Ends len slots (emit_loop next restore d len slots fuel pos required out)
  unfolding emit_loop
  emit_loop-Ends slots zero pos required out why fuel_ok small behind h = absurd (omega arith)
  emit_loop-Ends slots (suc fuel) pos required out why fuel_ok small behind h =
      elim (Bool-cases (ltb pos len)) [
        | inr over ↦ rw (over, emit_loop) h
        | inl more ↦ elim (Option-cases (next pos).0) [
          | inl n ↦ rw (more, n, emit_loop) h
          | inr (u, n) ↦
              let (lo, open_u, hi, at_end) = scanner.finds pos u n in
              let g = gather next restore d (d.max_units - 1) 1 (next pos).1 u.end u.begin in
              let bounds = gather_bounds (d.max_units - 1) 1 (next pos).1 u.end u.begin at_end hi in
              let moved = next_position pos u why n in
              let kept =
                All-add (InText len) (ltb required (room slots)) out
                  (fill_text_range d required u.begin g.1) h.2
                  (unfold fill_text_range in (refl, omega arith, bounds.1)) in
              let counted =
                length-add required (room slots) out (fill_text_range d required u.begin g.1)
                  (ground arith) h.1 in
              elim (Bool-cases (leb len g.0)) [
                | inl ended ↦ rw (more, n, emit_loop, ended) (ground arith, counted, kept)
                | inr goes_on ↦
                    rw (more, n, emit_loop, goes_on)
                      (emit_loop-Ends slots fuel _ (add32 required 1) _ why (ground arith) small
                        (ground arith) (ground arith, counted, kept))
              ]
        ]
      ]
