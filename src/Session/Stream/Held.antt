-- ===== src/Session/Stream/Held.antt =====
-- The tokens held back by src/inference/session.cpp leave in order, and none is lost.
use astral_runtime.Base.{
  ℕ, zero, suc, ◌+◌, ◌%◌, ◌≤◌, ◌<◌, ◌≡◌, refl, ap, sym, subst, ◌∙◌, ◌⊎◌, inl, inr, arith, true,
  false, ◌&&◌, Bool-cases, List, [], ◌∷◌, ◌++◌, append_assoc, length, get_or, set, length-set, ltb,
  ◌==◌,
}
use native.Mathlib.Nat.{mod-lt}
use astral_runtime.Base.Span.{Err, ok}
use astral_runtime.Session.Stream.{
  Hold, is_ok, shorter, held_too, flush_rounds, session_hold_flush_ready, push_stored,
  session_hold_push,
}
use astral_runtime.Session.Stream.Ring.{held_from, held-cons, held-set}

-- Successful emissions of tokens, one after another.
pub data Emits {S : Type 0} (emit : S → ℕ → Err × S) : S → List ℕ → S → Type 0 where
  stays : {s : S} → Emits emit s [] s
  sends :
      {s u : S} {token : ℕ} {tokens : List ℕ}
      → is_ok (emit s token).0 ≡ true
      → Emits emit (emit s token).1 tokens u
      → Emits emit s (token ∷ tokens) u

abbrev pub held : ℕ → Hold → List ℕ
held hold_cap h = held_from h.hold hold_cap h.hold_head h.hold_count

pub record IsRing (hold_cap : ℕ) (h : Hold) : Type 0 where
  pub positive : 0 < hold_cap
  pub memory : length h.hold ≡ hold_cap
  pub place : h.hold_head < hold_cap
  pub count : h.hold_count ≤ hold_cap

-- What a call does with the tokens `before` that it has: those in `out` are emitted. With success, the ring
-- has the others, `retain_count` at most; else the emission of the first of the others failed with that error.
pub record IsPassed {S : Type 0} (emit : S → ℕ → Err × S) (hold_cap : ℕ) (before : List ℕ) (s : S)
    (retain_count : ℕ) (result : Err × Hold × S) : Type 0 where
  pub out : List ℕ
  pub others : List ℕ
  pub middle : S
  pub split : before ≡ out ++ others
  pub emitted : Emits emit s out middle
  pub outcome :
      ((is_ok result.0 ≡ true)
        × IsRing hold_cap result.1
        × (held hold_cap result.1 ≡ others)
        × (result.1.hold_count ≤ retain_count)
        × (result.2 ≡ middle))
      ⊎ ((is_ok result.0 ≡ false)
          × ((token : ℕ) × (more : List ℕ) × (others ≡ token ∷ more)
              × (emit middle token ≡ (result.0, result.2))))

module _ {S : Type 0} (emit : S → ℕ → Err × S) (hold_cap : ℕ) where
  shorter-IsRing : (h : Hold) → IsRing hold_cap h → IsRing hold_cap (shorter emit hold_cap h)
  shorter-IsRing h v = record {
    positive = v.positive;
    memory = v.memory;
    place = mod-lt (h.hold_head + 1) v.positive;
    count = omega (arith, v.count);
  }

  flush_rounds-IsPassed :
      (rounds : ℕ) (h : Hold) (s : S) (retain_count : ℕ)
      → IsRing hold_cap h
      → h.hold_count ≤ rounds
      → IsPassed emit hold_cap
          (held hold_cap h)
          s
          retain_count
          (flush_rounds emit hold_cap rounds h s retain_count)
  unfolding flush_rounds
  flush_rounds-IsPassed zero h s retain_count v le = record {
    out = [];
    others = held hold_cap h;
    middle = s;
    split = refl;
    emitted = Emits.stays;
    outcome = inl (refl, v, refl, omega arith, refl);
  }
  flush_rounds-IsPassed (suc rounds) h s retain_count v le =
      elim (Bool-cases (ltb retain_count h.hold_count)) [
        | inr few ↦ rw few (record {
          out = [];
          others = held hold_cap h;
          middle = s;
          split = refl;
          emitted = Emits.stays;
          outcome = inl (refl, v, refl, ground (arith, few), refl);
        })
        | inl many ↦
            let some_held : 0 < h.hold_count = ground (arith, many) in
            let next = get_or h.hold h.hold_head 0 in
            let parted = held-cons h.hold hold_cap h.hold_head h.hold_count some_held in
            elim (Bool-cases (is_ok (emit s next).0)) [
              | inr failed ↦
                  rw (many, failed)
                    (record {
                      out = [];
                      others = held hold_cap h;
                      middle = s;
                      split = refl;
                      emitted = Emits.stays;
                      outcome = inr (failed, (next, _, parted, refl));
                    })
              | inl passed ↦
                  let w =
                    flush_rounds-IsPassed rounds (shorter emit hold_cap h) (emit s next).1
                      retain_count (shorter-IsRing h v) (omega (arith, le)) in
                  rw (many, passed)
                    (record {
                      out = next ∷ w.out;
                      others = w.others;
                      middle = w.middle;
                      split = parted ∙ ap (λ l. next ∷ l) w.split;
                      emitted = Emits.sends passed w.emitted;
                      outcome = w.outcome;
                    })
            ]
      ]

  ready-IsPassed :
      (h : Hold) (s : S) (retain_count : ℕ)
      → IsRing hold_cap h
      → IsPassed emit hold_cap
          (held hold_cap h)
          s
          retain_count
          (session_hold_flush_ready emit hold_cap h s retain_count)
  unfolding session_hold_flush_ready
  ready-IsPassed h s retain_count v =
      flush_rounds-IsPassed h.hold_count h s retain_count v (omega arith)

  held_too-IsRing :
      (h : Hold) (token : ℕ)
      → IsRing hold_cap h
      → h.hold_count < hold_cap
      → IsRing hold_cap (held_too emit hold_cap h token)
  held_too-IsRing h token v room = record {
    positive = v.positive;
    memory = length-set h.hold ((h.hold_head + h.hold_count) % hold_cap) token ∙ v.memory;
    place = v.place;
    count = omega (arith, room);
  }

  Emits-append :
      {s t u : S} (xs ys : List ℕ)
      → Emits emit s xs t
      → Emits emit t ys u
      → Emits emit s (xs ++ ys) u
  Emits-append xs ys Emits.stays f = f
  Emits-append xs ys (Emits.sends {tokens = tokens} passed e) f =
      Emits.sends passed (Emits-append tokens ys e f)

  -- A token stored, and the ring emptied to `retain_count`, after tokens emitted before.
  store_IsPassed :
      (h : Hold) (s s' : S) (earlier : List ℕ) (token retain_count : ℕ)
      → IsRing hold_cap h
      → h.hold_count < hold_cap
      → Emits emit s earlier s'
      → IsPassed emit hold_cap
          (earlier ++ (held hold_cap h ++ (token ∷ [])))
          s
          retain_count
          (session_hold_flush_ready emit hold_cap (held_too emit hold_cap h token) s' retain_count)
  store_IsPassed h s s' earlier token retain_count v room sent =
      let w =
        ready-IsPassed (held_too emit hold_cap h token) s' retain_count
          (held_too-IsRing h token v room) in
      let stored : held hold_cap (held_too emit hold_cap h token)
          ≡ held hold_cap h ++ (token ∷ []) =
        ap
          (held_from (set h.hold ((h.hold_head + h.hold_count) % hold_cap) token) hold_cap
            h.hold_head)
          {y = suc h.hold_count} (omega arith)
        ∙ held-set h.hold hold_cap h.hold_count h.hold_head token v.memory v.place room in
      record {
        out = earlier ++ w.out;
        others = w.others;
        middle = w.middle;
        split =
            ap (λ l. earlier ++ l) (sym stored ∙ w.split)
            ∙ sym (append_assoc earlier w.out w.others);
        emitted = Emits-append earlier w.out sent w.emitted;
        outcome = w.outcome;
      }

  -- The rest of a push, after tokens emitted to make room.
  push_stored-IsPassed :
      (h : Hold) (s : S) (token stop_hold : ℕ) (made : Err × Hold × S)
      → stop_hold < hold_cap
      → IsPassed emit hold_cap (held hold_cap h) s stop_hold made
      → IsPassed emit hold_cap
          (held hold_cap h ++ (token ∷ []))
          s
          stop_hold
          (push_stored emit hold_cap made token stop_hold)
  unfolding push_stored
  push_stored-IsPassed h s token stop_hold (err, h', s') short w = elim w.outcome [
    | inl (passed, ring, left, few, at) ↦
        let room : h'.hold_count == hold_cap ≡ false = ground (arith, few, short) in
        let sent : Emits emit s w.out s' = subst (Emits emit s w.out) (sym at) w.emitted in
        let whole : w.out ++ (held hold_cap h' ++ (token ∷ [])) ≡ held hold_cap h ++ (token ∷ []) =
          sym (append_assoc w.out (held hold_cap h') (token ∷ []))
          ∙ ap (λ l. l ++ (token ∷ [])) (ap (λ l. w.out ++ l) left ∙ sym w.split) in
        rw (passed, room)
          (subst
            (λ l. IsPassed emit hold_cap l s stop_hold (
              session_hold_flush_ready emit hold_cap (held_too emit hold_cap h' token) s'
                stop_hold))
            whole
            (store_IsPassed h' s s' w.out token stop_hold ring (omega (arith, few, short)) sent))
    | inr (failed, (first, more, rest, error)) ↦ rw failed (record {
      out = w.out;
      others = w.others ++ (token ∷ []);
      middle = w.middle;
      split = ap (λ l. l ++ (token ∷ [])) w.split ∙ append_assoc w.out w.others (token ∷ []);
      emitted = w.emitted;
      outcome =
          inr (failed, (first, more ++ (token ∷ []), ap (λ l. l ++ (token ∷ [])) rest, error));
    })
  ]

  roomy_IsPassed :
      (h : Hold) (s : S) (token stop_hold : ℕ)
      → IsRing hold_cap h
      → h.hold_count < hold_cap
      → IsPassed emit hold_cap
          (held hold_cap h ++ (token ∷ []))
          s
          stop_hold
          (push_stored emit hold_cap (ok, h, s) token stop_hold)
  unfolding push_stored
  roomy_IsPassed h s token stop_hold v room =
      let test : h.hold_count == hold_cap ≡ false = ground arith in
      rw test (store_IsPassed h s s [] token stop_hold v room Emits.stays)

  direct_IsPassed :
      (h : Hold) (s : S) (token stop_hold : ℕ)
      → IsRing hold_cap h
      → h.hold_count ≡ 0
      → IsPassed emit hold_cap
          (held hold_cap h ++ (token ∷ []))
          s
          stop_hold
          ((emit s token).0, h, (emit s token).1)
  unfolding held_from
  direct_IsPassed h s token stop_hold v empty =
      let none_held : held hold_cap h ≡ [] = ap (held_from h.hold hold_cap h.hold_head) empty in
      let alone : held hold_cap h ++ (token ∷ []) ≡ token ∷ [] =
        ap (λ l. l ++ (token ∷ [])) none_held in
      elim (Bool-cases (is_ok (emit s token).0)) [
        | inl passed ↦ record {
          out = token ∷ [];
          others = [];
          middle = (emit s token).1;
          split = alone;
          emitted = Emits.sends passed Emits.stays;
          outcome = inl (passed, v, none_held, omega (arith, empty), refl);
        }
        | inr failed ↦ record {
          out = [];
          others = token ∷ [];
          middle = s;
          split = alone;
          emitted = Emits.stays;
          outcome = inr (failed, (token, [], refl, refl));
        }
      ]

-- A token pushed to a ring of held tokens, for any emission of one token, with a stop sequence shorter than the
-- ring: tokens are emitted in the order in which they were pushed, the new one the last. If the call succeeds, those
-- not emitted are in the ring, as many as the stop sequence may need at most; else the emission of the first
-- token not emitted failed, and its error is the answer.
pub session_hold_push-IsPassed :
    {S : Type 0} (emit : S → ℕ → Err × S) (hold_cap : ℕ) (h : Hold) (s : S) (token stop_hold : ℕ)
    → IsRing hold_cap h
    → stop_hold < hold_cap
    → IsPassed emit hold_cap
        (held hold_cap h ++ (token ∷ []))
        s
        stop_hold
        (session_hold_push emit hold_cap h s token stop_hold)
unfolding session_hold_push
session_hold_push-IsPassed emit hold_cap h s token stop_hold v short =
    elim (Bool-cases (stop_hold == 0 && h.hold_count == 0)) [
      | inl direct ↦ rw direct (direct_IsPassed emit hold_cap h s token stop_hold v (ground arith))
      | inr stored ↦ rw stored (elim (Bool-cases (h.hold_count == hold_cap)) [
        | inl full ↦ rw full (
            push_stored-IsPassed emit hold_cap h s token stop_hold _ short
              (ready-IsPassed emit hold_cap h s stop_hold v))
        | inr room ↦ rw room (roomy_IsPassed emit hold_cap h s token stop_hold v (ground arith))
      ])
    ]
