-- ===== src/Session/Stops/Suffix.antt =====
-- A generation stops exactly when its tokens end with a stop sequence: src/inference/session.cpp and
-- src/inference/executor.cpp.
use astral_runtime.Base.{
  ℕ, zero, suc, ◌+◌, ◌-◌, ◌≤◌, ◌<◌, ◌≡◌, ◌≢◌, refl, ap, ap₂, sym, subst, ◌∙◌, ◌⊎◌, inl, inr, arith,
  Bool, true, false, ◌||◌, Bool-cases, none, some, List, [], ◌∷◌, ◌++◌, length, get_elem?, take,
  drop, take-append-drop, length-append, length-drop, drop-drop, ltb, ◌==◌,
}
use astral_runtime.Session.Stops.{negative_token, push_tail, same, matches, first_match, stop_check}
use astral_runtime.Session.Penalty.Push.{
  last_tokens, last_tokens-room, last_tokens-full, drop-append,
}

-- A history ends with a sequence that is not empty.
abbrev pub EndsWith : List ℕ → List ℕ → Type 0
EndsWith history seq = (seq ≢ []) × ((before : List ℕ) × (history ≡ before ++ seq))

same_refl : (xs : List ℕ) → same xs xs ≡ true
unfolding same
same_refl [] = refl
same_refl (x ∷ xs) = ground (arith, same_refl xs)

same-eq : (xs ys : List ℕ) → length ys ≡ length xs → same xs ys ≡ true → ys ≡ xs
unfolding same
same-eq [] [] e s = refl
same-eq [] (y ∷ ys) e s = absurd (omega arith)
same-eq (x ∷ xs) [] e s = absurd (omega arith)
same-eq (x ∷ xs) (y ∷ ys) e s = elim (Bool-cases (y == x)) [
  | inl is ↦ ap₂ (λ a l. a ∷ l) (ground (arith, is)) (same-eq xs ys (omega arith) (rw is at s))
  | inr off ↦ absurd (ground (arith, rw off at s))
]

drop-length : (xs ys : List ℕ) → drop (length xs) (xs ++ ys) ≡ ys
drop-length [] ys = refl
drop-length (x ∷ xs) ys = drop-length xs ys

both_false : (a b : Bool) → a || b ≡ false → (a ≡ false) × (b ≡ false)
both_false true b e = absurd (ground arith)
both_false false b e = (refl, e)

-- The last 32 tokens are enough for a sequence of 32 at most.
matches-EndsWith :
    (history seq : List ℕ)
    → length seq ≤ 32
    → matches seq (last_tokens 32 history) ≡ true
    → EndsWith history seq
unfolding matches
matches-EndsWith history seq short found =
    let tail = last_tokens 32 history in
    let j = length tail - length seq in
    elim (Bool-cases (length seq == 0 || ltb (length tail) (length seq))) [
      | inl out ↦ absurd (ground (arith, rw out at found))
      | inr within ↦
          let sizes = both_false (length seq == 0) (ltb (length tail) (length seq)) within in
          let fits : length seq ≤ length tail = ground (arith, sizes.1) in
          let equal : drop j tail ≡ seq =
            same-eq seq (drop j tail) (omega (arith, length-drop j tail, fits))
              (rw within at found) in
          let ends : drop (length history - 32 + j) history ≡ seq =
            sym (drop-drop (length history - 32) j history) ∙ equal in
          (
            λ e. ground (arith, sizes.0, ap length e),
            (
              take (length history - 32 + j) history,
              sym (take-append-drop (length history - 32 + j) history)
                  ∙ ap (λ l. take (length history - 32 + j) history ++ l) ends,
            ),
          )
    ]

matches-behind : (front seq : List ℕ) → seq ≢ [] → matches seq (front ++ seq) ≡ true
unfolding matches
matches-behind front [] some_seq = absurd (some_seq refl)
matches-behind front (x ∷ seq) some_seq =
    let sizes = length-append front (x ∷ seq) in
    let fits : ltb (length (front ++ (x ∷ seq))) (suc (length seq)) ≡ false =
      ground (arith, sizes) in
    let nonzero : suc (length seq) == 0 ≡ false = ground arith in
    let place : drop (length (front ++ (x ∷ seq)) - suc (length seq)) (front ++ (x ∷ seq))
        ≡ x ∷ seq =
      ap (λ n. drop n (front ++ (x ∷ seq))) {x = length (front ++ (x ∷ seq)) - suc (length seq)}
        {y = length front} (omega (arith, sizes))
      ∙ drop-length front (x ∷ seq) in
    rw (nonzero, fits, place) (same_refl (x ∷ seq))

EndsWith-matches :
    (history seq : List ℕ)
    → length seq ≤ 32
    → EndsWith history seq
    → matches seq (last_tokens 32 history) ≡ true
EndsWith-matches history seq short (some_seq, (before, is)) =
    let sizes = length-append before seq in
    let total = ap length is in
    let tail : last_tokens 32 history ≡ drop (length history - 32) before ++ seq =
      ap (drop (length history - 32)) is
      ∙ drop-append (length history - 32) before seq (omega (arith, sizes, total, short)) in
    rw tail (matches-behind (drop (length history - 32) before) seq some_seq)

uncons : (xs : List ℕ) → 0 < length xs → (x : ℕ) × (rest : List ℕ) × (xs ≡ x ∷ rest)
uncons [] some_x = absurd (omega arith)
uncons (x ∷ rest) some_x = (x, rest, refl)

push_tail-last :
    (history : List ℕ) (token : ℕ)
    → push_tail (last_tokens 32 history) token ≡ last_tokens 32 (history ++ (token ∷ []))
unfolding push_tail
push_tail-last history token = elim (Bool-cases (ltb (length (last_tokens 32 history)) 32)) [
  | inl room ↦ rw room (sym (last_tokens-room 32 history token (ground (arith, room))))
  | inr full ↦
      let size : length (last_tokens 32 history) ≡ 32 =
        ground (arith, full, length-drop (length history - 32) history) in
      let (old, rest, is) = uncons (last_tokens 32 history) (omega (arith, size)) in
      rw full (
        ap (λ l. drop 1 l ++ (token ∷ [])) is
        ∙ sym (last_tokens-full 32 history old token rest is size))
]

-- The sequences that a generation may have.
abbrev pub Short : List (List ℕ) → Type 0
Short stops = (i : ℕ) (seq : List ℕ) → get_elem? stops i ≡ some seq → length seq ≤ 32

below_cons :
    (stop : List ℕ) (stops : List (List ℕ)) (history : List ℕ) (n : ℕ)
    → (EndsWith history stop → ⊥)
    → ((j : ℕ) (other : List ℕ)
        → j < n
        → get_elem? stops j ≡ some other
        → EndsWith history other
        → ⊥)
    → (j : ℕ) (other : List ℕ) → j < suc n
    → get_elem? (stop ∷ stops) j ≡ some other
    → EndsWith history other
    → ⊥
below_cons stop stops history n now later zero other lt there ends =
    now (subst (EndsWith history) (ground (arith, there)) ends)
below_cons stop stops history n now later (suc j) other lt there ends =
    later j other (omega arith) there ends

first_match-EndsWith :
    (stops : List (List ℕ)) (history : List ℕ)
    → Short stops
    → ((first_match stops (last_tokens 32 history) ≡ none)
        × ((i : ℕ) (seq : List ℕ) → get_elem? stops i ≡ some seq → EndsWith history seq → ⊥))
      ⊎ ((i : ℕ) × (seq : List ℕ) × (get_elem? stops i ≡ some seq)
          × EndsWith history seq
          × (first_match stops (last_tokens 32 history) ≡ some (length seq))
          × ((j : ℕ) (other : List ℕ)
              → j < i
              → get_elem? stops j ≡ some other
              → EndsWith history other
              → ⊥))
unfolding first_match
first_match-EndsWith [] history short = inl (refl, λ i seq there. absurd (ground arith))
first_match-EndsWith (stop ∷ stops) history short =
    elim (Bool-cases (matches stop (last_tokens 32 history))) [
      | inl found ↦ inr (
        0,
        stop,
        refl,
        matches-EndsWith history stop (short 0 stop refl) found,
        rw found refl,
        λ j other lt. absurd (omega arith),
      )
      | inr away ↦
          let not_now : EndsWith history stop → ⊥ = λ e.
            absurd (ground (arith, away, EndsWith-matches history stop (short 0 stop refl) e)) in
          elim (first_match-EndsWith stops history (λ i seq there. short (suc i) seq there)) [
            | inl (unmatched, none_ends) ↦ inl (
              rw away unmatched,
              λ i seq there.
                  below_cons stop stops history i (λ e. not_now e) (λ j other lt. none_ends j other)
                    i seq (omega arith) there,
            )
            | inr (i, seq, there, ends, first, before) ↦ inr (
              suc i,
              seq,
              there,
              ends,
              rw away first,
              below_cons stop stops history i not_now before,
            )
          ]
    ]

-- A generation with stop sequences of 32 tokens at most, whose tail has the last 32 tokens of its history, is
-- given a token that is not negative: the tail has the last 32 tokens of the history with it. The answer is the
-- length of the first sequence that this history ends with; it is none exactly when the history ends
-- with none of them that is not empty.
pub stop_check-EndsWith :
    (stops : List (List ℕ)) (history : List ℕ) (token : ℕ)
    → Short stops
    → token < 0x8000_0000
    → 0 < length stops
    → ((stop_check stops (last_tokens 32 history) token).1
        ≡ last_tokens 32 (history ++ (token ∷ [])))
      × ((((stop_check stops (last_tokens 32 history) token).0 ≡ none)
            × ((i : ℕ) (seq : List ℕ)
                → get_elem? stops i ≡ some seq
                → EndsWith (history ++ (token ∷ [])) seq
                → ⊥))
          ⊎ ((i : ℕ) × (seq : List ℕ) × (get_elem? stops i ≡ some seq)
              × EndsWith (history ++ (token ∷ [])) seq
              × ((stop_check stops (last_tokens 32 history) token).0 ≡ some (length seq))
              × ((j : ℕ) (other : List ℕ)
                  → j < i
                  → get_elem? stops j ≡ some other
                  → EndsWith (history ++ (token ∷ [])) other
                  → ⊥)))
unfolding stop_check
stop_check-EndsWith stops history token short token_small some_stop =
    let there : length stops == 0 ≡ false = ground arith in
    let positive : negative_token token ≡ false = ground arith in
    let after = push_tail-last history token in
    rw (there, positive, after) (refl, first_match-EndsWith stops (history ++ (token ∷ [])) short)
