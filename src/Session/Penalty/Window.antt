-- ===== src/Session/Penalty/Window.antt =====
-- The counts of src/inference/session.cpp and src/inference/executor.cpp against the window of tokens.
use astral_runtime.Base.{
  ℕ, zero, suc, ◌+◌, ◌%◌, ◌≤◌, ◌<◌, ◌≡◌, refl, ap, ap₂, sym, ◌∙◌, ◌⊎◌, inl, inr, arith, Bool-cases,
  List, [], ◌∷◌, ◌++◌, append-nil, append_assoc, length, get_or, set, take, drop, drop-all,
  drop-cons, length-set, length-take, ltb, ◌==◌, if◌then◌else◌,
}
use native.Mathlib.Nat.{mod-eq_of_lt, mod_self}
use native.Mathlib.Numerals.{add-one}

-- How often a token is in a list.
unfoldable pub occurrences : List ℕ → ℕ → ℕ
occurrences [] token = 0
occurrences (x ∷ xs) token = (if token == x then 1 else 0) + occurrences xs token

-- The tokens of the ring, the oldest first.
unfoldable pub window : List ℕ → ℕ → ℕ → List ℕ
window tokens pos size = drop pos (take size tokens) ++ take pos tokens

pub occurrences-append :
    (xs ys : List ℕ) (token : ℕ)
    → occurrences (xs ++ ys) token ≡ occurrences xs token + occurrences ys token
unfolding occurrences
occurrences-append [] ys token = omega arith
occurrences-append (x ∷ xs) ys token = omega (arith, occurrences-append xs ys token)

pub occurrences-le : (xs : List ℕ) (token : ℕ) → occurrences xs token ≤ length xs
unfolding occurrences
occurrences-le [] token = omega arith
occurrences-le (x ∷ xs) token = ground (arith, occurrences-le xs token)

take-set :
    (xs : List ℕ) (i : ℕ) (x : ℕ)
    → i < length xs
    → take (i + 1) (set xs i x) ≡ take i xs ++ (x ∷ [])
take-set xs i x lt = rw add-one (go xs i lt)
  where
    go : (ys : List ℕ) (j : ℕ) → j < length ys → take (suc j) (set ys j x) ≡ take j ys ++ (x ∷ [])
    go [] j h = absurd (omega arith)
    go (y ∷ ys) zero h = refl
    go (y ∷ ys) (suc j) h = ap (λ l. y ∷ l) (go ys j (omega arith))

drop-set : (xs : List ℕ) (i : ℕ) (x : ℕ) → drop (i + 1) (set xs i x) ≡ drop (i + 1) xs
drop-set xs i x = rw add-one (go xs i)
  where
    go : (ys : List ℕ) (j : ℕ) → drop (suc j) (set ys j x) ≡ drop (suc j) ys
    go [] j = refl
    go (y ∷ ys) zero = refl
    go (y ∷ ys) (suc j) = go ys j

pub take-over : (xs : List ℕ) (n : ℕ) → length xs ≤ n → take n xs ≡ xs
take-over [] zero le = refl
take-over [] (suc n) le = refl
take-over (x ∷ xs) zero le = absurd (omega arith)
take-over (x ∷ xs) (suc n) le = ap (λ l. x ∷ l) (take-over xs n (omega arith))

-- A ring that is not full, and one that is.
pub window-filling : (tokens : List ℕ) (size : ℕ) → window tokens size size ≡ take size tokens
unfolding window
window-filling tokens size =
    ap (λ l. l ++ take size tokens)
      (drop-all size (take size tokens) (omega (arith, length-take size tokens)))

pub window-full :
    (tokens : List ℕ) (pos size : ℕ)
    → length tokens ≤ size
    → window tokens pos size ≡ drop pos tokens ++ take pos tokens
unfolding window
window-full tokens pos size le = ap (λ l. drop pos l ++ take pos tokens) (take-over tokens size le)

pub next_pos :
    (pos capacity : ℕ)
    → pos < capacity
    → ((pos + 1 < capacity) × ((pos + 1) % capacity ≡ pos + 1))
      ⊎ ((pos + 1 ≡ capacity) × ((pos + 1) % capacity ≡ 0))
next_pos pos capacity lt = elim (Bool-cases (ltb (pos + 1) capacity)) [
  | inl room ↦ inl (ground (arith, room), mod-eq_of_lt (ground (arith, room)))
  | inr last ↦
      let e : pos + 1 ≡ capacity = ground (arith, last) in inr (e, rw e (mod_self capacity))
]

-- A ring written at its place, after the place has moved on.
window-written :
    (tokens : List ℕ) (pos size capacity token : ℕ)
    → length tokens ≡ capacity
    → pos < capacity
    → (pos + 1 < capacity
        → drop (pos + 1) (take size (set tokens pos token)) ≡ drop (pos + 1) (take size tokens))
    → (pos + 1 ≡ capacity → (size ≡ capacity))
    → window (set tokens pos token) ((pos + 1) % capacity) size
      ≡ drop (pos + 1) (take size tokens) ++ (take pos tokens ++ (token ∷ []))
unfolding window
window-written tokens pos size capacity token memory lt same whole =
    elim (next_pos pos capacity lt) [
      | inl (room, next) ↦
          rw next
            (ap₂ (λ a b. a ++ b) (same room) (take-set tokens pos token (omega (arith, memory))))
      | inr (last, wraps) ↦
          let all = whole last in
          rw wraps (
            append-nil (take size (set tokens pos token))
            ∙ take-over (set tokens pos token) size
                (omega (arith, length-set tokens pos token, memory, all))
            ∙ sym (
                take-over (set tokens pos token) (pos + 1)
                  (omega (arith, length-set tokens pos token, memory, last)))
            ∙ take-set tokens pos token (omega (arith, memory))
            ∙ sym (
                ap (λ l. l ++ (take pos tokens ++ (token ∷ [])))
                  (drop-all (pos + 1) (take size tokens)
                    (omega (arith, length-take size tokens, last, memory)))))
    ]

-- A token pushed to a ring that is not full.
pub window-more :
    (tokens : List ℕ) (size capacity token : ℕ)
    → length tokens ≡ capacity
    → size < capacity
    → window (set tokens size token) ((size + 1) % capacity) (size + 1)
      ≡ window tokens size size ++ (token ∷ [])
window-more tokens size capacity token memory lt =
    window-written tokens size (size + 1) capacity token memory lt
      (λ room.
        drop-all (size + 1) _ (omega (arith, length-take (size + 1) (set tokens size token)))
        ∙ sym (drop-all (size + 1) _ (omega (arith, length-take (size + 1) tokens))))
      (λ last. last)
    ∙ ap (λ l. l ++ (take size tokens ++ (token ∷ [])))
        (drop-all (size + 1) _ (omega (arith, length-take (size + 1) tokens)))
    ∙ ap (λ l. l ++ (token ∷ [])) (sym (window-filling tokens size))

-- A token pushed to a ring that is full takes the place of the oldest.
pub window-moves :
    (tokens : List ℕ) (pos capacity token : ℕ)
    → length tokens ≡ capacity
    → pos < capacity
    → (window tokens pos capacity
        ≡ get_or tokens pos 0 ∷ (drop (pos + 1) tokens ++ take pos tokens))
      × (window (set tokens pos token) ((pos + 1) % capacity) capacity
          ≡ (drop (pos + 1) tokens ++ take pos tokens) ++ (token ∷ []))
window-moves tokens pos capacity token memory lt =
    let all = take-over tokens capacity (omega (arith, memory)) in
    let all' =
      take-over (set tokens pos token) capacity
        (omega (arith, memory, length-set tokens pos token)) in
    (
      window-full tokens pos capacity (omega (arith, memory))
          ∙ ap (λ l. l ++ take pos tokens) (drop-cons pos tokens 0 (omega (arith, memory))),
      window-written tokens pos capacity capacity token memory lt
            (λ room.
              ap (drop (pos + 1)) all' ∙ drop-set tokens pos token ∙ sym (ap (drop (pos + 1)) all))
            (λ last. refl)
          ∙ ap (λ l. drop (pos + 1) l ++ (take pos tokens ++ (token ∷ []))) all
          ∙ sym (append_assoc (drop (pos + 1) tokens) (take pos tokens) (token ∷ [])),
    )
