-- ===== src/Session/Stops.antt =====
-- The stop sequences of a generation, `session_stop_check` of src/inference/session.cpp and `stop_check` of
-- src/inference/executor.cpp, which are alike, and the tokens held back for them.
pub mod Suffix
mod Tests
use astral_runtime.Base.{
  ℕ, zero, suc, ◌+◌, ◌-◌, Bool, true, false, ◌&&◌, ◌||◌, Option, none, some, List, [], ◌∷◌, ◌++◌,
  length, drop, ltb, leb, ◌==◌, if◌then◌else◌,
}

-- `token < 0` for an `int32_t` in two's complement.
abbrev pub negative_token : ℕ → Bool
negative_token token = leb 0x8000_0000 token

-- The places of the tail that the new token leaves; `kMaxTail` is 32.
unfoldable pub push_tail : List ℕ → ℕ → List ℕ
push_tail tail token =
    if ltb (length tail) 32 then tail ++ (token ∷ []) else drop 1 tail ++ (token ∷ [])

-- The comparison of a sequence with as many tokens.
unfoldable pub same : List ℕ → List ℕ → Bool
same [] ys = true
same (x ∷ xs) [] = false
same (x ∷ xs) (y ∷ ys) = let rest = same xs ys in if y == x then rest else false

unfoldable pub matches : List ℕ → List ℕ → Bool
matches seq tail =
    if length seq == 0 || ltb (length tail) (length seq)
    then false
    else same seq (drop (length tail - length seq) tail)

-- The length of the first sequence that matches.
unfoldable pub first_match : List (List ℕ) → List ℕ → Option ℕ
first_match [] tail = none
first_match (seq ∷ stops) tail =
    let rest = first_match stops tail in if matches seq tail then some (length seq) else rest

-- The length of the match, if any, and the tail.
unfoldable pub stop_check : List (List ℕ) → List ℕ → ℕ → Option ℕ × List ℕ
stop_check stops tail token =
    if length stops == 0 || negative_token token
    then (none, tail)
    else (first_match stops (push_tail tail token), push_tail tail token)
