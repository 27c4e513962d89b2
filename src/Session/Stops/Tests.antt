-- ===== src/Session/Stops/Tests.antt =====
-- The stop sequences of src/inference/session.cpp and src/inference/executor.cpp on concrete tokens.
use astral_runtime.Base.{
  ℕ, zero, suc, ◌<◌, ◌≡◌, ◌⊎◌, refl, arith, none, some, List, [], ◌∷◌, ◌++◌, length, get_elem?,
}
use astral_runtime.Session.Penalty.Push.{last_tokens}
use astral_runtime.Session.Stops.{push_tail, same, matches, first_match, stop_check}
use astral_runtime.Session.Stops.Suffix.{EndsWith, Short, stop_check-EndsWith}

abbrev stops : List (List ℕ)
stops = (9 ∷ []) ∷ (4 ∷ 5 ∷ []) ∷ []

abbrev history : List ℕ
history = 1 ∷ 4 ∷ []

stops_at_five : (stop_check stops history 5).0 ≡ some 2
unfolding stop_check first_match matches same push_tail
stops_at_five = refl

goes_on : (stop_check stops history 4).0 ≡ none
unfolding stop_check first_match matches same push_tail
goes_on = refl

stops-Short : Short stops
stops-Short zero seq there = ground arith
stops-Short (suc zero) seq there = ground arith
stops-Short (suc (suc i)) seq there = absurd (ground arith)

stop_check-EndsWith_example :
    ((stop_check stops (last_tokens 32 history) 5).1 ≡ last_tokens 32 (history ++ (5 ∷ [])))
    × ((((stop_check stops (last_tokens 32 history) 5).0 ≡ none)
          × ((i : ℕ) (seq : List ℕ)
              → get_elem? stops i ≡ some seq
              → EndsWith (history ++ (5 ∷ [])) seq
              → ⊥))
        ⊎ ((i : ℕ) × (seq : List ℕ) × (get_elem? stops i ≡ some seq)
            × EndsWith (history ++ (5 ∷ [])) seq
            × ((stop_check stops (last_tokens 32 history) 5).0 ≡ some (length seq))
            × ((j : ℕ) (other : List ℕ)
                → j < i
                → get_elem? stops j ≡ some other
                → EndsWith (history ++ (5 ∷ [])) other
                → ⊥)))
stop_check-EndsWith_example =
    stop_check-EndsWith stops history 5 stops-Short (omega arith) (omega arith)
