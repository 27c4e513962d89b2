-- ===== src/Session/Penalty/Tests.antt =====
-- The counts of src/inference/session.cpp and src/inference/executor.cpp on concrete tokens.
use astral_runtime.Base.{ℕ, ◌<◌, ◌≡◌, refl, arith, true, none, some, List, [], ◌∷◌}
use astral_runtime.Base.Span.{ok}
use astral_runtime.Session.Penalty.{
  PenaltyState, no_counts, new_window, clamp_repeat_last_n, push_token, penalty_state_push,
  ensure_penalty_state, ensure_conversation_state,
}
use astral_runtime.Session.Penalty.Window.{occurrences, window}
use astral_runtime.Session.Penalty.Push.{last_tokens, IsFollowed}
use astral_runtime.Session.Penalty.Counts.{
  push_all, Known, push_all-counts, empty-IsFollowed, push_all-IsFollowed,
}
use astral_runtime.Session.Penalty.Stale.{IsResized, ensure_penalty_state-resized}

abbrev no_window : PenaltyState
no_window = record {
  vocab_size = 10;
  token_counts = some no_counts;
  recent_tokens = none;
  recent_capacity = 0;
  recent_pos = 0;
  recent_size = 0;
}

abbrev two_tokens : List ℕ
two_tokens = 0 ∷ 0 ∷ []

abbrev generated : List ℕ
generated = 7 ∷ 3 ∷ 7 ∷ []

generated-Known : Known 10 generated
unfolding Known
generated-Known = (omega arith, (omega arith, (omega arith, tt)))

push_all-counts_example :
    (counts : ℕ → ℕ) × (ring : List ℕ) × ((push_all
        (new_window no_window two_tokens 2)
        generated).token_counts
      ≡ some counts)
    × ((push_all (new_window no_window two_tokens 2) generated).recent_tokens ≡ some ring)
    × ((token : ℕ) → counts token ≡ occurrences (last_tokens 2 generated) token)
    × (window ring
          (push_all (new_window no_window two_tokens 2) generated).recent_pos
          (push_all (new_window no_window two_tokens 2) generated).recent_size
        ≡ last_tokens 2 generated)
push_all-counts_example =
    push_all-counts no_window two_tokens 2 generated refl refl (omega arith) (omega arith)
      generated-Known

-- A window of two tokens after these, to be one of three.
abbrev filled : PenaltyState
filled = push_all (new_window no_window two_tokens 2) generated

filled-IsFollowed : IsFollowed filled generated
filled-IsFollowed =
    (push_all-IsFollowed (new_window no_window two_tokens 2) [] generated
      (empty-IsFollowed (new_window no_window two_tokens 2) no_counts two_tokens refl
        (λ token. refl) refl refl (omega arith) (omega arith) refl refl)
      generated-Known).0

abbrev three_tokens : List ℕ
three_tokens = 0 ∷ 0 ∷ 0 ∷ []

filled-IsResized : IsResized 3 100 filled three_tokens
unfolding clamp_repeat_last_n push_all penalty_state_push push_token
filled-IsResized = record {
  other = λ e. ground arith;
  positive = omega arith;
  small = omega arith;
  room = refl;
}

ensure_penalty_state-resized_example :
    (((ensure_penalty_state true true (some three_tokens) 3 100 filled).0 ≡ ok)
      × IsFollowed (ensure_penalty_state true true (some three_tokens) 3 100 filled).1 [])
    × (let (code, after) = ensure_conversation_state true true (some three_tokens) 3 100 filled in
        (code ≡ ok)
        × (after.recent_size ≡ 0)
        × ((counts : ℕ → ℕ) × (after.token_counts ≡ some counts)
            × ((token : ℕ)
                → counts token ≡ occurrences (last_tokens filled.recent_capacity generated) token))
        × ((token : ℕ)
            → 0 < occurrences (last_tokens filled.recent_capacity generated) token
            → IsFollowed after []
            → ⊥))
ensure_penalty_state-resized_example =
    ensure_penalty_state-resized 3 100 filled generated three_tokens true filled-IsFollowed
      filled-IsResized
