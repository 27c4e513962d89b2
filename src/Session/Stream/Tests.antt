-- ===== src/Session/Stream/Tests.antt =====
-- The stream of src/inference/session.cpp on concrete tokens.
use astral_runtime.Base.{ℕ, ◌≡◌, ◌≢◌, ◌⊎◌, refl, arith, Bool, List, [], ◌∷◌, ◌++◌, replicate, ltb}
use astral_runtime.Base.Span.{Err, ok, canceled}
use astral_runtime.Session.Stream.{
  Hold, session_stream_flush_one, emit_fragments, session_stream_emit_bytes, flush_rounds,
  session_hold_flush_ready, push_stored, session_hold_push,
}
use astral_runtime.Session.Stream.Fragments.{
  stream_tokens, IsEmitted, session_stream_emit_bytes-IsEmitted,
}
use astral_runtime.Session.Stream.Held.{held, IsRing, IsPassed, session_hold_push-IsPassed}

-- The reader takes one fragment, and then the caller cancels.
abbrev taken : ℕ → Bool
taken n = ltb n 1

abbrev long_text : List ℕ
long_text = replicate 40 65

cut_short : (session_stream_emit_bytes taken [] 3 long_text).0 ≡ canceled
unfolding session_stream_emit_bytes emit_fragments session_stream_flush_one
cut_short = refl

session_stream_emit_bytes-IsEmitted_example :
    ((long_text ≢ []) × IsEmitted 3 long_text [] (session_stream_emit_bytes taken [] 3 long_text))
    ⊎ ((long_text ≡ [])
        × (((session_stream_emit_bytes taken [] 3 long_text)
              ≡ (ok, [] ++ stream_tokens 3 ([] ∷ [])))
            ⊎ ((session_stream_emit_bytes taken [] 3 long_text) ≡ (canceled, []))))
session_stream_emit_bytes-IsEmitted_example =
    session_stream_emit_bytes-IsEmitted taken 3 long_text []

-- An emission that always succeeds, and a ring of four places with two tokens.
abbrev record_token : List ℕ → ℕ → Err × List ℕ
record_token s token = (ok, s ++ (token ∷ []))

abbrev two_held : Hold
two_held = record { hold = 8 ∷ 0 ∷ 0 ∷ 7 ∷ []; hold_head = 3; hold_count = 2 }

two_held-IsRing : IsRing 4 two_held
two_held-IsRing = record {
  positive = omega arith;
  memory = refl;
  place = omega arith;
  count = omega arith;
}

oldest_leaves : (session_hold_push record_token 4 two_held [] 9 2).2 ≡ 7 ∷ []
unfolding session_hold_push push_stored session_hold_flush_ready flush_rounds
oldest_leaves = refl

session_hold_push-IsPassed_example :
    IsPassed record_token 4
      (held 4 two_held ++ (9 ∷ []))
      []
      2
      (session_hold_push record_token 4 two_held [] 9 2)
session_hold_push-IsPassed_example =
    session_hold_push-IsPassed record_token 4 two_held [] 9 2 two_held-IsRing (omega arith)
