-- ===== src/Session/Penalty/Stale.antt =====
-- A window of another size: the session of src/inference/session.cpp starts its counts again, the conversation
-- of src/inference/executor.cpp does not.
use astral_runtime.Base.{
  ℕ, ◌-◌, ◌<◌, ◌≡◌, ◌≢◌, refl, ap, sym, ◌∙◌, arith, Bool, true, false, Bool-cases, inl, inr, Option,
  none, some, List, [], length, drop-nil, ◌==◌,
}
use astral_runtime.Base.Span.{ok}
use astral_runtime.Session.Penalty.{
  PenaltyState, no_counts, new_window, window_size, with_counts, has_window, ensure_penalty_state,
  ensure_conversation_state,
}
use astral_runtime.Session.Penalty.Window.{occurrences, occurrences-le}
use astral_runtime.Session.Penalty.Push.{IsFollowed, last_tokens}
use astral_runtime.Session.Penalty.Counts.{empty-IsFollowed}

-- The configuration asks for a window of `(window_size repeat_last_n ctx_size)` tokens, and there is memory for it.
pub record IsResized (repeat_last_n ctx_size : ℕ) (s : PenaltyState) (memory : List ℕ)
    : Type 0 where
  pub other : (window_size repeat_last_n ctx_size) ≢ s.recent_capacity
  pub positive : 0 < (window_size repeat_last_n ctx_size)
  pub small : (window_size repeat_last_n ctx_size) < 0x1_0000
  pub room : length memory ≡ (window_size repeat_last_n ctx_size)

module _ (repeat_last_n ctx_size : ℕ) (s : PenaltyState) (history memory : List ℕ)
    (v : IsFollowed s history) (r : IsResized repeat_last_n ctx_size s memory) where
  no_window : has_window s (window_size repeat_last_n ctx_size) ≡ false
  no_window =
      let differs : (s.recent_capacity == (window_size repeat_last_n ctx_size)) ≡ false =
        ground (arith, r.other) in
      rw (v.tokens_there, differs) refl

  counts_kept : (counts_memory : Bool) → with_counts counts_memory s ≡ some s
  unfolding with_counts
  counts_kept counts_memory = ground (arith, v.counts_there)

  -- Every count is that of a token in the window.
  unseen : s.recent_size == 0 ≡ true → (token : ℕ) → v.counts token ≡ 0
  unfolding occurrences
  unseen none_there token =
      let empty : length (last_tokens s.recent_capacity history) ≡ 0 = ground (arith, v.size) in
      ground (arith, v.counted token, occurrences-le (last_tokens s.recent_capacity history) token)

  session_resized :
      (counts_memory : Bool)
      → (ensure_penalty_state true counts_memory (some memory) repeat_last_n ctx_size s).0 ≡ ok
        × IsFollowed
            (ensure_penalty_state true counts_memory (some memory) repeat_last_n ctx_size s).1
            []
  unfolding ensure_penalty_state
  session_resized counts_memory =
      let test : (window_size repeat_last_n ctx_size) == 0 ≡ false = ground (arith, r.positive) in
      elim (Bool-cases (s.recent_size == 0)) [
        | inl none_there ↦
            rw (test, counts_kept counts_memory, no_window, none_there)
              (
                refl,
                empty-IsFollowed (new_window s memory (window_size repeat_last_n ctx_size)) v.counts
                    memory v.counts_there (unseen none_there) refl r.room r.positive r.small refl
                    refl,
              )
        | inr some_there ↦
            rw (test, counts_kept counts_memory, no_window, some_there)
              (
                refl,
                empty-IsFollowed
                    (new_window (record s { token_counts = some no_counts }) memory
                      (window_size repeat_last_n ctx_size))
                    no_counts memory refl (λ token. refl) refl r.room r.positive r.small refl refl,
              )
      ]

  conversation_resized :
      (counts_memory : Bool)
      → ensure_conversation_state true counts_memory (some memory) repeat_last_n ctx_size s
        ≡ (ok, new_window s memory (window_size repeat_last_n ctx_size))
  unfolding ensure_conversation_state
  conversation_resized counts_memory =
      let test : (window_size repeat_last_n ctx_size) == 0 ≡ false = ground (arith, r.positive) in
      rw (test, counts_kept counts_memory, no_window) refl

same_count : (token : ℕ) (f g : ℕ → ℕ) → some f ≡ some g → f token ≡ g token
same_count token f g e = ap (λ (o : Option (ℕ → ℕ)). elim o [ none ↦ 0 | some h ↦ h token ]) e

none_seen : (n token : ℕ) → occurrences (last_tokens n []) token ≡ 0
unfolding occurrences
none_seen n token = ap (λ l. occurrences l token) (drop-nil (0 - n))

-- Where the counts follow the tokens and a window of another size is asked for, not 0 and less than 2 ^ 16, for which
-- there is memory: the call
-- succeeds for a session and for a conversation, and the new window is empty. The session's counts follow
-- the empty history. The conversation keeps for every token the count of the old window, so that its counts do not
-- follow the empty history if the old window had any token.
pub ensure_penalty_state-resized :
    (repeat_last_n ctx_size : ℕ) (s : PenaltyState) (history memory : List ℕ) (counts_memory : Bool)
    → IsFollowed s history
    → IsResized repeat_last_n ctx_size s memory
    → (((ensure_penalty_state true counts_memory (some memory) repeat_last_n ctx_size s).0 ≡ ok)
        × IsFollowed
            (ensure_penalty_state true counts_memory (some memory) repeat_last_n ctx_size s).1
            [])
      × (let (code, after) =
            ensure_conversation_state true counts_memory (some memory) repeat_last_n ctx_size s in
          (code ≡ ok)
          × (after.recent_size ≡ 0)
          × ((counts : ℕ → ℕ) × (after.token_counts ≡ some counts)
              × ((token : ℕ)
                  → counts token ≡ occurrences (last_tokens s.recent_capacity history) token))
          × ((token : ℕ)
              → 0 < occurrences (last_tokens s.recent_capacity history) token
              → IsFollowed after []
              → ⊥))
ensure_penalty_state-resized repeat_last_n ctx_size s history memory counts_memory v r = (
  session_resized repeat_last_n ctx_size s history memory v r counts_memory,
  rw (conversation_resized repeat_last_n ctx_size s history memory v r counts_memory) (
    refl,
    refl,
    (v.counts, v.counts_there, v.counted),
    λ token seen w. omega (
      arith,
      seen,
      v.counted token,
      same_count token v.counts w.counts (sym v.counts_there ∙ w.counts_there),
      w.counted token,
      none_seen (window_size repeat_last_n ctx_size) token,
    ),
  ),
)
