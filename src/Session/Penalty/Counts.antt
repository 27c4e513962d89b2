-- ===== src/Session/Penalty/Counts.antt =====
-- The counts of src/inference/session.cpp and src/inference/executor.cpp after any pushes.
use astral_runtime.Base.{
  ℕ, ◌-◌, ◌<◌, ◌≡◌, refl, ap, sym, subst, ◌∙◌, arith, some, List, [], ◌∷◌, ◌++◌, append-nil,
  append_assoc, length, drop-nil,
}
use astral_runtime.Session.Penalty.{
  PenaltyState, no_counts, new_window, push_token, penalty_state_push,
}
use astral_runtime.Session.Penalty.Window.{occurrences, window}
use astral_runtime.Session.Penalty.Push.{IsFollowed, last_tokens, push-IsFollowed}

-- A ring that holds nothing, with counts of 0.
pub empty-IsFollowed :
    (s : PenaltyState) (counts : ℕ → ℕ) (tokens : List ℕ)
    → s.token_counts ≡ some counts
    → ((token : ℕ) → counts token ≡ 0)
    → s.recent_tokens ≡ some tokens
    → length tokens ≡ s.recent_capacity
    → 0 < s.recent_capacity
    → s.recent_capacity < 0x1_0000
    → s.recent_pos ≡ 0
    → s.recent_size ≡ 0
    → IsFollowed s []
unfolding window occurrences
empty-IsFollowed s counts tokens counts_there zeroed tokens_there memory positive small pos size =
    record {
      counts = counts;
      tokens = tokens;
      counts_there = counts_there;
      tokens_there = tokens_there;
      positive = positive;
      small = small;
      memory = memory;
      size_le = omega (arith, size);
      pos_lt = omega (arith, pos, positive);
      filling = λ lt. omega (arith, pos, size);
      recent = rw (pos, size) (sym (drop-nil (0 - s.recent_capacity)));
      size = omega (arith, ap length (drop-nil {A = ℕ} (0 - s.recent_capacity)), size);
      in_vocabulary = λ token le. refl;
      counted = λ token.
          zeroed token ∙ ap (λ l. occurrences l token) (sym (drop-nil (0 - s.recent_capacity)));
    }

unfoldable pub push_all : PenaltyState → List ℕ → PenaltyState
push_all s [] = s
push_all s (token ∷ more) = push_all (penalty_state_push s token) more

unfoldable pub Known : ℕ → List ℕ → Type 0
Known vocab_size [] = Unit {0}
Known vocab_size (token ∷ more) = (token < vocab_size) × Known vocab_size more

push_fixed :
    (s : PenaltyState) (token : ℕ)
    → ((penalty_state_push s token).vocab_size ≡ s.vocab_size)
      × ((penalty_state_push s token).recent_capacity ≡ s.recent_capacity)
unfolding penalty_state_push push_token
push_fixed s token = ground arith

pub push_all-IsFollowed :
    (s : PenaltyState) (history tokens : List ℕ)
    → IsFollowed s history
    → Known s.vocab_size tokens
    → IsFollowed (push_all s tokens) (history ++ tokens)
      × ((push_all s tokens).recent_capacity ≡ s.recent_capacity)
unfolding push_all Known
push_all-IsFollowed s history [] v known = (subst (IsFollowed s) (sym (append-nil history)) v, refl)
push_all-IsFollowed s history (token ∷ more) v known =
    let (vocabulary, capacity) = push_fixed s token in
    let (w, same) =
      push_all-IsFollowed (penalty_state_push s token) (history ++ (token ∷ [])) more
        (push-IsFollowed s history token v known.0)
        (subst (λ n. Known n more) (sym vocabulary) known.1) in
    (subst (IsFollowed _) (append_assoc history (token ∷ []) more) w, same ∙ capacity)

-- In a new window of fewer than 2^16 tokens, with counts of 0, after any tokens of the vocabulary: the count
-- of each token is how often it is among the last tokens, as many as the window has, and these are what
-- the ring holds, the oldest first. No count is capped or falls below 0 on the way.
pub push_all-counts :
    (s : PenaltyState) (memory : List ℕ) (capacity : ℕ) (tokens : List ℕ)
    → s.token_counts ≡ some no_counts
    → length memory ≡ capacity
    → 0 < capacity
    → capacity < 0x1_0000
    → Known s.vocab_size tokens
    → (counts : ℕ → ℕ) × (ring : List ℕ) × ((push_all
          (new_window s memory capacity)
          tokens).token_counts
        ≡ some counts)
      × ((push_all (new_window s memory capacity) tokens).recent_tokens ≡ some ring)
      × ((token : ℕ) → counts token ≡ occurrences (last_tokens capacity tokens) token)
      × (window ring
            (push_all (new_window s memory capacity) tokens).recent_pos
            (push_all (new_window s memory capacity) tokens).recent_size
          ≡ last_tokens capacity tokens)
push_all-counts s memory capacity tokens counts_there size positive small known =
    let (v, same) =
      push_all-IsFollowed (new_window s memory capacity) [] tokens
        (empty-IsFollowed (new_window s memory capacity) no_counts memory counts_there
          (λ token. refl) refl size positive small refl refl)
        known in
    let last : last_tokens (push_all (new_window s memory capacity) tokens).recent_capacity tokens
        ≡ last_tokens capacity tokens =
      ap (λ n. last_tokens n tokens) same in
    (
      v.counts,
      v.tokens,
      v.counts_there,
      v.tokens_there,
      λ token. v.counted token ∙ ap (λ l. occurrences l token) last,
      v.recent ∙ last,
    )
