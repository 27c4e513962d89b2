-- ===== src/Session/Penalty/Push.antt =====
-- The counts of src/inference/session.cpp and src/inference/executor.cpp after a push.
use astral_runtime.Base.{
  ℕ, zero, suc, ◌+◌, ◌-◌, ◌%◌, ◌≤◌, ◌<◌, ◌≡◌, refl, ap, sym, subst, ◌∙◌, inl, inr, arith, true,
  false, Bool-cases, some, List, [], ◌∷◌, ◌++◌, length, get_or, set, take, drop, length-append,
  length-set, length-drop, drop-drop, ltb, leb, ◌==◌,
}
use native.Mathlib.Nat.{mod-lt}
use astral_runtime.Session.Penalty.{
  PenaltyState, count_down, count_up, push_token, penalty_state_push,
}
use astral_runtime.Session.Penalty.Window.{
  occurrences, window, occurrences-append, occurrences-le, window-more, window-moves, next_pos,
}

-- The last `n` tokens of a history.
abbrev pub last_tokens : ℕ → List ℕ → List ℕ
last_tokens n history = drop (length history - n) history

-- A state whose ring has the last tokens of a history, filled from its begin, and counts them.
pub record IsFollowed (s : PenaltyState) (history : List ℕ) : Type 0 where
  pub counts : ℕ → ℕ
  pub tokens : List ℕ
  pub counts_there : s.token_counts ≡ some counts
  pub tokens_there : s.recent_tokens ≡ some tokens
  pub positive : 0 < s.recent_capacity
  pub small : s.recent_capacity < 0x1_0000
  pub memory : length tokens ≡ s.recent_capacity
  pub size_le : s.recent_size ≤ s.recent_capacity
  pub pos_lt : s.recent_pos < s.recent_capacity
  pub filling : s.recent_size < s.recent_capacity → s.recent_pos ≡ s.recent_size
  pub recent : window tokens s.recent_pos s.recent_size ≡ last_tokens s.recent_capacity history
  pub size : length (last_tokens s.recent_capacity history) ≡ s.recent_size
  pub in_vocabulary : (token : ℕ) → s.vocab_size ≤ token → occurrences history token ≡ 0
  pub counted :
      (token : ℕ) → counts token ≡ occurrences (last_tokens s.recent_capacity history) token

pub drop-append : (k : ℕ) (xs ys : List ℕ) → k ≤ length xs → drop k (xs ++ ys) ≡ drop k xs ++ ys
drop-append zero xs ys le = refl
drop-append (suc k) [] ys le = absurd (omega arith)
drop-append (suc k) (x ∷ xs) ys le = drop-append k xs ys (omega arith)

-- A token more.
pub last_tokens-room :
    (n : ℕ) (history : List ℕ) (token : ℕ)
    → length (last_tokens n history) < n
    → last_tokens n (history ++ (token ∷ [])) ≡ last_tokens n history ++ (token ∷ [])
last_tokens-room n history token room =
    let sizes = length-append history (token ∷ []) in
    let shorter = length-drop (length history - n) history in
    ap (λ k. drop k (history ++ (token ∷ []))) {y = 0} (omega (arith, sizes, shorter, room))
    ∙ ap (λ k. drop k history ++ (token ∷ [])) {x = 0} (omega (arith, shorter, room))

pub last_tokens-full :
    (n : ℕ) (history : List ℕ) (old token : ℕ) (rest : List ℕ)
    → last_tokens n history ≡ old ∷ rest
    → length (last_tokens n history) ≡ n
    → last_tokens n (history ++ (token ∷ [])) ≡ rest ++ (token ∷ [])
last_tokens-full n history old token rest is full =
    let sizes = length-append history (token ∷ []) in
    let shorter = length-drop (length history - n) history in
    let some_old : 0 < n = omega (arith, full, ap length is) in
    ap (λ k. drop k (history ++ (token ∷ []))) {y = length history - n + 1}
      (omega (arith, sizes, shorter, full))
    ∙ drop-append (length history - n + 1) history (token ∷ [])
        (omega (arith, shorter, full, some_old))
    ∙ ap (λ l. l ++ (token ∷ [])) (sym (drop-drop (length history - n) 1 history) ∙ ap (drop 1) is)

occurrences-drop :
    (n : ℕ) (xs : List ℕ) (token : ℕ) → occurrences (drop n xs) token ≤ occurrences xs token
unfolding occurrences
occurrences-drop zero xs token = omega arith
occurrences-drop (suc n) [] token = omega arith
occurrences-drop (suc n) (x ∷ xs) token = omega (arith, occurrences-drop n xs token)

-- One token leaves the counts, another comes.
count_moves :
    (counts : ℕ → ℕ) (old new : ℕ) (rest : List ℕ)
    → ((token : ℕ) → counts token ≡ occurrences (old ∷ rest) token)
    → length rest < 0xFFFF
    → (token : ℕ)
    → count_up (count_down counts old) new token ≡ occurrences (rest ++ (new ∷ [])) token
unfolding count_up count_down occurrences
count_moves counts old new rest counted small token =
    ground
      (arith, counted token, occurrences-append rest (new ∷ []) token, occurrences-le rest token)

count_more :
    (counts : ℕ → ℕ) (new : ℕ) (rest : List ℕ)
    → ((token : ℕ) → counts token ≡ occurrences rest token)
    → length rest < 0xFFFF
    → (token : ℕ) → count_up counts new token ≡ occurrences (rest ++ (new ∷ [])) token
unfolding count_up occurrences
count_more counts new rest counted small token =
    ground
      (arith, counted token, occurrences-append rest (new ∷ []) token, occurrences-le rest token)

-- A token of the vocabulary pushed to a state, by whether its ring is full.
module _ (s : PenaltyState) (history : List ℕ) (token : ℕ) (v : IsFollowed s history)
    (known : token < s.vocab_size) where
  vocabulary_kept :
      (other : ℕ) → s.vocab_size ≤ other → occurrences (history ++ (token ∷ [])) other ≡ 0
  unfolding occurrences
  vocabulary_kept other le =
      ground (arith, occurrences-append history (token ∷ []) other, v.in_vocabulary other le, known)

  head_known :
      (old : ℕ) (rest : List ℕ)
      → last_tokens s.recent_capacity history ≡ old ∷ rest
      → ltb old s.vocab_size ≡ true
  unfolding occurrences
  head_known old rest held =
      let less = occurrences-drop (length history - s.recent_capacity) history old in
      let one : 0 < occurrences (last_tokens s.recent_capacity history) old =
        rw held (ground arith) in
      ground (arith, v.in_vocabulary old, less, one)

  push_room :
      s.recent_size == s.recent_capacity ≡ false
      → IsFollowed (push_token s v.counts v.tokens token) (history ++ (token ∷ []))
  unfolding push_token
  push_room room =
      let lt : s.recent_size < s.recent_capacity = ground (arith, room, v.size_le) in
      let place : s.recent_pos ≡ s.recent_size = v.filling lt in
      let before : window v.tokens s.recent_size s.recent_size
          ≡ last_tokens s.recent_capacity history =
        subst (λ q. window v.tokens q s.recent_size ≡ last_tokens s.recent_capacity history) place
          v.recent in
      let longer = last_tokens-room s.recent_capacity history token (omega (arith, v.size, lt)) in
      rw room (record {
        counts = count_up v.counts token;
        tokens = set v.tokens s.recent_pos token;
        counts_there = refl;
        tokens_there = refl;
        positive = v.positive;
        small = v.small;
        memory = length-set v.tokens s.recent_pos token ∙ v.memory;
        size_le = omega (arith, lt);
        pos_lt = mod-lt (s.recent_pos + 1) v.positive;
        filling = λ lt'. ground (arith, next_pos s.recent_pos s.recent_capacity v.pos_lt, place);
        recent =
            subst
              (λ q.
                window (set v.tokens q token) ((q + 1) % s.recent_capacity) (s.recent_size + 1)
                ≡ last_tokens s.recent_capacity (history ++ (token ∷ [])))
              (sym place)
              (window-more v.tokens s.recent_size s.recent_capacity token v.memory lt
                ∙ ap (λ l. l ++ (token ∷ [])) before
                ∙ sym longer);
        size = omega (
          arith,
          ap length longer,
          length-append (last_tokens s.recent_capacity history) (token ∷ []),
          v.size,
        );
        in_vocabulary = vocabulary_kept;
        counted = λ other.
            count_more v.counts token _ v.counted (omega (arith, v.size, lt, v.small)) other
            ∙ ap (λ l. occurrences l other) (sym longer);
      })

  push_full :
      s.recent_size == s.recent_capacity ≡ true
      → IsFollowed (push_token s v.counts v.tokens token) (history ++ (token ∷ []))
  unfolding push_token
  push_full full =
      let e : s.recent_size ≡ s.recent_capacity = ground (arith, full) in
      let old = get_or v.tokens s.recent_pos 0 in
      let rest = drop (s.recent_pos + 1) v.tokens ++ take s.recent_pos v.tokens in
      let (split, moved) =
        window-moves v.tokens s.recent_pos s.recent_capacity token v.memory v.pos_lt in
      let held : last_tokens s.recent_capacity history ≡ old ∷ rest =
        sym v.recent ∙ ap (window v.tokens s.recent_pos) e ∙ split in
      let after = last_tokens-full s.recent_capacity history old token rest held (v.size ∙ e) in
      let counted' : (other : ℕ) → v.counts other ≡ occurrences (old ∷ rest) other =
        λ other. v.counted other ∙ ap (λ l. occurrences l other) held in
      let known_old : ltb old s.vocab_size ≡ true = head_known old rest held in
      rw (full, known_old)
        (record {
          counts = count_up (count_down v.counts old) token;
          tokens = set v.tokens s.recent_pos token;
          counts_there = refl;
          tokens_there = refl;
          positive = v.positive;
          small = v.small;
          memory = length-set v.tokens s.recent_pos token ∙ v.memory;
          size_le = v.size_le;
          pos_lt = mod-lt (s.recent_pos + 1) v.positive;
          filling = λ lt'. absurd (omega (arith, lt', e));
          recent =
              subst
                (λ n.
                  window (set v.tokens s.recent_pos token) ((s.recent_pos + 1) % s.recent_capacity)
                    n
                  ≡ last_tokens s.recent_capacity (history ++ (token ∷ [])))
                (sym e) (moved ∙ sym after);
          size =
              ap length after
              ∙ length-append rest (token ∷ [])
              ∙ omega (arith, v.size, ap length held);
          in_vocabulary = vocabulary_kept;
          counted = λ other.
              count_moves v.counts old token rest counted'
                (omega (arith, ap length held, v.size, e, v.small)) other
              ∙ ap (λ l. occurrences l other) (sym after);
        })

  pub push-IsFollowed : IsFollowed (penalty_state_push s token) (history ++ (token ∷ []))
  unfolding penalty_state_push push_token
  push-IsFollowed =
      let there : s.recent_capacity == 0 ≡ false = ground (arith, v.positive) in
      let in_range : leb s.vocab_size token ≡ false = ground (arith, known) in
      let pushed : IsFollowed (push_token s v.counts v.tokens token) (history ++ (token ∷ [])) =
        elim (Bool-cases (s.recent_size == s.recent_capacity)) [
          | inl full ↦ push_full full
          | inr room ↦ push_room room
        ] in
      rw (v.counts_there, v.tokens_there, there, in_range) pushed
