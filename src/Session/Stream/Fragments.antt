-- ===== src/Session/Stream/Fragments.antt =====
-- The fragments of a token's text in src/inference/session.cpp.
use astral_runtime.Base.{
  ℕ, zero, suc, ◌≤◌, ◌<◌, ◌≡◌, ◌≢◌, refl, ap, sym, ◌∙◌, ◌⊎◌, inl, inr, arith, Bool, false,
  Bool-cases, List, [], ◌∷◌, ◌++◌, map, append-nil, append_assoc, length, take, drop,
  take-append-drop, length-take, length-drop, ◌==◌,
}
use astral_runtime.Base.Span.{Err, ok, canceled}
use astral_runtime.Session.Stream.{
  StreamToken, fragment_capacity, session_stream_flush_one, emit_fragments,
  session_stream_emit_bytes,
}

-- The tokens of the stream for the fragments of one token's text.
abbrev pub stream_tokens : ℕ → List (List ℕ) → List StreamToken
stream_tokens token_id fragments =
    map (λ bytes. record { token_id = token_id; utf8_data = bytes }) fragments

unfoldable pub text_of : List (List ℕ) → List ℕ
text_of [] = []
text_of (bytes ∷ fragments) = bytes ++ text_of fragments

-- Every fragment has some bytes, as many as a stream token holds at most.
unfoldable pub Fitting : List (List ℕ) → Type 0
Fitting [] = Unit {0}
Fitting (bytes ∷ fragments) =
    (0 < length bytes) × (length bytes ≤ fragment_capacity) × Fitting fragments

-- What an emission of `bytes` adds to the stream.
pub record IsEmitted (token_id : ℕ) (bytes : List ℕ) (sent : List StreamToken)
    (result : Err × List StreamToken) : Type 0 where
  pub fragments : List (List ℕ)
  pub left_over : List ℕ
  pub stream : result.1 ≡ sent ++ stream_tokens token_id fragments
  pub text : bytes ≡ text_of fragments ++ left_over
  pub fitting : Fitting fragments
  pub outcome : ((result.0 ≡ ok) × (left_over ≡ [])) ⊎ ((result.0 ≡ canceled) × (left_over ≢ []))

module _ (taken : ℕ → Bool) (token_id : ℕ) where
  emit_fragments-IsEmitted :
      (rounds : ℕ) (bytes : List ℕ) (sent : List StreamToken)
      → length bytes ≤ rounds
      → IsEmitted token_id bytes sent (emit_fragments taken rounds token_id bytes sent)
  unfolding emit_fragments session_stream_flush_one text_of Fitting
  emit_fragments-IsEmitted zero [] sent le = record {
    fragments = [];
    left_over = [];
    stream = sym (append-nil sent);
    text = refl;
    fitting = tt;
    outcome = inl (refl, refl);
  }
  emit_fragments-IsEmitted zero (b ∷ bytes) sent le = absurd (omega arith)
  emit_fragments-IsEmitted (suc rounds) [] sent le = record {
    fragments = [];
    left_over = [];
    stream = sym (append-nil sent);
    text = refl;
    fitting = tt;
    outcome = inl (refl, refl);
  }
  emit_fragments-IsEmitted (suc rounds) (b ∷ bytes) sent le =
      elim (Bool-cases (taken (length sent))) [
        | inr refused ↦
            let some_bytes : suc (length bytes) == 0 ≡ false = ground arith in
            rw (some_bytes, refused)
              (record {
                fragments = [];
                left_over = b ∷ bytes;
                stream = sym (append-nil sent);
                text = refl;
                fitting = tt;
                outcome = inr (refl, λ e. ground (arith, ap length e));
              })
        | inl room ↦
            let some_bytes : suc (length bytes) == 0 ≡ false = ground arith in
            let piece = take 32 (b ∷ bytes) in
            let v =
              emit_fragments-IsEmitted rounds (drop 32 (b ∷ bytes))
                (sent ++ (record { token_id = token_id; utf8_data = piece } ∷ []))
                (omega (arith, length-drop 32 (b ∷ bytes), le)) in
            rw (some_bytes, room)
              (record {
                fragments = piece ∷ v.fragments;
                left_over = v.left_over;
                stream = v.stream ∙ append_assoc sent _ _;
                text =
                    sym (take-append-drop 32 (b ∷ bytes))
                    ∙ ap (λ l. piece ++ l) v.text
                    ∙ sym (append_assoc piece (text_of v.fragments) v.left_over);
                fitting = (
                  omega (arith, length-take 32 (b ∷ bytes)),
                  omega (arith, length-take 32 (b ∷ bytes)),
                  v.fitting,
                );
                outcome = v.outcome;
              })
      ]

-- The text of a token given to the stream, whether the reader makes room for all of it or the caller cancels: the
-- stream has, behind what it had, fragments of that token that fit and are not empty, whose texts
-- are a prefix of the text. The prefix is the whole if the answer is success, and is not if it is
-- cancellation, and no other answer is given. A text that is empty is one token with no text, or nothing.
pub session_stream_emit_bytes-IsEmitted :
    (taken : ℕ → Bool) (token_id : ℕ) (bytes : List ℕ) (sent : List StreamToken)
    → ((bytes ≢ [])
        × IsEmitted token_id bytes sent (session_stream_emit_bytes taken sent token_id bytes))
      ⊎ ((bytes ≡ [])
          × (((session_stream_emit_bytes taken sent token_id bytes)
                ≡ (ok, sent ++ stream_tokens token_id ([] ∷ [])))
              ⊎ ((session_stream_emit_bytes taken sent token_id bytes) ≡ (canceled, sent))))
unfolding session_stream_emit_bytes session_stream_flush_one
session_stream_emit_bytes-IsEmitted taken token_id [] sent =
    elim (Bool-cases (taken (length sent))) [
      | inl room ↦ inr (refl, inl (rw room refl))
      | inr refused ↦ inr (refl, inr (rw refused refl))
    ]
session_stream_emit_bytes-IsEmitted taken token_id (b ∷ bytes) sent =
    let some_bytes : suc (length bytes) == 0 ≡ false = ground arith in
    inl (
      λ e. ground (arith, ap length e),
      rw some_bytes (
          emit_fragments-IsEmitted taken token_id (suc (length bytes)) (b ∷ bytes) sent
            (omega arith)),
    )
