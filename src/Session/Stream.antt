-- ===== src/Session/Stream.antt =====
-- The stream of a session's tokens in src/inference/session.cpp: the text of a token in fragments, and the tokens
-- held back until no stop sequence can begin with them.
pub mod Fragments
pub mod Ring
pub mod Held
mod Tests
use astral_runtime.Base.{
  ℕ, zero, suc, ◌+◌, ◌-◌, ◌%◌, Bool, true, false, ◌&&◌, Option, none, some, List, [], ◌∷◌, ◌++◌,
  length, get_or, set, take, drop, ltb, leb, ◌==◌, if◌then◌else◌,
}
use astral_runtime.Base.Span.{Err, ok, nomem, bad_state, backend, canceled}

-- `StreamToken`, with its text as the bytes that `utf8_len` counts.
pub record StreamToken : Type 0 where
  pub token_id : ℕ
  pub utf8_data : List ℕ

-- `kStreamTokenUtf8Capacity`.
abbrev pub fragment_capacity : ℕ
fragment_capacity = 32

-- The loop that pushes to the ring: whether the reader makes room for the push after so many before the
-- caller cancels is an argument.
unfoldable pub session_stream_flush_one :
    (ℕ → Bool) → List StreamToken → StreamToken → Bool × List StreamToken
session_stream_flush_one taken sent tok =
    if taken (length sent) then (true, sent ++ (tok ∷ [])) else (false, sent)

-- The loop over the fragments, in as many rounds as there are bytes at most.
unfoldable pub emit_fragments :
    (ℕ → Bool) → ℕ → ℕ → List ℕ → List StreamToken → Err × List StreamToken
emit_fragments taken zero token_id bytes sent = (ok, sent)
emit_fragments taken (suc rounds) token_id bytes sent =
    let pushed =
      session_stream_flush_one taken sent
        (record { token_id = token_id; utf8_data = take fragment_capacity bytes }) in
    let rest = emit_fragments taken rounds token_id (drop fragment_capacity bytes) pushed.1 in
    if length bytes == 0 then (ok, sent) else if pushed.0 then rest else (canceled, pushed.1)

unfoldable pub session_stream_emit_bytes :
    (ℕ → Bool) → List StreamToken → ℕ → List ℕ → Err × List StreamToken
session_stream_emit_bytes taken sent token_id bytes =
    let pushed =
      session_stream_flush_one taken sent (record { token_id = token_id; utf8_data = [] }) in
    if length bytes == 0
    then (if pushed.0 then ok else canceled, pushed.1)
    else emit_fragments taken (length bytes) token_id bytes sent

-- What a back end's `detokenize` answers for a token and a buffer of so many bytes: the error, the length that
-- it stores, and the buffer.
pub record Detokenized : Type 0 where
  pub err : Err
  pub len : ℕ
  pub out : List ℕ

abbrev pub is_ok : Err → Bool
is_ok ok = true
is_ok e = false

abbrev pub is_nomem : Err → Bool
is_nomem nomem = true
is_nomem e = false

-- `memory` is whether there is memory for a text that is longer than a fragment.
unfoldable pub session_stream_emit_token :
    (ℕ → ℕ → Detokenized) → Bool → (ℕ → Bool) → List StreamToken → ℕ → Err × List StreamToken
session_stream_emit_token detokenize memory taken sent token_id =
    let first = detokenize token_id fragment_capacity in
    let query = detokenize token_id 0 in
    let second = detokenize token_id query.len in
    if is_ok first.err
    then if ltb fragment_capacity first.len
      then (backend, sent)
      else session_stream_emit_bytes taken sent token_id (take first.len first.out)
    else if is_nomem first.err
    then if is_ok query.err
      then if leb query.len fragment_capacity
        then (backend, sent)
        else if memory
        then if is_ok second.err
          then if leb second.len query.len
            then session_stream_emit_bytes taken sent token_id (take second.len second.out)
            else (backend, sent)
          else (second.err, sent)
        else (nomem, sent)
      else (query.err, sent)
    else (first.err, sent)

-- The ring of held tokens.
pub record Hold : Type 0 where
  pub hold : List ℕ
  pub hold_head : ℕ
  pub hold_count : ℕ

module _ {S : Type 0} (emit : S → ℕ → Err × S) (hold_cap : ℕ) where
  -- The oldest token is gone.
  abbrev pub shorter : Hold → Hold
  shorter h = record h { hold_head = (h.hold_head + 1) % hold_cap; hold_count = h.hold_count - 1 }

  unfoldable pub flush_rounds : ℕ → Hold → S → ℕ → Err × Hold × S
  flush_rounds zero h s retain_count = (ok, h, s)
  flush_rounds (suc rounds) h s retain_count =
      let sent = emit s (get_or h.hold h.hold_head 0) in
      let rest = flush_rounds rounds (shorter h) sent.1 retain_count in
      if ltb retain_count h.hold_count
      then if is_ok sent.0 then rest else (sent.0, h, sent.1)
      else (ok, h, s)

  -- A round takes a token, so there are no more rounds than tokens.
  unfoldable pub session_hold_flush_ready : Hold → S → ℕ → Err × Hold × S
  session_hold_flush_ready h s retain_count = flush_rounds h.hold_count h s retain_count

  abbrev pub held_too : Hold → ℕ → Hold
  held_too h token_id = record h {
    hold = set h.hold ((h.hold_head + h.hold_count) % hold_cap) token_id;
    hold_count = h.hold_count + 1;
  }

  -- The rest of a push, after what room it made.
  unfoldable pub push_stored : Err × Hold × S → ℕ → ℕ → Err × Hold × S
  push_stored (err, h, s) token_id stop_hold =
      if is_ok err
      then if h.hold_count == hold_cap
        then (bad_state, h, s)
        else session_hold_flush_ready (held_too h token_id) s stop_hold
      else (err, h, s)

  unfoldable pub session_hold_push : Hold → S → ℕ → ℕ → Err × Hold × S
  session_hold_push h s token_id stop_hold =
      let direct = emit s token_id in
      if stop_hold == 0 && h.hold_count == 0
      then (direct.0, h, direct.1)
      else push_stored
          (if h.hold_count == hold_cap then session_hold_flush_ready h s stop_hold else (ok, h, s))
          token_id stop_hold
