-- ===== src/Session/Penalty.antt =====
-- The counts of recent tokens behind the penalties of the sampler: `ensure_penalty_state`, `penalty_state_clear`
-- and `penalty_state_push` of src/inference/session.cpp and of src/inference/executor.cpp.
pub mod Window
pub mod Push
pub mod Counts
pub mod Stale
mod Tests
use astral_runtime.Base.{
  ℕ, zero, suc, ◌+◌, ◌-◌, ◌%◌, Bool, true, false, not, ◌&&◌, ◌||◌, Option, none, some, List, length,
  get_or, set, ltb, leb, ◌==◌, if◌then◌else◌,
}
use astral_runtime.Base.Span.{Err, ok, nomem}

-- The fields of `Session` and of `Conversation` that the penalties use.
pub record PenaltyState : Type 0 where
  pub vocab_size : ℕ
  pub token_counts : Option (ℕ → ℕ)
  pub recent_tokens : Option (List ℕ)
  pub recent_capacity : ℕ
  pub recent_pos : ℕ
  pub recent_size : ℕ

abbrev pub no_counts : ℕ → ℕ
no_counts token = 0

-- `clamp_repeat_last_n` on an `int32_t` in two's complement.
unfoldable pub clamp_repeat_last_n : ℕ → ℕ → ℕ
clamp_repeat_last_n v ctx_size = if v == 0 then 0 else if leb 0x8000_0000 v then ctx_size else v

abbrev pub context_or_default : ℕ → ℕ
context_or_default ctx_size = if ctx_size == 0 then 2048 else ctx_size

abbrev pub window_size : ℕ → ℕ → ℕ
window_size repeat_last_n ctx_size = clamp_repeat_last_n repeat_last_n (context_or_default ctx_size)

-- The counts, with memory for them or without.
unfoldable pub with_counts : Bool → PenaltyState → Option PenaltyState
with_counts counts_memory s = elim s.token_counts [
  | some counts ↦ some s
  | none ↦ if counts_memory then some (record s { token_counts = some no_counts }) else none
]

-- A window of another size, in new memory.
abbrev pub new_window : PenaltyState → List ℕ → ℕ → PenaltyState
new_window s memory capacity = record s {
  recent_tokens = some memory;
  recent_capacity = capacity;
  recent_pos = 0;
  recent_size = 0;
}

abbrev pub has_window : PenaltyState → ℕ → Bool
has_window s capacity = elim s.recent_tokens [
  | none ↦ false
  | some memory ↦ s.recent_capacity == capacity
]

-- The session's: the counts are emptied with the window. `counts_memory` and `memory` are what the allocator
-- gives; `needs_counts` is the test on the configuration.
unfoldable pub ensure_penalty_state :
    Bool → Bool → Option (List ℕ) → ℕ → ℕ → PenaltyState → Err × PenaltyState
ensure_penalty_state needs_counts counts_memory memory repeat_last_n ctx_size s =
    let capacity = window_size repeat_last_n ctx_size in
    if not needs_counts || capacity == 0 then (ok, s) else elim (with_counts counts_memory s) [
      | none ↦ (nomem, s)
      | some s' ↦ if has_window s' capacity then (ok, s') else elim memory [
        | none ↦ (nomem, s')
        | some tokens ↦ (
          ok,
          new_window
              (if s'.recent_size == 0 then s' else record s' { token_counts = some no_counts })
              tokens capacity,
        )
      ]
    ]

-- The conversation's: a window that cannot be had is lost, and the counts stay.
unfoldable pub ensure_conversation_state :
    Bool → Bool → Option (List ℕ) → ℕ → ℕ → PenaltyState → Err × PenaltyState
ensure_conversation_state needs_counts counts_memory memory repeat_last_n ctx_size s =
    let capacity = window_size repeat_last_n ctx_size in
    if not needs_counts || capacity == 0 then (ok, s) else elim (with_counts counts_memory s) [
      | none ↦ (nomem, s)
      | some s' ↦ if has_window s' capacity then (ok, s') else elim memory [
        | none ↦ (nomem, record s' { recent_tokens = none })
        | some tokens ↦ (ok, new_window s' tokens capacity)
      ]
    ]

unfoldable pub penalty_state_clear : PenaltyState → PenaltyState
penalty_state_clear s = elim s.token_counts [
  | none ↦ s
  | some counts ↦
      if s.recent_size == 0
      then s
      else record s { token_counts = some no_counts; recent_pos = 0; recent_size = 0 }
]

unfoldable pub clear_conversation_state : PenaltyState → PenaltyState
clear_conversation_state s = elim s.token_counts [
  | none ↦ s
  | some counts ↦ record s { token_counts = some no_counts; recent_pos = 0; recent_size = 0 }
]

-- Changes of one count of 16 bits.
unfoldable pub count_down : (ℕ → ℕ) → ℕ → ℕ → ℕ
count_down counts old token = if token == old then counts token - 1 else counts token

unfoldable pub count_up : (ℕ → ℕ) → ℕ → ℕ → ℕ
count_up counts new token =
    if token == new && not (counts token == 0xFFFF) then counts token + 1 else counts token

-- The push on tables that are there, a window that is not empty and a token of the vocabulary.
unfoldable pub push_token : PenaltyState → (ℕ → ℕ) → List ℕ → ℕ → PenaltyState
push_token s counts tokens token_id =
    let full = s.recent_size == s.recent_capacity in
    let old = get_or tokens s.recent_pos 0 in
    let lowered = if full && ltb old s.vocab_size then count_down counts old else counts in
    record s {
      recent_size = if full then s.recent_size else s.recent_size + 1;
      recent_tokens = some (set tokens s.recent_pos token_id);
      recent_pos = (s.recent_pos + 1) % s.recent_capacity;
      token_counts = some (count_up lowered token_id);
    }

-- The push of both files.
unfoldable pub penalty_state_push : PenaltyState → ℕ → PenaltyState
penalty_state_push s token_id = elim s.token_counts [
  | none ↦ s
  | some counts ↦ elim s.recent_tokens [
    | none ↦ s
    | some tokens ↦
        if s.recent_capacity == 0 || leb s.vocab_size token_id
        then s
        else push_token s counts tokens token_id
  ]
]
