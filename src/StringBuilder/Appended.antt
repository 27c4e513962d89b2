-- ===== src/StringBuilder/Appended.antt =====
-- What an append of src/utils/string_builder.hpp leaves, on every branch.
use astral_runtime.Base.{
  ℕ, ◌+◌, ◌-◌, ◌≤◌, ◌<◌, min, ◌≡◌, ◌≢◌, refl, ap, sym, subst, ◌∙◌, inl, inr, arith, Bool-cases,
  true, false, Bool, Option, none, List, ◌++◌, append-nil, length, take, leb, ◌==◌, sub32, u32_mod,
}
use astral_runtime.StringBuilder.{
  StringBuilder, StringOverflowPolicy, bytes_of, copy_append, moved, cut, overflow, append, freeze,
}
use astral_runtime.StringBuilder.Growth.{IsGrown, grow_for-cases}
use astral_runtime.StringBuilder.Copied.{IsValid, copy_append-IsCopied, moved-IsValid, moved-text}

-- What an append with result `ok` leaves in `b'`: so many bytes of the text are stored behind the others.
-- They are all of them if it answers true; else they fill the buffer, and the builder is marked. It answers
-- true if the text fits; and on the policy that spills, whenever the length is one of 32 bits and the
-- allocator gives memory. The other policy keeps the capacity.
pub record IsAppended (policy : StringOverflowPolicy) (allocate : ℕ → Option (ℕ → ℕ))
    (b : StringBuilder) (text : List ℕ) (ok : Bool) (b' : StringBuilder) : Type 0 where
  pub stored : ℕ
  pub stored_le : stored ≤ length text
  pub valid : IsValid b'
  pub text_after : freeze b' ≡ freeze b ++ take stored text
  pub length_after : b'.length_ ≡ b.length_ + stored
  pub whole : ok ≡ true → (stored ≡ length text) × (b'.truncated ≡ b.truncated)
  pub filled :
      ok ≡ false
      → (stored < length text)
        × (b'.length_ ≡ b.capacity)
        × (b'.truncated ≡ true)
        × (b'.capacity ≡ b.capacity)
  pub fits : b.length_ + length text ≤ b.capacity → ok ≡ true
  pub spills :
      policy ≡ StringOverflowPolicy.spill
      → b.length_ + length text < u32_mod
      → ((n : ℕ) → allocate n ≢ none)
      → ok ≡ true
  pub fixed : policy ≡ StringOverflowPolicy.truncate → b'.capacity ≡ b.capacity

module _ (policy : StringOverflowPolicy) (allocate : ℕ → Option (ℕ → ℕ)) (b : StringBuilder)
    (text : List ℕ) (v : IsValid b) where
  room_left : sub32 b.capacity b.length_ ≡ b.capacity - b.length_
  room_left = omega (arith, v.small, v.within)

  nothing-IsAppended : length text ≡ 0 → IsAppended policy allocate b text true b
  nothing-IsAppended empty = record {
    stored = 0;
    stored_le = omega arith;
    valid = v;
    text_after = sym (append-nil (freeze b));
    length_after = omega arith;
    whole = λ e. (sym empty, refl);
    filled = λ e. absurd (ground arith);
    fits = λ le. refl;
    spills = λ e lt all. refl;
    fixed = λ e. refl;
  }

  copied :
      b.length_ + length text ≤ b.capacity
      → IsAppended policy allocate b text true (copy_append b (bytes_of text) (length text))
  unfolding copy_append
  copied room =
      let c = copy_append-IsCopied b text (length text) v (omega arith) room in
      record {
        stored = length text;
        stored_le = omega arith;
        valid = c.valid;
        text_after = c.text_after;
        length_after = c.length_after;
        whole = λ e. (refl, refl);
        filled = λ e. absurd (ground arith);
        fits = λ le. refl;
        spills = λ e lt all. refl;
        fixed = λ e. refl;
      }

  grown :
      (b' : StringBuilder)
      → IsGrown allocate b (length text) b'
      → b.capacity < b.length_ + length text
      → policy ≡ StringOverflowPolicy.spill
      → IsAppended policy allocate b text true (copy_append b' (bytes_of text) (length text))
  unfolding copy_append moved
  grown b' g over is_spill =
      let w : IsValid b' = subst IsValid (sym g.same) (
        moved-IsValid b b'.capacity g.next v (omega (arith, g.room)) (omega (arith, g.room, over))
          g.small) in
      let same_length : b'.length_ ≡ b.length_ = ap (λ x. x.length_) g.same in
      let c =
        copy_append-IsCopied b' text (length text) w (omega arith)
          (omega (arith, same_length, g.room)) in
      record {
        stored = length text;
        stored_le = omega arith;
        valid = c.valid;
        text_after =
            c.text_after
            ∙ ap (λ l. l ++ take (length text) text)
                (ap freeze g.same ∙ moved-text b b'.capacity g.next);
        length_after = omega (arith, c.length_after, same_length);
        whole = λ e. (refl, ap (λ x. x.truncated) g.same);
        filled = λ e. absurd (ground arith);
        fits = λ le. refl;
        spills = λ e lt all. refl;
        fixed = λ e. absurd (ground arith);
      }

  was_cut :
      b.capacity < b.length_ + length text
      → (policy ≡ StringOverflowPolicy.spill
          → b.length_ + length text < u32_mod
          → (n : ℕ) × (allocate n ≡ none))
      → IsAppended policy allocate b text false (cut b text)
  unfolding cut copy_append freeze
  was_cut over why =
      let size : min (length text) (sub32 b.capacity b.length_) ≡ b.capacity - b.length_ =
        omega (arith, room_left, v.within) in
      let c =
        copy_append-IsCopied b text (min (length text) (sub32 b.capacity b.length_)) v (omega arith)
          (omega (arith, size, v.within)) in
      record {
        stored = min (length text) (sub32 b.capacity b.length_);
        stored_le = omega arith;
        valid = record {
          some_room = c.valid.some_room;
          small = c.valid.small;
          within = c.valid.within;
          terminated = c.valid.terminated;
        };
        text_after = c.text_after;
        length_after = c.length_after;
        whole = λ e. absurd (ground arith);
        filled = λ e. (
          omega (arith, size, v.within),
          omega (arith, c.length_after, size, v.within),
          refl,
          refl,
        );
        fits = λ le. absurd (omega arith);
        spills = λ e lt all. let (n, null) = why e lt in absurd (all n null);
        fixed = λ e. refl;
      }

overflow-IsAppended :
    (policy : StringOverflowPolicy) (allocate : ℕ → Option (ℕ → ℕ)) (b : StringBuilder)
    (text : List ℕ)
    → IsValid b
    → b.capacity < b.length_ + length text
    → IsAppended policy allocate b text
        (overflow policy allocate b text).0
        (overflow policy allocate b text).1
unfolding overflow
overflow-IsAppended StringOverflowPolicy.truncate allocate b text v over =
    was_cut StringOverflowPolicy.truncate allocate b text v over (λ e. absurd (ground arith))
overflow-IsAppended StringOverflowPolicy.spill allocate b text v over =
    elim (grow_for-cases allocate b (length text) v.some_room v.small) [
      | inl (fails, why) ↦
          rw (overflow, fails)
            (was_cut StringOverflowPolicy.spill allocate b text v over (λ e. why))
      | inr (b', grows, g) ↦
          rw (overflow, grows) (grown StringOverflowPolicy.spill allocate b text v b' g over refl)
    ]

-- An append of any text to a valid builder, under either policy and with any allocator: a valid builder
-- whose text is the old one with a prefix of the new behind it. The answer is true exactly when the prefix
-- is the whole, which it is if there is room, or if the policy spills and there is memory and the length is one
-- of 32 bits. If it is not, the buffer is full and the builder is marked as truncated.
pub append-IsAppended :
    (policy : StringOverflowPolicy) (allocate : ℕ → Option (ℕ → ℕ)) (b : StringBuilder)
    (text : List ℕ)
    → IsValid b
    → IsAppended policy allocate b text
        (append policy allocate b text).0
        (append policy allocate b text).1
unfolding append
append-IsAppended policy allocate b text v = elim (Bool-cases (length text == 0)) [
  | inl none_new ↦ rw none_new (nothing-IsAppended policy allocate b text v (ground arith))
  | inr some_new ↦ rw some_new (elim (Bool-cases (leb (length text) (sub32 b.capacity b.length_))) [
    | inl room ↦ rw room (
        copied policy allocate b text v
          (ground (arith, room_left policy allocate b text v, v.within)))
    | inr full ↦ rw full (
        overflow-IsAppended policy allocate b text v
          (ground (arith, room_left policy allocate b text v)))
  ])
]
