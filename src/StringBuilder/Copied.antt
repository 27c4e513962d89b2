-- ===== src/StringBuilder/Copied.antt =====
-- Copies to the end of a builder of src/utils/string_builder.hpp, and into a new block.
use astral_runtime.Base.{
  ℕ, zero, suc, ◌+◌, ◌≤◌, ◌<◌, ◌≡◌, refl, ap, ◌∙◌, arith, List, [], ◌∷◌, ◌++◌, length, take, get_or,
  add32, u32_mod,
}
use native.Mathlib.Nat.{mod-eq_of_lt}
use astral_runtime.Spsc.{memcpy}
use astral_runtime.Spsc.Cells.{tabulate, tabulate-append, tabulate-ext}
use astral_runtime.StringBuilder.{StringBuilder, put, bytes_of, copy_append, moved, freeze, new}

-- The length is within the capacity, and the text is terminated.
pub record IsValid (b : StringBuilder) : Type 0 where
  pub some_room : 0 < b.capacity
  pub small : b.capacity < u32_mod
  pub within : b.length_ ≤ b.capacity
  pub terminated : b.buffer b.length_ ≡ 0

tabulate-bytes_of :
    (text : List ℕ) (k : ℕ) → k ≤ length text → tabulate (bytes_of text) k ≡ take k text
unfolding tabulate bytes_of
tabulate-bytes_of text zero le = refl
tabulate-bytes_of [] (suc k) le = absurd (omega arith)
tabulate-bytes_of (x ∷ text) (suc k) le =
    ap (λ l. x ∷ l)
      (tabulate-ext _ _ k (λ i lt. shifted i) ∙ tabulate-bytes_of text k (omega arith))
  where
    shifted : (i : ℕ) → get_or (x ∷ text) (1 + i) 0 ≡ get_or text i 0
    shifted i = ap (λ j. get_or (x ∷ text) j 0) {y = suc i} (omega arith)

pub take-all : (text : List ℕ) → take (length text) text ≡ text
take-all [] = refl
take-all (x ∷ text) = ap (λ l. x ∷ l) (take-all text)

add32-small : (a b : ℕ) → a + b < u32_mod → add32 a b ≡ a + b
add32-small a b lt = mod-eq_of_lt lt

-- A copy that fits.
pub record IsCopied (b : StringBuilder) (text : List ℕ) (size : ℕ) : Type 0 where
  pub valid : IsValid (copy_append b (bytes_of text) size)
  pub text_after : freeze (copy_append b (bytes_of text) size) ≡ freeze b ++ take size text
  pub length_after : (copy_append b (bytes_of text) size).length_ ≡ b.length_ + size

pub copy_append-IsCopied :
    (b : StringBuilder) (text : List ℕ) (size : ℕ)
    → IsValid b
    → size ≤ length text
    → b.length_ + size ≤ b.capacity
    → IsCopied b text size
unfolding copy_append put freeze memcpy
copy_append-IsCopied b text size v le room =
    let sum = add32-small b.length_ size (omega (arith, v.small)) in
    record {
      valid = record {
        some_room = v.some_room;
        small = v.small;
        within = omega (arith, sum);
        terminated = ground arith;
      };
      text_after =
          tabulate-append _ b.buffer (bytes_of text) b.length_ size _ sum
            (λ i lt. ground (arith, sum)) (λ i lt. grind (arith, sum))
          ∙ ap (λ l. tabulate b.buffer b.length_ ++ l) (tabulate-bytes_of text size le);
      length_after = sum;
    }

-- A builder in its new block.
pub moved-IsValid :
    (b : StringBuilder) (c : ℕ) (next : ℕ → ℕ)
    → IsValid b
    → b.length_ ≤ c
    → 0 < c
    → c < u32_mod
    → IsValid (moved b c next)
unfolding moved memcpy
moved-IsValid b c next v le room small = record {
  some_room = room;
  small = small;
  within = le;
  terminated = grind (arith, v.terminated);
}

pub moved-text : (b : StringBuilder) (c : ℕ) (next : ℕ → ℕ) → freeze (moved b c next) ≡ freeze b
unfolding moved memcpy freeze
moved-text b c next = tabulate-ext _ _ b.length_ (λ i lt. grind arith)

pub new-IsValid :
    (inline_capacity : ℕ) (storage : ℕ → ℕ)
    → 0 < inline_capacity
    → inline_capacity < u32_mod
    → IsValid (new inline_capacity storage)
unfolding new put
new-IsValid inline_capacity storage some_room small = record {
  some_room = some_room;
  small = small;
  within = omega arith;
  terminated = refl;
}
