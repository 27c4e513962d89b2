-- ===== src/Spsc/Cells.antt =====
-- The cells of the buffer of src/concurrency/spsc_ring.hpp: cursors to cells, and the batch copies.
use astral_runtime.Base.{
  ℕ, zero, suc, ◌+◌, ◌-◌, ◌%◌, ◌^◌, ◌≤◌, ◌<◌, ◌≡◌, refl, ap, subst, ◌∙◌, sym, arith, ltb,
  if◌then◌else◌, Bool-cases, inl, inr, List, [], ◌∷◌, ◌++◌, ap₂, bit_and_mask, two_pow_positive,
}
use native.Mathlib.Nat.{mod-lt, mod-eq_of_lt, mod-eq-sub-mod, mod-add-mod, add-mod_right}
use astral_runtime.Spsc.{cell, memcpy, copy_in, copy_out}

-- A capacity as the static assertions of the ring want it.
pub record IsCapacity (capacity : ℕ) : Type 0 where
  pub bits : ℕ
  pub power : capacity ≡ 2 ^ bits

pub capacity_positive : (c : ℕ) → IsCapacity c → 0 < c
capacity_positive c p = omega (arith, p.power, two_pow_positive p.bits)

pub cell-mod : (c x : ℕ) → IsCapacity c → cell c x ≡ x % c
unfolding cell
cell-mod c x p = rw (p.power) (bit_and_mask p.bits x)

pub cell-lt : (c x : ℕ) → IsCapacity c → cell c x < c
cell-lt c x p = omega (arith, cell-mod c x p, mod-lt x (capacity_positive c p))

pub cell-around : (c x : ℕ) → IsCapacity c → cell c (x + c) ≡ cell c x
cell-around c x p = cell-mod c (x + c) p ∙ add-mod_right x c ∙ sym (cell-mod c x p)

pub cell-add :
    (c x i : ℕ)
    → IsCapacity c
    → i < c
    → cell c (x + i) ≡ (if ltb (cell c x + i) c then cell c x + i else cell c x + i - c)
cell-add c x i p small = elim (Bool-cases (ltb (cell c x + i) c)) [
  | inl within ↦ rw (within) (shifted ∙ mod-eq_of_lt (ground (arith, within)))
  | inr past ↦ rw (past) (
      shifted
      ∙ mod-eq-sub-mod (ground (arith, past))
      ∙ mod-eq_of_lt (ground (arith, past, cell-lt c x p)))
]
  where
    shifted : cell c (x + i) ≡ (cell c x + i) % c
    shifted =
        cell-mod c (x + i) p
        ∙ sym (mod-add-mod x c i)
        ∙ ap (λ t. (t + i) % c) (sym (cell-mod c x p))

-- What a batch copy into the buffer leaves in the cells from the cursor on.
pub copy_in-new :
    {A : Type 0} (c : ℕ) (buffer : ℕ → A) (head : ℕ) (items : ℕ → A) (n i : ℕ)
    → IsCapacity c
    → n ≤ c
    → i < n
    → copy_in c buffer head items n (cell c (head + i)) ≡ items i
unfolding copy_in memcpy
copy_in-new c buffer head items n i p fits lt =
    grind (arith, cell-add c head i p (omega (arith, fits, lt)), cell-lt c head p)

pub copy_in-old :
    {A : Type 0} (c : ℕ) (buffer : ℕ → A) (head : ℕ) (items : ℕ → A) (n i : ℕ)
    → IsCapacity c
    → n ≤ i
    → i < c
    → copy_in c buffer head items n (cell c (head + i)) ≡ buffer (cell c (head + i))
unfolding copy_in memcpy
copy_in-old c buffer head items n i p after lt =
    grind (arith, cell-add c head i p lt, cell-lt c head p)

pub copy_out-new :
    {A : Type 0} (c : ℕ) (buffer : ℕ → A) (tail : ℕ) (out : ℕ → A) (n i : ℕ)
    → IsCapacity c
    → n ≤ c
    → i < n
    → copy_out c buffer tail out n i ≡ buffer (cell c (tail + i))
unfolding copy_out memcpy
copy_out-new c buffer tail out n i p fits lt =
    grind (arith, cell-add c tail i p (omega (arith, fits, lt)), cell-lt c tail p)

pub copy_out-old :
    {A : Type 0} (c : ℕ) (buffer : ℕ → A) (tail : ℕ) (out : ℕ → A) (n i : ℕ)
    → IsCapacity c
    → n ≤ c
    → n ≤ i
    → copy_out c buffer tail out n i ≡ out i
unfolding copy_out memcpy
copy_out-old c buffer tail out n i p fits after = grind (arith, cell-lt c tail p)

-- The values of a function at the first numbers.
unfoldable pub tabulate : {A : Type 0} → (ℕ → A) → ℕ → List A
tabulate f zero = []
tabulate f (suc n) = f 0 ∷ tabulate (λ i. f (1 + i)) n

pub tabulate-ext :
    {A : Type 0} (f h : ℕ → A) (n : ℕ) → ((i : ℕ) → i < n → f i ≡ h i) → tabulate f n ≡ tabulate h n
unfolding tabulate
tabulate-ext f h zero same = refl
tabulate-ext f h (suc n) same =
    ap₂ (λ a l. a ∷ l) (same 0 (omega arith))
      (tabulate-ext (λ i. f (1 + i)) (λ i. h (1 + i)) n (λ i lt. same (1 + i) (omega (arith, lt))))

pub tabulate-append :
    {A : Type 0} (f g h : ℕ → A) (m n t : ℕ)
    → t ≡ m + n
    → ((i : ℕ) → i < m → f i ≡ g i)
    → ((i : ℕ) → i < n → f (m + i) ≡ h i)
    → tabulate f t ≡ tabulate g m ++ tabulate h n
unfolding tabulate
tabulate-append f g h zero n t e first second =
    ap (tabulate f) (omega (arith, e))
    ∙ tabulate-ext f h n (λ i lt. subst (λ k. f k ≡ h i) (omega arith) (second i lt))
tabulate-append f g h (suc m) n zero e first second = absurd (omega (arith, e))
tabulate-append f g h (suc m) n (suc t) e first second =
    ap₂ (λ a l. a ∷ l) (first 0 (omega arith))
      (tabulate-append (λ i. f (1 + i)) (λ i. g (1 + i)) h m n t (omega (arith, e))
        (λ i lt. first (1 + i) (omega (arith, lt)))
        (λ i lt. subst (λ k. f k ≡ h i) (omega arith) (second i lt)))
