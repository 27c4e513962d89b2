-- ===== src/Session/Stream/Ring.antt =====
-- The ring of held tokens of src/inference/session.cpp as a list.
use astral_runtime.Base.{
  ℕ, zero, suc, ◌+◌, ◌-◌, ◌%◌, ◌≤◌, ◌<◌, ◌≡◌, ◌≢◌, refl, ap, ap₂, subst, ◌∙◌, inl, inr, arith,
  Bool-cases, List, [], ◌∷◌, ◌++◌, length, get_or, set, ltb,
}
use native.Mathlib.Nat.{mod-lt, mod-eq_of_lt, mod-eq-sub-mod, mod-add-mod}

-- The tokens in the ring from a place on, the oldest first.
unfoldable pub held_from : List ℕ → ℕ → ℕ → ℕ → List ℕ
held_from hold hold_cap place zero = []
held_from hold hold_cap place (suc n) =
    get_or hold place 0 ∷ held_from hold hold_cap ((place + 1) % hold_cap) n

pub held-cons :
    (hold : List ℕ) (hold_cap place n : ℕ)
    → 0 < n
    → held_from hold hold_cap place n
      ≡ get_or hold place 0 ∷ held_from hold hold_cap ((place + 1) % hold_cap) (n - 1)
unfolding held_from
held-cons hold hold_cap place zero some_held = absurd (omega arith)
held-cons hold hold_cap place (suc n) some_held =
    ap (λ k. get_or hold place 0 ∷ held_from hold hold_cap ((place + 1) % hold_cap) k)
      {y = suc n - 1} (omega arith)

get_or-set_self : (xs : List ℕ) (i x : ℕ) → i < length xs → get_or (set xs i x) i 0 ≡ x
get_or-set_self [] i x lt = absurd (omega arith)
get_or-set_self (y ∷ xs) zero x lt = refl
get_or-set_self (y ∷ xs) (suc i) x lt = get_or-set_self xs i x (omega arith)

get_or-set_ne : (xs : List ℕ) (i j x : ℕ) → i ≢ j → get_or (set xs i x) j 0 ≡ get_or xs j 0
get_or-set_ne [] i j x off = refl
get_or-set_ne (y ∷ xs) zero zero x off = absurd (off refl)
get_or-set_ne (y ∷ xs) zero (suc j) x off = refl
get_or-set_ne (y ∷ xs) (suc i) zero x off = refl
get_or-set_ne (y ∷ xs) (suc i) (suc j) x off = get_or-set_ne xs i j x (λ e. off (ap suc e))

away : (p n c : ℕ) → p < c → 0 < n → n < c → (p + n) % c ≢ p
away p n c lt some_n small e = elim (Bool-cases (ltb (p + n) c)) [
  | inl within ↦ omega (arith, e, mod-eq_of_lt {n = p + n} {m = c} (ground (arith, within)), some_n)
  | inr past ↦
      let over : c ≤ p + n = ground (arith, past) in
      omega (
        arith,
        e,
        mod-eq-sub-mod over,
        mod-eq_of_lt {n = p + n - c} {m = c} (omega (arith, over, small, lt)),
        small,
        lt,
        over,
      )
]

-- A token stored behind the others of a ring that has room.
pub held-set :
    (hold : List ℕ) (hold_cap n place token : ℕ)
    → length hold ≡ hold_cap
    → place < hold_cap
    → n < hold_cap
    → held_from (set hold ((place + n) % hold_cap) token) hold_cap place (suc n)
      ≡ held_from hold hold_cap place n ++ (token ∷ [])
unfolding held_from
held-set hold hold_cap zero place token memory lt room =
    let at : (place + 0) % hold_cap ≡ place =
      mod-eq_of_lt {n = place + 0} (omega (arith, lt)) ∙ omega arith in
    ap (λ x. x ∷ [])
      (ap (λ c. get_or (set hold c token) place 0) at
        ∙ get_or-set_self hold place token (omega (arith, memory)))
held-set hold hold_cap (suc n) place token memory lt room =
    ap₂ (λ x l. x ∷ l)
      (get_or-set_ne hold ((place + suc n) % hold_cap) place token
        (away place (suc n) hold_cap lt (omega arith) room))
      (subst
        (λ c.
          held_from (set hold c token) hold_cap ((place + 1) % hold_cap) (suc n)
          ≡ held_from hold hold_cap ((place + 1) % hold_cap) n ++ (token ∷ []))
        (mod-add-mod (place + 1) hold_cap n ∙ ap (λ k. k % hold_cap) (omega arith))
        (held-set hold hold_cap n ((place + 1) % hold_cap) token memory
          (mod-lt (place + 1) (omega (arith, room))) (omega arith)))
