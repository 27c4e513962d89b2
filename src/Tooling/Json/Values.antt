-- ===== src/Tooling/Json/Values.antt =====
-- Keys in quotes, and the values behind their colons, as src/inference/tooling.cpp finds them.
use astral_runtime.Base.{
  ℕ, zero, suc, ◌+◌, ◌≤◌, ◌<◌, true, false, not, ◌&&◌, ◌||◌, some, List, [], ◌∷◌, length, take,
  drop, ltb, leb, ◌==◌, ◌≡◌, refl, ap, ap₂, subst, ◌∙◌, inl, inr, arith, Bool-cases,
}
use mathlib.Core.Option.{some-injective}
use astral_runtime.Tooling.Json.{is_ws, same_bytes, skip_ws, value_after, fuel_for}
use astral_runtime.Tooling.Json.Objects.{byte, byte-inside}

-- All bytes from a position to another are white space, and the one there is not.
pub record IsBlank (text : List ℕ) (p q : ℕ) : Type 0 where
  pub forward : p ≤ q
  pub blank : (j : ℕ) → p ≤ j → j < q → is_ws (byte text j) ≡ true
  pub stop : is_ws (byte text q) ≡ false

skip_ws-IsBlank :
    (text : List ℕ) (fuel p : ℕ) → length text < fuel + p → IsBlank text p (skip_ws text fuel p)
unfolding skip_ws
skip_ws-IsBlank text zero p enough = record {
  forward = omega arith;
  blank = λ j a b. absurd (omega (arith, a, b));
  stop = elim (Bool-cases (is_ws (byte text p))) [
    | inr other ↦ other
    | inl space ↦ absurd (omega (arith, enough, byte-inside text p (ground (arith, space))))
  ];
}
skip_ws-IsBlank text (suc fuel) p enough =
    elim (Bool-cases (ltb p (length text) && is_ws (byte text p))) [
      | inl space ↦
          let rest = skip_ws-IsBlank text fuel (p + 1) (omega (arith, enough)) in
          rw space (record {
            forward = omega (arith, rest.forward);
            blank = λ j a b. elim (Bool-cases (j == p)) [
              | inl here ↦
                  let same : j ≡ p = ground (arith, here) in
                  ap (λ k. is_ws (byte text k)) same ∙ ground (arith, space)
              | inr later ↦ rest.blank j (ground (arith, later, a)) b
            ];
            stop = rest.stop;
          })
      | inr other ↦ rw other (record {
        forward = omega arith;
        blank = λ j a b. absurd (omega (arith, a, b));
        stop = elim (Bool-cases (is_ws (byte text p))) [
          | inr plain ↦ plain
          | inl space ↦
              absurd (ground (arith, other, space, byte-inside text p (ground (arith, space))))
        ];
      })
    ]

IsBlank-unique : (text : List ℕ) (p q r : ℕ) → IsBlank text p q → IsBlank text p r → q ≡ r
IsBlank-unique text p q r v w = elim (Bool-cases (ltb q r)) [
  | inl before ↦ absurd (ground (arith, v.stop, w.blank q v.forward (ground (arith, before))))
  | inr not_before ↦ elim (Bool-cases (ltb r q)) [
    | inl behind ↦ absurd (ground (arith, w.stop, v.blank r w.forward (ground (arith, behind))))
    | inr not_behind ↦ ground (arith, not_before, not_behind)
  ]
]

pub skip_ws-eq : (text : List ℕ) (p q : ℕ) → IsBlank text p q → skip_ws text (fuel_for text) p ≡ q
skip_ws-eq text p q v =
    IsBlank-unique text p _ q (skip_ws-IsBlank text (fuel_for text) p (omega arith)) v

-- A colon at or behind a position, but for white space, and behind it the first byte of a value, or the end.
pub record IsValueAt (text : List ℕ) (p b : ℕ) : Type 0 where
  pub colon : ℕ
  pub before : IsBlank text p colon
  pub is_colon : byte text colon ≡ 0x3A
  pub behind : IsBlank text (colon + 1) b

pub value_after-IsValueAt :
    (text : List ℕ) (p b : ℕ)
    → (value_after text p ≡ some b → IsValueAt text p b)
      × (IsValueAt text p b → value_after text p ≡ some b)
unfolding value_after
value_after-IsValueAt text p b = (
  λ found. elim (Bool-cases (leb (length text) colon || not (byte text colon == 0x3A))) [
    | inl no_colon ↦ absurd (ground (arith, rw no_colon at found))
    | inr is ↦
        let at_b = some-injective _ _ (rw is at found) in
        record {
          colon = colon;
          before = skip_ws-IsBlank text (fuel_for text) p (omega arith);
          is_colon = ground (arith, is);
          behind =
              subst (IsBlank text (colon + 1)) at_b
                (skip_ws-IsBlank text (fuel_for text) (colon + 1) (omega arith));
        }
  ],
  λ v.
      let test : (leb (length text) v.colon || not (byte text v.colon == 0x3A)) ≡ false =
        ground (arith, v.is_colon, byte-inside text v.colon (ground (arith, v.is_colon))) in
      rw (skip_ws-eq text p v.colon v.before, test)
        (ap some (skip_ws-eq text (v.colon + 1) b v.behind)),
)
  where
    colon : ℕ
    colon = skip_ws text (fuel_for text) p

pub same_bytes-eq :
    (xs ys : List ℕ) → (same_bytes xs ys ≡ true → xs ≡ ys) × (xs ≡ ys → same_bytes xs ys ≡ true)
unfolding same_bytes
same_bytes-eq xs ys = (sound xs ys, λ e. subst (λ zs. same_bytes xs zs ≡ true) e (same xs))
  where
    sound : (xs ys : List ℕ) → same_bytes xs ys ≡ true → xs ≡ ys
    sound [] [] e = refl
    sound [] (y ∷ ys) e = absurd (ground (arith, e))
    sound (x ∷ xs) [] e = absurd (ground (arith, e))
    sound (x ∷ xs) (y ∷ ys) e =
        ap₂ (λ a b. a ∷ b) (ground (arith, e)) (sound xs ys (ground (arith, e)))

    same : (xs : List ℕ) → same_bytes xs xs ≡ true
    same [] = refl
    same (x ∷ xs) = ground (arith, same xs)

-- A key in quotes.
pub record IsKeyAt (text key : List ℕ) (i : ℕ) : Type 0 where
  pub opened : byte text i ≡ 0x22
  pub named : take (length key) (drop (i + 1) text) ≡ key
  pub closed : byte text (i + length key + 1) ≡ 0x22
