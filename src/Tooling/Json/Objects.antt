-- ===== src/Tooling/Json/Objects.antt =====
-- Objects as src/inference/tooling.cpp reads them, by a grammar: braces that match, where those in strings do not count.
use astral_runtime.Base.{
  ℕ, zero, suc, ◌+◌, ◌-◌, ◌<◌, Bool, true, false, not, ◌&&◌, Option, some, List, [], ◌∷◌, length,
  get_or, ltb, leb, ◌==◌, ◌≡◌, ◌≢◌, refl, ap, sym, ◌∙◌, inl, inr, arith, Bool-cases,
}
use mathlib.Core.Option.{some-injective}
use astral_runtime.Tooling.Json.{escape, after, depth_after, object_end, fuel_for}
use astral_runtime.Tooling.Json.Bounds.{after-forward, object_end-enough}

abbrev pub byte : List ℕ → ℕ → ℕ
byte text p = get_or text p 0

pub byte-inside : (text : List ℕ) (p : ℕ) → byte text p ≢ 0 → p < length text
byte-inside [] p some_byte = absurd (some_byte refl)
byte-inside (x ∷ xs) zero some_byte = ground arith
byte-inside (x ∷ xs) (suc p) some_byte = ground (arith, byte-inside xs p some_byte)

-- From a position inside a string to behind its closing quote. A backslash takes the next byte with it.
pub data IsString (text : List ℕ) : ℕ → ℕ → Type 0 where
  quote : {p e : ℕ} → byte text p ≡ 0x22 → e ≡ p + 1 → IsString text p e
  plain :
      {p e : ℕ}
      → p < length text
      → byte text p ≢ 0x22
      → byte text p ≢ 0x5C
      → IsString text (p + 1) e
      → IsString text p e
  escaped : {p e : ℕ} → byte text p ≡ 0x5C → IsString text (p + 2) e → IsString text p e

-- From a position to another, outside strings, with each brace that is opened closed, and no other.
pub data IsInner (text : List ℕ) : ℕ → ℕ → Type 0 where
  ended : {p q : ℕ} → p ≡ q → IsInner text p q
  other :
      {p q : ℕ}
      → p < length text
      → byte text p ≢ 0x7B
      → byte text p ≢ 0x7D
      → byte text p ≢ 0x22
      → IsInner text (p + 1) q
      → IsInner text p q
  string :
      {p e q : ℕ}
      → byte text p ≡ 0x22
      → IsString text (p + 1) e
      → IsInner text e q
      → IsInner text p q
  nested :
      {p m q : ℕ}
      → byte text p ≡ 0x7B
      → IsInner text (p + 1) m
      → byte text m ≡ 0x7D
      → IsInner text (m + 1) q
      → IsInner text p q

-- An object, from its brace to behind the one that closes it.
pub record IsObject (text : List ℕ) (b e : ℕ) : Type 0 where
  pub opened : byte text b ≡ 0x7B
  pub last : ℕ
  pub inner : IsInner text (b + 1) last
  pub closed : byte text last ≡ 0x7D
  pub behind : e ≡ last + 1

-- So many braces are closed from `p` to `e`.
Behind : List ℕ → ℕ → ℕ → ℕ → Type 0
Behind text zero p e = p ≡ e
Behind text (suc d) p e =
    (q : ℕ) × IsInner text p q × (byte text q ≡ 0x7D) × Behind text d (q + 1) e

AfterString : List ℕ → Bool → ℕ → ℕ → ℕ → Type 0
AfterString text false d p e = Behind text d p e
AfterString text true d p e = (r : ℕ) × IsString text p r × Behind text d r e

pub IsString-inside : (text : List ℕ) (p e : ℕ) → IsString text p e → p < length text
IsString-inside text p e (quote closes last) = byte-inside text p (ground (arith, closes))
IsString-inside text p e (plain lt a b rest) = lt
IsString-inside text p e (escaped backslash rest) = byte-inside text p (ground (arith, backslash))

-- A closing brace, with what holds behind it.
closing :
    (text : List ℕ) (fuel d p e : ℕ)
    → leb (length text) p ≡ false
    → (byte text p == 0x7D) ≡ true
    → ((d' : ℕ)
        → object_end text fuel (suc d') false (p + 1) ≡ some e
        → Behind text (suc d') (p + 1) e)
    → object_end text (suc fuel) (suc d) false p ≡ some e
    → Behind text (suc d) p e
unfolding object_end Behind depth_after
closing text fuel zero p e within closes later h =
    (p, ended refl, ground (arith, closes), some-injective _ _ (rw (within, closes) at h))
closing text fuel (suc d) p e within closes later h =
    let no_quote : (byte text p == 0x22) ≡ false = ground (arith, closes) in
    let no_open : (byte text p == 0x7B) ≡ false = ground (arith, closes) in
    let deep : leb (suc (suc d)) 1 ≡ false = ground arith in
    let some_open : (suc (suc d) == 0) ≡ false = ground arith in
    let less : suc (suc d) - 1 ≡ suc d = omega arith in
    (
      p,
      ended refl,
      ground (arith, closes),
      later d (rw (within, closes, no_quote, no_open, deep, some_open, less) at h),
    )

object_end-AfterString :
    (text : List ℕ) (fuel d : ℕ) (in_string : Bool) (p e : ℕ)
    → object_end text fuel (suc d) in_string p ≡ some e
    → AfterString text in_string (suc d) p e
unfolding object_end AfterString Behind depth_after after escape
object_end-AfterString text zero d in_string p e h = absurd (ground arith)
object_end-AfterString text (suc fuel) d true p e h = elim (Bool-cases (leb (length text) p)) [
  | inl past ↦ absurd (ground (arith, rw past at h))
  | inr within ↦ elim (Bool-cases (byte text p == 0x22)) [
    | inl closes ↦
        let plain_byte : (byte text p == 0x5C) ≡ false = ground arith in
        (
          p + 1,
          quote (ground arith) refl,
          object_end-AfterString text fuel d false (p + 1) e (rw (within, closes, plain_byte) at h),
        )
    | inr goes_on ↦ elim (Bool-cases (byte text p == 0x5C)) [
      | inr simple ↦
          let (r, rest, behind) =
            object_end-AfterString text fuel d true (p + 1) e (rw (within, goes_on, simple) at h) in
          (r, plain (ground arith) (ground arith) (ground arith) rest, behind)
      | inl backslash ↦ elim (Bool-cases (ltb (p + 1) (length text))) [
        | inl two ↦
            let (r, rest, behind) =
              object_end-AfterString text fuel d true (p + 2) e
                (rw (within, goes_on, backslash, two) at h) in
            (r, escaped (ground arith) rest, behind)
        | inr last ↦
            let (r, rest, behind) =
              object_end-AfterString text fuel d true (p + 1) e
                (rw (within, goes_on, backslash, last) at h) in
            absurd (ground (arith, last, IsString-inside text (p + 1) r rest))
      ]
    ]
  ]
]
object_end-AfterString text (suc fuel) d false p e h = elim (Bool-cases (leb (length text) p)) [
  | inl past ↦ absurd (ground (arith, rw past at h))
  | inr within ↦ elim (Bool-cases (byte text p == 0x7D)) [
    | inl closes ↦
        closing text fuel d p e within closes
          (λ d' later. object_end-AfterString text fuel d' false (p + 1) e later) h
    | inr no_close ↦ elim (Bool-cases (byte text p == 0x7B)) [
      | inl opens ↦
          let no_quote : (byte text p == 0x22) ≡ false = ground (arith, opens) in
          let deeper : suc d + 1 ≡ suc (suc d) = omega arith in
          let (m, inner, closed, (q, rest, brace, behind)) =
            object_end-AfterString text fuel (suc d) false (p + 1) e
              (rw (within, no_close, no_quote, opens, deeper) at h) in
          (q, nested (ground arith) inner closed rest, brace, behind)
      | inr no_open ↦ elim (Bool-cases (byte text p == 0x22)) [
        | inl opens ↦
            let (r, whole, (q, rest, brace, behind)) =
              object_end-AfterString text fuel d true (p + 1) e
                (rw (within, no_close, no_open, opens) at h) in
            (q, string (ground arith) whole rest, brace, behind)
        | inr no_string ↦
            let (q, rest, brace, behind) =
              object_end-AfterString text fuel d false (p + 1) e
                (rw (within, no_close, no_open, no_string) at h) in
            (
              q,
              other (ground arith) (ground arith) (ground arith) (ground arith) rest,
              brace,
              behind,
            )
      ]
    ]
  ]
]

-- The search with the rounds that the code has.
ending : List ℕ → ℕ → Bool → ℕ → Option ℕ
ending text depth in_string p = object_end text (suc (length text)) depth in_string p

ending-more :
    (text : List ℕ) (depth : ℕ) (in_string : Bool) (p : ℕ)
    → 0 < p
    → object_end text (length text) depth in_string p ≡ ending text depth in_string p
unfolding ending
ending-more text depth in_string p pos =
    object_end-enough text (length text) (suc (length text)) depth in_string p (omega (arith, pos))
      (omega arith)

-- A byte outside strings that closes nothing, or not the last of what is open.
ending-outside :
    (text : List ℕ) (depth depth' p : ℕ)
    → p < length text
    → (byte text p == 0x7D && leb depth 1) ≡ false
    → depth_after depth (byte text p) ≡ depth'
    → ending text depth false p ≡ ending text depth' (byte text p == 0x22) (p + 1)
unfolding ending object_end
ending-outside text depth depth' p lt stays same =
    let within : leb (length text) p ≡ false = ground (arith, lt) in
    rw (within, stays, same) (ending-more text depth' (byte text p == 0x22) (p + 1) (omega arith))

ending-inside :
    (text : List ℕ) (depth p p' : ℕ) (quoted : Bool)
    → p < length text
    → (byte text p == 0x22) ≡ quoted
    → after text p ≡ p'
    → ending text depth true p ≡ ending text depth (not quoted) p'
unfolding ending object_end
ending-inside text depth p p' quoted lt is same =
    let within : leb (length text) p ≡ false = ground (arith, lt) in
    rw (within, is, same)
      (ending-more text depth (not quoted) p' (omega (arith, after-forward text p, same)))

ending-IsString :
    (text : List ℕ) (depth p e : ℕ)
    → IsString text p e
    → ending text depth true p ≡ ending text depth false e
unfolding after escape
ending-IsString text depth p e (quote closes last) =
    ending-inside text depth p e true (byte-inside text p (ground (arith, closes)))
      (ground (arith, closes)) (ground (arith, closes, last))
ending-IsString text depth p e (plain lt no_quote no_escape rest) =
    ending-inside text depth p (p + 1) false lt (ground (arith, no_quote))
      (ground (arith, no_escape))
    ∙ ending-IsString text depth (p + 1) e rest
ending-IsString text depth p e (escaped backslash rest) =
    let two = IsString-inside text (p + 2) e rest in
    ending-inside text depth p (p + 2) false (omega (arith, two)) (ground (arith, backslash))
      (ground (arith, backslash, two))
    ∙ ending-IsString text depth (p + 2) e rest

ending-IsInner :
    (text : List ℕ) (d p q : ℕ)
    → IsInner text p q
    → ending text (suc d) false p ≡ ending text (suc d) false q
unfolding depth_after
ending-IsInner text d p q (ended same) = ap (ending text (suc d) false) same
ending-IsInner text d p q (other lt no_open no_close no_quote rest) =
    let plain_byte : (byte text p == 0x22) ≡ false = ground (arith, no_quote) in
    ending-outside text (suc d) (suc d) p lt (ground (arith, no_close))
      (ground (arith, no_open, no_close))
    ∙ rw plain_byte (ending-IsInner text d (p + 1) q rest)
ending-IsInner text d p q (string {e} opens whole rest) =
    let quoted : (byte text p == 0x22) ≡ true = ground (arith, opens) in
    ending-outside text (suc d) (suc d) p (byte-inside text p (ground (arith, opens)))
      (ground (arith, opens)) (ground (arith, opens))
    ∙ rw quoted (ending-IsString text (suc d) (p + 1) e whole)
    ∙ ending-IsInner text d e q rest
ending-IsInner text d p q (nested {m} opens inner closed rest) =
    let no_quote : (byte text p == 0x22) ≡ false = ground (arith, opens) in
    let no_quote' : (byte text m == 0x22) ≡ false = ground (arith, closed) in
    ending-outside text (suc d) (suc (suc d)) p (byte-inside text p (ground (arith, opens)))
      (ground (arith, opens)) (ground (arith, opens))
    ∙ rw no_quote (ending-IsInner text (suc d) (p + 1) m inner)
    ∙ ending-outside text (suc (suc d)) (suc d) m (byte-inside text m (ground (arith, closed)))
        (ground (arith, closed)) (ground (arith, closed))
    ∙ rw no_quote' (ending-IsInner text d (m + 1) q rest)

-- The search from a brace finds an end exactly where an object ends.
pub object_end-IsObject :
    (text : List ℕ) (b e : ℕ)
    → byte text b ≡ 0x7B
    → (object_end text (fuel_for text) 0 false b ≡ some e → IsObject text b e)
      × (IsObject text b e → object_end text (fuel_for text) 0 false b ≡ some e)
unfolding ending object_end Behind AfterString depth_after
object_end-IsObject text b e opens = (
  λ found.
      let (last, inner, closed, same) =
        object_end-AfterString text (suc (length text)) 0 false (b + 1) e (sym first ∙ found) in
      record { opened = opens; last = last; inner = inner; closed = closed; behind = sym same },
  λ object. first ∙ ending-IsInner text 0 (b + 1) object.last object.inner ∙ final object,
)
  where
    first : ending text 0 false b ≡ ending text 1 false (b + 1)
    first =
        let no_quote : (byte text b == 0x22) ≡ false = ground (arith, opens) in
        ending-outside text 0 1 b (byte-inside text b (ground (arith, opens)))
          (ground (arith, opens)) (ground (arith, opens))
        ∙ rw no_quote refl

    final : (object : IsObject text b e) → ending text 1 false object.last ≡ some e
    final object =
        let within : leb (length text) object.last ≡ false =
          ground (arith, byte-inside text object.last (ground (arith, object.closed))) in
        let closes : (byte text object.last == 0x7D) ≡ true = ground (arith, object.closed) in
        rw (within, closes) (ap some (sym object.behind))
