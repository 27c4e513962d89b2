-- ===== src/Tooling/Json/Members.antt =====
-- The object that the search for a key in src/inference/tooling.cpp finds: the value at the first place where
-- the key stands in quotes with a colon behind it.
use astral_runtime.Base.{
  ℕ, zero, suc, ◌+◌, ◌≤◌, ◌<◌, true, false, not, ◌||◌, Option, some, none, List, length, take, drop,
  ltb, leb, ◌==◌, if◌then◌else◌, add32, u32_mod, ◌≡◌, refl, ap, sym, subst, ◌∙◌, inl, inr, arith,
  Bool-cases, Option-cases,
}
use mathlib.Core.Option.{some-injective}
use astral_runtime.Tooling.Json.{
  key_at, value_after, object_end, object_at, object_key_loop, find_json_object_key, fuel_for,
}
use astral_runtime.Tooling.Json.Objects.{byte, byte-inside, IsObject, object_end-IsObject}
use astral_runtime.Tooling.Json.Values.{IsValueAt, value_after-IsValueAt, IsKeyAt, same_bytes-eq}

-- The place of a key and the place of its value.
pub IsMemberAt : List ℕ → List ℕ → ℕ → ℕ → Type 0
IsMemberAt text key i b = IsKeyAt text key i × IsValueAt text (i + length key + 2) b

-- What an answer for a key is: an object that is the value at the first place of the key.
pub record IsMember (text key : List ℕ) (b e : ℕ) : Type 0 where
  pub at : ℕ
  pub member : IsMemberAt text key at b
  pub first : (j c : ℕ) → j < at → IsMemberAt text key j c → ⊥
  pub object : IsObject text b e

-- What the search does with the value at a position.
object_from : List ℕ → ℕ → Option (ℕ × ℕ)
object_from text q =
    if leb (length text) q || not (byte text q == 0x7B)
    then none
    else elim (object_end text (fuel_for text) 0 false q) [ none ↦ none | some e ↦ some (q, e) ]

some_pair : ℕ → ℕ → Option (ℕ × ℕ)
some_pair b e = some (b, e)

found_pair : (q e b e' : ℕ) → some_pair q e ≡ some_pair b e' → (q ≡ b) × (e ≡ e')
unfolding some_pair
found_pair q e b e' same =
    let pairs = some-injective (q, e) (b, e') same in (ap (λ r. r.0) pairs, ap (λ r. r.1) pairs)

object_from-IsObject :
    (text : List ℕ) (q b e : ℕ)
    → (object_from text q ≡ some (b, e) → (q ≡ b) × IsObject text b e)
      × (IsObject text b e → object_from text b ≡ some (b, e))
unfolding object_from some_pair
object_from-IsObject text q b e = (
  λ found. elim (Bool-cases (leb (length text) q || not (byte text q == 0x7B))) [
    | inl no_brace ↦ absurd (ground (arith, rw no_brace at found))
    | inr brace ↦ elim (Option-cases (object_end text (fuel_for text) 0 false q)) [
      | inl unclosed ↦ absurd (ground (arith, rw (brace, unclosed) at found))
      | inr (end, closed) ↦
          let (at_b, at_e) = found_pair q end b e (rw (brace, closed) at found) in
          let object = (object_end-IsObject text q end (ground (arith, brace))).0 closed in
          (at_b, subst (λ c. IsObject text c e) at_b (subst (IsObject text q) at_e object))
    ]
  ],
  λ object.
      let test : (leb (length text) b || not (byte text b == 0x7B)) ≡ false =
        ground (arith, object.opened, byte-inside text b (ground (arith, object.opened))) in
      rw (test, (object_end-IsObject text b e object.opened).1 object) refl,
)

object_at-member :
    (text key : List ℕ) (i b : ℕ)
    → IsMemberAt text key i b
    → object_at text key i ≡ some (object_from text b)
unfolding object_at object_from IsMemberAt
object_at-member text key i b (k, v) =
    let quoted : (byte text i == 0x22) ≡ true = ground (arith, k.opened) in
    let named = (same_bytes-eq (take (length key) (drop (i + 1) text)) key).1 k.named in
    let closed : (byte text (i + length key + 1) == 0x22) ≡ true = ground (arith, k.closed) in
    rw (quoted, named, closed, (value_after-IsValueAt text (i + length key + 2) b).1 v)
      (ground arith)

object_at-some :
    (text key : List ℕ) (i : ℕ) (found : Option (ℕ × ℕ))
    → object_at text key i ≡ some found
    → (b : ℕ) × IsMemberAt text key i b × (found ≡ object_from text b)
unfolding object_at
object_at-some text key i found h =
    elim (Bool-cases (
      not (byte text i == 0x22)
      || not (key_at text i key)
      || not (byte text (i + length key + 1) == 0x22))) [
        | inl no_key ↦ absurd (ground (arith, rw no_key at h))
        | inr is_key ↦ elim (Option-cases (value_after text (i + length key + 2))) [
          | inl no_value ↦ absurd (ground (arith, rw (is_key, no_value) at h))
          | inr (b, value) ↦
              let member : IsMemberAt text key i b =
                unfold IsMemberAt in
                (
                  record {
                    opened = ground (arith, is_key);
                    named =
                        (same_bytes-eq (take (length key) (drop (i + 1) text)) key).0
                          (ground (arith, is_key));
                    closed = ground (arith, is_key);
                  },
                  (value_after-IsValueAt text (i + length key + 2) b).0 value,
                ) in
              (b, member, some-injective _ _ (sym h ∙ object_at-member text key i b member))
        ]
      ]

object_key_loop_sound :
    (text key : List ℕ) (fuel i b e : ℕ)
    → ((j c : ℕ) → j < i → IsMemberAt text key j c → ⊥)
    → object_key_loop text key fuel i ≡ some (b, e)
    → IsMember text key b e
unfolding object_key_loop
object_key_loop_sound text key zero i b e none_before h = absurd (ground (arith, h))
object_key_loop_sound text key (suc fuel) i b e none_before h =
    elim (Bool-cases (leb (length text) (add32 i (length key + 3)))) [
      | inl past ↦ absurd (ground (arith, rw past at h))
      | inr within ↦ elim (Option-cases (object_at text key i)) [
        | inr (answer, there) ↦
            let (c, member, same) = object_at-some text key i answer there in
            let (at_b, object) =
              (object_from-IsObject text c b e).0 (sym same ∙ (rw (within, there) at h)) in
            record {
              at = i;
              member = subst (IsMemberAt text key i) at_b member;
              first = none_before;
              object = object;
            }
        | inl no_member ↦
            object_key_loop_sound text key fuel (i + 1) b e
              (λ j c lt member. elim (Bool-cases (ltb j i)) [
                | inl before ↦ none_before j c (ground (arith, before)) member
                | inr here ↦
                    let same : j ≡ i = ground (arith, here, lt) in
                    let other =
                      object_at-member text key i c
                        (subst (λ k. IsMemberAt text key k c) same member) in
                    ground (arith, no_member, other)
              ])
              (rw (within, no_member) at h)
      ]
    ]

member-room :
    (text key : List ℕ) (i b e : ℕ)
    → IsMemberAt text key i b
    → IsObject text b e
    → i + length key + 3 < length text
unfolding IsMemberAt
member-room text key i b e (k, v) object =
    omega (
      arith,
      v.before.forward,
      v.behind.forward,
      byte-inside text b (ground (arith, object.opened)),
    )

object_key_loop_complete :
    (text key : List ℕ) (fuel i b e : ℕ)
    → length text < u32_mod
    → length text < fuel + i
    → (v : IsMember text key b e) → i ≤ v.at
    → object_key_loop text key fuel i ≡ some (b, e)
unfolding object_key_loop
object_key_loop_complete text key zero i b e small enough v le =
    absurd (omega (arith, enough, le, member-room text key v.at b e v.member v.object))
object_key_loop_complete text key (suc fuel) i b e small enough v le =
    let room = member-room text key v.at b e v.member v.object in
    let within : leb (length text) (add32 i (length key + 3)) ≡ false =
      ground (arith, room, le, small) in
    elim (Bool-cases (ltb i v.at)) [
      | inr here ↦
          let same : v.at ≡ i = ground (arith, here, le) in
          let there =
            object_at-member text key i b (subst (λ k. IsMemberAt text key k b) same v.member) in
          rw (within, there) ((object_from-IsObject text b b e).1 v.object)
      | inl before ↦ elim (Option-cases (object_at text key i)) [
        | inr (answer, there) ↦
            let (c, member, same) = object_at-some text key i answer there in
            absurd (v.first i c (ground (arith, before)) member)
        | inl no_member ↦
            rw (within, no_member)
              (object_key_loop_complete text key fuel (i + 1) b e small (omega (arith, enough)) v
                (ground (arith, before)))
      ]
    ]

-- The search for a key that is not empty, in a text of less than 2 ^ 32 bytes, finds a place and an end exactly if
-- these are an object, and the object is the value at the first place where the key stands in quotes
-- with a colon behind it.
pub find_json_object_key-IsMember :
    (text key : List ℕ) (b e : ℕ)
    → 0 < length key
    → length text < u32_mod
    → (find_json_object_key text key ≡ some (b, e) → IsMember text key b e)
      × (IsMember text key b e → find_json_object_key text key ≡ some (b, e))
unfolding find_json_object_key
find_json_object_key-IsMember text key b e some_key small = (
  λ found. elim (Bool-cases (length key == 0 || ltb (length text) (add32 (length key) 4))) [
    | inl short ↦ absurd (ground (arith, rw short at found))
    | inr long ↦
        object_key_loop_sound text key (fuel_for text) 0 b e (λ j c lt. absurd (omega (arith, lt)))
          (rw long at found)
  ],
  λ v.
      let room = member-room text key v.at b e v.member v.object in
      let long : (length key == 0 || ltb (length text) (add32 (length key) 4)) ≡ false =
        ground (arith, some_key, small, room) in
      rw long (
        object_key_loop_complete text key (fuel_for text) 0 b e small (omega arith) v
          (omega arith)),
)
