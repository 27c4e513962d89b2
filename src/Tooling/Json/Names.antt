-- ===== src/Tooling/Json/Names.antt =====
-- The names of tools that src/inference/tooling.cpp finds in a text: the strings behind a key `name` or `tool`.
use astral_runtime.Base.{
  ℕ, zero, suc, ◌+◌, ◌-◌, ◌≤◌, ◌<◌, Bool, true, false, not, ◌&&◌, ◌||◌, some, List, length, take,
  drop, get_or, ltb, leb, ◌==◌, add32, u32_mod, ◌≡◌, ◌≢◌, refl, ap, ap₂, sym, subst, ◌∙◌, ◌⊎◌, inl,
  inr, arith, Bool-cases, Option-cases,
}
use mathlib.Core.Option.{some-injective}
use astral_runtime.Tooling.Json.{
  Name, name_key, tool_key, key_at, close_quote, skip_string, value_after, tool_key_len, name_value,
  depth_after, find_json_tool_name_key, fuel_for,
}
use astral_runtime.Tooling.Json.Objects.{byte, byte-inside, IsString}
use astral_runtime.Tooling.Json.Values.{IsValueAt, value_after-IsValueAt, IsKeyAt, same_bytes-eq}
use astral_runtime.Tooling.Json.Strings.{
  IsString-bounds, close_quote-IsString, IsString-close_quote, skip_string-close_quote,
  skip_string-IsString,
}

-- One of the two keys, in quotes.
pub IsToolKey : List ℕ → ℕ → Type 0
IsToolKey text p = IsKeyAt text name_key p ⊎ IsKeyAt text tool_key p

key_test : List ℕ → List ℕ → ℕ → Bool
key_test text key p =
    ltb (add32 p 5) (length text) && key_at text p key && get_or text (p + 5) 0 == 0x22

key_test-IsKeyAt :
    (text key : List ℕ) (p : ℕ)
    → length key ≡ 4
    → length text < u32_mod
    → byte text p ≡ 0x22
    → (key_test text key p ≡ true → IsKeyAt text key p)
      × (IsKeyAt text key p → key_test text key p ≡ true)
unfolding key_test
key_test-IsKeyAt text key p four small opens = (
  λ passed. record {
    opened = opens;
    named = (same_bytes-eq (take (length key) (drop (p + 1) text)) key).0 (ground (arith, passed));
    closed = ap (byte text) last ∙ ground (arith, passed);
  },
  λ k.
      let closes : byte text (p + 5) ≡ 0x22 = ap (byte text) (sym last) ∙ k.closed in
      let inside = byte-inside text (p + 5) (ground (arith, closes)) in
      let room : ltb (add32 p 5) (length text) ≡ true = ground (arith, inside, small) in
      let named = (same_bytes-eq (take (length key) (drop (p + 1) text)) key).1 k.named in
      let quoted : (get_or text (p + 5) 0 == 0x22) ≡ true = ground (arith, closes) in
      rw (room, named, quoted) refl,
)
  where
    last : p + length key + 1 ≡ p + 5
    last = omega (arith, four)

tool_key_len-cases :
    (text : List ℕ) (p : ℕ)
    → length text < u32_mod
    → byte text p ≡ 0x22
    → ((tool_key_len text p ≡ 4) × IsToolKey text p)
      ⊎ ((tool_key_len text p ≡ 0) × (IsToolKey text p → ⊥))
unfolding tool_key_len key_test IsToolKey
tool_key_len-cases text p small opens =
    let name = key_test-IsKeyAt text name_key p refl small opens in
    let tool = key_test-IsKeyAt text tool_key p refl small opens in
    elim (Bool-cases (key_test text name_key p)) [
      | inl is_name ↦ inl (rw is_name refl, inl (name.0 is_name))
      | inr no_name ↦ elim (Bool-cases (key_test text tool_key p)) [
        | inl is_tool ↦ inl (rw (no_name, is_tool) refl, inr (tool.0 is_tool))
        | inr no_tool ↦ inr (
          rw (no_name, no_tool) refl,
          λ k. elim k [
            | inl k ↦ ground (arith, no_name, name.1 k)
            | inr k ↦ ground (arith, no_tool, tool.1 k)
          ],
        )
      ]
    ]

-- The value of the key at a position is a string, which is the name; so many objects are open there.
pub record IsNameAt (text : List ℕ) (n : Name) (depth p : ℕ) : Type 0 where
  pub place : ℕ
  pub value : IsValueAt text (p + 6) place
  pub opened : byte text place ≡ 0x22
  pub begins : n.begin ≡ place + 1
  pub whole : IsString text (place + 1) n.next
  pub ends : n.next ≡ n.end + 1
  pub level : n.depth ≡ depth

name_value-IsNameAt :
    (text : List ℕ) (p len depth : ℕ) (n : Name)
    → len ≡ 4
    → (name_value text p len depth ≡ some n → IsNameAt text n depth p)
      × (IsNameAt text n depth p → name_value text p len depth ≡ some n)
unfolding name_value
name_value-IsNameAt text p len depth n four = (
  λ found. elim (Option-cases (value_after text (p + len + 2))) [
    | inl no_value ↦ absurd (ground (arith, rw (name_value, no_value) at found))
    | inr (q, value) ↦ elim (Bool-cases (leb (length text) q || not (byte text q == 0x22))) [
      | inl no_string ↦ absurd (ground (arith, rw (name_value, value, no_string) at found))
      | inr is ↦ elim (Option-cases (close_quote text (fuel_for text) (q + 1))) [
        | inl unclosed ↦ absurd (ground (arith, rw (name_value, value, is, unclosed) at found))
        | inr (e, closes) ↦
            let same = some-injective _ _ (rw (name_value, value, is, closes) at found) in
            subst (λ m. IsNameAt text m depth p) same
              (record {
                place = q;
                value =
                    subst (λ a. IsValueAt text a q) six
                      ((value_after-IsValueAt text (p + len + 2) q).0 value);
                opened = ground (arith, is);
                begins = refl;
                whole = close_quote-IsString text (fuel_for text) (q + 1) e closes;
                ends = refl;
                level = refl;
              })
      ]
    ]
  ],
  λ v.
      let value =
        (value_after-IsValueAt text (p + len + 2) v.place).1
          (subst (λ a. IsValueAt text a v.place) (sym six) v.value) in
      let is : (leb (length text) v.place || not (byte text v.place == 0x22)) ≡ false =
        ground (arith, v.opened, byte-inside text v.place (ground (arith, v.opened))) in
      let closes =
        IsString-close_quote text (fuel_for text) (v.place + 1) n.next v.whole (omega arith) in
      rw (name_value, value, is, closes) (ap some (same v)),
)
  where
    six : p + len + 2 ≡ p + 6
    six = omega (arith, four)

    built : ℕ → ℕ → ℕ → ℕ → Name
    built b e m d = record { begin = b; end = e; next = m; depth = d }

    same :
        (v : IsNameAt text n depth p) → built (v.place + 1) (n.next - 1) (n.next - 1 + 1) depth ≡ n
    same v =
        let at_end : n.next - 1 ≡ n.end = omega (arith, v.ends) in
        let behind : n.next - 1 + 1 ≡ n.next = omega (arith, v.ends) in
        ap₂ (λ b e. built b e (n.next - 1 + 1) depth) (sym v.begins) at_end
        ∙ ap₂ (λ m d. built n.begin n.end m d) behind (sym v.level)

-- The name that is found from a position outside strings, with so many objects open: the string behind the first key
-- outside strings. A string that is no key is passed over, and the braces are counted.
pub data IsName (text : List ℕ) (n : Name) : ℕ → ℕ → Type 0 where
  found :
      {depth p : ℕ}
      → byte text p ≡ 0x22
      → IsToolKey text p
      → IsNameAt text n depth p
      → IsName text n depth p
  passed :
      {depth p e : ℕ}
      → byte text p ≡ 0x22
      → (IsToolKey text p → ⊥)
      → IsString text (p + 1) e
      → IsName text n depth e
      → IsName text n depth p
  outside :
      {depth p : ℕ}
      → p < length text
      → byte text p ≢ 0x22
      → IsName text n (depth_after depth (byte text p)) (p + 1)
      → IsName text n depth p

pub IsName-bounds :
    (text : List ℕ) (n : Name) (depth p : ℕ)
    → IsName text n depth p
    → (p < n.next) × (n.next ≤ length text)
IsName-bounds text n depth p (found opens key name) =
    let before = name.value.before.forward in
    let behind = name.value.behind.forward in
    let bounds = IsString-bounds text (name.place + 1) n.next name.whole in
    (omega (arith, before, behind, bounds), bounds.1)
IsName-bounds text n depth p (passed {e} opens no_key whole rest) =
    let later = IsName-bounds text n depth e rest in
    (omega (arith, later, (IsString-bounds text (p + 1) e whole).0), later.1)
IsName-bounds text n depth p (outside lt no_quote rest) =
    let later = IsName-bounds text n _ (p + 1) rest in (omega (arith, later), later.1)

find_json_tool_name_key_sound :
    (text : List ℕ) (fuel depth p : ℕ) (n : Name)
    → length text < u32_mod
    → find_json_tool_name_key text fuel depth p ≡ some n
    → IsName text n depth p
unfolding find_json_tool_name_key
find_json_tool_name_key_sound text zero depth p n small h = absurd (ground (arith, h))
find_json_tool_name_key_sound text (suc fuel) depth p n small h =
    elim (Bool-cases (leb (length text) p)) [
      | inl past ↦ absurd (ground (arith, rw past at h))
      | inr within ↦ elim (Bool-cases (byte text p == 0x22)) [
        | inr no_quote ↦ outside (ground (arith, within)) (ground (arith, no_quote)) (
            find_json_tool_name_key_sound text fuel (depth_after depth (byte text p)) (p + 1) n
              small (rw (within, no_quote) at h))
        | inl opens ↦ elim (tool_key_len-cases text p small (ground (arith, opens))) [
          | inl (four, key) ↦
              found (ground (arith, opens)) key
                ((name_value-IsNameAt text p 4 depth n refl).0 (rw (within, opens, four) at h))
          | inr (no_len, no_key) ↦
              let later =
                find_json_tool_name_key_sound text fuel depth
                  (skip_string text (fuel_for text) (p + 1)) n small
                  (rw (within, opens, no_len) at h) in
              elim (skip_string-close_quote text (fuel_for text) (p + 1) (omega arith)) [
                | inl (e, closes, skips) ↦
                    passed (ground (arith, opens)) no_key
                      (close_quote-IsString text (fuel_for text) (p + 1) e closes)
                      (subst (IsName text n depth) skips later)
                | inr (unclosed, behind) ↦
                    absurd (omega (arith, behind, IsName-bounds text n depth _ later))
              ]
        ]
      ]
    ]

find_json_tool_name_key_complete :
    (text : List ℕ) (fuel depth p : ℕ) (n : Name)
    → length text < u32_mod
    → length text < fuel + p
    → IsName text n depth p
    → find_json_tool_name_key text fuel depth p ≡ some n
unfolding find_json_tool_name_key
find_json_tool_name_key_complete text zero depth p n small enough v =
    absurd (omega (arith, enough, IsName-bounds text n depth p v))
find_json_tool_name_key_complete text (suc fuel) depth p n small enough (found opens key name) =
    let within : leb (length text) p ≡ false =
      ground (arith, byte-inside text p (ground (arith, opens))) in
    let quoted : (byte text p == 0x22) ≡ true = ground (arith, opens) in
    elim (tool_key_len-cases text p small opens) [
      | inl (four, same) ↦
          rw (within, quoted, four) ((name_value-IsNameAt text p 4 depth n refl).1 name)
      | inr (no_len, no_key) ↦ absurd (no_key key)
    ]
find_json_tool_name_key_complete text (suc fuel) depth p n small enough
      (passed {e} opens no_key whole rest) =
    let within : leb (length text) p ≡ false =
      ground (arith, byte-inside text p (ground (arith, opens))) in
    let quoted : (byte text p == 0x22) ≡ true = ground (arith, opens) in
    elim (tool_key_len-cases text p small opens) [
      | inl (four, key) ↦ absurd (no_key key)
      | inr (no_len, same) ↦
          rw (within, quoted, no_len, skip_string-IsString text (p + 1) e whole)
            (find_json_tool_name_key_complete text fuel depth e n small
              (omega (arith, enough, (IsString-bounds text (p + 1) e whole).0)) rest)
    ]
find_json_tool_name_key_complete text (suc fuel) depth p n small enough (outside lt no_quote rest) =
    let within : leb (length text) p ≡ false = ground (arith, lt) in
    let plain_byte : (byte text p == 0x22) ≡ false = ground (arith, no_quote) in
    rw (within, plain_byte)
      (find_json_tool_name_key_complete text fuel (depth_after depth (byte text p)) (p + 1) n small
        (omega (arith, enough)) rest)

-- The search finds the name that is there, and only that.
pub find_json_tool_name_key-IsName :
    (text : List ℕ) (p : ℕ) (n : Name)
    → length text < u32_mod
    → (find_json_tool_name_key text (fuel_for text) 0 p ≡ some n → IsName text n 0 p)
      × (IsName text n 0 p → find_json_tool_name_key text (fuel_for text) 0 p ≡ some n)
find_json_tool_name_key-IsName text p n small = (
  λ h. find_json_tool_name_key_sound text (fuel_for text) 0 p n small h,
  λ v. find_json_tool_name_key_complete text (fuel_for text) 0 p n small (omega arith) v,
)
