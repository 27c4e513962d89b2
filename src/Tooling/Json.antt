-- ===== src/Tooling/Json.antt =====
-- The scanners of src/inference/tooling.cpp over generated text. A loop runs on fuel, more than the bytes
-- that are left; every round moves the position on.
pub mod Bounds
pub mod Objects
pub mod Values
pub mod Members
pub mod Strings
pub mod Names
use astral_runtime.Base.{
  ℕ, zero, suc, ◌+◌, ◌-◌, Bool, true, false, not, ◌&&◌, ◌||◌, Option, some, none, List, [], ◌∷◌,
  length, get_or, take, drop, ltb, leb, ◌==◌, if◌then◌else◌, add32,
}

abbrev pub is_ws : ℕ → Bool
is_ws c = c == 0x20 || c == 0x0A || c == 0x0D || c == 0x09

-- `name`, `tool` and `arguments`.
abbrev pub name_key : List ℕ
name_key = 0x6E ∷ 0x61 ∷ 0x6D ∷ 0x65 ∷ []

abbrev pub tool_key : List ℕ
tool_key = 0x74 ∷ 0x6F ∷ 0x6F ∷ 0x6C ∷ []

abbrev pub arguments_key : List ℕ
arguments_key = 0x61 ∷ 0x72 ∷ 0x67 ∷ 0x75 ∷ 0x6D ∷ 0x65 ∷ 0x6E ∷ 0x74 ∷ 0x73 ∷ []

-- `memcmp` of as many bytes as the key has.
unfoldable pub same_bytes : List ℕ → List ℕ → Bool
same_bytes [] [] = true
same_bytes [] (y ∷ ys) = false
same_bytes (x ∷ xs) [] = false
same_bytes (x ∷ xs) (y ∷ ys) = x == y && same_bytes xs ys

abbrev pub key_at : List ℕ → ℕ → List ℕ → Bool
key_at text p key = same_bytes (take (length key) (drop (p + 1) text)) key

unfoldable pub skip_ws : List ℕ → ℕ → ℕ → ℕ
skip_ws text zero p = p
skip_ws text (suc fuel) p =
    let rest = skip_ws text fuel (p + 1) in
    if ltb p (length text) && is_ws (get_or text p 0) then rest else p

-- The step over a backslash and the byte behind it.
unfoldable pub escape : List ℕ → ℕ → ℕ
escape text p = if ltb (p + 1) (length text) then p + 2 else p + 1

unfoldable pub after : List ℕ → ℕ → ℕ
after text p = if get_or text p 0 == 0x5C then escape text p else p + 1

-- From inside a string to its closing quote.
unfoldable pub close_quote : List ℕ → ℕ → ℕ → Option ℕ
close_quote text zero p = none
close_quote text (suc fuel) p =
    let rest = close_quote text fuel (after text p) in
    if leb (length text) p then none else if get_or text p 0 == 0x22 then some p else rest

-- Past a string that is no key: behind its quote, or at the end of the text.
unfoldable pub skip_string : List ℕ → ℕ → ℕ → ℕ
skip_string text zero p = p
skip_string text (suc fuel) p =
    let rest = skip_string text fuel (after text p) in
    if leb (length text) p then p else if get_or text p 0 == 0x22 then p + 1 else rest

abbrev pub fuel_for : List ℕ → ℕ
fuel_for text = suc (length text)

-- The colon behind a key that ends before `p`, and the value's first byte.
unfoldable pub value_after : List ℕ → ℕ → Option ℕ
value_after text p =
    let colon = skip_ws text (fuel_for text) p in
    if leb (length text) colon || not (get_or text colon 0 == 0x3A)
    then none
    else some (skip_ws text (fuel_for text) (colon + 1))

-- The place and the end of a value, and how many objects are open at it.
pub record Name : Type 0 where
  pub begin : ℕ
  pub end : ℕ
  pub next : ℕ
  pub depth : ℕ

-- The length of the key at a quote, 0 if it is neither `name` nor `tool`.
unfoldable pub tool_key_len : List ℕ → ℕ → ℕ
tool_key_len text p =
    if ltb (add32 p 5) (length text) && key_at text p name_key && get_or text (p + 5) 0 == 0x22
    then 4
    else if ltb (add32 p 5) (length text) && key_at text p tool_key && get_or text (p + 5) 0 == 0x22
    then 4
    else 0

-- The string that is the value of a key of so many bytes at `p`.
unfoldable pub name_value : List ℕ → ℕ → ℕ → ℕ → Option Name
name_value text p key_len depth = elim (value_after text (p + key_len + 2)) [
  | none ↦ none
  | some q ↦
      if leb (length text) q || not (get_or text q 0 == 0x22)
      then none
      else elim (close_quote text (fuel_for text) (q + 1)) [
        | none ↦ none
        | some e ↦ some (record { begin = q + 1; end = e; next = e + 1; depth = depth })
      ]
]

-- How many objects are open behind a byte outside strings.
unfoldable pub depth_after : ℕ → ℕ → ℕ
depth_after depth c =
    if c == 0x7B then depth + 1 else if c == 0x7D && not (depth == 0) then depth - 1 else depth

unfoldable pub find_json_tool_name_key : List ℕ → ℕ → ℕ → ℕ → Option Name
find_json_tool_name_key text zero depth p = none
find_json_tool_name_key text (suc fuel) depth p =
    let c = get_or text p 0 in
    let rest =
      find_json_tool_name_key text fuel (if c == 0x22 then depth else depth_after depth c)
        (if c == 0x22 then skip_string text (fuel_for text) (p + 1) else p + 1) in
    if leb (length text) p
    then none
    else if c == 0x22 && not (tool_key_len text p == 0)
    then name_value text p (tool_key_len text p) depth
    else rest

-- The end of the object that begins at a brace: the position behind the brace that closes it.
unfoldable pub object_end : List ℕ → ℕ → ℕ → Bool → ℕ → Option ℕ
object_end text zero depth in_string p = none
object_end text (suc fuel) depth in_string p =
    let c = get_or text p 0 in
    let rest =
      object_end text fuel (if in_string then depth else depth_after depth c)
        (if in_string then not (c == 0x22) else c == 0x22)
        (if in_string then after text p else p + 1) in
    if leb (length text) p
    then none
    else if not in_string && c == 0x7D && leb depth 1
    then (if depth == 0 then none else some (p + 1))
    else rest

-- One round of the search for a key: go on (`none`), or the answer.
unfoldable pub object_at : List ℕ → List ℕ → ℕ → Option (Option (ℕ × ℕ))
object_at text key i =
    if not (get_or text i 0 == 0x22)
      || not (key_at text i key)
      || not (get_or text (i + length key + 1) 0 == 0x22)
    then none
    else elim (value_after text (i + length key + 2)) [
      | none ↦ none
      | some q ↦
          if leb (length text) q || not (get_or text q 0 == 0x7B)
          then some none
          else elim (object_end text (fuel_for text) 0 false q) [
            | none ↦ some none
            | some e ↦ some (some (q, e))
          ]
    ]

unfoldable pub object_key_loop : List ℕ → List ℕ → ℕ → ℕ → Option (ℕ × ℕ)
object_key_loop text key zero i = none
object_key_loop text key (suc fuel) i =
    let rest = object_key_loop text key fuel (i + 1) in
    if leb (length text) (add32 i (length key + 3))
    then none
    else elim (object_at text key i) [ none ↦ rest | some answer ↦ answer ]

-- The first and the last position of the object, its end not included.
unfoldable pub find_json_object_key : List ℕ → List ℕ → Option (ℕ × ℕ)
find_json_object_key text key =
    if length key == 0 || ltb (length text) (add32 (length key) 4)
    then none
    else object_key_loop text key (fuel_for text) 0
