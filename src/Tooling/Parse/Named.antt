-- ===== src/Tooling/Parse/Named.antt =====
-- The tool that a name of src/inference/tooling.cpp stands for, and its arguments in the text.
use astral_runtime.Base.{
  ℕ, ◌<◌, true, ◌&&◌, some, none, List, [], ◌∷◌, length, take, drop, ◌==◌, u32_mod, ◌≡◌, ◌≢◌, refl,
  ap, sym, subst, ◌∙◌, inl, inr, ◌⊎◌, arith, Bool-cases, Option-cases, length-drop,
}
use mathlib.Core.Option.{some-injective}
use astral_runtime.Tooling.Json.{Name, find_json_object_key, arguments_key}
use astral_runtime.Tooling.Json.Members.{IsMember, find_json_object_key-IsMember}
use astral_runtime.Tooling.Json.Values.{same_bytes-eq}
use astral_runtime.Tooling.Toolset.{
  ToolRecord, Toolset, find_tool_by_name, find_tool, name_tag, span_equals,
}
use astral_runtime.Tooling.Parse.{slice, arguments_of}

abbrev pub name_of : List ℕ → ToolRecord → List ℕ
name_of bytes tool = take tool.name_len (drop tool.name_off bytes)

pub data IsTool (tool : ToolRecord) : List ToolRecord → Type 0 where
  here : {rest : List ToolRecord} → IsTool tool (tool ∷ rest)
  there :
      {other : ToolRecord} {rest : List ToolRecord} → IsTool tool rest → IsTool tool (other ∷ rest)

-- The tag that is stored with each tool is that of its name.
unfoldable pub IsTagged : List ℕ → List ToolRecord → Type 0
IsTagged bytes tools =
    (tool : ToolRecord) → IsTool tool tools → tool.name_tag ≡ name_tag (name_of bytes tool)

-- The first tool of a list that has the name.
pub data IsFirstNamed (bytes name : List ℕ) (tool : ToolRecord) : List ToolRecord → Type 0 where
  this :
      {rest : List ToolRecord}
      → name_of bytes tool ≡ name
      → IsFirstNamed bytes name tool (tool ∷ rest)
  later :
      {other : ToolRecord} {rest : List ToolRecord}
      → name_of bytes other ≢ name
      → IsFirstNamed bytes name tool rest
      → IsFirstNamed bytes name tool (other ∷ rest)

span_equals-eq :
    (a b : List ℕ) → (span_equals a b ≡ true → a ≡ b) × (a ≡ b → span_equals a b ≡ true)
unfolding span_equals
span_equals-eq a b = (
  λ e. elim (Bool-cases (length a == 0)) [
    | inl nothing ↦ both a b (ground (arith, nothing)) (ground (arith, nothing, e))
    | inr something ↦ (same_bytes-eq a b).0 (ground (arith, e, something))
  ],
  λ e.
      let bytes = (same_bytes-eq a b).1 e in
      let lengths : length a ≡ length b = ap length e in ground (arith, bytes, lengths),
)
  where
    both : (xs ys : List ℕ) → length xs ≡ 0 → length ys ≡ 0 → xs ≡ ys
    both [] [] x y = refl
    both [] (w ∷ ys) x y = absurd (ground (arith, y))
    both (w ∷ xs) ys x y = absurd (ground (arith, x))

found_test :
    (bytes name : List ℕ) (tool : ToolRecord)
    → tool.name_tag ≡ name_tag (name_of bytes tool)
    → ((tool.name_tag == name_tag name && span_equals name (name_of bytes tool)) ≡ true
        → name_of bytes tool ≡ name)
      × (name_of bytes tool ≡ name
          → (tool.name_tag == name_tag name && span_equals name (name_of bytes tool)) ≡ true)
found_test bytes name tool tagged = (
  λ e. sym ((span_equals-eq name (name_of bytes tool)).0 (ground (arith, e))),
  λ e.
      let equal = (span_equals-eq name (name_of bytes tool)).1 (sym e) in
      let tags : tool.name_tag ≡ name_tag name = tagged ∙ ap name_tag e in
      ground (arith, equal, tags),
)

find_tool-IsFirstNamed :
    (tools : List ToolRecord) (bytes name : List ℕ) (tool : ToolRecord)
    → IsTagged bytes tools
    → (find_tool tools bytes name ≡ some tool → IsFirstNamed bytes name tool tools)
      × (IsFirstNamed bytes name tool tools → find_tool tools bytes name ≡ some tool)
unfolding find_tool IsTagged
find_tool-IsFirstNamed tools bytes name tool tagged = (sound tools tagged, complete tools tagged)
  where
    sound :
        (ts : List ToolRecord)
        → IsTagged bytes ts
        → find_tool ts bytes name ≡ some tool
        → IsFirstNamed bytes name tool ts
    sound [] v h = absurd (ground (arith, h))
    sound (t ∷ rest) v h =
        let test = found_test bytes name t (v t here) in
        elim (Bool-cases (t.name_tag == name_tag name && span_equals name (name_of bytes t))) [
          | inl same ↦
              subst (λ u. IsFirstNamed bytes name u (t ∷ rest))
                (some-injective t tool (rw same at h)) (this (test.0 same))
          | inr other ↦
              later (λ e. ground (arith, other, test.1 e))
                (sound rest (λ u i. v u (there i)) (rw other at h))
        ]

    complete :
        (ts : List ToolRecord)
        → IsTagged bytes ts
        → IsFirstNamed bytes name tool ts
        → find_tool ts bytes name ≡ some tool
    complete [] v named = elim named [ ]
    complete (t ∷ rest) v (this same) = rw ((found_test bytes name t (v t here)).1 same) refl
    complete (t ∷ rest) v (later other named) =
        elim (Bool-cases (t.name_tag == name_tag name && span_equals name (name_of bytes t))) [
          | inl same ↦ absurd (other ((found_test bytes name t (v t here)).0 same))
          | inr differs ↦ rw differs (complete rest (λ u i. v u (there i)) named)
        ]

-- The first tool of the set that the name in the text stands for.
pub IsNamed : Toolset → List ℕ → Name → ToolRecord → Type 0
IsNamed t text n tool =
    IsFirstNamed t.bytes (slice text n.begin n.end) tool (take t.tool_count t.tools)

pub find_tool_by_name-IsNamed :
    (t : Toolset) (text : List ℕ) (n : Name) (tool : ToolRecord)
    → IsTagged t.bytes (take t.tool_count t.tools)
    → (find_tool_by_name t (slice text n.begin n.end) ≡ some tool → IsNamed t text n tool)
      × (IsNamed t text n tool → find_tool_by_name t (slice text n.begin n.end) ≡ some tool)
unfolding find_tool_by_name IsNamed
find_tool_by_name-IsNamed t text n tool tagged =
    find_tool-IsFirstNamed (take t.tool_count t.tools) t.bytes (slice text n.begin n.end) tool
      tagged

-- The bytes are the object that the text from a position on has for the key of the arguments.
pub IsArgumentsFrom : List ℕ → ℕ → List ℕ → Type 0
IsArgumentsFrom text from arguments =
    (b e : ℕ) × IsMember (drop from text) arguments_key b e
    × (arguments ≡ slice (drop from text) b e)

-- The arguments of a name: those behind it, or if there are none and one object is open at the name, those of the
-- whole text.
pub IsArguments : List ℕ → Name → List ℕ → Type 0
IsArguments text n arguments =
    IsArgumentsFrom text n.next arguments
    ⊎ (((other : List ℕ) → IsArgumentsFrom text n.next other → ⊥)
        × (n.depth ≡ 1)
        × IsArgumentsFrom text 0 arguments)

module _ (text : List ℕ) (small : length text < u32_mod) where
  searched :
      (from b e : ℕ)
      → (find_json_object_key (drop from text) arguments_key ≡ some (b, e)
          → IsMember (drop from text) arguments_key b e)
        × (IsMember (drop from text) arguments_key b e
            → find_json_object_key (drop from text) arguments_key ≡ some (b, e))
  searched from b e =
      find_json_object_key-IsMember (drop from text) arguments_key b e (omega arith)
        (omega (arith, small, length-drop from text))

  given :
      (from : ℕ) (r : ℕ × ℕ)
      → find_json_object_key (drop from text) arguments_key ≡ some r
      → IsArgumentsFrom text from (slice (drop from text) r.0 r.1)
  unfolding IsArgumentsFrom
  given from r hit = (r.0, r.1, (searched from r.0 r.1).0 hit, refl)

  not_given :
      (from : ℕ)
      → find_json_object_key (drop from text) arguments_key ≡ none
      → (arguments : List ℕ) → IsArgumentsFrom text from arguments
      → ⊥
  unfolding IsArgumentsFrom
  not_given from missing arguments (b, e, member, same) =
      ground (arith, missing, (searched from b e).1 member)

  whole_text : (xs : List ℕ) → drop 0 xs ≡ xs
  whole_text [] = refl
  whole_text (x ∷ xs) = refl

  -- What is taken for the arguments is what they are, and if nothing is taken hit are none.
  pub arguments_of-IsArguments :
      (n : Name)
      → ((arguments : List ℕ) → arguments_of text n ≡ some arguments → IsArguments text n arguments)
        × (arguments_of text n ≡ none → (arguments : List ℕ) → IsArguments text n arguments → ⊥)
  unfolding arguments_of IsArguments
  arguments_of-IsArguments n =
      elim (Option-cases (find_json_object_key (drop n.next text) arguments_key)) [
        | inr (r, hit) ↦ (
          λ arguments h.
              subst (IsArguments text n) (some-injective _ _ (rw (arguments_of, hit) at h))
                (inl (given n.next r hit)),
          λ h. absurd (ground (arith, rw (arguments_of, hit) at h)),
        )
        | inl missing ↦ elim (Bool-cases (n.depth == 1)) [
          | inr nested ↦ (
            λ arguments h. absurd (ground (arith, rw (arguments_of, missing, nested) at h)),
            λ h arguments is. elim is [
              | inl behind ↦ not_given n.next missing arguments behind
              | inr (no_other, single, all) ↦ ground (arith, nested, single)
            ],
          )
          | inl single ↦ elim (Option-cases (find_json_object_key (drop 0 text) arguments_key)) [
            | inl none_at_all ↦
                let nothing =
                  subst (λ xs. find_json_object_key xs arguments_key ≡ none) (whole_text text)
                    none_at_all in
                (
                  λ arguments h.
                      absurd (ground (arith, rw (arguments_of, missing, single, nothing) at h)),
                  λ h arguments is. elim is [
                    | inl behind ↦ not_given n.next missing arguments behind
                    | inr (no_other, one, all) ↦ not_given 0 none_at_all arguments all
                  ],
                )
            | inr (r, hit) ↦
                let here =
                  subst (λ xs. find_json_object_key xs arguments_key ≡ some r) (whole_text text)
                    hit in
                (
                  λ arguments h.
                      let same =
                        ap (λ xs. slice xs r.0 r.1) (whole_text text)
                        ∙ some-injective _ _ (rw (arguments_of, missing, single, here) at h) in
                      inr (
                        not_given n.next missing,
                        ground (arith, single),
                        subst (IsArgumentsFrom text 0) same (given 0 r hit),
                      ),
                  λ h. absurd (ground (arith, rw (arguments_of, missing, single, here) at h)),
                )
          ]
        ]
      ]
