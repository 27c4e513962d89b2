-- ===== src/Tooling/Toolset/RoundTrip.antt =====
-- What `toolset_create` stores, `toolset_get` gives back.
use astral_runtime.Base.{
  ℕ, zero, suc, ◌+◌, ◌<◌, true, some, List, [], ◌∷◌, ◌++◌, length, length-append, append_assoc,
  get_elem?, take, drop, ◌==◌, if◌then◌else◌, add32, ◌≡◌, refl, ap, sym, ◌∙◌, subst, arith, inl,
  inr, Bool-cases, Option-cases, u32_mod,
}
use mathlib.Core.Option.{some-injective}
use astral_runtime.Base.Span.{Span, span, null, span_len, span_bytes}
use astral_runtime.Tooling.Toolset.{
  ToolDesc, ToolRecord, ToolInfo, total, add_size, and_size, add_sizes, measure, tool_span,
  span_valid, tool_record, tool_bytes, fill_tools, info_of,
}

-- A description that is a null pointer has no length.
abbrev pub HasDescription : ToolDesc → Type 0
HasDescription tool = span_len tool.description ≡ length (span_bytes tool.description)

-- What the library gives back of a description.
pub info_for : ToolDesc → ToolInfo
info_for d = record {
  tool_id = d.tool_id;
  name = d.name;
  description = if span_len d.description == 0 then null 0 else d.description;
  json_schema = d.json_schema;
}

-- The sum of the sizes, when it fits.
add_sizes-total :
    (sum s : ℕ) (tool : ToolDesc)
    → sum < u32_mod
    → add_sizes sum tool ≡ some s
    → (s ≡ sum + span_len tool.name + span_len tool.description + span_len tool.json_schema)
      × (s < u32_mod)
unfolding add_sizes and_size add_size
add_sizes-total sum s tool small e = ground (arith, e, small)

drop-length-append : (a b : List ℕ) → drop (length a) (a ++ b) ≡ b
drop-length-append [] b = refl
drop-length-append (x ∷ a) b = drop-length-append a b

take-length-append : (b c : List ℕ) → take (length b) (b ++ c) ≡ b
take-length-append [] c = take-zero c
  where
    take-zero : (xs : List ℕ) → take 0 xs ≡ []
    take-zero [] = refl
    take-zero (x ∷ xs) = refl
take-length-append (x ∷ b) c = ap (λ t. x ∷ t) (take-length-append b c)

-- A span read where its bytes were put.
tool_span-at :
    (a b c bytes : List ℕ) (off len : ℕ)
    → bytes ≡ a ++ (b ++ c)
    → off ≡ length a
    → len ≡ length b
    → tool_span bytes off len ≡ (if len == 0 then null 0 else span b)
unfolding tool_span
tool_span-at a b c bytes off len whole from size =
    ap (λ t. if len == 0 then null 0 else span t)
      (rw (whole, from, size)
        (ap (take (length b)) (drop-length-append a (b ++ c)) ∙ take-length-append b c))

span_valid-bytes :
    (s : Span)
    → span_valid s ≡ true
    → (span_len s ≡ length (span_bytes s))
      × ((if span_len s == 0 then null 0 else span (span_bytes s)) ≡ s)
span_valid-bytes (null n) h = absurd (ground (arith, h))
span_valid-bytes (span bs) h = (
  refl,
  elim (Bool-cases (length bs == 0)) [
    | inl bare ↦ absurd (ground (arith, h, bare))
    | inr full ↦ rw (full) refl
  ],
)

description-bytes :
    (s : Span)
    → span_len s ≡ length (span_bytes s)
    → (if span_len s == 0 then null 0 else span (span_bytes s))
      ≡ (if span_len s == 0 then null 0 else s)
description-bytes (null n) h = rw (h) refl
description-bytes (span bs) h = refl

-- A record reads back the description it was made from.
info_of-record :
    (prefix rest : List ℕ) (src : ToolDesc) (cursor : ℕ)
    → cursor ≡ length prefix
    → span_valid src.name ≡ true
    → span_valid src.json_schema ≡ true
    → HasDescription src
    → cursor + span_len src.name + span_len src.description + span_len src.json_schema < u32_mod
    → info_of (prefix ++ (tool_bytes src ++ rest)) (tool_record src cursor) ≡ info_for src
unfolding info_of tool_record info_for
info_of-record prefix rest src cursor at name schema description fits = λ i. record {
  tool_id = src.tool_id;
  name = name_back i;
  description = description_back i;
  json_schema = schema_back i;
}
  where
    n : List ℕ
    n = span_bytes src.name

    d : List ℕ
    d = span_bytes src.description

    s : List ℕ
    s = span_bytes src.json_schema

    whole_bytes : List ℕ
    whole_bytes = prefix ++ ((n ++ (d ++ s)) ++ rest)

    name_fit : span_len src.name ≡ length n
    name_fit = (span_valid-bytes src.name name).0

    schema_fit : span_len src.json_schema ≡ length s
    schema_fit = (span_valid-bytes src.json_schema schema).0

    name_back : tool_span whole_bytes cursor (span_len src.name) ≡ src.name
    name_back =
        tool_span-at prefix n ((d ++ s) ++ rest) whole_bytes cursor (span_len src.name)
          (ap (λ t. prefix ++ t) (append_assoc n (d ++ s) rest)) at name_fit
        ∙ (span_valid-bytes src.name name).1

    description_back :
        tool_span whole_bytes (add32 cursor (span_len src.name)) (span_len src.description)
        ≡ (if span_len src.description == 0 then null 0 else src.description)
    description_back =
        tool_span-at (prefix ++ n) d (s ++ rest) whole_bytes _ (span_len src.description)
          (simp append_assoc refl) (omega (arith, fits, at, name_fit, length-append prefix n))
          description
        ∙ description-bytes src.description description

    schema_back :
        tool_span whole_bytes
          (add32 (add32 cursor (span_len src.name)) (span_len src.description))
          (span_len src.json_schema)
        ≡ src.json_schema
    schema_back =
        tool_span-at (prefix ++ (n ++ d)) s rest whole_bytes _ (span_len src.json_schema)
          (simp append_assoc refl)
          (omega (
            arith,
            fits,
            at,
            name_fit,
            description,
            length-append prefix (n ++ d),
            length-append n d,
          ))
          schema_fit
        ∙ (span_valid-bytes src.json_schema schema).1

-- The bytes of a description go on where the last ended.
length-tool_bytes :
    (src : ToolDesc)
    → span_valid src.name ≡ true
    → span_valid src.json_schema ≡ true
    → HasDescription src
    → length (tool_bytes src)
      ≡ span_len src.name + span_len src.description + span_len src.json_schema
length-tool_bytes src name schema description = omega (
  arith,
  length-append (span_bytes src.name) (span_bytes src.description ++ span_bytes src.json_schema),
  length-append (span_bytes src.description) (span_bytes src.json_schema),
  (span_valid-bytes src.name name).0,
  (span_valid-bytes src.json_schema schema).0,
  description,
)

-- What a first description adds, when the measure succeeds.
measure-first :
    (src : ToolDesc) (rest : List ToolDesc) (sum n : ℕ)
    → sum < u32_mod
    → measure (src ∷ rest) sum ≡ total n
    → (span_valid src.name ≡ true)
      × (span_valid src.json_schema ≡ true)
      × ((s : ℕ) × (s
            ≡ sum + span_len src.name + span_len src.description + span_len src.json_schema)
          × (s < u32_mod)
          × (measure rest s ≡ total n))
unfolding measure
measure-first src rest sum n small e = elim (Option-cases (add_sizes sum src)) [
  | inl over ↦ absurd (ground (arith, over, e))
  | inr (s, fits) ↦
      let sums = add_sizes-total sum s src small fits in
      (
        ground (arith, fits, e),
        ground (arith, fits, e),
        (s, sums.0, sums.1, ground (arith, fits, e)),
      )
]

pub fill_tools-get :
    (tools : List ToolDesc) (sum n : ℕ) (prefix : List ℕ)
    → sum < u32_mod
    → sum ≡ length prefix
    → measure tools sum ≡ total n
    → ((i : ℕ) (d : ToolDesc) → get_elem? tools i ≡ some d → HasDescription d)
    → (i : ℕ) (d : ToolDesc) → get_elem? tools i ≡ some d
    → (r : ToolRecord) × (get_elem? (fill_tools tools sum).0 i ≡ some r)
      × (info_of (prefix ++ (fill_tools tools sum).1) r ≡ info_for d)
unfolding fill_tools
fill_tools-get [] sum n prefix small at e descriptions i d found = absurd (ground (arith, found))
fill_tools-get (src ∷ rest) sum n prefix small at e descriptions zero d found =
    let (name, schema, (s, s_eq, s_small, e')) = measure-first src rest sum n small e in
    let same : src ≡ d = some-injective src d found in
    (
      tool_record src sum,
      refl,
      info_of-record prefix _ src sum at name schema (descriptions 0 src refl)
            (omega (arith, s_eq, s_small))
          ∙ ap info_for same,
    )
fill_tools-get (src ∷ rest) sum n prefix small at e descriptions (suc i) d found =
    let (name, schema, (s, s_eq, s_small, e')) = measure-first src rest sum n small e in
    let later =
      fill_tools-get rest s n (prefix ++ tool_bytes src) s_small
        (omega (
          arith,
          s_eq,
          at,
          length-append prefix (tool_bytes src),
          length-tool_bytes src name schema (descriptions 0 src refl),
        ))
        e' (λ j c q. descriptions (suc j) c q) i d found in
    let cursor : s
        ≡ add32 (add32 (add32 sum (span_len src.name)) (span_len src.description))
            (span_len src.json_schema) =
      omega (arith, s_eq, s_small) in
    (
      later.0,
      subst (λ c. get_elem? (fill_tools rest c).0 i ≡ some later.0) cursor later.1,
      subst
          (λ c. info_of (prefix ++ (tool_bytes src ++ (fill_tools rest c).1)) later.0 ≡ info_for d)
          cursor
          (ap (λ b. info_of b later.0)
              (sym (append_assoc prefix (tool_bytes src) (fill_tools rest s).1))
            ∙ later.2),
    )
