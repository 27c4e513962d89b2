-- ===== src/Tooling/Parse.antt =====
-- `toolset_parse_call` of src/inference/tooling.cpp.
pub mod Named
pub mod Candidates
pub mod Result
mod Tests
use astral_runtime.Base.{
  ℕ, zero, suc, ◌+◌, ◌-◌, Bool, true, false, not, ◌&&◌, ◌||◌, Option, some, none, List, [], ◌∷◌,
  length, take, drop, ltb, leb, ◌==◌, if◌then◌else◌,
}
use astral_runtime.Base.Span.{
  Span, span, null, span_len, span_bytes, span_null, Err, ok, invalid, not_found,
}
use astral_runtime.Tooling.Json.{
  Name, find_json_tool_name_key, find_json_object_key, arguments_key, fuel_for,
}
use astral_runtime.Tooling.Toolset.{ToolRecord, Toolset, tool_span, find_tool_by_name}

-- `AstralToolCallResult`.
pub record CallResult : Type 0 where
  pub tool_id : ℕ
  pub parse_status : Err
  pub name : Span
  pub arguments_json : Span

-- The tool with arguments that is open the least, its depth, and the first tool without arguments.
pub record Best : Type 0 where
  pub best : Option (ToolRecord × List ℕ)
  pub best_depth : ℕ
  pub first_known : Option ToolRecord

unfoldable pub no_candidate : Best
no_candidate = record { best = none; best_depth = 0xFFFF_FFFF; first_known = none }

-- The bytes from a position to another.
abbrev pub slice : List ℕ → ℕ → ℕ → List ℕ
slice text begin end = take (end - begin) (drop begin text)

-- The arguments of a name: the first object behind it, else the first of the text, if one is open.
unfoldable pub arguments_of : List ℕ → Name → Option (List ℕ)
arguments_of text n = elim (find_json_object_key (drop n.next text) arguments_key) [
  | some (b, e) ↦ some (slice (drop n.next text) b e)
  | none ↦
      if n.depth == 1
      then elim (find_json_object_key text arguments_key) [
        | some (b, e) ↦ some (slice text b e)
        | none ↦ none
      ]
      else none
]

-- What one name changes, and whether the scan stops at it.
unfoldable pub consider : Toolset → List ℕ → Name → Best → Best × Bool
consider t text n b = elim (find_tool_by_name t (slice text n.begin n.end)) [
  | none ↦ (b, false)
  | some tool ↦ elim (arguments_of text n) [
    | some arguments ↦
        if elim b.best [ none ↦ true | some _ ↦ ltb n.depth b.best_depth ]
        then (record b { best = some (tool, arguments); best_depth = n.depth }, leb n.depth 1)
        else (b, false)
    | none ↦ (
      record b { first_known = elim b.first_known [ none ↦ some tool | some known ↦ some known ] },
      false,
    )
  ]
]

unfoldable pub scan_names : Toolset → List ℕ → ℕ → ℕ → Best → Best
scan_names t text zero scan b = b
scan_names t text (suc fuel) scan b = elim (find_json_tool_name_key text (fuel_for text) 0 scan) [
  | none ↦ b
  | some n ↦
      let considered = consider t text n b in
      let rest = scan_names t text fuel n.next considered.0 in
      if considered.1 then considered.0 else rest
]

unfoldable pub answer : Toolset → Best → Err × CallResult
answer t b = elim b.best [
  | some (tool, arguments) ↦ (
    ok,
    record {
      tool_id = tool.tool_id;
      parse_status = ok;
      name = tool_span t.bytes tool.name_off tool.name_len;
      arguments_json = span arguments;
    },
  )
  | none ↦ elim b.first_known [
    | some tool ↦ (
      ok,
      record {
        tool_id = tool.tool_id;
        parse_status = invalid;
        name = tool_span t.bytes tool.name_off tool.name_len;
        arguments_json = null 0;
      },
    )
    | none ↦ (
      not_found,
      record { tool_id = 0; parse_status = not_found; name = null 0; arguments_json = null 0 },
    )
  ]
]

-- `size_ok` says that the caller's structure is there and has the size of this version; the result is
-- `none` where it is left alone.
unfoldable pub toolset_parse_call : Option Toolset → Span → Bool → Err × Option CallResult
toolset_parse_call none text size_ok = (invalid, none)
toolset_parse_call (some t) text size_ok =
    if span_null text || span_len text == 0 || not size_ok
    then (invalid, none)
    else let bytes = span_bytes text in
      let result = answer t (scan_names t bytes (fuel_for bytes) 0 no_candidate) in
      (result.0, some result.1)
