-- ===== src/Tooling/Parse/Tests.antt =====
-- A call parsed, and the theorem about objects at its text.
use astral_runtime.Base.{ℕ, arith, some, List, [], ◌∷◌, ◌≡◌, refl}
use astral_runtime.Tooling.Json.{
  arguments_key, same_bytes, skip_ws, escape, after, value_after, depth_after, object_end,
  object_at, object_key_loop, find_json_object_key,
}
use astral_runtime.Tooling.Json.Members.{IsMember, find_json_object_key-IsMember}
use astral_runtime.Base.{true}
use astral_runtime.Base.Span.{span, ok}
use astral_runtime.Tooling.Json.{
  close_quote, skip_string, tool_key_len, name_value, find_json_tool_name_key,
}
use astral_runtime.Tooling.Toolset.{
  Toolset, find_tool, find_tool_by_name, tool_span, tag_loop, name_tag, span_equals,
}
use astral_runtime.Tooling.Parse.{
  toolset_parse_call, scan_names, consider, arguments_of, answer, no_candidate,
}

-- `{"arguments":{}}`
abbrev text : List ℕ
text =
    0x7B ∷ 0x22 ∷ 0x61 ∷ 0x72 ∷ 0x67 ∷ 0x75 ∷ 0x6D ∷ 0x65 ∷ 0x6E ∷ 0x74 ∷ 0x73 ∷ 0x22 ∷ 0x3A ∷ 0x7B
    ∷ 0x7D ∷ 0x7D ∷ []

found : find_json_object_key text arguments_key ≡ some (13, 15)
unfolding find_json_object_key object_key_loop object_at value_after skip_ws object_end depth_after
    after escape same_bytes
found = refl

find_json_object_key-IsMember_example :
    (find_json_object_key text arguments_key ≡ some (13, 15) → IsMember text arguments_key 13 15)
    × (IsMember text arguments_key 13 15 → find_json_object_key text arguments_key ≡ some (13, 15))
find_json_object_key-IsMember_example =
    find_json_object_key-IsMember text arguments_key 13 15 (omega arith) (omega arith)

member : IsMember text arguments_key 13 15
member = find_json_object_key-IsMember_example.0 found

-- A set of one tool, `ad`, and `{"name":"ad","arguments":{}}`.
abbrev one_tool : Toolset
one_tool = record {
  handle = 0x0700_0000_0000_0001;
  refcount = 1;
  tool_count = 1;
  choice_mode = 0;
  tools =
      record {
        tool_id = 9;
        name_tag = 0x6461;
        name_off = 0;
        name_len = 2;
        desc_off = 2;
        desc_len = 0;
        schema_off = 2;
        schema_len = 2;
      }
      ∷ [];
  bytes = 0x61 ∷ 0x64 ∷ 0x7B ∷ 0x7D ∷ [];
  bytes_len = 4;
}

abbrev call : List ℕ
call =
    0x7B ∷ 0x22 ∷ 0x6E ∷ 0x61 ∷ 0x6D ∷ 0x65 ∷ 0x22 ∷ 0x3A ∷ 0x22 ∷ 0x61 ∷ 0x64 ∷ 0x22 ∷ 0x2C ∷ 0x22
    ∷ 0x61 ∷ 0x72 ∷ 0x67 ∷ 0x75 ∷ 0x6D ∷ 0x65 ∷ 0x6E ∷ 0x74 ∷ 0x73 ∷ 0x22 ∷ 0x3A ∷ 0x7B ∷ 0x7D
    ∷ 0x7D ∷ []

parsed : toolset_parse_call (some one_tool) (span call) true ≡ (
  ok,
  some (record {
    tool_id = 9;
    parse_status = ok;
    name = span (0x61 ∷ 0x64 ∷ []);
    arguments_json = span (0x7B ∷ 0x7D ∷ []);
  }),
)
unfolding toolset_parse_call scan_names consider arguments_of answer no_candidate find_tool_by_name
    find_tool name_tag span_equals tag_loop tool_span find_json_object_key object_key_loop object_at
    value_after skip_ws object_end depth_after after escape same_bytes close_quote skip_string
    tool_key_len name_value find_json_tool_name_key
parsed = refl
