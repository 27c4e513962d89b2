-- ===== src/Tooling/Toolset.antt =====
-- Tool sets of src/inference/tooling.cpp: their records, their creation and their queries.
pub mod RoundTrip
pub mod Created
mod Tests
use astral_runtime.Base.{
  ℕ, zero, suc, ◌+◌, ◌-◌, ◌*◌, ◌^◌, Bool, true, false, not, ◌&&◌, ◌||◌, Option, some, none, List,
  [], ◌∷◌, ◌++◌, length, get_or, get_elem?, take, drop, ltb, leb, ◌==◌, if◌then◌else◌, add32, sub32,
  bit_or, u32_mod,
}
use astral_runtime.Base.Span.{
  Span, span, null, span_len, span_bytes, span_null, Err, ok, invalid, nomem, busy, not_found,
}
use astral_runtime.Handles.{HandleTable, register_ptr, unregister_handle}
use astral_runtime.Handles.Kind
use astral_runtime.Tooling.Json.{same_bytes}

pub record ToolDesc : Type 0 where
  pub size : ℕ
  pub tool_id : ℕ
  pub name : Span
  pub description : Span
  pub json_schema : Span

pub record ToolsetDesc : Type 0 where
  pub size : ℕ
  pub tool_count : ℕ
  pub choice_mode : ℕ
  pub tools : Option (List ToolDesc)

pub record ToolRecord : Type 0 where
  pub tool_id : ℕ
  pub name_tag : ℕ
  pub name_off : ℕ
  pub name_len : ℕ
  pub desc_off : ℕ
  pub desc_len : ℕ
  pub schema_off : ℕ
  pub schema_len : ℕ

pub record Toolset : Type 0 where
  pub handle : ℕ
  pub refcount : ℕ
  pub tool_count : ℕ
  pub choice_mode : ℕ
  pub tools : List ToolRecord
  pub bytes : List ℕ
  pub bytes_len : ℕ

pub record ToolInfo : Type 0 where
  pub tool_id : ℕ
  pub name : Span
  pub description : Span
  pub json_schema : Span

abbrev pub max_tools : ℕ
max_tools = 64

-- The sizes of the structures on a target of 64 bits.
abbrev pub tool_desc_size : ℕ
tool_desc_size = 56

abbrev pub toolset_desc_size : ℕ
toolset_desc_size = 24

abbrev pub choice_mode_valid : ℕ → Bool
choice_mode_valid mode = mode == 0 || mode == 1 || mode == 2

abbrev pub span_valid : Span → Bool
span_valid s = not (span_null s) && not (span_len s == 0)

unfoldable pub add_size : ℕ → ℕ → Option ℕ
add_size a b = if ltb (0xFFFF_FFFF - a) b then none else some (a + b)

unfoldable pub tool_span : List ℕ → ℕ → ℕ → Span
tool_span bytes off len = if len == 0 then null 0 else span (take len (drop off bytes))

-- The loop over a name of fewer than four bytes; on a target that is little-endian the load of four
-- bytes gives the same number.
unfoldable pub tag_loop : List ℕ → ℕ → ℕ
tag_loop bytes zero = 0
tag_loop bytes (suc n) = bit_or (tag_loop bytes n) (get_or bytes n 0 * 2 ^ (n * 8))

unfoldable pub load32 : List ℕ → ℕ
load32 bytes =
    get_or bytes 0 0
    + get_or bytes 1 0 * 0x100
    + get_or bytes 2 0 * 0x1_0000
    + get_or bytes 3 0 * 0x100_0000

unfoldable pub name_tag : List ℕ → ℕ
name_tag bytes = if leb 4 (length bytes) then load32 bytes else tag_loop bytes (length bytes)

unfoldable pub span_equals : List ℕ → List ℕ → Bool
span_equals a b = length a == length b && (length a == 0 || same_bytes a b)

-- The bytes the set needs: the error, or the sum.
pub data Measure : Type 0 where
  failed : Err → Measure
  total : ℕ → Measure

unfoldable pub and_size : Option ℕ → ℕ → Option ℕ
and_size none b = none
and_size (some a) b = add_size a b

-- One description, once it is known to be valid.
unfoldable pub add_sizes : ℕ → ToolDesc → Option ℕ
add_sizes sum tool =
    and_size (and_size (add_size sum (span_len tool.name)) (span_len tool.description))
      (span_len tool.json_schema)

unfoldable pub measure : List ToolDesc → ℕ → Measure
measure [] sum = total sum
measure (tool ∷ rest) sum =
    if not (tool.size == tool_desc_size)
      || not (span_valid tool.name)
      || not (span_valid tool.json_schema)
    then failed invalid
    else elim (add_sizes sum tool) [ none ↦ failed nomem | some sum' ↦ measure rest sum' ]

-- The record of a tool whose bytes begin at the cursor.
unfoldable pub tool_record : ToolDesc → ℕ → ToolRecord
tool_record src cursor =
    let after_name = add32 cursor (span_len src.name) in
    let after_desc = add32 after_name (span_len src.description) in
    record {
      tool_id = src.tool_id;
      name_tag = name_tag (span_bytes src.name);
      name_off = cursor;
      name_len = span_len src.name;
      desc_off = after_name;
      desc_len = span_len src.description;
      schema_off = after_desc;
      schema_len = span_len src.json_schema;
    }

abbrev pub tool_bytes : ToolDesc → List ℕ
tool_bytes src = span_bytes src.name ++ (span_bytes src.description ++ span_bytes src.json_schema)

-- The loop that fills the records and the buffer, from the cursor on.
unfoldable pub fill_tools : List ToolDesc → ℕ → List ToolRecord × List ℕ
fill_tools [] cursor = ([], [])
fill_tools (src ∷ rest) cursor =
    let cursor' =
      add32 (add32 (add32 cursor (span_len src.name)) (span_len src.description))
        (span_len src.json_schema) in
    let filled = fill_tools rest cursor' in
    (tool_record src cursor ∷ filled.0, tool_bytes src ++ filled.1)

-- Whether each of the three allocations succeeds: the set, the records, the bytes.
pub record Allocations : Type 0 where
  pub toolset : Bool
  pub tools : Bool
  pub bytes : Bool

-- The descriptions, if the argument is valid.
unfoldable pub checked_tools : ToolsetDesc → Bool → Option (List ToolDesc)
checked_tools d has_out = elim d.tools [
  | none ↦ none
  | some tools ↦
      if not has_out
        || not (d.size == toolset_desc_size)
        || d.tool_count == 0
        || ltb max_tools d.tool_count
        || not (choice_mode_valid d.choice_mode)
      then none
      else some (take d.tool_count tools)
]

abbrev pub built : ToolsetDesc → List ToolDesc → ℕ → ℕ → Toolset
built d tools bytes_len handle = record {
  handle = handle;
  refcount = 1;
  tool_count = d.tool_count;
  choice_mode = d.choice_mode;
  tools = (fill_tools tools 0).0;
  bytes = (fill_tools tools 0).1;
  bytes_len = bytes_len;
}

-- The end of `toolset_create`, once the bytes are counted. `address` is where the set is allocated.
unfoldable pub create_measured :
    Allocations
    → HandleTable
    → ℕ
    → ToolsetDesc
    → List ToolDesc
    → ℕ
    → Err × Option Toolset × HandleTable
create_measured memory table address d tools bytes_len =
    let registered = register_ptr table Kind.toolset address in
    if not memory.toolset
    then (nomem, none, table)
    else if not memory.tools || (not (bytes_len == 0) && not memory.bytes)
    then (nomem, none, table)
    else if registered.0 == 0
    then (busy, none, registered.1)
    else (ok, some (built d tools bytes_len registered.0), registered.1)

unfoldable pub toolset_create :
    Allocations → HandleTable → ℕ → Option ToolsetDesc → Bool → Err × Option Toolset × HandleTable
toolset_create memory table address none has_out = (invalid, none, table)
toolset_create memory table address (some d) has_out = elim (checked_tools d has_out) [
  | none ↦ (invalid, none, table)
  | some tools ↦ elim (measure tools 0) [
    | failed e ↦ (e, none, table)
    | total n ↦ create_measured memory table address d tools n
  ]
]

pub toolset_retain : Toolset → Toolset
toolset_retain t = record t { refcount = add32 t.refcount 1 }

-- The set while it lives, and the table.
pub toolset_release : Toolset → HandleTable → Option Toolset × HandleTable
toolset_release t table =
    if not (t.refcount == 1)
    then (some (record t { refcount = sub32 t.refcount 1 }), table)
    else (none, unregister_handle table t.handle Kind.toolset)

pub toolset_count : Option Toolset → Bool → Err × Option ℕ
toolset_count none has_out = (invalid, none)
toolset_count (some t) has_out = if not has_out then (invalid, none) else (ok, some t.tool_count)

unfoldable pub info_of : List ℕ → ToolRecord → ToolInfo
info_of bytes tool = record {
  tool_id = tool.tool_id;
  name = tool_span bytes tool.name_off tool.name_len;
  description = tool_span bytes tool.desc_off tool.desc_len;
  json_schema = tool_span bytes tool.schema_off tool.schema_len;
}

-- `size_ok` says that the caller's structure has the size of this version.
unfoldable pub toolset_get : Option Toolset → ℕ → Bool → Err × Option ToolInfo
toolset_get none index size_ok = (invalid, none)
toolset_get (some t) index size_ok =
    if not size_ok
    then (invalid, none)
    else if leb t.tool_count index
    then (not_found, none)
    else elim (get_elem? t.tools index) [
      | none ↦ (not_found, none)
      | some tool ↦ (ok, some (info_of t.bytes tool))
    ]

-- The first tool of a name: the tags are compared before the bytes.
unfoldable pub find_tool : List ToolRecord → List ℕ → List ℕ → Option ToolRecord
find_tool [] bytes name = none
find_tool (tool ∷ rest) bytes name =
    if tool.name_tag == name_tag name
      && span_equals name (take tool.name_len (drop tool.name_off bytes))
    then some tool
    else find_tool rest bytes name

unfoldable pub find_tool_by_name : Toolset → List ℕ → Option ToolRecord
find_tool_by_name t name = find_tool (take t.tool_count t.tools) t.bytes name
