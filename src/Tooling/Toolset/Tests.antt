-- ===== src/Tooling/Toolset/Tests.antt =====
-- A set of two tools, and the theorem at it.
use astral_runtime.Base.{ℕ, subst, zero, suc, true, some, [], ◌∷◌, ◌≡◌, refl, get_elem?, arith}
use mathlib.Core.Option.{some-injective}
use astral_runtime.Base.Span.{span, null, ok}
use astral_runtime.Handles.{init, register_ptr, find_free, make_handle, next_generation}
use astral_runtime.Tooling.Toolset.{
  ToolDesc, ToolsetDesc, Toolset, Allocations, toolset_create, toolset_get, checked_tools, measure,
  add_sizes, and_size, add_size, create_measured, built,
}
use astral_runtime.Tooling.Toolset.RoundTrip.{HasDescription, info_for}
use astral_runtime.Tooling.Toolset.Created.{toolset_create-get}

abbrev search : ToolDesc
search = record {
  size = 56;
  tool_id = 7;
  name = span (0x66 ∷ 0x69 ∷ 0x6E ∷ 0x64 ∷ 0x31 ∷ []);
  description = null 0;
  json_schema = span (0x7B ∷ 0x7D ∷ []);
}

abbrev sum_up : ToolDesc
sum_up = record {
  size = 56;
  tool_id = 9;
  name = span (0x61 ∷ 0x64 ∷ []);
  description = span (0x2B ∷ []);
  json_schema = span (0x7B ∷ 0x7D ∷ []);
}

abbrev desc : ToolsetDesc
desc = record { size = 24; tool_count = 2; choice_mode = 0; tools = some (search ∷ sum_up ∷ []) }

abbrev enough : Allocations
enough = record { toolset = true; tools = true; bytes = true }

abbrev two_tools : Toolset
two_tools = built desc (search ∷ sum_up ∷ []) 12 0x0700_0000_0000_0001

two_tools_created : (toolset_create enough init 64 (some desc) true).1 ≡ some two_tools
unfolding toolset_create checked_tools measure add_sizes and_size add_size create_measured
    register_ptr init find_free make_handle next_generation
two_tools_created = refl

two_tools_checked : checked_tools desc true ≡ some (search ∷ sum_up ∷ [])
unfolding checked_tools
two_tools_checked = refl

descriptions :
    (i : ℕ) (d : ToolDesc) → get_elem? (search ∷ sum_up ∷ []) i ≡ some d → HasDescription d
descriptions zero d e = subst_first (some-injective search d e)
  where
    subst_first : search ≡ d → HasDescription d
    subst_first q = subst HasDescription q refl
descriptions (suc zero) d e = subst HasDescription (some-injective sum_up d e) refl
descriptions (suc (suc i)) d e = absurd (ground (arith, e))

toolset_create-get_example : toolset_get (some two_tools) 1 true ≡ (ok, some (info_for sum_up))
toolset_create-get_example =
    toolset_create-get enough init 64 desc two_tools two_tools_created (search ∷ sum_up ∷ [])
      two_tools_checked descriptions 1 sum_up refl
