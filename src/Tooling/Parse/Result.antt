-- ===== src/Tooling/Parse/Result.antt =====
-- What `toolset_parse_call` of src/inference/tooling.cpp answers.
use astral_runtime.Base.{ℕ, ◌≤◌, List, ◌≡◌, ◌⊎◌}
use astral_runtime.Base.Span.{span, null, Err, ok, invalid, not_found}
use astral_runtime.Tooling.Json.{Name}
use astral_runtime.Tooling.Toolset.{ToolRecord, Toolset, tool_span}
use astral_runtime.Tooling.Parse.{CallResult}
use astral_runtime.Tooling.Parse.Named.{IsNamed, IsArguments}
use astral_runtime.Tooling.Parse.Candidates.{IsNext, IsCandidate}

-- The names that were seen, and all from a position on.
Onward : List ℕ → (Name → Type 0) → ℕ → Name → Type 0
Onward text Seen p m = Seen m ⊎ IsNext text m p

-- What is right of an answer. With the status OK: the tool of a name of the text, with the arguments of that name, and
-- no such name with arguments is open less, unless this one is open once at most. With the status INVALID: the
-- tool of a name, none has arguments. NOT_FOUND: no name of the text is that of a tool.
abbrev pub IsAnswer : Toolset → List ℕ → Err × CallResult → Type 0
IsAnswer t text (code, r) =
    ((code ≡ ok)
      × ((n : Name) × (tool : ToolRecord) × IsNext text n 0
          × IsNamed t text n tool
          × (r.tool_id ≡ tool.tool_id)
          × (r.name ≡ tool_span t.bytes tool.name_off tool.name_len)
          × (((r.parse_status ≡ ok)
                × ((arguments : List ℕ) × IsArguments text n arguments
                    × (r.arguments_json ≡ span arguments))
                × ((m : Name) (other : ToolRecord) (others : List ℕ)
                    → IsNext text m 0
                    → IsCandidate t text m other others
                    → (n.depth ≤ m.depth) ⊎ (n.depth ≤ 1)))
              ⊎ ((r.parse_status ≡ invalid)
                  × (r.arguments_json ≡ null 0)
                  × ((m : Name) (other : ToolRecord) (others : List ℕ)
                      → IsNext text m 0
                      → IsCandidate t text m other others
                      → ⊥)))))
    ⊎ ((code ≡ not_found)
        × (r.parse_status ≡ not_found)
        × (r.tool_id ≡ 0)
        × (r.arguments_json ≡ null 0)
        × ((m : Name) (other : ToolRecord) → IsNext text m 0 → IsNamed t text m other → ⊥))
