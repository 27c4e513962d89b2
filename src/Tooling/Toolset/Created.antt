-- ===== src/Tooling/Toolset/Created.antt =====
-- A set that `toolset_create` of src/inference/tooling.cpp returns, and its queries.
use astral_runtime.Base.{
  ℕ, zero, suc, ◌≤◌, ◌<◌, Bool, true, false, not, ◌&&◌, ◌||◌, Option, some, none, List, [], ◌∷◌,
  length, length-take, get_elem?, take, ltb, leb, ◌==◌, if◌then◌else◌, ◌≡◌, ◌≢◌, refl, ap, sym, ◌∙◌,
  arith, inl, inr, ◌⊎◌, Bool-cases, Option-cases,
}
use mathlib.Core.Option.{some-injective}
use astral_runtime.Base.Span.{Err, ok}
use astral_runtime.Handles.{HandleTable, register_ptr}
use astral_runtime.Handles.Kind
use astral_runtime.Tooling.Toolset.{
  ToolDesc, ToolsetDesc, ToolRecord, Toolset, Measure, failed, total, Allocations, measure,
  checked_tools, fill_tools, built, create_measured, toolset_create, info_of, toolset_get,
  choice_mode_valid, max_tools, toolset_desc_size,
}
use astral_runtime.Tooling.Toolset.RoundTrip.{HasDescription, info_for, fill_tools-get}

Measure-cases : (m : Measure) → ((e : Err) × (m ≡ failed e)) ⊎ ((n : ℕ) × (m ≡ total n))
Measure-cases (failed e) = inl (e, refl)
Measure-cases (total n) = inr (n, refl)

measured_ok :
    (memory : Allocations) (table : HandleTable) (address : ℕ) (d : ToolsetDesc)
    (tools : List ToolDesc) (n : ℕ) (t : Toolset)
    → (create_measured memory table address d tools n).1 ≡ some t
    → t ≡ built d tools n (register_ptr table Kind.toolset address).0
unfolding create_measured
measured_ok memory table address d tools n t e = elim (Bool-cases memory.toolset) [
  | inr fails ↦ absurd (ground (arith, fails, e))
  | inl works ↦ elim (Bool-cases (not memory.tools || (not (n == 0) && not memory.bytes))) [
    | inl fails ↦ absurd (ground (arith, works, fails, e))
    | inr fine ↦ elim (Bool-cases ((register_ptr table Kind.toolset address).0 == 0)) [
      | inl fails ↦ absurd (ground (arith, works, fine, fails, e))
      | inr registered ↦ some-injective t _ (sym e ∙ rw (works, fine, registered) refl)
    ]
  ]
]

-- Where a set comes from.
created :
    (memory : Allocations) (table : HandleTable) (address : ℕ) (desc : ToolsetDesc) (t : Toolset)
    → (toolset_create memory table address (some desc) true).1 ≡ some t
    → (n : ℕ) × (handle : ℕ) × (tools : List ToolDesc) × (checked_tools desc true ≡ some tools)
      × (measure tools 0 ≡ total n)
      × (t ≡ built desc tools n handle)
unfolding toolset_create
created memory table address desc t e = elim (Option-cases (checked_tools desc true)) [
  | inl refused ↦ absurd (none_made (sym (rw (toolset_create, refused) refl) ∙ e))
  | inr (tools, checked) ↦ elim (Measure-cases (measure tools 0)) [
    | inl (code, over) ↦ absurd (none_made (sym (rw (toolset_create, checked, over) refl) ∙ e))
    | inr (n, fits) ↦ (
      n,
      (register_ptr table Kind.toolset address).0,
      tools,
      checked,
      fits,
      measured_ok memory table address desc tools n t
          (sym (rw (toolset_create, checked, fits) refl) ∙ e),
    )
  ]
]
  where
    none_made : none ≢ some t
    none_made q = ground (arith, q)

checked_tools-take :
    (desc : ToolsetDesc) (tools : List ToolDesc)
    → checked_tools desc true ≡ some tools
    → length tools ≤ desc.tool_count
unfolding checked_tools
checked_tools-take desc tools e = elim (Option-cases desc.tools) [
  | inl missing ↦ absurd (none_some (sym (rw (checked_tools, missing) refl) ∙ e))
  | inr (all, there) ↦
      let e' : given all ≡ some tools = sym (rw (checked_tools, there) refl) ∙ e in
      omega (arith, ap length (given_take all e'), length-take desc.tool_count all)
]
  where
    none_some : none ≢ some tools
    none_some q = ground (arith, q)

    bad : Bool
    bad =
        not true
        || not (desc.size == toolset_desc_size)
        || desc.tool_count == 0
        || ltb max_tools desc.tool_count
        || not (choice_mode_valid desc.choice_mode)

    given : List ToolDesc → Option (List ToolDesc)
    given all = if bad then none else some (take desc.tool_count all)

    given_take : (all : List ToolDesc) → given all ≡ some tools → tools ≡ take desc.tool_count all
    given_take all q = elim (Bool-cases bad) [
      | inl refused ↦ absurd (
          none_some
            (sym (ap (λ b. if b then none else some (take desc.tool_count all)) refused) ∙ q))
      | inr good ↦
          some-injective _ _
            (sym q ∙ ap (λ b. if b then none else some (take desc.tool_count all)) good)
    ]

get_elem?-lt : {A : Type 0} (xs : List A) (i : ℕ) (a : A) → get_elem? xs i ≡ some a → i < length xs
get_elem?-lt [] i a e = absurd (ground (arith, e))
get_elem?-lt (x ∷ xs) zero a e = omega arith
get_elem?-lt (x ∷ xs) (suc i) a e = omega (arith, get_elem?-lt xs i a e)

get_built :
    (desc : ToolsetDesc) (tools : List ToolDesc) (n handle i : ℕ) (r : ToolRecord)
    → leb desc.tool_count i ≡ false
    → get_elem? (fill_tools tools 0).0 i ≡ some r
    → toolset_get (some (built desc tools n handle)) i true
      ≡ (ok, some (info_of (fill_tools tools 0).1 r))
unfolding toolset_get
get_built desc tools n handle i r inside there = rw (inside, there) refl

-- From a set that `toolset_create` returns for a descriptor, `toolset_get` gives back each description by
-- its index: the same id, name and schema, and the same text about it, where an empty one reads as a
-- null span. A description that is a null pointer is taken to have length 0.
pub toolset_create-get :
    (memory : Allocations) (table : HandleTable) (address : ℕ) (desc : ToolsetDesc) (t : Toolset)
    → (toolset_create memory table address (some desc) true).1 ≡ some t
    → (tools : List ToolDesc) → checked_tools desc true ≡ some tools
    → ((i : ℕ) (d : ToolDesc) → get_elem? tools i ≡ some d → HasDescription d)
    → (i : ℕ) (d : ToolDesc) → get_elem? tools i ≡ some d
    → toolset_get (some t) i true ≡ (ok, some (info_for d))
toolset_create-get memory table address desc t e tools checked descriptions i d found =
    let (n, handle, tools', checked', fits, made) = created memory table address desc t e in
    let same : tools' ≡ tools = some-injective tools' tools (sym checked' ∙ checked) in
    let (r, there, back) =
      fill_tools-get tools 0 n [] (omega arith) refl (ap (λ l. measure l 0) (sym same) ∙ fits)
        descriptions i d found in
    let inside : leb desc.tool_count i ≡ false =
      ground (arith, get_elem?-lt tools i d found, checked_tools-take desc tools checked) in
    ap (λ s. toolset_get (some s) i true) (made ∙ ap (λ l. built desc l n handle) same)
    ∙ get_built desc tools n handle i r inside there
    ∙ ap (λ info. (ok, some info)) back
