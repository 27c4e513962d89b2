-- ===== src/Handles/Tests.antt =====
-- Runs of the handle table on concrete handles, and the theorems at them.
use astral_runtime.Base.{ℕ, ◌<◌, false, if◌then◌else◌, ◌==◌, ◌≡◌, ◌≢◌, ◌⊎◌, refl, arith, u64_mod}
use astral_runtime.Handles.{
  HandleTable, max_handles, make_handle, handle_kind, handle_index, handle_generation, init,
  register_ptr, unregister_handle, lookup, is_valid, fill, put, find_free, next_generation,
}
use astral_runtime.Handles.Slots.{init-IsValid}
use astral_runtime.Handles.Kind
use astral_runtime.Handles.Kind.{HandleKind}
use astral_runtime.Handles.Lookup.{register_ptr-lookup, unregister_handle-lookup}

abbrev model_table : HandleTable
model_table = (register_ptr init Kind.model 4096).1

first_handle : (register_ptr init Kind.model 4096).0 ≡ 0x0100_0000_0000_0001
unfolding register_ptr init find_free make_handle next_generation
first_handle = refl

found : lookup model_table 0x0100_0000_0000_0001 Kind.model ≡ 4096
unfolding register_ptr init find_free make_handle next_generation lookup fill put handle_kind
    handle_index handle_generation
found = refl

released_not_found :
    is_valid (unregister_handle model_table 0x0100_0000_0000_0001 Kind.model) 0x0100_0000_0000_0001
    ≡ false
unfolding register_ptr init find_free make_handle next_generation lookup fill put handle_kind
    handle_index handle_generation is_valid unregister_handle
released_not_found = refl

register_ptr-lookup_example :
    ((0 < (register_ptr init 1 4096).0)
      × ((h : ℕ) (e : HandleKind)
          → h < u64_mod
          → lookup (register_ptr init 1 4096).1 h e ≡ (
              if h == (register_ptr init 1 4096).0
              then (if e == 1 then 4096 else 0)
              else lookup init h e)))
    ⊎ ((register_ptr init 1 4096 ≡ (0, init))
        × ((i : ℕ) → i < max_handles → (init.slots i).ptr ≢ 0))
register_ptr-lookup_example =
    register_ptr-lookup init 1 4096 init-IsValid (omega arith) (omega arith) (omega arith)

first_kind : handle_kind 0x0100_0000_0000_0001 ≡ 1
unfolding handle_kind
first_kind = refl

unregister_handle-lookup_example :
    lookup (unregister_handle model_table 0x0100_0000_0000_0001 1) 0x0100_0000_0000_0001 1 ≡ (
      if 0x0100_0000_0000_0001 == 0x0100_0000_0000_0001
      then 0
      else lookup model_table 0x0100_0000_0000_0001 1)
unregister_handle-lookup_example =
    unregister_handle-lookup model_table 0x0100_0000_0000_0001 1 (omega arith) first_kind
      0x0100_0000_0000_0001 1 (omega arith)
