-- ===== src/Handles/Kind.antt =====
-- `HandleKind` of src/core/handles.hpp.
use Prim.Native.Nat.{ℕ}

-- `HandleKind` is a number of 32 bits with these names.
abbrev pub HandleKind : Type 0
HandleKind = ℕ

abbrev pub invalid : HandleKind
invalid = 0

abbrev pub model : HandleKind
model = 1

abbrev pub session : HandleKind
session = 2

abbrev pub embedder : HandleKind
embedder = 3

abbrev pub adapter : HandleKind
adapter = 4

abbrev pub conversation : HandleKind
conversation = 5

abbrev pub prompt_cache : HandleKind
prompt_cache = 6

abbrev pub toolset : HandleKind
toolset = 7

abbrev pub memory_index : HandleKind
memory_index = 8

abbrev pub memory_search : HandleKind
memory_search = 9

abbrev pub memory_snapshot : HandleKind
memory_snapshot = 10

abbrev pub agent : HandleKind
agent = 11
