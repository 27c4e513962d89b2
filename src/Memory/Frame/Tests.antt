-- ===== src/Memory/Frame/Tests.antt =====
-- Runs of the bump allocator over a small region, and the theorems at it.
use astral_runtime.Base.{◌+◌, ◌-◌, ◌^◌, some, none, ◌≡◌, refl, arith, u64_mod}
use astral_runtime.Memory.Frame.{FrameAllocator, alloc, reset, new_checked}
use astral_runtime.Memory.Frame.Laws.{IsAllocated, alloc-IsAllocated, alloc_wraps}

abbrev region : FrameAllocator
region = record { base = 4096; capacity = 64; used = 5 }

second_block : alloc region 16 16 ≡ (some 4112, record region { used = 32 })
unfolding alloc
second_block = refl

no_room : (alloc region 60 16).0 ≡ none
unfolding alloc
no_room = refl

fresh : reset (alloc (new_checked 4096 64) 8 8).1 ≡ new_checked 4096 64
unfolding alloc reset new_checked
fresh = refl

alloc-IsAllocated_example : IsAllocated region 16 (2 ^ 4) (alloc region 16 (2 ^ 4))
alloc-IsAllocated_example =
    alloc-IsAllocated 4 region 16
      (record { used_fits = omega arith; high = 60; word = refl; region = omega arith })
      (omega arith)

alloc_wraps_example : alloc region (u64_mod - 5) 1 ≡ (some (4096 + 5), record region { used = 0 })
alloc_wraps_example = alloc_wraps region (omega arith) (omega arith) (omega arith)
