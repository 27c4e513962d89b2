-- ===== src/Memory/Frame.antt =====
-- The bump allocator of src/memory/frame_allocator.hpp. Addresses and sizes are words of 64 bits.
pub mod Laws
mod Tests
use astral_runtime.Base.{
  ℕ, ◌+◌, ◌-◌, ◌*◌, ◌%◌, bit_and, Option, some, none, ltb, if◌then◌else◌, add64, sub64, u64_mod,
  ◌==◌, ◌||◌,
}

pub record FrameAllocator : Type 0 where
  pub base : ℕ
  pub capacity : ℕ
  pub used : ℕ

-- The constructor of a debug build, which refuses a null base or no capacity; a release build keeps both.
unfoldable pub new_checked : ℕ → ℕ → FrameAllocator
new_checked base capacity =
    if base == 0 || capacity == 0
    then record { base = 0; capacity = 0; used = 0 }
    else record { base = base; capacity = capacity; used = 0 }

-- `~(align - 1)` in 64 bits.
abbrev pub align_mask : ℕ → ℕ
align_mask align = u64_mod - 1 - sub64 align 1

abbrev pub aligned_offset : FrameAllocator → ℕ → ℕ
aligned_offset f align =
    sub64 (bit_and (sub64 (add64 (add64 f.base f.used) align) 1) (align_mask align)) f.base

-- The address, `none` for the null pointer, and the allocator behind the call.
unfoldable pub alloc : FrameAllocator → ℕ → ℕ → Option ℕ × FrameAllocator
alloc f size align =
    let new_used = add64 (aligned_offset f align) size in
    if ltb f.capacity new_used
    then (none, f)
    else (some (add64 f.base (aligned_offset f align)), record f { used = new_used })

unfoldable pub reset : FrameAllocator → FrameAllocator
reset f = record f { used = 0 }

pub available : FrameAllocator → ℕ
available f = sub64 f.capacity f.used
