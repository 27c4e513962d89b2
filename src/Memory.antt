-- ===== src/Memory.antt =====
-- The allocators of src/memory: frame_allocator.hpp (Frame) and object_pool.hpp (Pool).
pub mod Frame
pub mod Pool
