-- ===== src/Memory.antt =====
-- The allocators of elkodon_bb/memory/src.
pub mod PoolAllocator
pub mod BumpAllocator
pub mod OneChunkAllocator
