-- ===== src/LockFree.antt =====
-- The lock-free building blocks of elkodon_bb/lock_free/src. Shared accesses are interleaved one at
-- a time, in any order; the reorderings that weaker atomic orderings would allow are left out.
pub mod IndexQueue
pub mod UniqueIndexSet
pub mod OverflowQueue
pub mod Container
pub mod UnrestrictedAtomic
