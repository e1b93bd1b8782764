-- ===== src/SharedMemoryDirectory.antt =====
-- elkodon_cal/src/shared_memory_directory: the counters of the files in a shared memory, and the set
-- of the files. The calls come one after the other, so each exchange succeeds.
pub mod ReferenceCounter
pub mod DecisionCounter
pub mod FileReferenceSet
