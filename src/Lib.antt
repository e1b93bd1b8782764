-- ===== src/Lib.antt =====
-- Elkodon (iceoryx in Rust): inter-process communication without copies. This library models the
-- building blocks that carry its state and proves what makes them correct.
--
-- The parts and how they interact:
-- - Container: elkodon_bb/container. `FixedSizeByteString` (byte_string.rs) is a text in an array with
--   a terminator, `Queue` (queue.rs) a ring of cells, and `Vec` (vec.rs) a prefix of cells. The
--   wrappers with a fixed size (`FixedSizeQueue`, `FixedSizeVec`) pass every call on. Container/Queue
--   and Container/Vec refine the lists of Fifo and Bounded; Container/ByteString refines Text.
--   `SemanticString` (semantic_string.rs) is a byte string that obeys the rules of its type;
--   SystemTypes has the rules of file names, user names, paths and file
--   paths (elkodon_bb/system_types), and how a file path splits into its parts.
-- - LockFree: elkodon_bb/lock_free. `IndexQueue` and `SafelyOverflowingIndexQueue` (spsc) are rings
--   that one producer and one consumer share; both use the cell laws of Ring. `UniqueIndexSet` (mpmc)
--   keeps its free indices in a list of links behind a head with a counter; Threads runs its calls
--   against each other. `Container` (mpmc) keeps values at the indices of such a set, and a state is
--   a copy of them. `UnrestrictedAtomic` (spmc) is a value in two cells behind a counter.
-- - Memory: elkodon_bb/memory. `PoolAllocator` (pool_allocator.rs) hands out buckets; the numbers of
--   the free ones are a `UniqueIndexSet`. `BumpAllocator` (bump_allocator.rs) moves a position, and
--   `OneChunkAllocator` (one_chunk_allocator.rs) hands out all of its memory at once.
-- - SharedMemoryDirectory: elkodon_cal/src/shared_memory_directory. `ReferenceCounter` and
--   `DecisionCounter` are words of 64 bits; `FileReferenceSet` has one of each for every file, and
--   takes its indices from a `UniqueIndexSet`. The names are byte strings.
-- - Elementary: elkodon_bb/elementary/src/math.rs, alignment and logarithm.
-- - Sync: elkodon_pal/concurrency_primitives. Both locks of rwlock.rs (ReaderPreference and
--   WriterPreference), Mutex, Semaphore and Barrier. Family runs any number of threads on one state.
-- Prelude holds the shared names, the Boolean tests and the list lemmas, Prelude/Word the machine
-- arithmetic, and Outcome the result of code that may panic or have undefined behaviour.
--
-- State and operations: a struct is a record with the fields of the source, and a method has the
-- name of the source and returns the struct as it leaves it. A panic (`fatal_panic!`, `assert!`, an
-- index out of range) is `panic`, an access outside of the memory is `fault`. Sums of `usize` wrap
-- around at 2^64, and those of `u32` at 2^32, as in a release build. Memory that has not been
-- initialised is an argument. Whether an allocator grants memory is an argument too, and so is the
-- answer of a call that sleeps (`wait`).
--
-- Concurrency: in IndexQueue, OverflowQueue, UniqueIndexSet/Threads, UnrestrictedAtomic,
-- BumpAllocator and Sync one step is one shared access. The locals of a call that is under way are a
-- constructor of `Producer`, `Consumer` or `Thread`. A schedule is a list of events, so a theorem about
-- every schedule is about every interleaving of those accesses. Memory is sequentially consistent; the
-- memory orderings of the source are not modelled, and so neither are the data races that weak
-- orderings leave.
--
-- Fuel: the loops of `acquire_raw_index` and `release_raw_index` retry after a failed exchange.
-- Where their calls come one after the other the first exchange succeeds, so they have fuel for
-- one round at least; in UniqueIndexSet/Threads each round is steps of its own. The exchanges of
-- the reference counters and decision counters come one after the other too, and take effect at
-- once. The rounds of `acquire_read_and_write_position` read the queue at successive moments, with
-- any amount of fuel, since another thread may keep it from ending. All other loops are by
-- structural recursion; the clear and fill loops have as many rounds as the source counts.
--
-- Not modelled: the interleaving of calls on one Container beyond an update in the middle of an
-- `add`, and of calls on one FileReferenceSet; the queue of values of any type in spsc/queue.rs, the
-- condition variable of concurrency_primitives, the trigger queue (elkodon_bb/threadsafe), addresses
-- and ports, and `FilePath::from_path_and_file`, which are left for later; the heap allocator, which
-- calls std::alloc; the offsets of relocatable memory; formatting and hashing; the POSIX wrappers
-- (elkodon_bb/posix, elkodon_pal/posix), which are system calls; the rest of elkodon_cal, and elkodon,
-- which build on them; logging, tests, benchmarks and examples.
pub mod Prelude
pub mod Outcome
pub mod Ring
pub mod Container
pub mod LockFree
pub mod Elementary
pub mod Memory
pub mod SharedMemoryDirectory
pub mod SystemTypes
pub mod Sync
