-- ===== src/Sync.antt =====
-- elkodon_pal/concurrency_primitives: the lock, the semaphore and the barrier, each as a state that
-- threads change by one atomic access at a time.
pub mod Family
pub mod ReaderPreference
pub mod WriterPreference
pub mod Mutex
pub mod Semaphore
pub mod Barrier
mod Tests
