-- ===== src/Sync/ReaderPreference.antt =====
-- elkodon_pal/concurrency_primitives/src/rwlock.rs, `RwLockReaderPreference`: each function below is
-- one atomic access of the method that it is named for. `wait` sleeps and tells whether to go on;
-- that answer comes with the event. The wake-up calls change no state of the lock.
pub mod Counts
pub mod Accesses
pub mod Exclusion
use iceoryx_in_rust.Prelude.{ℕ, ◌+◌, Bool, true, false, ◌==◌, if◌then◌else◌, ltb, List}
use iceoryx_in_rust.Prelude.Word.{add_u32, sub_u32}
use iceoryx_in_rust.Sync.Family.{run}

abbrev pub write_locked : ℕ
write_locked = 4294967295

abbrev pub unlocked : ℕ
unlocked = 0

abbrev pub spin_repetitions : ℕ
spin_repetitions = 10000

pub record RwLockReaderPreference : Type 0 where
  pub reader_count : ℕ

pub new : RwLockReaderPreference
new = record { reader_count = unlocked }

-- Where a thread stands: in a call, with the locals that are live there, or outside of any, or
-- holding the lock as a reader or as the writer.
pub data Thread : Type 0 where
  outside : Thread
  try_reading : Thread
  try_joining : (seen : ℕ) → Thread
  read_loading : (spins : ℕ) (keep_running : Bool) → Thread
  read_waiting : (seen spins : ℕ) → Thread
  joining : (seen spins : ℕ) (keep_running : Bool) → Thread
  reader : Thread
  try_writing : Thread
  writing : (spins : ℕ) (keep_running : Bool) → Thread
  write_waiting : (seen spins : ℕ) → Thread
  writer : Thread
  reader_unlocking : Thread
  writer_unlocking : Thread
  storing : (is_writer : Bool) → Thread
  subtracting : (is_writer : Bool) → Thread

-- `try_read_lock` loads the count, and gives up or exchanges it.
pub try_read_lock_load : RwLockReaderPreference → Thread
try_read_lock_load q =
    if q.reader_count == write_locked then outside else try_joining q.reader_count

pub try_read_lock_exchange : RwLockReaderPreference → ℕ → Thread × RwLockReaderPreference
try_read_lock_exchange q seen =
    if q.reader_count == seen
    then (reader, record { reader_count = add_u32 seen 1 })
    else (outside, q)

-- `read_lock` at the head of its inner loop with the count it has seen.
pub read_lock_test : ℕ → ℕ → Bool → Thread
read_lock_test seen spins keep_running =
    if seen == write_locked
    then (if keep_running then read_waiting seen spins else outside)
    else joining seen spins keep_running

-- It spins, or calls `wait`, which answers `woken`.
pub read_lock_wait : Bool → ℕ → Thread
read_lock_wait woken spins =
    if ltb spins spin_repetitions then read_loading (spins + 1) true else read_loading spins woken

pub read_lock_exchange : RwLockReaderPreference → ℕ → ℕ → Bool → Thread × RwLockReaderPreference
unfolding read_lock_test
read_lock_exchange q seen spins keep_running =
    if q.reader_count == seen
    then (reader, record { reader_count = add_u32 seen 1 })
    else (read_lock_test q.reader_count spins keep_running, q)

pub try_write_lock : RwLockReaderPreference → Thread × RwLockReaderPreference
try_write_lock q =
    if q.reader_count == unlocked
    then (writer, record { reader_count = write_locked })
    else (outside, q)

pub write_lock_exchange : RwLockReaderPreference → ℕ → Bool → Thread × RwLockReaderPreference
write_lock_exchange q spins keep_running =
    if q.reader_count == unlocked
    then (writer, record { reader_count = write_locked })
    else (if keep_running then write_waiting q.reader_count spins else outside, q)

pub write_lock_wait : Bool → ℕ → Thread
write_lock_wait woken spins =
    if ltb spins spin_repetitions then writing (spins + 1) true else writing spins woken

-- `unlock` loads the count, and then stores zero or subtracts one; `is_writer` only remembers how
-- the caller held the lock.
pub unlock_load : RwLockReaderPreference → Bool → Thread
unlock_load q is_writer =
    if q.reader_count == write_locked then storing is_writer else subtracting is_writer

pub data Event : Type 0 where
  call_try_read_lock : Event
  call_read_lock : Event
  call_try_write_lock : Event
  call_write_lock : Event
  call_unlock : Event
  access : (woken : Bool) → Event

-- A thread outside may call any of the lock functions; one that holds the lock may unlock it.
pub call : Event → Thread → Thread
call call_try_read_lock outside = try_reading
call call_read_lock outside = read_loading 0 true
call call_try_write_lock outside = try_writing
call call_write_lock outside = writing 0 true
call call_unlock reader = reader_unlocking
call call_unlock writer = writer_unlocking
call _ t = t

pub advance : Bool → RwLockReaderPreference → Thread → Thread × RwLockReaderPreference
unfolding try_read_lock_load try_read_lock_exchange read_lock_test read_lock_wait read_lock_exchange
    try_write_lock write_lock_exchange write_lock_wait unlock_load
advance woken q try_reading = (try_read_lock_load q, q)
advance woken q (try_joining seen) = try_read_lock_exchange q seen
advance woken q (read_loading spins keep_running) =
    (read_lock_test q.reader_count spins keep_running, q)
advance woken q (read_waiting seen spins) = (read_lock_wait woken spins, q)
advance woken q (joining seen spins keep_running) = read_lock_exchange q seen spins keep_running
advance woken q try_writing = try_write_lock q
advance woken q (writing spins keep_running) = write_lock_exchange q spins keep_running
advance woken q (write_waiting seen spins) = (write_lock_wait woken spins, q)
advance woken q reader_unlocking = (unlock_load q false, q)
advance woken q writer_unlocking = (unlock_load q true, q)
advance woken q (storing is_writer) = (outside, record { reader_count = unlocked })
advance woken q (subtracting is_writer) =
    (outside, record { reader_count = sub_u32 q.reader_count 1 })
advance woken q t = (t, q)

pub act : Event → RwLockReaderPreference → Thread → Thread × RwLockReaderPreference
unfolding call advance
act (access woken) q t = advance woken q t
act e q t = (call e t, q)

abbrev pub run_threads :
    List (ℕ × Event) → RwLockReaderPreference × List Thread → RwLockReaderPreference × List Thread
run_threads = run outside act
