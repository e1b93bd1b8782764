-- ===== src/Sync/Tests.antt =====
-- The laws of the primitives at two threads and short schedules.
use iceoryx_in_rust.Prelude.{ℕ, ◌+◌, ◌*◌, ◌≤◌, ◌≡◌, ◌⊎◌, true, List, [], ◌∷◌, arith, replicate}
use iceoryx_in_rust.Sync.Family.{total}
use iceoryx_in_rust.Sync.ReaderPreference
use iceoryx_in_rust.Sync.ReaderPreference.{
  Event, call_read_lock, call_write_lock, call_unlock, write_locked,
}
use iceoryx_in_rust.Sync.ReaderPreference.Exclusion.{writer_alone}
use iceoryx_in_rust.Sync.WriterPreference
use iceoryx_in_rust.Sync.WriterPreference.Exclusion.{writer_preferred_alone}
use iceoryx_in_rust.Sync.Mutex
use iceoryx_in_rust.Sync.Mutex.Exclusion.{one_lock_owner}
use iceoryx_in_rust.Sync.Barrier
use iceoryx_in_rust.Sync.Barrier.Meeting.{all_or_none}

-- Thread 0 takes the lock as a reader, and thread 1 tries to take it as the writer.
abbrev contest : List (ℕ × Event)
contest =
    (0, call_read_lock)
    ∷ (0, ReaderPreference.access true)
    ∷ (0, ReaderPreference.access true)
    ∷ (1, call_write_lock)
    ∷ (1, ReaderPreference.access true)
    ∷ (1, ReaderPreference.access true)
    ∷ []

abbrev reader_contest : ReaderPreference.RwLockReaderPreference × List ReaderPreference.Thread
reader_contest =
    ReaderPreference.run_threads contest
      (ReaderPreference.new, replicate 2 ReaderPreference.outside)

writer_alone_example :
    ((total ReaderPreference.Counts.writers reader_contest.1 ≡ 0)
      × (reader_contest.0.reader_count ≡ total ReaderPreference.Counts.readers reader_contest.1))
    ⊎ ((total ReaderPreference.Counts.writers reader_contest.1 ≡ 1)
        × (total ReaderPreference.Counts.readers reader_contest.1 ≡ 0)
        × (reader_contest.0.reader_count ≡ write_locked))
writer_alone_example = writer_alone 2 contest (omega arith)

abbrev writer_contest : WriterPreference.RwLockWriterPreference × List WriterPreference.Thread
writer_contest =
    WriterPreference.run_threads contest
      (WriterPreference.new, replicate 2 WriterPreference.outside)

writer_preferred_alone_example :
    ((total WriterPreference.Counts.writers writer_contest.1 ≡ 0)
      × (2 * total WriterPreference.Counts.readers writer_contest.1 ≤ writer_contest.0.state)
      × (writer_contest.0.state ≤ 2 * total WriterPreference.Counts.readers writer_contest.1 + 1))
    ⊎ ((total WriterPreference.Counts.writers writer_contest.1 ≡ 1)
        × (total WriterPreference.Counts.readers writer_contest.1 ≡ 0)
        × (writer_contest.0.state ≡ write_locked))
writer_preferred_alone_example = writer_preferred_alone 2 contest (omega arith)

abbrev lock_contest : List (ℕ × Mutex.Event)
lock_contest =
    (0, Mutex.call_lock)
    ∷ (0, Mutex.access true)
    ∷ (1, Mutex.call_try_lock)
    ∷ (1, Mutex.access true)
    ∷ (0, Mutex.call_unlock)
    ∷ []

one_lock_owner_example :
    ((Mutex.run_threads lock_contest (Mutex.new, replicate 2 Mutex.outside)).0.state
      ≡ total Mutex.Exclusion.owners
          (Mutex.run_threads lock_contest (Mutex.new, replicate 2 Mutex.outside)).1)
    × (total Mutex.Exclusion.owners
          (Mutex.run_threads lock_contest (Mutex.new, replicate 2 Mutex.outside)).1
        ≤ 1)
one_lock_owner_example = one_lock_owner 2 lock_contest

abbrev meeting : List (ℕ × Barrier.Event)
meeting =
    (0, Barrier.call_wait) ∷ (0, Barrier.access) ∷ (1, Barrier.call_wait) ∷ (1, Barrier.access) ∷ []

all_or_none_example :
    (total Barrier.Meeting.returned
        (Barrier.run_threads meeting (Barrier.new 2, replicate 2 Barrier.outside)).1
      ≡ 0)
    ⊎ (total Barrier.Meeting.arrived
          (Barrier.run_threads meeting (Barrier.new 2, replicate 2 Barrier.outside)).1
        ≡ 2)
all_or_none_example = all_or_none 2 meeting (omega arith)
