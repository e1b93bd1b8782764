-- ===== src/Sync/WriterPreference.antt =====
-- elkodon_pal/concurrency_primitives/src/rwlock.rs, `RwLockWriterPreference`: each function below is
-- one atomic access of the method that it is named for. `wait` sleeps and tells whether to go on;
-- that answer comes with the event. The wake-up calls change no state of the lock.
pub mod Counts
pub mod Accesses
pub mod Exclusion
use iceoryx_in_rust.Prelude.{ℕ, ◌+◌, ◌%◌, Bool, true, false, ◌==◌, if◌then◌else◌, leb, ltb, List}
use iceoryx_in_rust.Prelude.Word.{add_u32, sub_u32}
use iceoryx_in_rust.Sync.Family.{run}
use iceoryx_in_rust.Sync.ReaderPreference.{
  write_locked, unlocked, spin_repetitions, Event, call_try_read_lock, call_read_lock,
  call_try_write_lock, call_write_lock, call_unlock, access,
}

pub record RwLockWriterPreference : Type 0 where
  pub state : ℕ
  pub writer_wake_counter : ℕ

pub new : RwLockWriterPreference
new = record { state = unlocked; writer_wake_counter = 0 }

-- Where a thread stands. One that is `announcing` has to raise the wake counter still.
pub data Thread : Type 0 where
  outside : Thread
  try_reading : Thread
  try_joining : (seen : ℕ) → Thread
  read_loading : (spins : ℕ) (keep_running : Bool) → Thread
  read_waiting : (seen spins : ℕ) → Thread
  joining : (seen spins : ℕ) (keep_running : Bool) → Thread
  reader : Thread
  try_writing : Thread
  write_loading : (spins : ℕ) (keep_running : Bool) → Thread
  write_exchanging : (seen spins : ℕ) (keep_running : Bool) → Thread
  marking : (seen spins : ℕ) → Thread
  write_waiting : (spins : ℕ) → Thread
  sleeping : (wake_counter spins : ℕ) → Thread
  unmarking : (seen : ℕ) → Thread
  announcing : Thread
  writer : Thread
  reader_unlocking : Thread
  writer_unlocking : Thread
  storing : (is_writer : Bool) → Thread
  subtracting : (is_writer : Bool) → Thread

pub try_read_lock_load : RwLockWriterPreference → Thread
try_read_lock_load q = if q.state % 2 == 1 then outside else try_joining q.state

pub try_read_lock_exchange : RwLockWriterPreference → ℕ → Thread × RwLockWriterPreference
try_read_lock_exchange q seen =
    if q.state == seen then (reader, record q { state = add_u32 seen 2 }) else (outside, q)

-- `read_lock` at the head of its loop with the state it has seen.
pub read_lock_test : ℕ → ℕ → Bool → Thread
read_lock_test seen spins keep_running =
    if seen % 2 == 1
    then (if keep_running then read_waiting seen spins else outside)
    else joining seen spins keep_running

pub read_lock_wait : Bool → ℕ → Thread
read_lock_wait woken spins =
    if ltb spins spin_repetitions then read_loading (spins + 1) true else read_loading spins woken

pub read_lock_exchange : RwLockWriterPreference → ℕ → ℕ → Bool → Thread × RwLockWriterPreference
unfolding read_lock_test
read_lock_exchange q seen spins keep_running =
    if q.state == seen
    then (reader, record q { state = add_u32 seen 2 })
    else (read_lock_test q.state spins keep_running, q)

pub try_write_lock : RwLockWriterPreference → Thread × RwLockWriterPreference
try_write_lock q =
    if q.state == 0 then (writer, record q { state = write_locked }) else (outside, q)

-- The inner loop of `write_lock`, which takes the mark back before the call gives up.
pub write_lock_give_up : ℕ → Thread
write_lock_give_up seen =
    if seen % 2 == 0 then outside else (if seen == write_locked then outside else unmarking seen)

-- `write_lock` behind its first exchange.
pub write_lock_next : ℕ → ℕ → Bool → Thread
unfolding write_lock_give_up
write_lock_next seen spins true = if seen % 2 == 0 then marking seen spins else write_waiting spins
write_lock_next seen spins false = write_lock_give_up seen

-- `write_lock` at the head of its loop.
pub write_lock_test : ℕ → ℕ → Bool → Thread
unfolding write_lock_next
write_lock_test seen spins keep_running =
    if leb seen 1
    then write_exchanging seen spins keep_running
    else write_lock_next seen spins keep_running

pub write_lock_exchange : RwLockWriterPreference → ℕ → ℕ → Bool → Thread × RwLockWriterPreference
unfolding write_lock_next
write_lock_exchange q seen spins keep_running =
    if q.state == seen
    then (writer, record q { state = write_locked })
    else (write_lock_next q.state spins keep_running, q)

-- The mark keeps readers out; whether it is set is not looked at.
pub write_lock_mark : RwLockWriterPreference → ℕ → RwLockWriterPreference
write_lock_mark q seen = if q.state == seen then record q { state = add_u32 seen 1 } else q

pub write_lock_unmark : RwLockWriterPreference → ℕ → Thread × RwLockWriterPreference
unfolding write_lock_give_up
write_lock_unmark q seen =
    if q.state == seen
    then (announcing, record q { state = sub_u32 seen 1 })
    else (write_lock_give_up q.state, q)

pub write_lock_wait : RwLockWriterPreference → ℕ → Thread
write_lock_wait q spins =
    if ltb spins spin_repetitions
    then write_loading (spins + 1) true
    else sleeping q.writer_wake_counter spins

pub unlock_load : RwLockWriterPreference → Bool → Thread
unlock_load q is_writer =
    if q.state == write_locked then storing is_writer else subtracting is_writer

pub unlock_subtract : RwLockWriterPreference → Thread × RwLockWriterPreference
unlock_subtract q =
    (if q.state == 3 then announcing else outside, record q { state = sub_u32 q.state 2 })

pub call : Event → Thread → Thread
call call_try_read_lock outside = try_reading
call call_read_lock outside = read_loading 0 true
call call_try_write_lock outside = try_writing
call call_write_lock outside = write_loading 0 true
call call_unlock reader = reader_unlocking
call call_unlock writer = writer_unlocking
call _ t = t

pub advance : Bool → RwLockWriterPreference → Thread → Thread × RwLockWriterPreference
unfolding try_read_lock_load try_read_lock_exchange read_lock_test read_lock_wait read_lock_exchange
    try_write_lock write_lock_test write_lock_exchange write_lock_mark write_lock_unmark
    write_lock_wait unlock_load unlock_subtract
advance woken q try_reading = (try_read_lock_load q, q)
advance woken q (try_joining seen) = try_read_lock_exchange q seen
advance woken q (read_loading spins keep_running) = (read_lock_test q.state spins keep_running, q)
advance woken q (read_waiting seen spins) = (read_lock_wait woken spins, q)
advance woken q (joining seen spins keep_running) = read_lock_exchange q seen spins keep_running
advance woken q try_writing = try_write_lock q
advance woken q (write_loading spins keep_running) = (write_lock_test q.state spins keep_running, q)
advance woken q (write_exchanging seen spins keep_running) =
    write_lock_exchange q seen spins keep_running
advance woken q (marking seen spins) = (write_waiting spins, write_lock_mark q seen)
advance woken q (write_waiting spins) = (write_lock_wait q spins, q)
advance woken q (sleeping wake_counter spins) = (write_loading spins woken, q)
advance woken q (unmarking seen) = write_lock_unmark q seen
advance woken q announcing =
    (outside, record q { writer_wake_counter = add_u32 q.writer_wake_counter 1 })
advance woken q reader_unlocking = (unlock_load q false, q)
advance woken q writer_unlocking = (unlock_load q true, q)
advance woken q (storing is_writer) = (announcing, record q { state = unlocked })
advance woken q (subtracting is_writer) = unlock_subtract q
advance woken q t = (t, q)

pub act : Event → RwLockWriterPreference → Thread → Thread × RwLockWriterPreference
unfolding call advance
act (access woken) q t = advance woken q t
act e q t = (call e t, q)

abbrev pub run_threads :
    List (ℕ × Event) → RwLockWriterPreference × List Thread → RwLockWriterPreference × List Thread
run_threads = run outside act
