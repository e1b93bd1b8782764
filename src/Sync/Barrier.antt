-- ===== src/Sync/Barrier.antt =====
-- elkodon_pal/concurrency_primitives/src/barrier.rs: one atomic access of `wait` at a time. The
-- `wait` that is handed in only sleeps.
pub mod Meeting
use iceoryx_in_rust.Prelude.{ℕ, ◌+◌, Bool, true, false, ◌==◌, if◌then◌else◌, List}
use iceoryx_in_rust.Prelude.Word.{sub_u32}
use iceoryx_in_rust.Sync.Family.{run}
use iceoryx_in_rust.Sync.ReaderPreference.{spin_repetitions}

pub record Barrier : Type 0 where
  pub waiters : ℕ

pub new : ℕ → Barrier
new number_of_waiters = record { waiters = number_of_waiters }

-- A thread meets the others once.
pub data Thread : Type 0 where
  outside : Thread
  arriving : Thread
  spinning : (retry_counter : ℕ) → Thread
  looping : Thread
  sleeping : (current_value : ℕ) → Thread
  passed : Thread

pub wait_arrive : Barrier → Thread × Barrier
wait_arrive b =
    (if b.waiters == 1 then passed else spinning 0, record { waiters = sub_u32 b.waiters 1 })

pub wait_spin : Barrier → ℕ → Thread
wait_spin b retry_counter =
    if b.waiters == 0
    then looping
    else (if spin_repetitions == retry_counter + 1 then looping else spinning (retry_counter + 1))

pub wait_loop : Barrier → Thread
wait_loop b = if b.waiters == 0 then passed else sleeping b.waiters

pub data Event : Type 0 where
  call_wait : Event
  access : Event

pub act : Event → Barrier → Thread → Thread × Barrier
unfolding wait_arrive wait_spin wait_loop
act call_wait b outside = (arriving, b)
act access b arriving = wait_arrive b
act access b (spinning retry_counter) = (wait_spin b retry_counter, b)
act access b looping = (wait_loop b, b)
act access b (sleeping current_value) = (looping, b)
act _ b t = (t, b)

abbrev pub run_threads : List (ℕ × Event) → Barrier × List Thread → Barrier × List Thread
run_threads = run outside act
