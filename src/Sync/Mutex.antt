-- ===== src/Sync/Mutex.antt =====
-- elkodon_pal/concurrency_primitives/src/mutex.rs: one atomic access of a method at a time, and the
-- answer of `wait`, which sleeps, comes with the event.
pub mod Exclusion
use iceoryx_in_rust.Prelude.{ℕ, ◌+◌, Bool, true, false, ◌==◌, if◌then◌else◌, List}
use iceoryx_in_rust.Sync.Family.{run}
use iceoryx_in_rust.Sync.ReaderPreference.{spin_repetitions}

pub record Mutex : Type 0 where
  pub state : ℕ

pub new : Mutex
new = record { state = 0 }

-- Where a thread stands; `spinning` is in the loop of `uncontested_lock`, `sleeping` and
-- `exchanging` are in that of `lock`.
pub data Thread : Type 0 where
  outside : Thread
  trying : Thread
  lock_trying : Thread
  spinning : (retry_counter : ℕ) → Thread
  sleeping : Thread
  exchanging : (keep_running : Bool) → Thread
  owner : Thread

-- The exchange that all methods share: from 0 to 1, and else on to another place.
pub exchange : Mutex → Thread → Thread × Mutex
exchange m otherwise = if m.state == 0 then (owner, record { state = 1 }) else (otherwise, m)

pub try_lock : Mutex → Thread × Mutex
unfolding exchange
try_lock m = exchange m outside

-- `uncontested_lock` tries once, and then until the counter meets its limit.
pub uncontested_lock_first : Mutex → Thread × Mutex
unfolding exchange
uncontested_lock_first m = exchange m (spinning 0)

pub uncontested_lock_spin : Mutex → ℕ → Thread × Mutex
unfolding exchange
uncontested_lock_spin m retry_counter =
    exchange m
      (if spin_repetitions == retry_counter + 1 then sleeping else spinning (retry_counter + 1))

pub lock_exchange : Mutex → Bool → Thread × Mutex
unfolding exchange
lock_exchange m keep_running = exchange m (if keep_running then sleeping else outside)

pub unlock : Mutex → Mutex
unlock m = record { state = 0 }

pub data Event : Type 0 where
  call_try_lock : Event
  call_lock : Event
  call_unlock : Event
  access : (woken : Bool) → Event

pub act : Event → Mutex → Thread → Thread × Mutex
unfolding try_lock uncontested_lock_first uncontested_lock_spin lock_exchange unlock
act call_try_lock m outside = (trying, m)
act call_lock m outside = (lock_trying, m)
act call_unlock m owner = (outside, unlock m)
act (access woken) m trying = try_lock m
act (access woken) m lock_trying = uncontested_lock_first m
act (access woken) m (spinning retry_counter) = uncontested_lock_spin m retry_counter
act (access woken) m sleeping = (exchanging woken, m)
act (access woken) m (exchanging keep_running) = lock_exchange m keep_running
act _ m t = (t, m)

abbrev pub run_threads : List (ℕ × Event) → Mutex × List Thread → Mutex × List Thread
run_threads = run outside act
