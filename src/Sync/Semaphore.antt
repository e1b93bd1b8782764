-- ===== src/Sync/Semaphore.antt =====
-- elkodon_pal/concurrency_primitives/src/semaphore.rs: one atomic access of a method at a time. What
-- `wait`, which sleeps, answers, and whether the weak exchange fails without a cause, come with the
-- event.
pub mod Permits
mod Tests
use iceoryx_in_rust.Prelude.{ℕ, ◌+◌, Bool, true, false, not, ◌==◌, if◌then◌else◌, ltb, List}
use iceoryx_in_rust.Prelude.Word.{add_u32, sub_u32}
use iceoryx_in_rust.Sync.Family.{run}
use iceoryx_in_rust.Sync.ReaderPreference.{spin_repetitions}

-- The semaphore, and how often `post` was called and a permit was taken.
pub record Semaphore : Type 0 where
  pub value : ℕ
  pub posted : ℕ
  pub taken : ℕ

pub new : ℕ → Semaphore
new initial_value = record { value = initial_value; posted = 0; taken = 0 }

pub data Thread : Type 0 where
  outside : Thread
  loading : (retry_counter : ℕ) (keep_running : Bool) → Thread
  waiting : (retry_counter : ℕ) → Thread
  exchanging : (current_value retry_counter : ℕ) (keep_running : Bool) → Thread
  try_loading : Thread
  try_exchanging : (current_value : ℕ) → Thread

pub post : Semaphore → Semaphore
post s = record s { value = add_u32 s.value 1; posted = s.posted + 1 }

-- The head of the inner loop of `wait`.
pub wait_test : ℕ → ℕ → Bool → Thread
wait_test current_value retry_counter keep_running =
    if current_value == 0
    then (if keep_running then waiting retry_counter else outside)
    else exchanging current_value retry_counter keep_running

pub wait_sleep : Bool → ℕ → Thread
wait_sleep woken retry_counter =
    if ltb retry_counter spin_repetitions
    then loading (retry_counter + 1) true
    else loading retry_counter woken

pub wait_exchange : Bool → Semaphore → ℕ → ℕ → Bool → Thread × Semaphore
unfolding wait_test
wait_exchange spurious s current_value retry_counter keep_running =
    if s.value == current_value
    then (if spurious
        then (wait_test s.value retry_counter keep_running, s)
        else (outside, record s { value = sub_u32 current_value 1; taken = s.taken + 1 }))
    else (wait_test s.value retry_counter keep_running, s)

pub try_wait_test : ℕ → Thread
try_wait_test current_value = if current_value == 0 then outside else try_exchanging current_value

pub try_wait_exchange : Bool → Semaphore → ℕ → Thread × Semaphore
unfolding try_wait_test
try_wait_exchange spurious s current_value =
    if s.value == current_value
    then (if spurious
        then (try_wait_test s.value, s)
        else (outside, record s { value = sub_u32 current_value 1; taken = s.taken + 1 }))
    else (try_wait_test s.value, s)

pub data Event : Type 0 where
  call_post : Event
  call_wait : Event
  call_try_wait : Event
  access : (woken spurious : Bool) → Event

pub act : Event → Semaphore → Thread → Thread × Semaphore
unfolding post wait_test wait_sleep wait_exchange try_wait_test try_wait_exchange
act call_post s outside = (outside, post s)
act call_wait s outside = (loading 0 true, s)
act call_try_wait s outside = (try_loading, s)
act (access woken spurious) s (loading retry_counter keep_running) =
    (wait_test s.value retry_counter keep_running, s)
act (access woken spurious) s (waiting retry_counter) = (wait_sleep woken retry_counter, s)
act (access woken spurious) s (exchanging current_value retry_counter keep_running) =
    wait_exchange spurious s current_value retry_counter keep_running
act (access woken spurious) s try_loading = (try_wait_test s.value, s)
act (access woken spurious) s (try_exchanging current_value) =
    try_wait_exchange spurious s current_value
act _ s t = (t, s)

abbrev pub run_threads : List (ℕ × Event) → Semaphore × List Thread → Semaphore × List Thread
run_threads = run outside act
