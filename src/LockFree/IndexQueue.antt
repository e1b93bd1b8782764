-- ===== src/LockFree/IndexQueue.antt =====
-- elkodon_bb/lock_free/src/spsc/index_queue.rs: the queue of indices for one producer and one
-- consumer. `produce` and `consume` are the calls `push` and `pop`, one shared access at a time.
pub mod Invariant
pub mod Safety
pub mod Tokens
pub mod Snapshot
mod Tests
use iceoryx_in_rust.Prelude.{
  ℕ, zero, suc, ◌+◌, ◌-◌, ◌*◌, ◌%◌, Bool, true, false, not, Option, none, some, List, [], ◌∷◌, ◌++◌,
  ◌==◌, ◌&&◌, if◌then◌else◌, get_or, set, replicate,
}
use iceoryx_in_rust.Prelude.Word.{add_usize, sub_usize}
use iceoryx_in_rust.Outcome.{Outcome, done, ◌>>◌, panic_if}

pub record IndexQueue : Type 0 where
  pub cells : List ℕ
  pub capacity : ℕ
  pub write_position : ℕ
  pub read_position : ℕ
  pub has_producer : Bool
  pub has_consumer : Bool
  pub is_memory_initialized : Bool

pub new : ℕ → IndexQueue
new capacity = record {
  cells = replicate capacity 0;
  capacity = capacity;
  write_position = 0;
  read_position = 0;
  has_producer = true;
  has_consumer = true;
  is_memory_initialized = true;
}

pub new_uninit : ℕ → IndexQueue
new_uninit capacity = record {
  cells = [];
  capacity = capacity;
  write_position = 0;
  read_position = 0;
  has_producer = true;
  has_consumer = true;
  is_memory_initialized = false;
}

-- Whether the allocator grants the memory is an argument; its error is passed on as `false`.
pub init : IndexQueue → Bool → Outcome (Bool × IndexQueue)
init q granted =
    panic_if q.is_memory_initialized
    >> (if granted
        then done (true, record q { cells = replicate q.capacity 0; is_memory_initialized = true })
        else done (false, q))

pub verify_init : IndexQueue → Outcome (Unit {0})
verify_init q = panic_if (not q.is_memory_initialized)

-- `compare_exchange(true, false)` on the flag; `true` hands the producer out.
pub acquire_producer : IndexQueue → Outcome (Bool × IndexQueue)
unfolding verify_init
acquire_producer q =
    verify_init q
    >> done (q.has_producer, if q.has_producer then record q { has_producer = false } else q)

pub drop_producer : IndexQueue → IndexQueue
drop_producer q = record q { has_producer = true }

pub acquire_consumer : IndexQueue → Outcome (Bool × IndexQueue)
unfolding verify_init
acquire_consumer q =
    verify_init q
    >> done (q.has_consumer, if q.has_consumer then record q { has_consumer = false } else q)

pub drop_consumer : IndexQueue → IndexQueue
drop_consumer q = record q { has_consumer = true }

-- The index that `at` points to.
abbrev pub at : IndexQueue → ℕ → ℕ
at q position = position % q.capacity

-- Where a call of `push` stands, with the locals that are live there.
pub data Producer : Type 0 where
  idle : Producer
  starting : (value : ℕ) → Producer
  loaded : (value write_position : ℕ) → Producer
  admitted : (value write_position : ℕ) → Producer
  written : (value write_position : ℕ) → Producer

-- One shared access of `push`. What the call returns comes with its value, once it returns.
pub produce : IndexQueue → Producer → Producer × IndexQueue × Option (ℕ × Bool)
produce q Producer.idle = (Producer.idle, q, none)
produce q (starting value) = (loaded value q.write_position, q, none)
produce q (loaded value w) =
    if w == add_usize q.read_position q.capacity
    then (Producer.idle, q, some (value, false))
    else (admitted value w, q, none)
produce q (admitted value w) =
    (written value w, record q { cells = set q.cells (at q w) value }, none)
produce q (written value w) =
    (Producer.idle, record q { write_position = add_usize w 1 }, some (value, true))

-- Where a call of `pop` stands.
pub data Consumer : Type 0 where
  idle : Consumer
  starting : Consumer
  loaded : (read_position : ℕ) → Consumer
  taking : (read_position : ℕ) → Consumer
  taken : (read_position value : ℕ) → Consumer

-- One shared access of `pop`, and what the call returns.
pub consume : IndexQueue → Consumer → Consumer × IndexQueue × Option (Option ℕ)
consume q Consumer.idle = (Consumer.idle, q, none)
consume q Consumer.starting = (Consumer.loaded q.read_position, q, none)
consume q (Consumer.loaded r) =
    if r == q.write_position then (Consumer.idle, q, some none) else (taking r, q, none)
consume q (taking r) = (taken r (get_or q.cells (at q r) 0), q, none)
consume q (taken r value) =
    (Consumer.idle, record q { read_position = add_usize r 1 }, some (some value))

-- The queue with its two threads. `pushed` and `popped` record what the calls have returned: the
-- values of the pushes that returned true, and the values of the pops that returned one.
pub record System : Type 0 where
  pub queue : IndexQueue
  pub producer : Producer
  pub consumer : Consumer
  pub pushed : List ℕ
  pub popped : List ℕ

-- What happens next: a call begins, or a thread makes its next access.
pub data Event : Type 0 where
  call_push : (value : ℕ) → Event
  call_pop : Event
  run_producer : Event
  run_consumer : Event

-- A thread begins a call only when it has returned from the last one.
pub begin_push : ℕ → Producer → Producer
begin_push value Producer.idle = starting value
begin_push value p = p

pub begin_pop : Consumer → Consumer
begin_pop Consumer.idle = Consumer.starting
begin_pop c = c

pub log_push : Option (ℕ × Bool) → List ℕ → List ℕ
log_push (some (value, true)) xs = xs ++ (value ∷ [])
log_push _ xs = xs

pub log_pop : Option (Option ℕ) → List ℕ → List ℕ
log_pop (some (some value)) xs = xs ++ (value ∷ [])
log_pop _ xs = xs

pub step : Event → System → System
unfolding begin_push begin_pop log_push log_pop produce consume
step (call_push value) s = record s { producer = begin_push value s.producer }
step call_pop s = record s { consumer = begin_pop s.consumer }
step run_producer s =
    let (p, q, returned) = produce s.queue s.producer in
    record s { queue = q; producer = p; pushed = log_push returned s.pushed }
step run_consumer s =
    let (c, q, returned) = consume s.queue s.consumer in
    record s { queue = q; consumer = c; popped = log_pop returned s.popped }

-- A schedule, its first event first.
pub run : List Event → System → System
run [] s = s
run (e ∷ es) s = run es (step e s)

pub start : ℕ → System
unfolding new
start capacity = record {
  queue = new capacity;
  producer = Producer.idle;
  consumer = Consumer.idle;
  pushed = [];
  popped = [];
}

-- The loop of `acquire_read_and_write_position`: a round reads the two positions at four moments
-- from `t` on, and `none` means that `fuel` rounds were not enough. `at_time` is the queue as other
-- threads leave it at each moment.
pub acquire_read_and_write_position : (ℕ → IndexQueue) → ℕ → ℕ → Option (ℕ × ℕ)
acquire_read_and_write_position at_time zero t = none
acquire_read_and_write_position at_time (suc fuel) t =
    let again = acquire_read_and_write_position at_time fuel (t + 4) in
    let w = (at_time t).write_position in
    let r = (at_time (t + 1)).read_position in
    if (w == (at_time (t + 2)).write_position) && (r == (at_time (t + 3)).read_position)
    then some (w, r)
    else again

-- `len`, `is_empty` and `is_full` on the two positions.
pub len_of : ℕ × ℕ → ℕ
len_of (w, r) = sub_usize w r

pub is_empty_of : ℕ × ℕ → Bool
is_empty_of (w, r) = w == r

pub is_full_of : ℕ → ℕ × ℕ → Bool
is_full_of capacity (w, r) = w == add_usize r capacity

-- `const_memory_size`, with the size and alignment of `u64`.
pub const_memory_size : ℕ → ℕ
const_memory_size capacity = 8 * capacity + 8 - 1
