-- ===== src/LockFree/OverflowQueue.antt =====
-- elkodon_bb/lock_free/src/spsc/safely_overflowing_index_queue.rs: the queue for one producer and
-- one consumer that hands its oldest index back to the producer when it is full. `produce` and
-- `consume` are the calls `push` and `pop`, one shared access at a time. Of the cells there is one
-- more than the capacity.
pub mod Invariant
pub mod Threads
pub mod Produce
pub mod Consume
pub mod Schedule
pub mod Safety
mod Tests
use iceoryx_in_rust.Prelude.{
  ℕ, zero, suc, ◌+◌, ◌-◌, ◌*◌, ◌%◌, Bool, true, false, not, Option, none, some, List, [], ◌∷◌, ◌++◌,
  ◌==◌, if◌then◌else◌, get_or, set, replicate,
}
use iceoryx_in_rust.Prelude.Word.{add_usize}
use iceoryx_in_rust.Outcome.{Outcome, done, ◌>>=◌, ◌>>◌, panic_if}

pub record OverflowQueue : Type 0 where
  pub cells : List ℕ
  pub capacity : ℕ
  pub write_position : ℕ
  pub read_position : ℕ
  pub has_producer : Bool
  pub has_consumer : Bool
  pub is_memory_initialized : Bool

pub new : ℕ → OverflowQueue
new capacity = record {
  cells = replicate (capacity + 1) 0;
  capacity = capacity;
  write_position = 0;
  read_position = 0;
  has_producer = true;
  has_consumer = true;
  is_memory_initialized = true;
}

pub new_uninit : ℕ → OverflowQueue
new_uninit capacity = record {
  cells = [];
  capacity = capacity;
  write_position = 0;
  read_position = 0;
  has_producer = true;
  has_consumer = true;
  is_memory_initialized = false;
}

-- Whether the allocator grants the memory is an argument; its error is passed on as `false`.
pub init : OverflowQueue → Bool → Outcome (Bool × OverflowQueue)
init q granted =
    panic_if q.is_memory_initialized
    >> (if granted
        then done
            (true, record q { cells = replicate (q.capacity + 1) 0; is_memory_initialized = true })
        else done (false, q))

pub verify_init : OverflowQueue → Outcome (Unit {0})
verify_init q = panic_if (not q.is_memory_initialized)

-- `compare_exchange(true, false)` on the flag; `true` hands the producer out.
pub acquire_producer : OverflowQueue → Outcome (Bool × OverflowQueue)
unfolding verify_init
acquire_producer q =
    verify_init q
    >> done (q.has_producer, if q.has_producer then record q { has_producer = false } else q)

pub drop_producer : OverflowQueue → OverflowQueue
drop_producer q = record q { has_producer = true }

pub acquire_consumer : OverflowQueue → Outcome (Bool × OverflowQueue)
unfolding verify_init
acquire_consumer q =
    verify_init q
    >> done (q.has_consumer, if q.has_consumer then record q { has_consumer = false } else q)

pub drop_consumer : OverflowQueue → OverflowQueue
drop_consumer q = record q { has_consumer = true }

-- The index that `at` points to.
abbrev pub at : OverflowQueue → ℕ → ℕ
at q position = position % (q.capacity + 1)

-- Where a call of `push` stands, with the locals that are live there.
pub data Producer : Type 0 where
  idle : Producer
  starting : (value : ℕ) → Producer
  loaded : (value write_position : ℕ) → Producer
  checked : (value write_position read_position : ℕ) (is_full : Bool) → Producer
  written : (value write_position read_position : ℕ) (is_full : Bool) → Producer
  evicting : (value read_position : ℕ) → Producer
  evicted : (value read_position : ℕ) → Producer

-- One shared access of `push`. What the call returns comes once it returns.
pub produce : OverflowQueue → Producer → Producer × OverflowQueue × Option (Option ℕ)
produce q Producer.idle = (Producer.idle, q, none)
produce q (starting value) = (loaded value q.write_position, q, none)
produce q (loaded value w) =
    (checked value w q.read_position (w == add_usize q.read_position q.capacity), q, none)
produce q (checked value w r is_full) =
    (written value w r is_full, record q { cells = set q.cells (at q w) value }, none)
produce q (written value w r true) =
    (evicting value r, record q { write_position = add_usize w 1 }, none)
produce q (written value w r false) =
    (Producer.idle, record q { write_position = add_usize w 1 }, some none)
produce q (evicting value r) =
    if q.read_position == r
    then (evicted value r, record q { read_position = add_usize r 1 }, none)
    else (Producer.idle, q, some none)
produce q (evicted value r) = (Producer.idle, q, some (some (get_or q.cells (at q r) 0)))

-- Where a call of `pop` stands.
pub data Consumer : Type 0 where
  idle : Consumer
  starting : Consumer
  loaded : (read_position : ℕ) → Consumer
  taking : (read_position : ℕ) → Consumer
  taken : (read_position value : ℕ) → Consumer

-- One shared access of `pop`, and what the call returns. A failed exchange begins the loop again at
-- the position that it saw.
pub consume : OverflowQueue → Consumer → Consumer × OverflowQueue × Option (Option ℕ)
consume q Consumer.idle = (Consumer.idle, q, none)
consume q Consumer.starting = (Consumer.loaded q.read_position, q, none)
consume q (Consumer.loaded r) =
    if r == q.write_position then (Consumer.idle, q, some none) else (taking r, q, none)
consume q (taking r) = (taken r (get_or q.cells (at q r) 0), q, none)
consume q (taken r value) =
    if q.read_position == r
    then (Consumer.idle, record q { read_position = add_usize r 1 }, some (some value))
    else (taking q.read_position, q, none)

-- The queue with its two threads, and three logs: the values whose push has published them, those
-- that `pop` has returned, and those that `push` has handed back.
pub record System : Type 0 where
  pub queue : OverflowQueue
  pub producer : Producer
  pub consumer : Consumer
  pub pushed : List ℕ
  pub popped : List ℕ
  pub recycled : List ℕ

pub data Event : Type 0 where
  call_push : (value : ℕ) → Event
  call_pop : Event
  run_producer : Event
  run_consumer : Event

-- A thread begins a call only when it has returned from the last one.
pub begin_push : ℕ → Producer → Producer
begin_push value Producer.idle = starting value
begin_push value p = p

pub begin_pop : Consumer → Consumer
begin_pop Consumer.idle = Consumer.starting
begin_pop c = c

-- A value is published by the access that follows `written`.
pub log_push : Producer → List ℕ → List ℕ
log_push (written value w r is_full) xs = value ∷ xs
log_push _ xs = xs

pub log_return : Option (Option ℕ) → List ℕ → List ℕ
log_return (some (some value)) xs = value ∷ xs
log_return _ xs = xs

pub step : Event → System → System
unfolding begin_push begin_pop log_push log_return produce consume
step (call_push value) s = record s { producer = begin_push value s.producer }
step call_pop s = record s { consumer = begin_pop s.consumer }
step run_producer s =
    let (p, q, returned) = produce s.queue s.producer in
    record s {
      queue = q;
      producer = p;
      pushed = log_push s.producer s.pushed;
      recycled = log_return returned s.recycled;
    }
step run_consumer s =
    let (c, q, returned) = consume s.queue s.consumer in
    record s { queue = q; consumer = c; popped = log_return returned s.popped }

-- A schedule, its first event first.
pub run : List Event → System → System
run [] s = s
run (e ∷ es) s = run es (step e s)

pub start : ℕ → System
unfolding new
start capacity = record {
  queue = new capacity;
  producer = Producer.idle;
  consumer = Consumer.idle;
  pushed = [];
  popped = [];
  recycled = [];
}

-- `const_memory_size`, with the size and alignment of `usize`.
pub const_memory_size : ℕ → ℕ
const_memory_size capacity = 8 * (capacity + 1) + 8 - 1
