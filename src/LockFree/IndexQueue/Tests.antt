-- ===== src/LockFree/IndexQueue/Tests.antt =====
-- The laws of the index queue at a queue of capacity 2 and a schedule of two pushes and a pop.
use iceoryx_in_rust.Prelude.{
  ℕ, zero, suc, ◌+◌, ◌≤◌, ◌≡◌, ◌≢◌, refl, true, some, List, [], ◌∷◌, ◌++◌, arith, length,
}
use iceoryx_in_rust.LockFree.IndexQueue.{
  IndexQueue, new, at, admitted, taking, produce, consume, Event, call_push, call_pop, run_producer,
  run_consumer, begin_push, begin_pop, log_push, log_pop, step, run, start,
  acquire_read_and_write_position,
}
use iceoryx_in_rust.LockFree.IndexQueue.Safety.{first_in_first_out, cells_apart}
use iceoryx_in_rust.LockFree.IndexQueue.Snapshot.{IsMonotone}

-- The second push stands before its write, and the pop before its read.
abbrev schedule : List Event
schedule =
    call_push 7
    ∷ run_producer
    ∷ run_producer
    ∷ run_producer
    ∷ run_producer
    ∷ call_push 8
    ∷ run_producer
    ∷ run_producer
    ∷ call_pop
    ∷ run_consumer
    ∷ run_consumer
    ∷ []

first_in_first_out_example :
    (pending : List ℕ) × ((run schedule (start 2)).pushed
      ≡ (run schedule (start 2)).popped ++ pending)
    × (length pending ≤ 2)
first_in_first_out_example = first_in_first_out 2 schedule (omega arith)

writes : (run schedule (start 2)).producer ≡ admitted 8 1
unfolding run step start new begin_push begin_pop produce consume log_push log_pop
writes = refl

reads : (run schedule (start 2)).consumer ≡ taking 0
unfolding run step start new begin_push begin_pop produce consume log_push log_pop
reads = refl

cells_apart_example : at (run schedule (start 2)).queue 1 ≢ at (run schedule (start 2)).queue 0
cells_apart_example = cells_apart 2 schedule 8 1 0 (omega arith) writes reads

abbrev queue : IndexQueue
queue = record {
  cells = 0 ∷ 0 ∷ [];
  capacity = 2;
  write_position = 0;
  read_position = 0;
  has_producer = true;
  has_consumer = true;
  is_memory_initialized = true;
}

-- The write position grows by one at each moment up to the third.
abbrev at_time : ℕ → IndexQueue
at_time zero = queue
at_time (suc zero) = record queue { write_position = 1 }
at_time (suc (suc t)) = record queue { write_position = 2 }

at_time-IsMonotone : IsMonotone (λ u. (at_time u).write_position)
at_time-IsMonotone zero = omega arith
at_time-IsMonotone (suc zero) = omega arith
at_time-IsMonotone (suc (suc t)) =
    let e : suc (suc t) + 1 ≡ suc (suc (suc t)) = omega arith in rw e (omega arith)

returns : acquire_read_and_write_position at_time 2 0 ≡ some (2, 0)
unfolding acquire_read_and_write_position
returns = refl
