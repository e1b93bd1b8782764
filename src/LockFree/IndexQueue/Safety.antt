-- ===== src/LockFree/IndexQueue/Safety.antt =====
-- What holds after every schedule of the two threads.
use iceoryx_in_rust.Prelude.{ℕ, ◌+◌, ◌^◌, ◌≤◌, ◌<◌, ◌≡◌, ◌≢◌, List, ◌++◌, arith, length}
use iceoryx_in_rust.Ring.{mod-ne}
use iceoryx_in_rust.LockFree.IndexQueue.{IndexQueue, admitted, taking, at, Event, run, start}
use iceoryx_in_rust.LockFree.IndexQueue.Invariant.{ProducerOk, ConsumerOk, SystemInv, run-Inv}

-- After any schedule whose length and the capacity together fit `usize`, the values that pushes
-- accepted are the values that pops returned, in the same order, and then at most `capacity` values
-- that still lie in the queue. So none is lost, duplicated, reordered or made up.
pub first_in_first_out :
    (capacity : ℕ) (schedule : List Event)
    → length schedule + capacity < 2 ^ 64
    → (pending : List ℕ) × ((run schedule (start capacity)).pushed
        ≡ (run schedule (start capacity)).popped ++ pending)
      × (length pending ≤ capacity)
first_in_first_out capacity schedule small =
    let inv = run-Inv capacity schedule small in
    (inv.pending, inv.order, omega (arith, inv.fits, inv.same))

-- After any schedule of sequentially consistent accesses whose length and the capacity together fit
-- `usize`: a producer that is about to write a cell and a consumer that is about to read one are not
-- at the same cell.
pub cells_apart :
    (capacity : ℕ) (schedule : List Event) (value w r : ℕ)
    → length schedule + capacity < 2 ^ 64
    → (run schedule (start capacity)).producer ≡ admitted value w
    → (run schedule (start capacity)).consumer ≡ taking r
    → at (run schedule (start capacity)).queue w ≢ at (run schedule (start capacity)).queue r
cells_apart capacity schedule value w r small writes reads =
    mod-ne r w q.capacity (omega (arith, producer.0, consumer.0, consumer.1, inv.count))
      (omega (arith, producer.0, consumer.0, producer.1, inv.count))
  where
    q : IndexQueue
    q = (run schedule (start capacity)).queue

    inv : SystemInv capacity (length schedule) (run schedule (start capacity))
    inv = run-Inv capacity schedule small

    producer : ProducerOk q inv.pending (admitted value w)
    producer = rw writes at inv.producer

    consumer : ConsumerOk q inv.pending (taking r)
    consumer = rw reads at inv.consumer
