-- ===== src/LockFree/OverflowQueue/Safety.antt =====
-- What holds after every schedule of the two threads of the overflowing queue.
use iceoryx_in_rust.Prelude.{ℕ, ◌+◌, ◌^◌, ◌≤◌, ◌<◌, ◌≡◌, List, arith, length}
use iceoryx_in_rust.LockFree.OverflowQueue.{Producer, evicted, System, Event, run, start}
use iceoryx_in_rust.LockFree.OverflowQueue.Invariant.{count, in_hand, ProducerOk, SystemInv}
use iceoryx_in_rust.LockFree.OverflowQueue.Schedule.{run-Inv}

-- After any schedule whose length and the capacity together fit `usize`, for a queue whose capacity
-- is not zero, every value that was pushed was returned by a pop or handed back to the producer or
-- lies in the queue or in the producer's hand, exactly as often as it was pushed; and the queue
-- holds at most one value more than its capacity.
pub nothing_lost :
    (capacity : ℕ) (schedule : List Event)
    → length schedule + capacity < 2 ^ 64
    → 0 < capacity
    → (pending : List ℕ) × (length pending ≤ capacity + 1)
      × ((a : ℕ)
          → count a (run schedule (start capacity)).pushed
            ≡ count a (run schedule (start capacity)).popped
              + count a (run schedule (start capacity)).recycled
              + count a pending
              + count a (
                  in_hand
                    (run schedule (start capacity)).queue
                    (run schedule (start capacity)).producer))
nothing_lost capacity schedule small wide =
    let inv = run-Inv capacity schedule small wide in
    (inv.pending, bounded_pending inv, inv.conserved)
  where
    s : System
    s = run schedule (start capacity)

    bound :
        (inv : SystemInv capacity (length schedule) s)
        → (p : Producer) → ProducerOk s.queue inv.pending p
        → length inv.pending ≤ capacity + 1
    bound inv Producer.idle h = omega (arith, h, inv.same)
    bound inv (Producer.starting v) h = omega (arith, h, inv.same)
    bound inv (Producer.loaded v w) h = omega (arith, h.1, inv.same)
    bound inv (Producer.checked v w r is_full) (a, b, c, d, e) = omega (arith, e, inv.same)
    bound inv (Producer.written v w r is_full) (a, b, c, d, e, f) = omega (arith, e, inv.same)
    bound inv (Producer.evicting v r) h = omega (arith, h.0, h.1, inv.positions, inv.same)
    bound inv (evicted v r) h = omega (arith, h, inv.same)

    bounded_pending :
        (inv : SystemInv capacity (length schedule) s) → length inv.pending ≤ capacity + 1
    bounded_pending inv = bound inv s.producer inv.producer
