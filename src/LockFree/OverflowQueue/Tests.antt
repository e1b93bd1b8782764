-- ===== src/LockFree/OverflowQueue/Tests.antt =====
-- The law of the overflowing queue at capacity 1 and a schedule whose third push hands a value back.
use iceoryx_in_rust.Prelude.{ℕ, ◌+◌, ◌≤◌, ◌≡◌, refl, List, [], ◌∷◌, ◌++◌, arith, length, replicate}
use iceoryx_in_rust.LockFree.OverflowQueue.{
  new, produce, consume, Event, call_push, call_pop, run_producer, run_consumer, begin_push,
  begin_pop, log_push, log_return, step, run, start,
}
use iceoryx_in_rust.LockFree.OverflowQueue.Invariant.{count, in_hand}
use iceoryx_in_rust.LockFree.OverflowQueue.Safety.{nothing_lost}

abbrev schedule : List Event
schedule =
    (call_push 7 ∷ replicate 6 run_producer)
    ++ (call_push 8 ∷ replicate 6 run_producer)
    ++ (call_push 9 ∷ replicate 6 run_producer)
    ++ (call_pop ∷ replicate 4 run_consumer)

nothing_lost_example :
    (pending : List ℕ) × (length pending ≤ 2)
    × ((a : ℕ)
        → count a (run schedule (start 1)).pushed
          ≡ count a (run schedule (start 1)).popped
            + count a (run schedule (start 1)).recycled
            + count a pending
            + count a (in_hand (run schedule (start 1)).queue (run schedule (start 1)).producer))
nothing_lost_example = nothing_lost 1 schedule (omega arith) (omega arith)

-- Two values lie in the queue at a time at most, so the first two pushes make room for the third.
recycled_first : (run schedule (start 1)).recycled ≡ 8 ∷ 7 ∷ []
unfolding run step start new begin_push begin_pop produce consume log_push log_return
recycled_first = refl
