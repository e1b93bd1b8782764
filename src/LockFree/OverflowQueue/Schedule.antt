-- ===== src/LockFree/OverflowQueue/Schedule.antt =====
-- Every schedule keeps the invariant.
use iceoryx_in_rust.Prelude.{ℕ, suc, ◌+◌, ◌^◌, ◌<◌, ◌≡◌, refl, List, [], ◌∷◌, arith, length}
use iceoryx_in_rust.LockFree.OverflowQueue.{
  begin_push, begin_pop, System, Event, call_push, call_pop, run_producer, run_consumer, step, run,
  start,
}
use iceoryx_in_rust.LockFree.OverflowQueue.Invariant.{start-Inv, SystemInv}
use iceoryx_in_rust.LockFree.OverflowQueue.Threads.{
  begin_push-ProducerOk, begin_pop-ConsumerOk, moved,
}
use iceoryx_in_rust.LockFree.OverflowQueue.Produce.{produce-Inv}
use iceoryx_in_rust.LockFree.OverflowQueue.Consume.{consume-Inv}

step-Inv :
    {capacity n : ℕ} (e : Event) (s : System)
    → n + capacity + 1 < 2 ^ 64
    → 0 < capacity
    → SystemInv capacity n s
    → SystemInv capacity (n + 1) (step e s)
unfolding step
step-Inv (call_push v) s small wide inv =
    let (ready, same) = begin_push-ProducerOk s.queue inv.pending v s.producer inv.producer in
    moved inv (begin_push v s.producer) s.consumer same ready inv.consumer
step-Inv call_pop s small wide inv =
    moved inv s.producer (begin_pop s.consumer) refl inv.producer
      (begin_pop-ConsumerOk s.queue inv.pending s.consumer inv.consumer)
step-Inv run_producer s small wide inv =
    produce-Inv small wide s.queue s.producer s.consumer s.pushed s.popped s.recycled inv
step-Inv run_consumer s small wide inv =
    consume-Inv small wide s.queue s.producer s.consumer s.pushed s.popped s.recycled inv

run-Inv_from :
    {capacity : ℕ} (es : List Event) (n : ℕ) (s : System)
    → n + length es + capacity < 2 ^ 64
    → 0 < capacity
    → SystemInv capacity n s
    → SystemInv capacity (n + length es) (run es s)
unfolding run
run-Inv_from [] n s small wide inv = let e : n + 0 ≡ n = omega arith in rw e inv
run-Inv_from (e ∷ es) n s small wide inv =
    let f : n + suc (length es) ≡ n + 1 + length es = omega arith in
    rw f
      (run-Inv_from es (n + 1) (step e s) (omega arith) wide (step-Inv e s (omega arith) wide inv))

pub run-Inv :
    (capacity : ℕ) (es : List Event)
    → length es + capacity < 2 ^ 64
    → 0 < capacity
    → SystemInv capacity (length es) (run es (start capacity))
unfolding start
run-Inv capacity es small wide =
    let f : 0 + length es ≡ length es = omega arith in
    rw f at (run-Inv_from es 0 (start capacity) (omega arith) wide (start-Inv capacity))
