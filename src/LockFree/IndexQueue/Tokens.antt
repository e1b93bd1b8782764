-- ===== src/LockFree/IndexQueue/Tokens.antt =====
-- `acquire_producer` and `acquire_consumer` hand out one token each.
use iceoryx_in_rust.Prelude.{◌≡◌, refl, Bool, true, false, arith}
use iceoryx_in_rust.Outcome.{Outcome, done, ◌>>=◌}
use iceoryx_in_rust.LockFree.IndexQueue.{IndexQueue, verify_init, acquire_producer, drop_producer}

-- Acquire, and acquire once more in the queue that the first call leaves: what both calls return.
abbrev pub twice :
    (IndexQueue → Outcome (Bool × IndexQueue)) → IndexQueue → Outcome (Bool × Bool × IndexQueue)
twice acquire q = acquire q >>= λ a. (acquire a.1 >>= λ b. done (a.0, b.0, b.1))

-- On an initialised queue the first call gets the producer exactly if it is free, the second call
-- never gets it, and after the token is dropped it can be acquired again. The consumer is not
-- affected.
pub acquire_producer_exclusive :
    (q : IndexQueue)
    → q.is_memory_initialized ≡ true
    → (q' : IndexQueue) × (twice acquire_producer q ≡ done (q.has_producer, false, q'))
      × (acquire_producer (drop_producer q') ≡ done (true, q'))
      × (q'.has_consumer ≡ q.has_consumer)
unfolding acquire_producer drop_producer verify_init
acquire_producer_exclusive q ready =
    (record q { has_producer = false }, ground arith, ground arith, refl)
