-- ===== src/LockFree/UniqueIndexSet/Threads/Tests.antt =====
-- Two threads that contend for a set of two indices.
use iceoryx_in_rust.Prelude.{ℕ, ◌+◌, ◌≡◌, true, List, [], ◌∷◌, arith, ltb, if◌then◌else◌, replicate}
use iceoryx_in_rust.Outcome.{done}
use iceoryx_in_rust.Sync.Family.{total}
use iceoryx_in_rust.LockFree.UniqueIndexSet.{UniqueIndexSet, new_uninit, init}
use iceoryx_in_rust.LockFree.UniqueIndexSet.FreeList.{Chain}
use iceoryx_in_rust.LockFree.UniqueIndexSet.Clients.{count}
use iceoryx_in_rust.LockFree.UniqueIndexSet.Threads.{
  outside, reading, Event, call_acquire_raw_index, call_release_raw_index, access, run_threads,
}
use iceoryx_in_rust.LockFree.UniqueIndexSet.Threads.Invariant.{hd, owns}
use iceoryx_in_rust.LockFree.UniqueIndexSet.Threads.Ownership.{one_owner_at_a_time}
use iceoryx_in_rust.LockFree.UniqueIndexSet.Threads.Progress.{alone, IsResting, alone_finishes}

-- Both read behind the same head; thread 0 takes it and gives it back, and thread 1 retries.
abbrev contest : List (ℕ × Event)
contest =
    (0, call_acquire_raw_index)
    ∷ (0, access)
    ∷ (1, call_acquire_raw_index)
    ∷ (1, access)
    ∷ (0, access)
    ∷ (1, access)
    ∷ (0, access)
    ∷ (0, access)
    ∷ (0, call_release_raw_index)
    ∷ (0, access)
    ∷ (0, access)
    ∷ (0, access)
    ∷ (1, access)
    ∷ (1, access)
    ∷ []

one_owner_at_a_time_example :
    (s : UniqueIndexSet) × (init (new_uninit 2) true ≡ done (true, s))
    × (free : List ℕ) × Chain
        (run_threads contest (s, replicate 2 outside)).0.next_free
        2
        (hd (run_threads contest (s, replicate 2 outside)).0.head)
        free
    × ((i : ℕ)
        → count i free + total (owns i) (run_threads contest (s, replicate 2 outside)).1
          ≡ (if ltb i 2 then 1 else 0))
one_owner_at_a_time_example = one_owner_at_a_time 2 2 contest (omega arith) (omega arith)

-- The head has moved on since this thread saw 0.
abbrev behind : UniqueIndexSet
behind = record {
  next_free = 3 ∷ 2 ∷ 3 ∷ [];
  capacity = 2;
  head = 4294967297;
  is_memory_initialized = true;
}

alone_finishes_example : IsResting (alone 5 behind (reading 0)).0
alone_finishes_example = alone_finishes behind (reading 0)
