-- ===== src/LockFree/UniqueIndexSet/Threads.antt =====
-- `acquire_raw_index` and `release_raw_index` of elkodon_bb/lock_free/src/mpmc/unique_index_set.rs
-- while other threads call them too: a function of this file is one shared access of a call, and
-- the locals of the call stand in the constructors of `Thread`. A thread holds one index at a time;
-- who holds several is several threads here.
pub mod Invariant
pub mod Accesses
pub mod Ownership
pub mod Progress
mod Tests
use iceoryx_in_rust.Prelude.{ℕ, zero, suc, ◌+◌, List, leb, ◌==◌, if◌then◌else◌, get_or, set}
use iceoryx_in_rust.Prelude.Word.{add_u32}
use iceoryx_in_rust.LockFree.UniqueIndexSet.{
  UniqueIndexSet, extract_head_and_aba, pack_from_head_and_aba,
}
use iceoryx_in_rust.Sync.Family.{run}

pub data Thread : Type 0 where
  outside : Thread
  acquiring : Thread
  reading : (old : ℕ) → Thread
  exchanging : (old new_head : ℕ) → Thread
  detaching : (index : ℕ) → Thread
  holding : (index : ℕ) → Thread
  releasing : (index : ℕ) → Thread
  linking : (index old : ℕ) → Thread
  returning : (index old : ℕ) → Thread

-- The head of the loop of `acquire_raw_index`, for the word that was seen last.
pub acquire_test : UniqueIndexSet → ℕ → Thread
unfolding extract_head_and_aba
acquire_test s old = if leb s.capacity (extract_head_and_aba old).0 then outside else reading old

pub acquire_exchange : UniqueIndexSet → ℕ → ℕ → Thread × UniqueIndexSet
unfolding acquire_test extract_head_and_aba pack_from_head_and_aba
acquire_exchange s old new_head =
    if s.head == old
    then (
      detaching (extract_head_and_aba old).0,
      record s { head = pack_from_head_and_aba new_head (add_u32 (extract_head_and_aba old).1 1) },
    )
    else (acquire_test s s.head, s)

pub release_exchange : UniqueIndexSet → ℕ → ℕ → Thread × UniqueIndexSet
unfolding extract_head_and_aba pack_from_head_and_aba
release_exchange s index old =
    if s.head == old
    then (
      outside,
      record s { head = pack_from_head_and_aba index (add_u32 (extract_head_and_aba old).1 1) },
    )
    else (linking index s.head, s)

pub advance : UniqueIndexSet → Thread → Thread × UniqueIndexSet
unfolding acquire_test acquire_exchange release_exchange extract_head_and_aba
advance s acquiring = (acquire_test s s.head, s)
advance s (reading old) = (exchanging old (get_or s.next_free (extract_head_and_aba old).0 0), s)
advance s (exchanging old new_head) = acquire_exchange s old new_head
advance s (detaching index) =
    (holding index, record s { next_free = set s.next_free index (s.capacity + 1) })
advance s (releasing index) = (linking index s.head, s)
advance s (linking index old) = (
  returning index old,
  record s { next_free = set s.next_free index (extract_head_and_aba old).0 },
)
advance s (returning index old) = release_exchange s index old
advance s t = (t, s)

pub data Event : Type 0 where
  call_acquire_raw_index : Event
  call_release_raw_index : Event
  access : Event

pub act : Event → UniqueIndexSet → Thread → Thread × UniqueIndexSet
unfolding advance
act access s t = advance s t
act call_acquire_raw_index s outside = (acquiring, s)
act call_release_raw_index s (holding index) = (releasing index, s)
act _ s t = (t, s)

abbrev pub run_threads :
    List (ℕ × Event) → UniqueIndexSet × List Thread → UniqueIndexSet × List Thread
run_threads = run outside act
