-- ===== src/Memory/BumpAllocator/Tests.antt =====
-- Two threads that ask for chunks of 100 bytes at the address 1001.
use iceoryx_in_rust.Prelude.{◌≡◌, refl, true, false, List, [], ◌∷◌, arith}
use iceoryx_in_rust.Sync.Family.{Every}
use iceoryx_in_rust.Elementary.Math.{align}
use iceoryx_in_rust.Memory.PoolAllocator.{Layout}
use iceoryx_in_rust.Memory.BumpAllocator.{
  Event, call_allocate, access, allocated, refused, out_of_memory, run, begin, new, step, advance,
  begin_allocate, attempt, exchange, aligned_position_of, deallocate, free_space, used_space,
}
use iceoryx_in_rust.Memory.BumpAllocator.Apart.{IsLayout, EventOk, Stacked, chunks_apart}

abbrev words : Layout
words = record { size = 64; alignment = 8 }

abbrev bytes : Layout
bytes = record { size = 3; alignment = 1 }

-- Both threads read the position 0; the exchange of the second one fails and is done again.
abbrev race : List Event
race =
    call_allocate 0 words
    ∷ call_allocate 1 bytes
    ∷ access 0 false
    ∷ access 1 false
    ∷ access 0 false
    ∷ access 1 false
    ∷ access 1 true
    ∷ access 1 false
    ∷ call_allocate 0 words
    ∷ access 0 false
    ∷ []

race_log :
    (run race (begin 2 1001 100)).log
    ≡ (refused words out_of_memory ∷ allocated bytes 1072 ∷ allocated words 1008 ∷ [])
unfolding run step advance begin_allocate attempt exchange aligned_position_of begin new align
race_log = refl

words-IsLayout : IsLayout 1001 100 words
words-IsLayout = record { positive = omega arith; room = omega arith; small = omega arith }

bytes-IsLayout : IsLayout 1001 100 bytes
bytes-IsLayout = record { positive = omega arith; room = omega arith; small = omega arith }

race-Ok : Every (EventOk 1001 100) race
unfolding Every
race-Ok = (
  words-IsLayout,
  (bytes-IsLayout, (tt, (tt, (tt, (tt, (tt, (tt, (words-IsLayout, (tt, tt))))))))),
)

chunks_apart_example : Stacked 1001 (run race (begin 2 1001 100)).log 1101
chunks_apart_example = chunks_apart 1001 100 2 race (omega arith) race-Ok

all_free_again : free_space (deallocate (new 1001 100)) ≡ 100
unfolding free_space used_space deallocate new
all_free_again = refl
