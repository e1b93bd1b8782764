-- ===== src/Memory/OneChunkAllocator/Tests.antt =====
-- Memory of 100 bytes at the address 1001, and of 4 bytes at 1001.
use iceoryx_in_rust.Prelude.{ℕ, ◌^◌, ◌<◌, ◌≡◌, refl, arith}
use iceoryx_in_rust.Elementary.Math.{align}
use iceoryx_in_rust.Memory.PoolAllocator.{Layout}
use iceoryx_in_rust.Memory.OneChunkAllocator.{
  OneChunkAllocator, out_of_memory, ok, err, allocate, new, available_size, has_chunk_available,
}
use iceoryx_in_rust.Memory.OneChunkAllocator.Chunk.{Fits, chunk, chunk_outside}

abbrev large : OneChunkAllocator
large = record { start = 1001; size = 100; allocated_chunk_start = 0 }

abbrev small : OneChunkAllocator
small = record { start = 1001; size = 4; allocated_chunk_start = 0 }

abbrev of_size : ℕ → Layout
of_size n = record { size = n; alignment = 8 }

small-Fits : Fits small (of_size 2)
small-Fits = record { positive = omega arith; somewhere = omega arith; room = omega arith }

eight : align 1001 8 ≡ 1008
unfolding align
eight = refl

new-large : new 1001 100 ≡ large
unfolding new
new-large = refl

-- A request of exactly the memory that is available is refused.
exact_fit : (allocate large (of_size 93)).0 ≡ err out_of_memory
unfolding allocate has_chunk_available available_size align
exact_fit = refl

chunk_outside_example :
    (n : ℕ) × (2 ^ 63 < n)
    × (allocate small (of_size 2) ≡ (ok (align 1001 8) n, chunk small (of_size 2)))
chunk_outside_example =
    chunk_outside small (of_size 2) small-Fits refl (omega arith) (omega (arith, eight))
