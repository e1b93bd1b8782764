-- ===== src/Memory/OneChunkAllocator.antt =====
-- elkodon_bb/memory/src/one_chunk_allocator.rs: an allocator that hands out all of its memory as one
-- chunk. A pointer is its address, and 0 is the address of no chunk.
pub mod Chunk
mod Tests
use iceoryx_in_rust.Prelude.{ℕ, ◌+◌, ◌-◌, Bool, true, false, not, ◌==◌, ltb, leb, if◌then◌else◌}
use iceoryx_in_rust.Prelude.Word.{sub_usize}
use iceoryx_in_rust.Elementary.Math.{align}
use iceoryx_in_rust.Memory.PoolAllocator.{Layout}

pub record OneChunkAllocator : Type 0 where
  pub start : ℕ
  pub size : ℕ
  pub allocated_chunk_start : ℕ

pub data Error : Type 0 where
  out_of_memory alignment_failure grow_would_shrink shrink_would_grow : Error
  provided_pointer_not_contained_in_allocator : Error

pub data Reply : Type 0 where
  ok : (address length : ℕ) → Reply
  err : Error → Reply

pub data Released : Type 0 where
  released : Released
  not_released : Error → Released

pub new : ℕ → ℕ → OneChunkAllocator
new ptr size = record { start = ptr; size = size; allocated_chunk_start = 0 }

pub has_chunk_available : OneChunkAllocator → Bool
has_chunk_available a = a.allocated_chunk_start == 0

pub is_allocated_chunk : OneChunkAllocator → ℕ → Bool
is_allocated_chunk a ptr = ptr == a.allocated_chunk_start

pub release_chunk : OneChunkAllocator → OneChunkAllocator
release_chunk a = record a { allocated_chunk_start = 0 }

-- What is left from `address` on.
pub available_size : OneChunkAllocator → ℕ → ℕ
available_size a address = sub_usize a.size (sub_usize address a.start)

-- The source makes a slice of the address and the length. That a slice of more than `isize::MAX` bytes
-- is undefined behaviour is not modelled.
pub allocate : OneChunkAllocator → Layout → Reply × OneChunkAllocator
unfolding has_chunk_available available_size
allocate a layout =
    let adjusted_start = align a.start layout.alignment in
    if not (has_chunk_available a)
    then (err out_of_memory, a)
    else if leb (available_size a adjusted_start) layout.size
    then (err out_of_memory, a)
    else (
      ok adjusted_start (available_size a adjusted_start),
      record a { allocated_chunk_start = adjusted_start },
    )

pub deallocate : OneChunkAllocator → ℕ → Released × OneChunkAllocator
unfolding is_allocated_chunk release_chunk
deallocate a ptr =
    if is_allocated_chunk a ptr
    then (released, release_chunk a)
    else (not_released provided_pointer_not_contained_in_allocator, a)

pub grow : OneChunkAllocator → ℕ → Layout → Layout → Reply
unfolding is_allocated_chunk available_size
grow a ptr old new =
    if not (is_allocated_chunk a ptr)
    then err provided_pointer_not_contained_in_allocator
    else if leb new.size old.size
    then err grow_would_shrink
    else if ltb old.alignment new.alignment
    then err alignment_failure
    else if ltb (available_size a a.allocated_chunk_start) new.size
    then err out_of_memory
    else ok ptr (available_size a a.allocated_chunk_start)

pub shrink : OneChunkAllocator → ℕ → Layout → Layout → Reply
unfolding is_allocated_chunk
shrink a ptr old new =
    if not (is_allocated_chunk a ptr)
    then err provided_pointer_not_contained_in_allocator
    else if leb old.size new.size
    then err shrink_would_grow
    else if ltb old.alignment new.alignment
    then err alignment_failure
    else ok ptr new.size
