-- ===== src/Memory/PoolAllocator.antt =====
-- elkodon_bb/memory/src/pool_allocator.rs: equally large buckets, handed out by a `UniqueIndexSet`.
-- A pointer is its address. Addresses of memory that exists do not wrap around, so sums of them are
-- written without the modulus.
pub mod Buckets
pub mod Calls
pub mod Alignment
mod Tests
use iceoryx_in_rust.Prelude.{
  ℕ, ◌+◌, ◌-◌, ◌*◌, ◌/◌, Bool, true, false, not, Option, none, some, ltb, leb, ◌||◌, if◌then◌else◌,
}
use iceoryx_in_rust.Prelude.Word.{as_u32, sub_usize}
use iceoryx_in_rust.Outcome.{Outcome, done, ◌>>=◌, ◌>>◌, panic_if}
use iceoryx_in_rust.Elementary.Math.{align}
use iceoryx_in_rust.LockFree.UniqueIndexSet
use iceoryx_in_rust.LockFree.UniqueIndexSet.{UniqueIndexSet, acquire_raw_index, release_raw_index}

-- `std::alloc::Layout`
pub record Layout : Type 0 where
  pub size : ℕ
  pub alignment : ℕ

pub record PoolAllocator : Type 0 where
  pub buckets : UniqueIndexSet
  pub bucket_size : ℕ
  pub bucket_alignment : ℕ
  pub start : ℕ
  pub size : ℕ
  pub is_memory_initialized : Bool

-- The errors of the four calls.
pub data Error : Type 0 where
  size_too_large alignment_failure out_of_memory : Error
  provided_pointer_not_contained_in_allocator : Error
  grow_would_shrink shrink_would_grow : Error

-- The address and length of the memory, or the error.
pub data Reply : Type 0 where
  ok : (address length : ℕ) → Reply
  err : Error → Reply

pub verify_init : PoolAllocator → Outcome (Unit {0})
verify_init p = panic_if (not p.is_memory_initialized)

pub calc_number_of_buckets : Layout → ℕ → ℕ → ℕ
calc_number_of_buckets layout ptr size =
    sub_usize (ptr + size) (align ptr layout.alignment) / align layout.size layout.alignment

pub new_uninit : Layout → ℕ → ℕ → PoolAllocator
unfolding calc_number_of_buckets
new_uninit layout ptr size = record {
  buckets = UniqueIndexSet.new_uninit (calc_number_of_buckets layout ptr size);
  bucket_size = layout.size;
  bucket_alignment = layout.alignment;
  start = align ptr layout.alignment;
  size = size;
  is_memory_initialized = false;
}

-- Whether the management allocator grants the memory of the index set is an argument.
pub init : PoolAllocator → Bool → Outcome (Bool × PoolAllocator)
init p granted =
    panic_if p.is_memory_initialized
    >> (UniqueIndexSet.init p.buckets granted >>= λ r. done (
      r.0,
      if r.0
          then record p { buckets = r.1; is_memory_initialized = true }
          else record p { buckets = r.1 },
    ))

pub get_index : PoolAllocator → ℕ → Option ℕ
get_index p position =
    if ltb position p.start || ltb (p.start + p.size) position
    then none
    else some (as_u32 ((position - p.start) / p.bucket_size))

-- The bucket that an index stands for, or the error if there was none.
abbrev pub bucket : PoolAllocator → Layout → Option ℕ → Reply
bucket p layout none = err out_of_memory
bucket p layout (some v) = ok (p.start + v * p.bucket_size) layout.size

-- `fuel` is that of the loop in the index set.
pub allocate : ℕ → PoolAllocator → Layout → Outcome (Reply × PoolAllocator)
unfolding verify_init
allocate fuel p layout =
    verify_init p
    >> (if ltb p.bucket_size layout.size
        then done (err size_too_large, p)
        else if ltb p.bucket_alignment layout.alignment
        then done (err alignment_failure, p)
        else (acquire_raw_index fuel p.buckets >>= λ r.
            done (bucket p layout r.0, record p { buckets = r.1 })))

-- `none` is `Ok(())`.
pub release_found : ℕ → PoolAllocator → Option ℕ → Outcome (Option Error × PoolAllocator)
release_found fuel p none = done (some provided_pointer_not_contained_in_allocator, p)
release_found fuel p (some index) =
    release_raw_index fuel p.buckets index >>= λ b. done (none, record p { buckets = b })

pub deallocate : ℕ → PoolAllocator → ℕ → Outcome (Option Error × PoolAllocator)
unfolding verify_init release_found
deallocate fuel p ptr = verify_init p >> release_found fuel p (get_index p ptr)

-- Is the pointer managed by this allocator?
abbrev pub is_managed : Option ℕ → Bool
is_managed none = false
is_managed (some index) = true

pub grow : PoolAllocator → ℕ → Layout → Layout → Outcome Reply
unfolding verify_init
grow p ptr old new =
    verify_init p
    >> done (
        if not (is_managed (get_index p ptr))
        then err provided_pointer_not_contained_in_allocator
        else if leb new.size old.size
        then err grow_would_shrink
        else if ltb p.bucket_alignment new.alignment
        then err alignment_failure
        else if ltb p.bucket_size new.size
        then err out_of_memory
        else ok ptr new.size)

pub shrink : PoolAllocator → ℕ → Layout → Layout → Outcome Reply
unfolding verify_init
shrink p ptr old new =
    verify_init p
    >> done (
        if not (is_managed (get_index p ptr))
        then err provided_pointer_not_contained_in_allocator
        else if leb old.size new.size
        then err shrink_would_grow
        else if ltb p.bucket_alignment new.alignment
        then err alignment_failure
        else ok ptr new.size)

-- `memory_size`: the memory that the index set needs for the buckets.
pub memory_size : Layout → ℕ → ℕ
memory_size layout size = UniqueIndexSet.const_memory_size (size / layout.size)
